-- ===== src/Examples/Sandboxes.antt =====
-- src/state.rs: mounts and hide rules on a small sandbox.
use gatefs.Path.Normal.{IsName}
use gatefs.Text.{Bytes}
use gatefs.Sandbox.Mount.{resolve_beside_mount, resolve_under_mount}
use gatefs.Error.{ok}
use gatefs.Path.{SandboxPath, join, root, starts_with}
use gatefs.Sandbox.Objects.{
  apply_metadata_override_to_object, metadata_override_for_path, override_of_key,
}
use gatefs.Sandbox.Unmount.{remounted, unmount_after_mount}
use gatefs.Sandbox.Hide.{hidden_under}
use gatefs.Sandbox.Invariant.{IsWell, add_hide-IsWell, add_layer-IsWell}
use gatefs.Sandbox.Removal.{Unmounts, remove_layer_lem}
use gatefs.Sandbox.Above.{resolve_above_mount, root_resolves}
use gatefs.Sandbox.Override.{apply-override_of_key}
use gatefs.Examples.Data.{
  box, box-IsWell, docs, docs-IsNormal, docs_a, docs_a-IsNormal, docs_a-not_docs, docs_a-not_root,
  docs_a-starts_with, docs_key, empty-IsWell, empty_sandbox, home, tmp,
}
use gatefs.Map
use gatefs.Base.{
  All, List, any, arith, cmp_list, if◌then◌else◌, list_ord, map, nat_ord, none, refl, some, true,
  unwrap_or, ◌++◌, ◌==◌, ◌≡◌,
}
use gatefs.StdPath.{component_ord, normal, path_starts_with}
use gatefs.Metadata.{chmod, no_override, write_override}
use gatefs.Sandbox.{
  ResolvedPath, Sandbox, add_hide, add_layer, is_hidden, next_overlay_order, object_key_ord, real,
  remove_layer, resolve, resolve_overlay,
}

add_layer-IsWell_example : IsWell (add_layer home docs empty_sandbox).0
add_layer-IsWell_example =
    add_layer-IsWell empty_sandbox home docs (omega arith) docs-IsNormal empty-IsWell

add_hide-IsWell_example : IsWell (add_hide docs_a box).0
unfolding add_layer next_overlay_order
add_hide-IsWell_example = add_hide-IsWell box docs_a (omega arith) box-IsWell

remove_layer_lem_example :
    Unmounts docs box (remove_layer docs box) × IsWell (remove_layer docs box).0
remove_layer_lem_example = remove_layer_lem box docs box-IsWell

resolve_under_mount_example :
    (names : List Bytes) × (join docs (map normal names) ≡ ok docs_a)
    × All IsName names
    × (resolve (add_layer home docs box).0 docs_a
        ≡ some (real (home ++ map normal names) (add_layer home docs box).1 docs_a))
resolve_under_mount_example =
    resolve_under_mount box home docs docs_a box-IsWell docs-IsNormal docs_a-IsNormal
      docs_a-starts_with

resolve_beside_mount_example :
    resolve_overlay (add_layer home docs box).0 tmp ≡ resolve_overlay box tmp
unfolding starts_with path_starts_with cmp_list
resolve_beside_mount_example = resolve_beside_mount box home docs tmp refl refl

root_resolves_example : (r : ResolvedPath) × (resolve (add_hide root box).0 root ≡ some r)
unfolding add_hide
root_resolves_example = root_resolves (add_hide root box).0 (box-IsWell).layers_normal

resolve_above_mount_example :
    (r : ResolvedPath) × (resolve (add_layer home docs_a empty_sandbox).0 docs ≡ some r)
unfolding starts_with path_starts_with cmp_list
resolve_above_mount_example =
    resolve_above_mount empty_sandbox home docs_a docs empty-IsWell docs_a-IsNormal docs-IsNormal
      refl docs_a-not_docs

hidden_under_example :
    (is_hidden (add_hide docs box).0 docs_a ≡ true) × (resolve (add_hide docs box).0 docs_a ≡ none)
hidden_under_example = hidden_under box docs docs_a box-IsWell docs_a-not_root docs_a-starts_with

unmount_after_mount_example :
    ((remounted home docs box).1 ≡ true)
    × (resolve_overlay (remounted home docs box).0 docs_a ≡ resolve_overlay box docs_a)
    × (metadata_override_for_path (remounted home docs box).0 docs_a
        ≡ metadata_override_for_path box docs_a)
unmount_after_mount_example = unmount_after_mount box home docs docs_a

apply-override_of_key_example :
    (s' : Sandbox) × (apply_metadata_override_to_object docs_key docs (chmod docs 420) box ≡ ok s')
    × Map.IsMap s'.metadata
    × (override_of_key s' docs_key ≡ (
        if docs_key == docs_key
        then some
            (write_override (chmod docs 420) (unwrap_or (override_of_key box docs_key) no_override))
        else override_of_key box docs_key))
    × ((p : SandboxPath) → resolve_overlay s' p ≡ resolve_overlay box p)
unfolding add_layer next_overlay_order any
apply-override_of_key_example =
    apply-override_of_key box docs_key docs_key docs (chmod docs 420) tt refl
