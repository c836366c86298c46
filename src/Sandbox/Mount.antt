-- ===== src/Sandbox/Mount.antt =====
-- What a mount, a hide rule and an unmount do to the resolution of each path. (src/state.rs)
use gatefs.Overlay.{collapse_latest}
use gatefs.Sandbox.Newest.{newest_layer, newest_layer-maximal}
use gatefs.Path.Prefix.{join-strip_prefix, join_path-names}
use gatefs.Text.{Bytes}
use gatefs.Sort.{max_by_key}
use gatefs.Error.{ok}
use gatefs.Path.{SandboxPath, join, sandbox_path_ord, starts_with, strip_prefix}
use gatefs.StdPath.{PathBuf, component_ord, join_path, joined, normal, root_path}
use gatefs.Sandbox.{
  MountLayer, Sandbox, add_layer, covers, hide_effect, hides_path, layer, layer_effect, lies_below,
  newest_covering_entry, newest_covering_layer, newest_descendant_layer, real, real_resolution,
  resolution, resolve, resolve_below_root, resolve_overlay, resolve_root, resolved,
}
use gatefs.Path.Normal.{IsName, IsNormal}
use gatefs.Sandbox.Invariant.{IsWell}
use gatefs.Base.{
  All, All-imp, All-retain, List, ap, arith, false, if_elim, list_ord, map, max, retain,
  retain-snoc_dropped, retain-snoc_kept, some, true, ◌++◌, ◌<◌, ◌==◌, ◌∙◌, ◌≡◌,
}

-- The resolution depends on the layers and the hide rules alone.
pub resolve_overlay-cong :
    (s t : Sandbox) (path : SandboxPath)
    → s.layers ≡ t.layers
    → s.hides ≡ t.hides
    → resolve_overlay s path ≡ resolve_overlay t path
unfolding resolve_overlay newest_covering_layer newest_covering_entry newest_descendant_layer
resolve_overlay-cong s t path e f =
    λ i. resolve_overlay (record s { layers = e i; hides = f i }) path

-- The layer that a mount pushes.
abbrev pub fresh_layer : PathBuf → SandboxPath → Sandbox → MountLayer
fresh_layer local on_fs s = record {
  id = max s.next_layer_id s.next_hide_id;
  local = local;
  on_fs = on_fs;
}

module _ (s : Sandbox) (local : PathBuf) (on_fs path : SandboxPath) (w : IsWell s) where
  -- Numbers already given lie below the next.
  pub layers_older : All (λ l. l.id < (fresh_layer local on_fs s).id) s.layers
  layers_older = All-imp (λ l h. omega arith) s.layers w.layers_below

  pub hides_older : All (λ h. h.id < (fresh_layer local on_fs s).id) s.hides
  hides_older = All-imp (λ l h. omega arith) s.hides w.hides_below

  module _ (under : starts_with path on_fs ≡ true) where
    covering_layer :
        newest_covering_layer (add_layer local on_fs s).0 path ≡ some (fresh_layer local on_fs s)
    unfolding newest_covering_layer add_layer
    covering_layer =
        ap (max_by_key (λ l. l.id))
          (retain-snoc_kept (covers path) s.layers (fresh_layer local on_fs s) under)
        ∙ newest_layer-maximal (fresh_layer local on_fs s) (retain (covers path) s.layers)
            (All-retain _ (covers path) s.layers layers_older)

    covering_entry :
        newest_covering_entry (add_layer local on_fs s).0 path
        ≡ some (layer (fresh_layer local on_fs s))
    unfolding newest_covering_entry add_layer
    covering_entry =
        ap
          (λ ls.
            collapse_latest
              (map layer_effect ls ++ map hide_effect (retain (hides_path path) s.hides)))
          (retain-snoc_kept (covers path) s.layers (fresh_layer local on_fs s) under)
        ∙ newest_layer (retain (covers path) s.layers) (retain (hides_path path) s.hides)
            (fresh_layer local on_fs s) (All-retain _ (covers path) s.layers layers_older)
            (All-retain _ (hides_path path) s.hides hides_older)

    resolve_overlay_under :
        resolve_overlay (add_layer local on_fs s).0 path
        ≡ real_resolution path (fresh_layer local on_fs s)
    unfolding resolve_overlay
    resolve_overlay_under =
        if_elim (λ r. r ≡ real_resolution path (fresh_layer local on_fs s))
          (path.inner == root_path) (ap (resolve_root path) covering_layer)
          (ap
            (λ e.
              resolve_below_root path e (newest_descendant_layer (add_layer local on_fs s).0 path))
            covering_entry)

pub real_resolution_found :
    (path : SandboxPath) (l : MountLayer) (rest : PathBuf)
    → strip_prefix path l.on_fs ≡ ok rest
    → real_resolution path l ≡ resolved (real (join_path l.local rest) l.id path)
unfolding real_resolution
real_resolution_found path l rest e = rw (e, real_resolution)

-- In a well-formed sandbox, where both paths are in normal form, a path that starts with a new
-- mount's path resolves to the real path below its local directory: the path is the mount's with
-- some plain names below it, and the real path is the local directory with the same names.
pub resolve_under_mount :
    (s : Sandbox) (local : PathBuf) (on_fs path : SandboxPath)
    → IsWell s
    → IsNormal on_fs.inner
    → IsNormal path.inner
    → starts_with path on_fs ≡ true
    → (names : List Bytes) × (join on_fs (map normal names) ≡ ok path)
      × All IsName names
      × (resolve (add_layer local on_fs s).0 path
          ≡ some (real (local ++ map normal names) (add_layer local on_fs s).1 path))
unfolding resolve add_layer
resolve_under_mount s local on_fs path w n m h =
    let (names, strip, named, joined) = join-strip_prefix path on_fs m n h in
    (
      names,
      joined,
      named,
      ap resolution (
            resolve_overlay_under s local on_fs path w h
            ∙ real_resolution_found path (fresh_layer local on_fs s) (map normal names) strip)
          ∙ ap (λ q. some (real q (fresh_layer local on_fs s).id path))
              (join_path-names local names),
    )

-- A path that is neither below the mount's path nor above it resolves as before.
pub resolve_beside_mount :
    (s : Sandbox) (local : PathBuf) (on_fs path : SandboxPath)
    → starts_with path on_fs ≡ false
    → starts_with on_fs path ≡ false
    → resolve_overlay (add_layer local on_fs s).0 path ≡ resolve_overlay s path
unfolding resolve_overlay newest_covering_layer newest_covering_entry newest_descendant_layer
    add_layer
resolve_beside_mount s local on_fs path h k = rw (
  retain-snoc_dropped (covers path) s.layers (fresh_layer local on_fs s) h,
  retain-snoc_dropped (lies_below path) s.layers (fresh_layer local on_fs s) (rw k),
)
