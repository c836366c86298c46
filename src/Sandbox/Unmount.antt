-- ===== src/Sandbox/Unmount.antt =====
-- Mounts unwind like a stack, and the metadata view with them. (src/state.rs)
use gatefs.Sandbox.Objects.{metadata_object_key, metadata_override_for_path}
use gatefs.Sandbox.Mount.{fresh_layer, resolve_overlay-cong}
use gatefs.Base.{
  ==_refl, Bool, [], any, any-append, arith, list_ord, nat_ord, refl, remove_last, remove_last-snoc,
  true, ◌++◌, ◌==◌, ◌∷◌, ◌≡◌,
}
use gatefs.StdPath.{PathBuf, component_ord}
use gatefs.Sandbox.{
  MountLayer, Sandbox, add_layer, newest_covering_entry, newest_covering_layer,
  newest_descendant_layer, object_key_ord, remove_layer, resolve, resolve_overlay,
}
use gatefs.Path.{SandboxPath, sandbox_path_ord}

-- The sandbox after a mount and the unmount of its path.
abbrev pub remounted : PathBuf → SandboxPath → Sandbox → Sandbox × Bool
remounted local on_fs s = remove_layer on_fs (add_layer local on_fs s).0

remounted_layers :
    (s : Sandbox) (local : PathBuf) (on_fs : SandboxPath)
    → ((remounted local on_fs s).0.layers ≡ s.layers)
      × ((remounted local on_fs s).0.hides ≡ s.hides)
      × ((remounted local on_fs s).0.metadata ≡ s.metadata)
      × ((remounted local on_fs s).1 ≡ true)
unfolding remove_layer add_layer
remounted_layers s local on_fs = rw found (removed_fresh, refl, refl, refl)
  where
    fresh : MountLayer
    fresh = fresh_layer local on_fs s

    at : MountLayer → Bool
    at l = l.on_fs == on_fs

    found : any at (s.layers ++ fresh ∷ []) ≡ true
    found = rw any-append (unfold any in ground (arith, ==_refl on_fs))

    removed_fresh : remove_last at (s.layers ++ fresh ∷ []) ≡ s.layers
    removed_fresh = remove_last-snoc at s.layers fresh (==_refl on_fs)

metadata_override-cong :
    (s t : Sandbox) (path : SandboxPath)
    → s.layers ≡ t.layers
    → s.hides ≡ t.hides
    → s.metadata ≡ t.metadata
    → metadata_override_for_path s path ≡ metadata_override_for_path t path
unfolding metadata_override_for_path metadata_object_key resolve newest_covering_layer
    newest_covering_entry newest_descendant_layer
metadata_override-cong s t path e f g =
    λ i. metadata_override_for_path (record s { layers = e i; hides = f i; metadata = g i }) path

-- An unmount takes the newest mount at its path away: right after a mount it succeeds, and every
-- path resolves, and reads its metadata, as before the mount.
pub unmount_after_mount :
    (s : Sandbox) (local : PathBuf) (on_fs path : SandboxPath)
    → ((remounted local on_fs s).1 ≡ true)
      × (resolve_overlay (remounted local on_fs s).0 path ≡ resolve_overlay s path)
      × (metadata_override_for_path (remounted local on_fs s).0 path
          ≡ metadata_override_for_path s path)
unmount_after_mount s local on_fs path =
    let (layers_back, hides_back, metadata_back, done) = remounted_layers s local on_fs in
    (
      done,
      resolve_overlay-cong (remounted local on_fs s).0 s path layers_back hides_back,
      metadata_override-cong (remounted local on_fs s).0 s path layers_back hides_back
          metadata_back,
    )
