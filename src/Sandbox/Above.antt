-- ===== src/Sandbox/Above.antt =====
-- The root always resolves, and so does every path above a new mount. (src/state.rs)
use gatefs.Path.Normal.{IsNormal}
use gatefs.Sandbox.Invariant.{IsWell}
use gatefs.Sandbox.Newest.{covering_entry-All, newest_layer-maximal, resolve_overlay_below}
use gatefs.Sandbox.{
  MountLayer, OverlayEntry, ResolvedPath, Sandbox, add_layer, covers, hide, layer, lies_below,
  newest_covering_entry, newest_covering_layer, newest_descendant_layer, real, real_resolution,
  resolution, resolve, resolve_below_root, resolve_root, resolved, virtual_dir,
}
use gatefs.Sandbox.Mount.{fresh_layer, hides_older, layers_older, real_resolution_found}
use gatefs.Path.Prefix.{join-strip_prefix}
use gatefs.Sort.{max_by_key, max_by_key-All}
use gatefs.Base.{
  ==_iff, ==_refl, All, All-append, All-imp, All-retain, All-retain_passed, Bool-cases, List,
  Option, [], ap, arith, inl, inr, list_ord, map, lt→ltb, nat_ord, none, refl, retain,
  retain-snoc_kept, some, subst, sym, true, ℕ, ◌++◌, ◌<◌, ◌==◌, ◌∙◌, ◌∷◌, ◌≡◌, ◌≢◌,
}
use gatefs.StdPath.{PathBuf, component_ord, join_path, normal, root_path}
use gatefs.Path.{SandboxPath, SandboxPath-injective, root, sandbox_path_ord, starts_with}

-- A layer that covers a path in normal form has a real path for it.
real_resolution_covered :
    (path : SandboxPath) (l : MountLayer)
    → IsNormal path.inner
    → IsNormal l.on_fs.inner
    → covers path l ≡ true
    → (r : ResolvedPath) × (real_resolution path l ≡ resolved r)
real_resolution_covered path l m n h =
    let (names, strip, named, joined) = join-strip_prefix path l.on_fs m n h in
    (
      real (join_path l.local (map normal names)) l.id path,
      real_resolution_found path l (map normal names) strip,
    )

abbrev NamesCover : SandboxPath → OverlayEntry → Type 0
NamesCover path (layer l) = (r : ResolvedPath) × (real_resolution path l ≡ resolved r)
NamesCover path (hide h) = Unit

covering_layer_resolves :
    (path : SandboxPath) (ls : List MountLayer)
    → IsNormal path.inner
    → All (λ l. IsNormal l.on_fs.inner) ls
    → All (λ l. covers path l ≡ true → NamesCover path (layer l)) ls
covering_layer_resolves path ls m n = All-imp (λ l k c. real_resolution_covered path l m k c) ls n

-- Where every layer is mounted at a path in normal form, the root resolves under all hide
-- rules, one at the root itself included.
pub root_resolves :
    (s : Sandbox)
    → All (λ l. IsNormal l.on_fs.inner) s.layers
    → (r : ResolvedPath) × (resolve s root ≡ some r)
unfolding resolve newest_covering_layer
root_resolves s n =
    rw (==_refl root_path) (go (max_by_key (λ l. l.id) (retain (covers root) s.layers)) refl)
  where
    go :
        (o : Option MountLayer)
        → max_by_key (λ l. l.id) (retain (covers root) s.layers) ≡ o
        → (r : ResolvedPath) × (resolution (resolve_root root o) ≡ some r)
    go none e = (virtual_dir root, unfold resolve_root in refl)
    go (some l) e =
        let (r, found) =
          max_by_key-All (λ l. NamesCover root (layer l)) (λ l. l.id) _ l
            (All-retain_passed _ (covers root) s.layers
              (covering_layer_resolves root s.layers ([], refl, tt) n))
            e in
        (r, ap resolution found)

-- The outcome below the root, by what is newest.
abbrev NamesOlder : SandboxPath → ℕ → OverlayEntry → Type 0
NamesOlder path id (layer l) = (r : ResolvedPath) × (real_resolution path l ≡ resolved r)
NamesOlder path id (hide h) = h.id < id

resolves_above :
    (path : SandboxPath) (o : Option OverlayEntry) (l : MountLayer)
    → ((e : OverlayEntry) → o ≡ some e → NamesOlder path l.id e)
    → (r : ResolvedPath) × (resolve_below_root path o (some l) ≡ resolved r)
unfolding resolve_below_root
resolves_above path none l h = (virtual_dir path, refl)
resolves_above path (some (layer k)) l h = h (layer k) refl
resolves_above path (some (hide k)) l h =
    (virtual_dir path, rw (lt→ltb k.id l.id (h (hide k) refl)))

module _ (s : Sandbox) (local : PathBuf) (on_fs path : SandboxPath) (w : IsWell s) where
  module _ (above : lies_below path (fresh_layer local on_fs s) ≡ true) where
    descendant_layer :
        newest_descendant_layer (add_layer local on_fs s).0 path ≡ some (fresh_layer local on_fs s)
    unfolding newest_descendant_layer add_layer
    descendant_layer =
        ap (max_by_key (λ l. l.id))
          (retain-snoc_kept (lies_below path) s.layers (fresh_layer local on_fs s) above)
        ∙ newest_layer-maximal (fresh_layer local on_fs s) (retain (lies_below path) s.layers)
            (All-retain _ (lies_below path) s.layers (layers_older s local on_fs path w))

    above_mount_resolves :
        IsNormal on_fs.inner
        → IsNormal path.inner
        → path.inner ≢ root_path
        → (r : ResolvedPath) × (resolve (add_layer local on_fs s).0 path ≡ some r)
    unfolding resolve add_layer
    above_mount_resolves n m b =
        let (r, found) =
          resolves_above path (newest_covering_entry (add_layer local on_fs s).0 path)
            (fresh_layer local on_fs s)
            (λ e.
              covering_entry-All (NamesOlder path (fresh_layer local on_fs s).id)
                (add_layer local on_fs s).0 path e
                (covering_layer_resolves path (s.layers ++ fresh_layer local on_fs s ∷ []) m
                  (All-append _ s.layers (fresh_layer local on_fs s ∷ []) w.layers_normal (n, tt)))
                (hides_older s local on_fs path w)) in
        (
          r,
          ap resolution (
              resolve_overlay_below (add_layer local on_fs s).0 path b
              ∙ ap
                  (resolve_below_root path (newest_covering_entry (add_layer local on_fs s).0 path))
                  descendant_layer
              ∙ found),
        )

-- In a well-formed sandbox, where both paths are in normal form, every path strictly above a new
-- mount resolves afterwards, through a hide rule that is older too.
pub resolve_above_mount :
    (s : Sandbox) (local : PathBuf) (on_fs path : SandboxPath)
    → IsWell s
    → IsNormal on_fs.inner
    → IsNormal path.inner
    → starts_with on_fs path ≡ true
    → on_fs ≢ path
    → (r : ResolvedPath) × (resolve (add_layer local on_fs s).0 path ≡ some r)
resolve_above_mount s local on_fs path w n m h d = elim (Bool-cases (path == root)) [
  | inl e ↦
      subst (λ p. (r : ResolvedPath) × (resolve (add_layer local on_fs s).0 p ≡ some r))
        (sym ((==_iff path root).0 e))
        (root_resolves (add_layer local on_fs s).0 (unfold add_layer in normal_layers))
  | inr e ↦
      above_mount_resolves s local on_fs path w (ground (arith, ==_iff on_fs path)) n m
        (λ f. ground (arith, ==_iff path root, SandboxPath-injective path root f))
]
  where
    normal_layers : All (λ l. IsNormal l.on_fs.inner) (s.layers ++ fresh_layer local on_fs s ∷ [])
    normal_layers = All-append _ s.layers (fresh_layer local on_fs s ∷ []) w.layers_normal (n, tt)
