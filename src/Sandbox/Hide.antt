-- ===== src/Sandbox/Hide.antt =====
-- What a hide rule does to the resolution of each path. (src/state.rs)
use gatefs.Sandbox.Invariant.{IsWell}
use gatefs.Sort.{max_by_key, max_by_key-All}
use gatefs.Overlay.{collapse_latest}
use gatefs.Sandbox.Newest.{newest_hide, resolve_overlay_below}
use gatefs.Sandbox.{
  HideRule, MountLayer, Sandbox, add_hide, covers, hidden, hide, hide_effect, hides_path, is_hidden,
  is_hidden_resolution, layer_effect, lies_below, newer_than, newest_covering_entry,
  newest_covering_layer, newest_descendant_layer, resolution, resolve, resolve_below_root,
  resolve_overlay,
}
use gatefs.Base.{
  ==_iff, All, All-imp, All-retain, List, Option, ap, arith, false, inl, inr, list_ord, map, max,
  none, refl, retain, retain-snoc_dropped, retain-snoc_kept, some, true, ℕ, ◌++◌, ◌<◌, ◌∙◌, ◌≡◌,
  ◌≢◌, ◌⊎◌,
}
use gatefs.StdPath.{component_ord, root_path}
use gatefs.Path.{SandboxPath, sandbox_path_ord, starts_with}

abbrev fresh_hide : SandboxPath → Sandbox → HideRule
fresh_hide path s = record { id = max s.next_layer_id s.next_hide_id; path = path }

-- No layer is newer than a number that lies above every layer's.
newer_than-older :
    (id : ℕ) (ls : List MountLayer)
    → All (λ l. l.id < id) ls
    → newer_than (max_by_key (λ l. l.id) ls) id ≡ false
newer_than-older id ls h = go (max_by_key (λ l. l.id) ls) refl
  where
    go : (o : Option MountLayer) → max_by_key (λ l. l.id) ls ≡ o → newer_than o id ≡ false
    go none e = refl
    go (some l) e =
        let below : l.id < id = max_by_key-All (λ k. k.id < id) (λ k. k.id) ls l h e in ground arith

module _ (s : Sandbox) (hidden_path path : SandboxPath) (w : IsWell s) where
  hidden_entry :
      starts_with path hidden_path ≡ true
      → newest_covering_entry (add_hide hidden_path s).0 path
        ≡ some (hide (fresh_hide hidden_path s))
  unfolding newest_covering_entry add_hide
  hidden_entry under =
      ap
        (λ hs.
          collapse_latest (map layer_effect (retain (covers path) s.layers) ++ map hide_effect hs))
        (retain-snoc_kept (hides_path path) s.hides (fresh_hide hidden_path s) under)
      ∙ newest_hide (retain (covers path) s.layers) (retain (hides_path path) s.hides)
          (fresh_hide hidden_path s)
          (All-retain _ (covers path) s.layers
            (All-imp (λ l h. omega arith) s.layers w.layers_below))
          (All-retain _ (hides_path path) s.hides
            (All-imp (λ l h. omega arith) s.hides w.hides_below))

  no_newer_layer :
      newer_than
        (newest_descendant_layer (add_hide hidden_path s).0 path)
        (fresh_hide hidden_path s).id
      ≡ false
  unfolding newest_descendant_layer add_hide
  no_newer_layer =
      newer_than-older (fresh_hide hidden_path s).id (retain (lies_below path) s.layers) (
        All-retain _ (lies_below path) s.layers
          (All-imp (λ l h. omega arith) s.layers w.layers_below))

hidden_by_newest :
    (path : SandboxPath) (h : HideRule) (o : Option MountLayer)
    → newer_than o h.id ≡ false
    → resolve_below_root path (some (hide h)) o ≡ hidden
unfolding resolve_below_root
hidden_by_newest path h o e = rw e

-- In a well-formed sandbox, a new hide rule hides every path that starts with its path, whatever
-- is mounted there, except the root: such a path is hidden and does not resolve.
pub hidden_under :
    (s : Sandbox) (hidden_path path : SandboxPath)
    → IsWell s
    → path.inner ≢ root_path
    → starts_with path hidden_path ≡ true
    → (is_hidden (add_hide hidden_path s).0 path ≡ true)
      × (resolve (add_hide hidden_path s).0 path ≡ none)
unfolding is_hidden resolve
hidden_under s hidden_path path w n h = (ap is_hidden_resolution now, ap resolution now)
  where
    now : resolve_overlay (add_hide hidden_path s).0 path ≡ hidden
    now =
        resolve_overlay_below (add_hide hidden_path s).0 path n
        ∙ ap
            (λ e.
              resolve_below_root path e (newest_descendant_layer (add_hide hidden_path s).0 path))
            (hidden_entry s hidden_path path w h)
        ∙ hidden_by_newest path (fresh_hide hidden_path s) _ (no_newer_layer s hidden_path path w)

-- A hide rule leaves every path alone that does not start with its path, and the root.
pub resolve_beside_hide :
    (s : Sandbox) (hidden_path path : SandboxPath)
    → (starts_with path hidden_path ≡ false) ⊎ (path.inner ≡ root_path)
    → resolve_overlay (add_hide hidden_path s).0 path ≡ resolve_overlay s path
unfolding resolve_overlay newest_covering_layer newest_covering_entry newest_descendant_layer
    add_hide
resolve_beside_hide s hidden_path path (inl h) =
    rw (retain-snoc_dropped (hides_path path) s.hides (fresh_hide hidden_path s) h)
resolve_beside_hide s hidden_path path (inr e) = rw ((==_iff path.inner root_path).1 e)
