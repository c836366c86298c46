-- ===== src/Sandbox/Newest.antt =====
-- Which overlay entry wins: the one with the greatest number. (src/state.rs)
use gatefs.Path.{SandboxPath, sandbox_path_ord}
use gatefs.Overlay.{
  OverlayEffect, collapse_latest, collapse_latest-max, entry_value, tombstone, value,
}
use gatefs.Sort.{max_by_key, max_by_key-All, max_by_key-middle}
use gatefs.StdPath.{component_ord, root_path}
use gatefs.Sandbox.{
  HideRule, MountLayer, OverlayEntry, Sandbox, covers, hide, hide_effect, hides_path, layer,
  layer_effect, newest_covering_entry, newest_descendant_layer, resolve_below_root, resolve_overlay,
}
use gatefs.Base.{
  ==_iff, All, All-append, All-imp, All-map, All-retain, All-retain_passed, List, Option, [], ap,
  arith, false, list_ord, map, nat_ord, none, refl, retain, some, subst, sym, true, ℕ, ◌++◌, ◌<◌,
  ◌==◌, ◌∙◌, ◌∷◌, ◌≡◌, ◌≢◌,
}
use mathlib.Core.List.{append_assoc, map-append}

module _ (ls : List MountLayer) (hs : List HideRule) where
  pub newest_layer :
      (l : MountLayer)
      → All (λ k. k.id < l.id) ls
      → All (λ h. h.id < l.id) hs
      → collapse_latest (map layer_effect (ls ++ l ∷ []) ++ map hide_effect hs) ≡ some (layer l)
  newest_layer l a b =
      collapse_latest-max (map layer_effect (ls ++ l ∷ []) ++ map hide_effect hs)
      ∙ ap (λ es. entry_value (max_by_key (λ e. e.0) es)) shape
      ∙ ap entry_value (
          max_by_key-middle (λ e. e.0) (layer_effect l) (map layer_effect ls) (map hide_effect hs)
            (All-map _ layer_effect ls (All-imp (λ k h. omega arith) ls a))
            (All-map _ hide_effect hs b))
    where
      shape :
          map layer_effect (ls ++ l ∷ []) ++ map hide_effect hs
          ≡ map layer_effect ls ++ layer_effect l ∷ map hide_effect hs
      shape = rw (map-append layer_effect ls (l ∷ [])) (append_assoc (map layer_effect ls) _ _)

  pub newest_hide :
      (h : HideRule)
      → All (λ k. k.id < h.id) ls
      → All (λ k. k.id < h.id) hs
      → collapse_latest (map layer_effect ls ++ map hide_effect (hs ++ h ∷ [])) ≡ some (hide h)
  newest_hide h a b =
      collapse_latest-max (map layer_effect ls ++ map hide_effect (hs ++ h ∷ []))
      ∙ ap (λ es. entry_value (max_by_key (λ e. e.0) es)) shape
      ∙ ap entry_value (
          max_by_key-middle (λ e. e.0) (hide_effect h) (map layer_effect ls ++ map hide_effect hs)
            []
            (All-append _ (map layer_effect ls) (map hide_effect hs)
              (All-map _ layer_effect ls (All-imp (λ k h. omega arith) ls a))
              (All-map _ hide_effect hs (All-imp (λ k h. omega arith) hs b)))
            tt)
    where
      shape :
          map layer_effect ls ++ map hide_effect (hs ++ h ∷ [])
          ≡ (map layer_effect ls ++ map hide_effect hs) ++ hide_effect h ∷ []
      shape = rw (map-append hide_effect hs (h ∷ [])) (sym (append_assoc (map layer_effect ls) _ _))

-- A mount that is newer than every entry of the overlay covers the paths below it.
pub newest_layer-maximal :
    (l : MountLayer) (ls : List MountLayer)
    → All (λ k. k.id < l.id) ls
    → max_by_key (λ k. k.id) (ls ++ l ∷ []) ≡ some l
newest_layer-maximal l ls h =
    max_by_key-middle (λ k. k.id) l ls [] (All-imp (λ k h. omega arith) ls h) tt

-- A property of the entries that cover the path is one of the newest.
abbrev Of {ℓ} : (OverlayEntry → Type ℓ) → ℕ × OverlayEffect OverlayEntry → Type ℓ
Of P (id, value e) = P e
Of P (id, tombstone) = Unit

newest-Of {ℓ} :
    (P : OverlayEntry → Type ℓ) (es : List (ℕ × OverlayEffect OverlayEntry)) (e : OverlayEntry)
    → All (Of P) es
    → collapse_latest es ≡ some e
    → P e
newest-Of P es e h c = go (max_by_key (λ f. f.0) es) refl (sym (collapse_latest-max es) ∙ c)
  where
    go :
        (o : Option (ℕ × OverlayEffect OverlayEntry))
        → max_by_key (λ f. f.0) es ≡ o
        → entry_value o ≡ some e
        → P e
    go none m v = cc
    go (some (id, tombstone)) m v = cc
    go (some (id, value f)) m v =
        subst P (ground arith) (max_by_key-All (Of P) (λ f. f.0) es (id, value f) h m)

pub covering_entry-All {ℓ} :
    (P : OverlayEntry → Type ℓ) (s : Sandbox) (path : SandboxPath) (e : OverlayEntry)
    → All (λ l. covers path l ≡ true → P (layer l)) s.layers
    → All (λ h. P (hide h)) s.hides
    → newest_covering_entry s path ≡ some e
    → P e
unfolding newest_covering_entry
covering_entry-All P s path e a b c =
    newest-Of P _ e
      (All-append (Of P) (map layer_effect (retain (covers path) s.layers))
        (map hide_effect (retain (hides_path path) s.hides))
        (All-map (Of P) layer_effect (retain (covers path) s.layers)
          (All-retain_passed _ (covers path) s.layers a))
        (All-map (Of P) hide_effect (retain (hides_path path) s.hides)
          (All-retain _ (hides_path path) s.hides b)))
      c

-- Below the root the newest covering entry and the newest layer further down decide.
pub resolve_overlay_below :
    (s : Sandbox) (path : SandboxPath)
    → path.inner ≢ root_path
    → resolve_overlay s path
      ≡ resolve_below_root path (newest_covering_entry s path) (newest_descendant_layer s path)
unfolding resolve_overlay
resolve_overlay_below s path n =
    let below : (path.inner == root_path) ≡ false = ground (arith, ==_iff path.inner root_path) in
    rw below
