-- ===== src/Overlay.antt =====
-- src/overlay.rs: effects in the order of their numbers, and what the latest of them leaves.
use gatefs.Sort.{by_key, last?-sort, max_by_key, sort_by}
use mathlib.Core.List.{foldl}
use gatefs.Base.{List, Option, [], ap, last?, none, refl, some, ℕ, ◌∙◌, ◌∷◌, ◌≡◌}

pub data OverlayEffect {ℓ} (A : Type ℓ) : Type ℓ where
  value : A → OverlayEffect A
  tombstone : OverlayEffect A

module _ {ℓ} {A : Type ℓ} where
  unfoldable collapse :
      List (ℕ × OverlayEffect A) → (Option A → OverlayEffect A → Option A) → Option A
  collapse entries merge =
      foldl (λ state e. merge state e.1) none (sort_by (by_key (λ e. e.0)) entries)

  abbrev effect_value : OverlayEffect A → Option A
  effect_value (value a) = some a
  effect_value tombstone = none

  unfoldable pub collapse_latest : List (ℕ × OverlayEffect A) → Option A
  unfolding collapse
  collapse_latest entries = collapse entries (λ _ effect. effect_value effect)

  abbrev pub entry_value : Option (ℕ × OverlayEffect A) → Option A
  entry_value none = none
  entry_value (some e) = effect_value e.1

  foldl-cons :
      (e : ℕ × OverlayEffect A) (entries : List (ℕ × OverlayEffect A)) (state : Option A)
      → foldl (λ _ f. effect_value f.1) state (e ∷ entries) ≡ entry_value (last? (e ∷ entries))
  unfolding last?
  foldl-cons e [] state = refl
  foldl-cons e (f ∷ entries) state = foldl-cons f entries (effect_value e.1)

  foldl-latest :
      (entries : List (ℕ × OverlayEffect A))
      → foldl (λ _ f. effect_value f.1) none entries ≡ entry_value (last? entries)
  unfolding last?
  foldl-latest [] = refl
  foldl-latest (e ∷ entries) = foldl-cons e entries none

  -- Collapsing to the latest takes the value of the entry with the greatest number, the later one
  -- in the list of two with one number; a tombstone there, or no entry, leaves nothing.
  pub collapse_latest-max :
      (entries : List (ℕ × OverlayEffect A))
      → collapse_latest entries ≡ entry_value (max_by_key (λ e. e.0) entries)
  unfolding collapse_latest
  collapse_latest-max entries =
      foldl-latest (sort_by (by_key (λ e. e.0)) entries)
      ∙ ap entry_value (last?-sort (λ e. e.0) entries)
