-- ===== src/Sort.antt =====
-- `sort_by`, `sort_by_key` and `max_by_key`, which src/overlay.rs and src/state.rs call: a stable
-- sort, and the last of the greatest elements.
use gatefs.Base.{
  any, ◌||◌, All, Bool, Bool-cases, List, Option, [], ap, arith, if_elim, if◌then◌else◌, inl, inr,
  last?, leb, leb→le, ltb, none, refl, some, subst, sym, true, unwrap_or, ℕ, ◌++◌, ◌<◌, ◌∙◌, ◌∷◌,
  ◌≡◌, ◌≤◌,
}
use mathlib.Core.List.{Perm}
use mathlib.Core.List.Perm

module _ {ℓ} {A : Type ℓ} where
  insert_by : (A → A → Bool) → A → List A → List A
  insert_by le x [] = x ∷ []
  insert_by le x (y ∷ ys) = if le x y then x ∷ y ∷ ys else y ∷ insert_by le x ys

  -- Equal elements keep their order.
  unfoldable pub sort_by : (A → A → Bool) → List A → List A
  unfolding insert_by
  sort_by le [] = []
  sort_by le (x ∷ xs) = insert_by le x (sort_by le xs)

  abbrev pub by_key : (A → ℕ) → A → A → Bool
  by_key key a b = leb (key a) (key b)

  max_loop : (A → ℕ) → A → List A → A
  max_loop key best [] = best
  max_loop key best (y ∷ ys) = max_loop key (if ltb (key y) (key best) then best else y) ys

  unfoldable pub max_by_key : (A → ℕ) → List A → Option A
  unfolding max_loop
  max_by_key key [] = none
  max_by_key key (x ∷ xs) = some (max_loop key x xs)

  -- The greatest element of a list, from its end: the later of two equal ones.
  abbrev pick : (A → ℕ) → A → Option A → A
  pick key x none = x
  pick key x (some y) = if leb (key x) (key y) then y else x

  -- Each key is at most the next.
  abbrev pub IsSorted : (A → ℕ) → List A → Type 0
  IsSorted key [] = Unit
  IsSorted key (x ∷ xs) = All (λ y. key x ≤ key y) xs × IsSorted key xs

  All-le_trans :
      (key : A → ℕ) (m n : ℕ) (xs : List A)
      → m ≤ n
      → All (λ y. n ≤ key y) xs
      → All (λ y. m ≤ key y) xs
  All-le_trans key m n [] h k = tt
  All-le_trans key m n (x ∷ xs) h k = (omega arith, All-le_trans key m n xs h k.1)

  All-insert {κ} :
      (P : A → Type κ) (le : A → A → Bool) (x : A) (xs : List A)
      → P x
      → All P xs
      → All P (insert_by le x xs)
  unfolding insert_by
  All-insert P le x [] h k = (h, tt)
  All-insert P le x (y ∷ ys) h k = if_elim (All P) (le x y) (h, k) (k.0, All-insert P le x ys h k.1)

  any-insert :
      (p : A → Bool) (le : A → A → Bool) (x : A) (xs : List A)
      → any p (insert_by le x xs) ≡ (p x || any p xs)
  unfolding insert_by any
  any-insert p le x [] = refl
  any-insert p le x (y ∷ ys) = ground (arith, any-insert p le x ys)

  pub any-sort : (p : A → Bool) (le : A → A → Bool) (xs : List A) → any p (sort_by le xs) ≡ any p xs
  unfolding sort_by any
  any-sort p le [] = refl
  any-sort p le (x ∷ xs) = any-insert p le x (sort_by le xs) ∙ ap (◌||◌ (p x)) (any-sort p le xs)

  pub All-sort {κ} :
      (P : A → Type κ) (le : A → A → Bool) (xs : List A) → All P xs → All P (sort_by le xs)
  unfolding sort_by
  All-sort P le [] h = tt
  All-sort P le (x ∷ xs) h = All-insert P le x (sort_by le xs) h.0 (All-sort P le xs h.1)

  insert-IsSorted :
      (key : A → ℕ) (x : A) (xs : List A)
      → IsSorted key xs
      → IsSorted key (insert_by (by_key key) x xs)
  unfolding insert_by
  insert-IsSorted key x [] h = (tt, tt)
  insert-IsSorted key x (y ∷ ys) h = elim (Bool-cases (leb (key x) (key y))) [
    | inl e ↦
        rw e ((leb→le (key x) (key y) e, All-le_trans key (key x) (key y) ys (leb→le _ _ e) h.0), h)
    | inr e ↦ rw e (
      All-insert (λ z. key y ≤ key z) (by_key key) x ys (ground arith) h.0,
      insert-IsSorted key x ys h.1,
    )
  ]

  pub sort-IsSorted : (key : A → ℕ) (xs : List A) → IsSorted key (sort_by (by_key key) xs)
  unfolding sort_by
  sort-IsSorted key [] = tt
  sort-IsSorted key (x ∷ xs) =
      insert-IsSorted key x (sort_by (by_key key) xs) (sort-IsSorted key xs)

  insert-perm : (le : A → A → Bool) (x : A) (xs : List A) → Perm (insert_by le x xs) (x ∷ xs)
  unfolding insert_by
  insert-perm le x [] = Perm.refl (x ∷ [])
  insert-perm le x (y ∷ ys) =
      if_elim (λ zs. Perm zs (x ∷ y ∷ ys)) (le x y) (Perm.refl (x ∷ y ∷ ys))
        (Perm.trans (Perm.cons y (insert-perm le x ys)) (Perm.swap x y ys))

  pub sort-perm : (le : A → A → Bool) (xs : List A) → Perm (sort_by le xs) xs
  unfolding sort_by
  sort-perm le [] = Perm.refl []
  sort-perm le (x ∷ xs) =
      Perm.trans (insert-perm le x (sort_by le xs)) (Perm.cons x (sort-perm le xs))

  last?-cons : (x : A) (xs : List A) → last? (x ∷ xs) ≡ some (unwrap_or (last? xs) x)
  unfolding last?
  last?-cons x [] = refl
  last?-cons x (y ∷ ys) = rw (last?-cons y ys)

  last?-step : (x y : A) (ys : List A) → last? (x ∷ y ∷ ys) ≡ last? (y ∷ ys)
  unfolding last?
  last?-step x y ys = refl

  insert-cons :
      (le : A → A → Bool) (x : A) (xs : List A)
      → (z : A) × (zs : List A) × (insert_by le x xs ≡ z ∷ zs)
  unfolding insert_by
  insert-cons le x [] = (x, [], refl)
  insert-cons le x (y ∷ ys) =
      if_elim (λ l. (z : A) × (zs : List A) × (l ≡ z ∷ zs)) (le x y) (x, y ∷ ys, refl)
        (y, insert_by le x ys, refl)

  last?-All {κ} : (P : A → Type κ) (xs : List A) (y : A) → All P xs → last? xs ≡ some y → P y
  unfolding last?
  last?-All P [] y h e = cc
  last?-All P (x ∷ []) y h e = subst P (ground arith) h.0
  last?-All P (x ∷ z ∷ zs) y h e = last?-All P (z ∷ zs) y h.1 e

  greatest : (A → ℕ) → List A → Option A
  greatest key [] = none
  greatest key (x ∷ xs) = some (pick key x (greatest key xs))

  max_loop-pick :
      (key : A → ℕ) (best : A) (xs : List A)
      → max_loop key best xs ≡ pick key best (greatest key xs)
  unfolding max_loop greatest
  max_loop-pick key best [] = refl
  max_loop-pick key best (y ∷ ys) =
      ground (arith, max_loop-pick key best ys, max_loop-pick key y ys)

  max_by_key-greatest : (key : A → ℕ) (xs : List A) → max_by_key key xs ≡ greatest key xs
  unfolding max_by_key greatest
  max_by_key-greatest key [] = refl
  max_by_key-greatest key (x ∷ xs) = rw (max_loop-pick key x xs)

  last?-insert_below :
      (le : A → A → Bool) (x y : A) (xs : List A)
      → last? (y ∷ insert_by le x xs) ≡ last? (insert_by le x xs)
  last?-insert_below le x y xs =
      let (z, zs, e) = insert-cons le x xs in
      ap (λ l. last? (y ∷ l)) e ∙ last?-step y z zs ∙ sym (ap last? e)

  last?-insert :
      (key : A → ℕ) (x : A) (xs : List A)
      → IsSorted key xs
      → last? (insert_by (by_key key) x xs) ≡ some (pick key x (last? xs))
  unfolding insert_by last?
  last?-insert key x [] h = refl
  last?-insert key x (y ∷ []) h = ground arith
  last?-insert key x (y ∷ z ∷ zs) h = elim (Bool-cases (leb (key x) (key y))) [
    | inl e ↦ rw e (last?-step x y (z ∷ zs) ∙ kept e)
    | inr e ↦ rw e (last?-insert_below (by_key key) x y (z ∷ zs) ∙ last?-insert key x (z ∷ zs) h.1)
  ]
    where
      above : key y ≤ key (unwrap_or (last? zs) z)
      above = last?-All (λ w. key y ≤ key w) (z ∷ zs) _ h.0 (last?-cons z zs)

      kept :
          leb (key x) (key y) ≡ true → last? (y ∷ z ∷ zs) ≡ some (pick key x (last? (y ∷ z ∷ zs)))
      kept e = ground (arith, last?-step y z zs, last?-cons z zs, above)

  -- The last element of the sorted list is the last of the greatest.
  pub last?-sort : (key : A → ℕ) (xs : List A) → last? (sort_by (by_key key) xs) ≡ max_by_key key xs
  unfolding sort_by greatest
  last?-sort key [] = unfold last? max_by_key in refl
  last?-sort key (x ∷ xs) =
      last?-insert key x (sort_by (by_key key) xs) (sort-IsSorted key xs)
      ∙ ap (λ o. some (pick key x o)) (last?-sort key xs ∙ max_by_key-greatest key xs)
      ∙ sym (max_by_key-greatest key (x ∷ xs))

  greatest-lt :
      (key : A → ℕ) (n : ℕ) (y : A) (ys : List A)
      → All (λ z. key z < n) (y ∷ ys)
      → key (pick key y (greatest key ys)) < n
  unfolding greatest
  greatest-lt key n y [] k = k.0
  greatest-lt key n y (z ∷ zs) k = ground (arith, greatest-lt key n z zs k.1)

  pick-below :
      (key : A → ℕ) (x : A) (ys : List A)
      → All (λ y. key y < key x) ys
      → pick key x (greatest key ys) ≡ x
  unfolding greatest
  pick-below key x [] k = refl
  pick-below key x (y ∷ ys) k = ground (arith, greatest-lt key (key x) y ys k)

  greatest-middle :
      (key : A → ℕ) (x : A) (xs ys : List A)
      → All (λ y. key y ≤ key x) xs
      → All (λ y. key y < key x) ys
      → greatest key (xs ++ x ∷ ys) ≡ some x
  unfolding greatest
  greatest-middle key x [] ys h k = ap some (pick-below key x ys k)
  greatest-middle key x (y ∷ xs) ys h k = rw (greatest-middle key x xs ys h.1 k) (ground arith)

  -- Among keys at most its own before it, and below its own after it, an element is the greatest.
  pub max_by_key-middle :
      (key : A → ℕ) (x : A) (xs ys : List A)
      → All (λ y. key y ≤ key x) xs
      → All (λ y. key y < key x) ys
      → max_by_key key (xs ++ x ∷ ys) ≡ some x
  max_by_key-middle key x xs ys h k =
      max_by_key-greatest key (xs ++ x ∷ ys) ∙ greatest-middle key x xs ys h k

  max_loop-All {κ} :
      (P : A → Type κ) (key : A → ℕ) (xs : List A) (best : A)
      → P best
      → All P xs
      → P (max_loop key best xs)
  unfolding max_loop
  max_loop-All P key [] best h k = h
  max_loop-All P key (y ∷ ys) best h k =
      max_loop-All P key ys _ (if_elim P (ltb (key y) (key best)) h k.0) k.1

  -- What holds of every element holds of the greatest.
  pub max_by_key-All {κ} :
      (P : A → Type κ) (key : A → ℕ) (xs : List A) (x : A)
      → All P xs
      → max_by_key key xs ≡ some x
      → P x
  unfolding max_by_key
  max_by_key-All P key [] x h e = cc
  max_by_key-All P key (y ∷ ys) x h e =
      subst P (ap (λ o. unwrap_or o x) e) (max_loop-All P key ys y h.0 h.1)
