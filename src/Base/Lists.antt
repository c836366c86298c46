-- ===== src/Base/Lists.antt =====
-- Lists with native lengths and Boolean tests: what `Vec` and the iterators do.
use Prim.Native.Nat.{ℕ, suc, ◌+◌}
use mathlib.Core.Path.{◌≡◌, refl, ap, ◌∙◌}
use mathlib.Core.Bool.{Bool, true, false, ◌&&◌, ◌||◌}
use mathlib.Core.List.{List, [], ◌∷◌, ◌++◌, map}
use mathlib.Core.Option.{Option, none, some}
use native.Mathlib.Omega.{arith}
use gatefs.Base.Tests.{if◌then◌else◌, Bool-cases}
use mathlib.Core.Logic.{inl, inr}

module _ {ℓ} {A : Type ℓ} where
  abbrev pub length : List A → ℕ
  length [] = 0
  length (x ∷ xs) = suc (length xs)

  pub length-append : (xs ys : List A) → length (xs ++ ys) ≡ length xs + length ys
  length-append [] ys = omega arith
  length-append (x ∷ xs) ys = omega (arith, length-append xs ys)

  abbrev pub is_empty : List A → Bool
  is_empty [] = true
  is_empty (x ∷ xs) = false

  -- `Vec::last`.
  unfoldable pub last? : List A → Option A
  last? [] = none
  last? (x ∷ []) = some x
  last? (x ∷ y ∷ ys) = last? (y ∷ ys)

  -- The list without its last element (`Vec::pop`, and nothing on an empty list).
  unfoldable pub drop_last : List A → List A
  drop_last [] = []
  drop_last (x ∷ []) = []
  drop_last (x ∷ y ∷ ys) = x ∷ drop_last (y ∷ ys)

  unfoldable pub any : (A → Bool) → List A → Bool
  any p [] = false
  any p (x ∷ xs) = p x || any p xs

  unfoldable pub all : (A → Bool) → List A → Bool
  all p [] = true
  all p (x ∷ xs) = p x && all p xs

  -- `Iterator::filter` and `Iterator::find`, by a Boolean test.
  unfoldable pub retain : (A → Bool) → List A → List A
  retain p [] = []
  retain p (x ∷ xs) = if p x then x ∷ retain p xs else retain p xs

  unfoldable pub find : (A → Bool) → List A → Option A
  find p [] = none
  find p (x ∷ xs) = if p x then some x else find p xs

  -- The list without the first element that passes (`position`, then `Vec::remove`).
  unfoldable pub remove_first : (A → Bool) → List A → List A
  remove_first p [] = []
  remove_first p (x ∷ xs) = if p x then xs else x ∷ remove_first p xs

  -- The list without the last element that passes (`rposition`, then `Vec::remove`).
  unfoldable pub remove_last : (A → Bool) → List A → List A
  unfolding any
  remove_last p [] = []
  remove_last p (x ∷ xs) =
      if any p xs then x ∷ remove_last p xs else if p x then xs else x ∷ remove_last p xs

  -- A predicate on every element; it computes to tuples.
  abbrev pub All {κ} : (A → Type κ) → List A → Type κ
  All P [] = Unit
  All P (x ∷ xs) = P x × All P xs

  pub All-append {κ} : (P : A → Type κ) (xs ys : List A) → All P xs → All P ys → All P (xs ++ ys)
  All-append P [] ys h k = k
  All-append P (x ∷ xs) ys h k = (h.0, All-append P xs ys h.1 k)

  pub All-retain {κ} :
      (P : A → Type κ) (p : A → Bool) (xs : List A) → All P xs → All P (retain p xs)
  unfolding retain
  All-retain P p [] h = tt
  All-retain P p (x ∷ xs) h = ground (arith, All-retain P p xs h.1)

  pub any-append : (p : A → Bool) (xs ys : List A) → any p (xs ++ ys) ≡ (any p xs || any p ys)
  unfolding any
  any-append p [] ys = refl
  any-append p (x ∷ xs) ys = ground (arith, any-append p xs ys)

  pub retain-append :
      (p : A → Bool) (xs ys : List A) → retain p (xs ++ ys) ≡ retain p xs ++ retain p ys
  unfolding retain
  retain-append p [] ys = refl
  retain-append p (x ∷ xs) ys = ground (arith, retain-append p xs ys)

  pub last?-snoc : (xs : List A) (x : A) → last? (xs ++ x ∷ []) ≡ some x
  unfolding last?
  last?-snoc [] x = refl
  last?-snoc (y ∷ []) x = refl
  last?-snoc (y ∷ z ∷ zs) x = last?-snoc (z ∷ zs) x

  pub drop_last-snoc : (xs : List A) (x : A) → drop_last (xs ++ x ∷ []) ≡ xs
  unfolding drop_last
  drop_last-snoc [] x = refl
  drop_last-snoc (y ∷ []) x = refl
  drop_last-snoc (y ∷ z ∷ zs) x = ap (◌∷◌ y) (drop_last-snoc (z ∷ zs) x)

  -- What was pushed last is what `rposition` finds.
  pub remove_last-snoc :
      (p : A → Bool) (xs : List A) (x : A) → p x ≡ true → remove_last p (xs ++ x ∷ []) ≡ xs
  unfolding remove_last any
  remove_last-snoc p [] x h = ground arith
  remove_last-snoc p (y ∷ ys) x h =
      ground (arith, remove_last-snoc p ys x h, any-append p ys (x ∷ []))

  pub retain-snoc_kept :
      (p : A → Bool) (xs : List A) (x : A)
      → p x ≡ true
      → retain p (xs ++ x ∷ []) ≡ retain p xs ++ x ∷ []
  retain-snoc_kept p xs x h =
      retain-append p xs (x ∷ []) ∙ ap (◌++◌ (retain p xs)) (unfold retain in rw h)

  pub retain-snoc_dropped :
      (p : A → Bool) (xs : List A) (x : A) → p x ≡ false → retain p (xs ++ x ∷ []) ≡ retain p xs
  unfolding retain
  retain-snoc_dropped p [] x h = rw h
  retain-snoc_dropped p (y ∷ ys) x h = ground (arith, retain-snoc_dropped p ys x h)

  -- What the test promises holds of what it keeps.
  pub All-retain_passed {κ} :
      (P : A → Type κ) (p : A → Bool) (xs : List A)
      → All (λ x. p x ≡ true → P x) xs
      → All P (retain p xs)
  unfolding retain
  All-retain_passed P p [] h = tt
  All-retain_passed P p (x ∷ xs) h = elim (Bool-cases (p x)) [
    | inl e ↦ rw e (h.0 e, All-retain_passed P p xs h.1)
    | inr e ↦ rw e (All-retain_passed P p xs h.1)
  ]

  pub All-imp {κ μ} :
      {P : A → Type κ} {Q : A → Type μ} (f : (a : A) → P a → Q a) (xs : List A)
      → All P xs
      → All Q xs
  All-imp f [] h = tt
  All-imp f (x ∷ xs) h = (f x h.0, All-imp f xs h.1)

  pub any-none : (p : A → Bool) (xs : List A) → any p xs ≡ false → All (λ x. p x ≡ false) xs
  unfolding any
  any-none p [] h = tt
  any-none p (x ∷ xs) h = (ground (arith, h), any-none p xs (ground (arith, h)))

  -- The last element that passes, with what stands before and after it.
  pub remove_last_split :
      (p : A → Bool) (xs : List A)
      → any p xs ≡ true
      → (ys : List A) × (x : A) × (bs : List A) × (xs ≡ ys ++ x ∷ bs)
        × (p x ≡ true)
        × All (λ b. p b ≡ false) bs
        × (remove_last p xs ≡ ys ++ bs)
  unfolding remove_last any
  remove_last_split p [] h = ground (arith, h)
  remove_last_split p (x ∷ xs) h = elim (Bool-cases (any p xs)) [
    | inl b ↦
        let (ys, z, bs, e, k, out, r) = remove_last_split p xs b in
        (x ∷ ys, z, bs, ap (◌∷◌ x) e, k, out, rw b (ap (◌∷◌ x) r))
    | inr b ↦
        let passes : p x ≡ true = ground (arith, h, b) in
        ([], x, xs, refl, passes, any-none p xs b, rw (b, passes) refl)
  ]

  pub All-remove_last {κ} :
      (P : A → Type κ) (p : A → Bool) (xs : List A) → All P xs → All P (remove_last p xs)
  unfolding remove_last
  All-remove_last P p [] h = tt
  All-remove_last P p (x ∷ xs) h = ground (arith, All-remove_last P p xs h.1)

pub All-map {ℓ κ μ} :
    {A : Type ℓ} {B : Type κ} (P : B → Type μ) (f : A → B) (xs : List A)
    → All (λ a. P (f a)) xs
    → All P (map f xs)
All-map P f [] h = tt
All-map P f (x ∷ xs) h = (h.0, All-map P f xs h.1)

pub any-map {ℓ κ} :
    {A : Type ℓ} {B : Type κ} (p : B → Bool) (f : A → B) (xs : List A)
    → any p (map f xs) ≡ any (λ a. p (f a)) xs
unfolding any
any-map p f [] = refl
any-map p f (x ∷ xs) = ap (◌||◌ (p (f x))) (any-map p f xs)

pub any-retain {ℓ} :
    {A : Type ℓ} (p test : A → Bool) (xs : List A)
    → any p (retain test xs) ≡ any (λ a. test a && p a) xs
unfolding any retain
any-retain p test [] = refl
any-retain p test (x ∷ xs) = ground (arith, any-retain p test xs)

pub All-both {ℓ κ μ} :
    {A : Type ℓ} (P : A → Type κ) (Q : A → Type μ) (xs : List A)
    → All P xs
    → All Q xs
    → All (λ a. P a × Q a) xs
All-both P Q [] h k = tt
All-both P Q (x ∷ xs) h k = ((h.0, k.0), All-both P Q xs h.1 k.1)

-- What holds of every element that a test finds, where it finds one.
pub All-any {ℓ κ} :
    {A : Type ℓ} (P : A → Type κ) (p : A → Bool) (xs : List A)
    → All P xs
    → any p xs ≡ true
    → (a : A) × ((p a ≡ true) × P a)
unfolding any
All-any P p [] h e = ground (arith, e)
All-any P p (x ∷ xs) h e = elim (Bool-cases (p x)) [
  | inl b ↦ (x, (b, h.0))
  | inr b ↦ All-any P p xs h.1 (ground (arith, e, b))
]
