-- ===== src/Base/Order.antt =====
-- `derive(Ord)`: a total order as an interface, and what `==` and the maps take from it.
use Prim.Native.Nat.{ℕ, compare, Ordering}
use mathlib.Core.Path.{◌≡◌, refl, ap}
use mathlib.Core.Logic.{◌↔◌}
use mathlib.Core.Bool.{Bool, true, false}
use mathlib.Core.List.{List, [], ◌∷◌}
use native.Mathlib.Omega.{arith}

pub record Ord {ℓ} (A : Type ℓ) : Type ℓ where
  pub cmp : A → A → Ordering
  pub cmp_iff : (a b : A) → (cmp a b ≡ Ordering.eq) ↔ (a ≡ b)
  pub cmp_flip : (a b : A) → cmp a b ≡ Ordering.gt → cmp b a ≡ Ordering.lt
  pub cmp_trans :
      (a b c : A) → cmp a b ≡ Ordering.lt → cmp b c ≡ Ordering.lt → cmp a c ≡ Ordering.lt

infix 50 ◌==◌
abbrev pub ◌==◌ {ℓ} : {A : Type ℓ} ⦃o : Ord A⦄ → A → A → Bool
◌==◌ ⦃o⦄ a b = elim (o.cmp a b) [ Ordering.eq ↦ true | _ ↦ false ]

pub ==_iff {ℓ} : {A : Type ℓ} ⦃o : Ord A⦄ (a b : A) → ((a == b) ≡ true) ↔ (a ≡ b)
==_iff ⦃o⦄ a b = ground (arith, o.cmp_iff a b)

pub ==_refl {ℓ} : {A : Type ℓ} ⦃o : Ord A⦄ (a : A) → (a == a) ≡ true
==_refl a = (==_iff a a).1 refl

-- `Ordering::then`.
abbrev pub then_with : Ordering → Ordering → Ordering
then_with Ordering.lt d = Ordering.lt
then_with Ordering.eq d = d
then_with Ordering.gt d = Ordering.gt

pub compare_iff : (a b : ℕ) → (compare a b ≡ Ordering.eq) ↔ (a ≡ b)
compare_iff a b = ground arith

pub compare_flip : (a b : ℕ) → compare a b ≡ Ordering.gt → compare b a ≡ Ordering.lt
compare_flip a b h = ground arith

pub compare_trans :
    (a b c : ℕ) → compare a b ≡ Ordering.lt → compare b c ≡ Ordering.lt → compare a c ≡ Ordering.lt
compare_trans a b c h k = ground arith

instance abbrev pub nat_ord : Ord ℕ
nat_ord = record {
  cmp = compare;
  cmp_iff = compare_iff;
  cmp_flip = compare_flip;
  cmp_trans = compare_trans;
}

-- An order by the fields that an injection shows.
abbrev pub ord_by {ℓ κ} :
    {A : Type ℓ} {B : Type κ} (f : A → B) (o : Ord B) → ((a b : A) → f a ≡ f b → a ≡ b) → Ord A
ord_by f o inj = record {
  cmp = λ a b. o.cmp (f a) (f b);
  cmp_iff =
      λ a b. (λ e. inj a b ((o.cmp_iff (f a) (f b)).0 e), λ e. (o.cmp_iff (f a) (f b)).1 (ap f e));
  cmp_flip = λ a b. o.cmp_flip (f a) (f b);
  cmp_trans = λ a b c. o.cmp_trans (f a) (f b) (f c);
}

module _ {ℓ} {A : Type ℓ} (o : Ord A) where
  -- Slices compare lexicographically.
  unfoldable pub cmp_list : List A → List A → Ordering
  cmp_list [] [] = Ordering.eq
  cmp_list [] (y ∷ ys) = Ordering.lt
  cmp_list (x ∷ xs) [] = Ordering.gt
  cmp_list (x ∷ xs) (y ∷ ys) = then_with (o.cmp x y) (cmp_list xs ys)

  pub cmp_list_iff : (xs ys : List A) → (cmp_list xs ys ≡ Ordering.eq) ↔ (xs ≡ ys)
  unfolding cmp_list
  cmp_list_iff [] [] = ground arith
  cmp_list_iff [] (y ∷ ys) = ground arith
  cmp_list_iff (x ∷ xs) [] = ground arith
  cmp_list_iff (x ∷ xs) (y ∷ ys) = ground (arith, o.cmp_iff x y, cmp_list_iff xs ys)

  pub cmp_list_flip : (xs ys : List A) → cmp_list xs ys ≡ Ordering.gt → cmp_list ys xs ≡ Ordering.lt
  unfolding cmp_list
  cmp_list_flip [] [] h = cc
  cmp_list_flip [] (y ∷ ys) h = cc
  cmp_list_flip (x ∷ xs) [] h = refl
  cmp_list_flip (x ∷ xs) (y ∷ ys) h =
      ground (arith, o.cmp_iff x y, o.cmp_iff y x, o.cmp_flip x y, cmp_list_flip xs ys)

  pub cmp_list_trans :
      (xs ys zs : List A)
      → cmp_list xs ys ≡ Ordering.lt
      → cmp_list ys zs ≡ Ordering.lt
      → cmp_list xs zs ≡ Ordering.lt
  unfolding cmp_list
  cmp_list_trans [] [] zs h k = cc
  cmp_list_trans [] (y ∷ ys) [] h k = cc
  cmp_list_trans [] (y ∷ ys) (z ∷ zs) h k = refl
  cmp_list_trans (x ∷ xs) [] zs h k = cc
  cmp_list_trans (x ∷ xs) (y ∷ ys) [] h k = cc
  cmp_list_trans (x ∷ xs) (y ∷ ys) (z ∷ zs) h k = ground (
    arith,
    o.cmp_iff x y,
    o.cmp_iff y z,
    o.cmp_iff x z,
    o.cmp_trans x y z,
    cmp_list_trans xs ys zs,
  )

instance abbrev pub list_ord {ℓ} : {A : Type ℓ} ⦃o : Ord A⦄ → Ord (List A)
list_ord ⦃o⦄ = record {
  cmp = cmp_list o;
  cmp_iff = cmp_list_iff o;
  cmp_flip = cmp_list_flip o;
  cmp_trans = cmp_list_trans o;
}

module _ {ℓ κ} {A : Type ℓ} {B : Type κ} (o : Ord A) (p : Ord B) where
  abbrev cmp_pair : A × B → A × B → Ordering
  cmp_pair a b = then_with (o.cmp a.0 b.0) (p.cmp a.1 b.1)

  pub cmp_pair_iff : (a b : A × B) → (cmp_pair a b ≡ Ordering.eq) ↔ (a ≡ b)
  cmp_pair_iff (a, b) (c, d) = ground (arith, o.cmp_iff a c, p.cmp_iff b d)

  pub cmp_pair_flip : (a b : A × B) → cmp_pair a b ≡ Ordering.gt → cmp_pair b a ≡ Ordering.lt
  cmp_pair_flip (a, b) (c, d) h =
      ground (arith, o.cmp_iff a c, o.cmp_iff c a, o.cmp_flip a c, p.cmp_flip b d)

  pub cmp_pair_trans :
      (a b c : A × B)
      → cmp_pair a b ≡ Ordering.lt
      → cmp_pair b c ≡ Ordering.lt
      → cmp_pair a c ≡ Ordering.lt
  cmp_pair_trans (a, b) (c, d) (e, f) h k =
      ground
        (arith, o.cmp_iff a c, o.cmp_iff c e, o.cmp_iff a e, o.cmp_trans a c e, p.cmp_trans b d f)

instance abbrev pub pair_ord {ℓ κ} : {A : Type ℓ} {B : Type κ} ⦃o : Ord A⦄ ⦃p : Ord B⦄ → Ord (A × B)
pair_ord ⦃o⦄ ⦃p⦄ = record {
  cmp = cmp_pair o p;
  cmp_iff = cmp_pair_iff o p;
  cmp_flip = cmp_pair_flip o p;
  cmp_trans = cmp_pair_trans o p;
}
