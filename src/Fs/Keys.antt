-- ===== src/Fs/Keys.antt =====
-- src/fs.rs: the keys of a metadata request, and the ids that stand under them.
use gatefs.Fs.Change.{keep_id, take_keys, unique_ids}
use gatefs.Pending.{PendingOperationKey, operation_key_ord}
use gatefs.Registry.Keys.{has_key}
use gatefs.Base.{
  ==_iff, ==_refl, Bool, Bool-cases, List, Option, [], any, any-append, ap, arith, false,
  if◌then◌else◌, inl, inr, list_ord, nat_ord, none, refl, some, subst, sym, true, ℕ, ◌++◌, ◌==◌,
  ◌||◌, ◌∙◌, ◌∷◌, ◌≡◌,
}
use gatefs.Map

keep_id-index :
    (x : Option ℕ) (found : List (PendingOperationKey × ℕ) × List ℕ) → (keep_id x found).0 ≡ found.0
keep_id-index none found = refl
keep_id-index (some id) found = refl

keep_id-any :
    (x : Option ℕ) (found : List (PendingOperationKey × ℕ) × List ℕ) (id : ℕ)
    → any (λ i. i == id) found.1 ≡ true
    → any (λ i. i == id) (keep_id x found).1 ≡ true
unfolding any
keep_id-any none found id h = h
keep_id-any (some i) found id h = ground (arith, h)

pub get-take_keys :
    (ks : List PendingOperationKey) (key : PendingOperationKey)
    (index : List (PendingOperationKey × ℕ))
    → Map.get key (take_keys ks index).0 ≡ (if has_key key ks then none else Map.get key index)
unfolding take_keys any
get-take_keys [] key index = refl
get-take_keys (k ∷ ks) key index =
    ap (Map.get key) (keep_id-index (Map.get k index) (take_keys ks (Map.remove k index)))
    ∙ get-take_keys ks key (Map.remove k index)
    ∙ ap (λ o. if has_key key ks then none else o) (Map.get-remove k key index)
    ∙ either (k == key) (has_key key ks)
  where
    either :
        (a b : Bool)
        → (if b then none else if a then none else Map.get key index)
          ≡ (if a || b then none else Map.get key index)
    either a b = ground arith

-- An id that was indexed under one of the keys is among those that were taken.
pub take_keys-any :
    (ks : List PendingOperationKey) (key : PendingOperationKey)
    (index : List (PendingOperationKey × ℕ)) (id : ℕ)
    → Map.get key index ≡ some id
    → has_key key ks ≡ true
    → any (λ i. i == id) (take_keys ks index).1 ≡ true
unfolding take_keys any
take_keys-any [] key index id h k = ground (arith, k)
take_keys-any (j ∷ ks) key index id h k = elim (Bool-cases (j == key)) [
  | inl b ↦
      subst (λ x. any (λ i. i == id) (keep_id x (take_keys ks (Map.remove j index))).1 ≡ true)
        (sym (ap (λ c. Map.get c index) ((==_iff j key).0 b) ∙ h)) (rw (==_refl id) refl)
  | inr b ↦ keep_id-any (Map.get j index) (take_keys ks (Map.remove j index)) id (
      take_keys-any ks key (Map.remove j index) id (Map.get-remove j key index ∙ rw b h)
        (still (j == key) (has_key key ks) b k))
]
  where
    still : (a b : Bool) → a ≡ false → (a || b) ≡ true → b ≡ true
    still a b e d = ground arith

pub unique_ids-any :
    (seen ids : List ℕ) (id : ℕ)
    → any (λ i. i == id) (unique_ids seen ids) ≡ (any (λ i. i == id) seen || any (λ i. i == id) ids)
unfolding unique_ids any
unique_ids-any seen [] id = ground arith
unique_ids-any seen (j ∷ ids) id = elim (Bool-cases (any (λ i. i == j) seen)) [
  | inl b ↦ rw b (
      unique_ids-any seen ids id
      ∙ twice (any (λ i. i == id) seen) (j == id) (any (λ i. i == id) ids)
          (λ e. subst (λ k. any (λ i. i == k) seen ≡ true) ((==_iff j id).0 e) b))
  | inr b ↦ rw b (
      unique_ids-any (seen ++ j ∷ []) ids id
      ∙ ap (λ x. x || any (λ i. i == id) ids) (any-append (λ i. i == id) seen (j ∷ []))
      ∙ three (any (λ i. i == id) seen) (j == id) (any (λ i. i == id) ids))
]
  where
    twice : (a b c : Bool) → (b ≡ true → a ≡ true) → (a || c) ≡ (a || (b || c))
    twice a true c h = rw (h refl) refl
    twice a false c h = refl

    three : (a b c : Bool) → ((a || (b || false)) || c) ≡ (a || (b || c))
    three a b c = ground arith
