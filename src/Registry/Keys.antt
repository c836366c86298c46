-- ===== src/Registry/Keys.antt =====
-- src/state.rs: what the index answers after keys are entered or taken out.
use gatefs.Map.{keys}
use gatefs.Registry.{index_keys, points_to, unindex_keys}
use gatefs.Base.{
  ==_iff, Bool, Bool-cases, List, Option, [], any, ap, arith, false, if◌then◌else◌, inl, inr,
  list_ord, nat_ord, none, refl, some, subst, true, ℕ, ◌&&◌, ◌==◌, ◌||◌, ◌∙◌, ◌∷◌, ◌≡◌,
}
use gatefs.Pending.{PendingOperationKey, operation_key_ord}
use gatefs.Map

abbrev pub has_key : PendingOperationKey → List PendingOperationKey → Bool
has_key key keys = any (λ k. k == key) keys

pub get-index_keys :
    (id : ℕ) (keys : List PendingOperationKey) (key : PendingOperationKey)
    (index : List (PendingOperationKey × ℕ))
    → Map.get key (index_keys id keys index)
      ≡ (if has_key key keys then some id else Map.get key index)
unfolding index_keys any
get-index_keys id [] key index = refl
get-index_keys id (k ∷ ks) key index =
    get-index_keys id ks key (Map.insert k id index)
    ∙ ap (λ o. if has_key key ks then some id else o) (Map.get-insert k key id index)
    ∙ either (k == key) (has_key key ks)
  where
    either :
        (a b : Bool)
        → (if b then some id else if a then some id else Map.get key index)
          ≡ (if a || b then some id else Map.get key index)
    either a b = ground arith

removed_if :
    (a : Bool) (o : Option ℕ) (id : ℕ)
    → (a ≡ true → points_to o id ≡ true)
    → (if a then none else o) ≡ (if a && points_to o id then none else o)
removed_if true o id h = rw (h refl)
removed_if false o id h = refl

kept_if :
    (a : Bool) (o : Option ℕ) (id : ℕ)
    → (a ≡ true → points_to o id ≡ false)
    → o ≡ (if a && points_to o id then none else o)
kept_if true o id h = rw (h refl)
kept_if false o id h = refl

get-unindexed :
    (id : ℕ) (k key : PendingOperationKey) (index : List (PendingOperationKey × ℕ))
    → Map.get key (if points_to (Map.get k index) id then Map.remove k index else index)
      ≡ (if (k == key) && points_to (Map.get key index) id then none else Map.get key index)
get-unindexed id k key index = elim (Bool-cases (points_to (Map.get k index) id)) [
  | inl e ↦
      rw e (Map.get-remove k key index ∙ removed_if (k == key) (Map.get key index) id (same true e))
  | inr e ↦ rw e (kept_if (k == key) (Map.get key index) id (same false e))
]
  where
    same :
        (b : Bool)
        → points_to (Map.get k index) id ≡ b
        → (k == key) ≡ true
        → points_to (Map.get key index) id ≡ b
    same b e f = subst (λ x. points_to (Map.get x index) id ≡ b) ((==_iff k key).0 f) e

-- Two rounds of removal as one.
removed_twice :
    (a b : Bool) (o : Option ℕ) (id : ℕ)
    → (if b && points_to (if a && points_to o id then none else o) id
        then none
        else if a && points_to o id
        then none
        else o)
      ≡ (if (a || b) && points_to o id then none else o)
removed_twice a b none id = ground arith
removed_twice a b (some i) id = ground arith

pub get-unindex_keys :
    (id : ℕ) (keys : List PendingOperationKey) (key : PendingOperationKey)
    (index : List (PendingOperationKey × ℕ))
    → Map.get key (unindex_keys id keys index)
      ≡ (if has_key key keys && points_to (Map.get key index) id then none else Map.get key index)
unfolding unindex_keys any
get-unindex_keys id [] key index = refl
get-unindex_keys id (k ∷ ks) key index =
    get-unindex_keys id ks key
      (if points_to (Map.get k index) id then Map.remove k index else index)
    ∙ ap (λ o. if has_key key ks && points_to o id then none else o) (get-unindexed id k key index)
    ∙ removed_twice (k == key) (has_key key ks) (Map.get key index) id
