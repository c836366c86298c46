-- ===== src/Registry/Index.antt =====
-- src/state.rs: the index of pending metadata requests by what they wait on.
use gatefs.Registry.Partial.{IsIndexedBut, remove_found-IsIndexedBut}
use gatefs.Registry.Keys.{get-index_keys, has_key}
use gatefs.Registry.{
  SandboxRegistry, insert_pending_request, new_registry, next_operation_id, remove_pending_request,
}
use gatefs.Base.{
  ==_iff, Bool, Bool-cases, List, Option, [], any, ap, arith, false, if◌then◌else◌, inl, inr,
  list_ord, nat_ord, none, refl, some, subst, sym, true, ℕ, ◌%◌, ◌+◌, ◌<◌, ◌==◌, ◌^◌, ◌∙◌, ◌≡◌, ◌⊎◌,
}
use gatefs.Pending.{PendingMetadataRequest, PendingOperationKey, operation_key_ord, request_keys}
use gatefs.Map

-- The ways that a choice gives a value.
pub some-if :
    {A : Type 0} (b : Bool) (x y : A) (o : Option A)
    → (if b then some x else o) ≡ some y
    → ((b ≡ true) × (x ≡ y)) ⊎ ((b ≡ false) × (o ≡ some y))
some-if true x y o e = inl (refl, ground (arith, e))
some-if false x y o e = inr (refl, e)

-- The requests are filed under their own ids, which were all handed out, and the index is the
-- inverse of what they wait on: it names a request for a key exactly if the request waits on the key.
pub record IsIndexed (r : SandboxRegistry) : Type 0 where
  pub own_id : (id : ℕ) (q : PendingMetadataRequest) → Map.get id r.pending ≡ some q → q.id ≡ id
  pub below :
      (id : ℕ) (q : PendingMetadataRequest) → Map.get id r.pending ≡ some q → id < r.next_operation
  pub sound :
      (key : PendingOperationKey) (id : ℕ)
      → Map.get key r.pending_index ≡ some id
      → (q : PendingMetadataRequest) × (Map.get id r.pending ≡ some q)
        × (has_key key (request_keys q) ≡ true)
  pub complete :
      (key : PendingOperationKey) (id : ℕ) (q : PendingMetadataRequest)
      → Map.get id r.pending ≡ some q
      → has_key key (request_keys q) ≡ true
      → Map.get key r.pending_index ≡ some id

-- A new registry's index is sound.
pub new_registry-IsIndexed : IsIndexed new_registry
unfolding Map.get
new_registry-IsIndexed = record {
  own_id = λ id q e. ground arith;
  below = λ id q e. ground arith;
  sound = λ key id e. ground arith;
  complete = λ key id q e f. ground arith;
}

insert-cases :
    (r : SandboxRegistry) (q : PendingMetadataRequest) (id : ℕ) (p : PendingMetadataRequest)
    → Map.get id (Map.insert q.id q r.pending) ≡ some p
    → ((q.id ≡ id) × (q ≡ p)) ⊎ (Map.get id r.pending ≡ some p)
insert-cases r q id p g =
    elim (some-if (q.id == id) q p (Map.get id r.pending)
      (sym (Map.get-insert q.id id q r.pending) ∙ g)) [
        | inl (e, f) ↦ inl ((==_iff q.id id).0 e, f)
        | inr (e, f) ↦ inr f
      ]

pub next_id : (n : ℕ) → n + 1 < 2 ^ 64 → (n + 1) % 2 ^ 64 ≡ n + 1
next_id n h = omega (arith, h)

-- Inserting a request under the id just handed out keeps an exact index exact, where no indexed
-- request waits on one of its keys and fewer than 2 ^ 64 - 1 ids were handed out.
pub insert_pending_request-IsIndexed :
    (r : SandboxRegistry) (q : PendingMetadataRequest)
    → IsIndexed r
    → q.id ≡ r.next_operation
    → r.next_operation + 1 < 2 ^ 64
    → ((key : PendingOperationKey)
        → has_key key (request_keys q) ≡ true
        → Map.get key r.pending_index ≡ none)
    → IsIndexed (insert_pending_request q (next_operation_id r).0)
unfolding insert_pending_request next_operation_id
insert_pending_request-IsIndexed r q w e h free = record {
  own_id = λ id p g. elim (insert-cases r q id p g) [
    | inl (a, b) ↦ ap (λ x. x.id) (sym b) ∙ a
    | inr a ↦ w.own_id id p a
  ];
  below = λ id p g. elim (insert-cases r q id p g) [
    | inl (a, b) ↦ rw (next_id r.next_operation h, sym a, e) (omega arith)
    | inr a ↦ rw (next_id r.next_operation h) (omega (arith, w.below id p a))
  ];
  sound = λ key id g.
      elim (some-if (has_key key (request_keys q)) q.id id (Map.get key r.pending_index)
        (sym (get-index_keys q.id (request_keys q) key r.pending_index) ∙ g)) [
          | inl (a, b) ↦ (q, Map.get-insert q.id id q r.pending ∙ rw ((==_iff q.id id).1 b) refl, a)
          | inr (a, b) ↦
              let (p, f, k) = w.sound key id b in
              (p, Map.get-insert q.id id q r.pending ∙ rw (other id p f) f, k)
        ];
  complete = λ key id p g k.
      get-index_keys q.id (request_keys q) key r.pending_index ∙ elim (insert-cases r q id p g) [
        | inl (a, b) ↦ rw (subst (λ x. has_key key (request_keys x) ≡ true) (sym b) k, a) refl
        | inr a ↦ rw (apart key id p a k) (w.complete key id p a k)
      ];
}
  where
    other :
        (id : ℕ) (p : PendingMetadataRequest) → Map.get id r.pending ≡ some p → (q.id == id) ≡ false
    other id p f = elim (Bool-cases (q.id == id)) [
      | inl b ↦ ground (arith, w.below id p f, (==_iff q.id id).0 b, e)
      | inr b ↦ b
    ]

    apart :
        (key : PendingOperationKey) (id : ℕ) (p : PendingMetadataRequest)
        → Map.get id r.pending ≡ some p
        → has_key key (request_keys p) ≡ true
        → has_key key (request_keys q) ≡ false
    apart key id p a k = elim (Bool-cases (has_key key (request_keys q))) [
      | inl b ↦ ground (arith, free key b, w.complete key id p a k)
      | inr b ↦ b
    ]

-- Nothing is left out.
pub IsIndexedBut-IsIndexed : {r : SandboxRegistry} → IsIndexedBut [] r → IsIndexed r
unfolding any
IsIndexedBut-IsIndexed w = record {
  own_id = w.own_id;
  below = w.below;
  sound = w.sound;
  complete = λ key id q g k. w.complete key id q g k refl;
}

pub IsIndexed-IsIndexedBut : {ids : List ℕ} {r : SandboxRegistry} → IsIndexed r → IsIndexedBut ids r
IsIndexed-IsIndexedBut w = record {
  own_id = w.own_id;
  below = w.below;
  sound = w.sound;
  complete = λ key id q g k out. w.complete key id q g k;
}

-- Removing a request, pending or not, keeps an exact index exact.
pub remove_pending_request-IsIndexed :
    (r : SandboxRegistry) (id : ℕ) → IsIndexed r → IsIndexed (remove_pending_request id r).0
unfolding remove_pending_request
remove_pending_request-IsIndexed r id w =
    IsIndexedBut-IsIndexed
      (remove_found-IsIndexedBut id [] r (Map.get id r.pending) refl (IsIndexed-IsIndexedBut w))
