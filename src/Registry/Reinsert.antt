-- ===== src/Registry/Reinsert.antt =====
-- src/state.rs: what a decision in the name of another sandbox does, which takes a request out and
-- files it again.
use gatefs.Registry.Keys.{get-index_keys, get-unindex_keys, has_key}
use gatefs.Registry.Index.{IsIndexed}
use gatefs.Registry.{
  SandboxRegistry, insert_pending_request, remove_found, remove_pending_request, unindex_keys,
}
use gatefs.Base.{
  ==_iff, Bool-cases, ap, if◌then◌else◌, inl, inr, list_ord, nat_ord, none, refl, some, subst, sym,
  ℕ, ◌==◌, ◌∙◌, ◌≡◌,
}
use gatefs.Pending.{PendingMetadataRequest, PendingOperationKey, operation_key_ord, request_keys}
use gatefs.Map

-- In a registry with an exact index, a metadata request that is removed and inserted again leaves
-- every lookup of the pending requests and of the index as it was.
pub insert-remove_pending_request :
    (r : SandboxRegistry) (id : ℕ) (q : PendingMetadataRequest)
    → IsIndexed r
    → Map.get id r.pending ≡ some q
    → ((j : ℕ)
        → Map.get j (insert_pending_request q (remove_pending_request id r).0).pending
          ≡ Map.get j r.pending)
      × ((key : PendingOperationKey)
          → Map.get key (insert_pending_request q (remove_pending_request id r).0).pending_index
            ≡ Map.get key r.pending_index)
unfolding insert_pending_request
insert-remove_pending_request r id q w e =
    subst (λ x. Same x) (sym removed_is) (same_pending, same_index)
  where
    after : SandboxRegistry
    after = record r {
      pending = Map.remove id r.pending;
      pending_index = unindex_keys id (request_keys q) r.pending_index;
    }

    Same : SandboxRegistry → Type 0
    Same x =
        ((j : ℕ) → Map.get j (insert_pending_request q x).pending ≡ Map.get j r.pending)
        × ((key : PendingOperationKey)
            → Map.get key (insert_pending_request q x).pending_index ≡ Map.get key r.pending_index)

    removed_is : (remove_pending_request id r).0 ≡ after
    removed_is = unfold remove_pending_request remove_found in ap (λ x. (remove_found id x r).0) e

    same_pending :
        (j : ℕ) → Map.get j (insert_pending_request q after).pending ≡ Map.get j r.pending
    same_pending j =
        Map.get-insert q.id j q (Map.remove id r.pending)
        ∙ ap (λ o. if q.id == j then some q else o) (Map.get-remove id j r.pending)
        ∙ ap (λ i. if i == j then some q else if id == j then none else Map.get j r.pending)
            (w.own_id id q e)
        ∙ elim (Bool-cases (id == j)) [
          | inl b ↦ rw b (subst (λ x. some q ≡ Map.get x r.pending) ((==_iff id j).0 b) (sym e))
          | inr b ↦ rw b refl
        ]

    same_index :
        (key : PendingOperationKey)
        → Map.get key (insert_pending_request q after).pending_index ≡ Map.get key r.pending_index
    same_index key =
        get-index_keys q.id (request_keys q) key (unindex_keys id (request_keys q) r.pending_index)
        ∙ ap (λ o. if has_key key (request_keys q) then some q.id else o)
            (get-unindex_keys id (request_keys q) key r.pending_index)
        ∙ elim (Bool-cases (has_key key (request_keys q))) [
          | inl b ↦ rw (b, w.own_id id q e) (sym (w.complete key id q e b))
          | inr b ↦ rw b refl
        ]
