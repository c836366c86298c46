-- ===== src/Registry/Asked.antt =====
-- src/state.rs: the pending requests of both tables as one: what is asked under an id.

use gatefs.Pending.{
  PendingMetadataRequest, PendingReadWriteRequest, PendingRequest, metadata_request,
  operation_key_ord, read_write_request, request_id, request_keys,
}
use gatefs.Registry.{
  SandboxRegistry, as_read_write, insert_any_pending_request, insert_pending_read_write_request,
  insert_pending_request, remove_any_pending_request, remove_found,
  remove_pending_read_write_request, remove_pending_request, unindex_keys,
}
use gatefs.Base.{
  ==_iff, Bool-cases, Option, ap, arith, if◌then◌else◌, inl, inr, list_ord, nat_ord, none, refl,
  some, subst, sym, ℕ, ◌==◌, ◌∙◌, ◌≡◌, ◌≢◌,
}
use gatefs.Map

abbrev pub either_request :
    Option PendingMetadataRequest → Option PendingReadWriteRequest → Option PendingRequest
either_request (some m) q = some (metadata_request m)
either_request none (some q) = some (read_write_request q)
either_request none none = none

abbrev pub lookup_pending : ℕ → SandboxRegistry → Option PendingRequest
lookup_pending id r = either_request (Map.get id r.pending) (Map.get id r.pending_read_write)

-- Each request stands under its own id, in one of the tables alone.
pub record IsFiled (r : SandboxRegistry) : Type 0 where
  pub own_metadata :
      (id : ℕ) (q : PendingMetadataRequest) → Map.get id r.pending ≡ some q → q.id ≡ id
  pub own_read_write :
      (id : ℕ) (q : PendingReadWriteRequest) → Map.get id r.pending_read_write ≡ some q → q.id ≡ id
  pub disjoint :
      (id : ℕ) (q : PendingMetadataRequest)
      → Map.get id r.pending ≡ some q
      → Map.get id r.pending_read_write ≡ none
  pub metadata_map : Map.IsMap r.pending
  pub read_write_map : Map.IsMap r.pending_read_write

-- `remove_any_pending_request` by what the tables hold.
unfoldable pub removed_by :
    ℕ
    → Option PendingMetadataRequest
    → Option PendingReadWriteRequest
    → SandboxRegistry
    → SandboxRegistry × Option PendingRequest
unfolding unindex_keys
removed_by id (some m) q r = (
  record r {
    pending = Map.remove id r.pending;
    pending_index = unindex_keys id (request_keys m) r.pending_index;
  },
  some (metadata_request m),
)
removed_by id none q r =
    (record r { pending_read_write = Map.remove id r.pending_read_write }, either_request none q)

as_either :
    (r : SandboxRegistry) (q : Option PendingReadWriteRequest)
    → as_read_write (r, q) ≡ (r, either_request none q)
as_either r none = refl
as_either r (some q) = refl

pub remove_any-removed_by :
    (id : ℕ) (r : SandboxRegistry)
    → remove_any_pending_request id r
      ≡ removed_by id (Map.get id r.pending) (Map.get id r.pending_read_write) r
unfolding remove_any_pending_request remove_pending_request remove_found
    remove_pending_read_write_request removed_by
remove_any-removed_by id r = by_cases (Map.get id r.pending)
  where
    by_cases :
        (x : Option PendingMetadataRequest)
        → (let (s, q) = remove_found id x r in
            elim q [
              | some m ↦ (s, some (metadata_request m))
              | none ↦ as_read_write (remove_pending_read_write_request id s)
            ])
          ≡ removed_by id x (Map.get id r.pending_read_write) r
    by_cases (some m) = refl
    by_cases none = as_either (removed_by id none none r).0 (Map.get id r.pending_read_write)

lookup_pending-removed_by :
    (id i : ℕ) (r : SandboxRegistry) (x : Option PendingMetadataRequest)
    → (x ≢ none → Map.get id r.pending_read_write ≡ none)
    → Map.get id r.pending ≡ x
    → lookup_pending i (removed_by id x (Map.get id r.pending_read_write) r).0
      ≡ (if id == i then none else lookup_pending i r)
unfolding removed_by
lookup_pending-removed_by id i r (some m) h e =
    ap (λ o. either_request o (Map.get i r.pending_read_write)) (Map.get-remove id i r.pending)
    ∙ elim (Bool-cases (id == i)) [
      | inl b ↦ rw b (
          ap (λ j. either_request none (Map.get j r.pending_read_write)) (sym ((==_iff id i).0 b))
          ∙ ap (either_request none) (h (ground arith)))
      | inr b ↦ rw b refl
    ]
lookup_pending-removed_by id i r none h e =
    ap (either_request (Map.get i r.pending)) (Map.get-remove id i r.pending_read_write)
    ∙ elim (Bool-cases (id == i)) [
      | inl b ↦ rw b (
          ap (λ j. either_request (Map.get j r.pending) none) (sym ((==_iff id i).0 b))
          ∙ ap (λ o. either_request o none) e)
      | inr b ↦ rw b refl
    ]

-- A request that is taken out is gone from the tables, and no other is.
pub lookup_pending-remove_any :
    (id i : ℕ) (r : SandboxRegistry)
    → IsFiled r
    → lookup_pending i (remove_any_pending_request id r).0
      ≡ (if id == i then none else lookup_pending i r)
lookup_pending-remove_any id i r f =
    ap (λ x. lookup_pending i x.0) (remove_any-removed_by id r)
    ∙ lookup_pending-removed_by id i r (Map.get id r.pending) (alone (Map.get id r.pending) refl)
        refl
  where
    alone :
        (x : Option PendingMetadataRequest)
        → Map.get id r.pending ≡ x
        → x ≢ none
        → Map.get id r.pending_read_write ≡ none
    alone (some m) e n = f.disjoint id m e
    alone none e n = ground arith

-- What is taken out is what was asked.
pub remove_any-lookup_pending :
    (id : ℕ) (r : SandboxRegistry) → (remove_any_pending_request id r).1 ≡ lookup_pending id r
unfolding removed_by
remove_any-lookup_pending id r =
    ap (λ x. x.1) (remove_any-removed_by id r) ∙ by_cases (Map.get id r.pending)
  where
    by_cases :
        (x : Option PendingMetadataRequest)
        → (removed_by id x (Map.get id r.pending_read_write) r).1
          ≡ either_request x (Map.get id r.pending_read_write)
    by_cases (some m) = refl
    by_cases none = refl

-- The rest of the registry is as it was.
abbrev pub OthersSame : SandboxRegistry → SandboxRegistry → Type 0
OthersSame r s =
    (s.sandboxes ≡ r.sandboxes)
    × ((s.pending_waiters ≡ r.pending_waiters)
        × ((s.next_operation ≡ r.next_operation) × (s.read_write_grants ≡ r.read_write_grants)))

pub remove_any-OthersSame :
    (id : ℕ) (r : SandboxRegistry) → OthersSame r (remove_any_pending_request id r).0
unfolding removed_by
remove_any-OthersSame id r =
    subst (λ x. OthersSame r x.0) (sym (remove_any-removed_by id r))
      (by_cases (Map.get id r.pending))
  where
    by_cases :
        (x : Option PendingMetadataRequest)
        → OthersSame r (removed_by id x (Map.get id r.pending_read_write) r).0
    by_cases (some m) = (refl, (refl, (refl, refl)))
    by_cases none = (refl, (refl, (refl, refl)))

pub insert_any-OthersSame :
    (q : PendingRequest) (r : SandboxRegistry) → OthersSame r (insert_any_pending_request q r)
unfolding insert_any_pending_request insert_pending_request insert_pending_read_write_request
insert_any-OthersSame (metadata_request q) r = (refl, (refl, (refl, refl)))
insert_any-OthersSame (read_write_request q) r = (refl, (refl, (refl, refl)))

-- A request that is filed where nothing was asked.
pub lookup_pending-insert_any :
    (q : PendingRequest) (i : ℕ) (r : SandboxRegistry)
    → lookup_pending (request_id q) r ≡ none
    → lookup_pending i (insert_any_pending_request q r)
      ≡ (if request_id q == i then some q else lookup_pending i r)
unfolding insert_any_pending_request insert_pending_request insert_pending_read_write_request
    request_id
lookup_pending-insert_any (metadata_request q) i r h =
    ap (λ o. either_request o (Map.get i r.pending_read_write)) (Map.get-insert q.id i q r.pending)
    ∙ elim (Bool-cases (q.id == i)) [ inl b ↦ rw b refl | inr b ↦ rw b refl ]
lookup_pending-insert_any (read_write_request q) i r h =
    ap (either_request (Map.get i r.pending)) (Map.get-insert q.id i q r.pending_read_write)
    ∙ elim (Bool-cases (q.id == i)) [
      | inl b ↦ rw b (
          ap (λ o. either_request o (some q))
            (subst (λ j. Map.get j r.pending ≡ none) ((==_iff q.id i).0 b)
              (no_metadata (Map.get q.id r.pending) (Map.get q.id r.pending_read_write) h)))
      | inr b ↦ rw b refl
    ]
  where
    no_metadata :
        (x : Option PendingMetadataRequest) (y : Option PendingReadWriteRequest)
        → either_request x y ≡ none
        → x ≡ none
    no_metadata none y e = refl
    no_metadata (some m) y e = ground arith
