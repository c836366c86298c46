-- ===== src/Registry/Listing.antt =====
-- src/state.rs: the list of a sandbox's pending requests.
use mathlib.Core.List.{Perm}
use gatefs.Text.{Bytes}
use gatefs.Registry.{SandboxRegistry, pending_requests_for_sandbox}
use gatefs.Pending.{
  PendingRequest, metadata_request, read_write_request, request_id, request_sandbox,
}
use gatefs.Sort.{All-sort, IsSorted, by_key, sort-IsSorted, sort-perm}
use gatefs.Base.{
  All, All-append, All-map, Bool, Bool-cases, List, [], inl, inr, list_ord, map, nat_ord, retain,
  true, ◌++◌, ◌==◌, ◌∷◌, ◌≡◌,
}
use gatefs.Map

All-pass : {A : Type 0} (p : A → Bool) (xs : List A) → All (λ x. p x ≡ true) (retain p xs)
unfolding retain
All-pass p [] = tt
All-pass p (x ∷ xs) = elim (Bool-cases (p x)) [
  | inl e ↦ rw e (e, All-pass p xs)
  | inr e ↦ rw e (All-pass p xs)
]

-- The list has the sandbox's requests of both tables, no other, and each table's as often as it
-- holds them; it is in the order of the ids.
pub pending_requests_for_sandbox_lem :
    (name : Bytes) (r : SandboxRegistry)
    → IsSorted request_id (pending_requests_for_sandbox name r)
      × All (λ q. (request_sandbox q == name) ≡ true) (pending_requests_for_sandbox name r)
      × Perm (pending_requests_for_sandbox name r) (
          map metadata_request (retain (λ q. q.sandbox == name) (Map.values r.pending))
          ++ map read_write_request
              (retain (λ q. q.sandbox == name) (Map.values r.pending_read_write)))
unfolding pending_requests_for_sandbox request_sandbox
pending_requests_for_sandbox_lem name r =
    let metadata_ones = retain (λ q. q.sandbox == name) (Map.values r.pending) in
    let read_write_ones = retain (λ q. q.sandbox == name) (Map.values r.pending_read_write) in
    let both = map metadata_request metadata_ones ++ map read_write_request read_write_ones in
    let is_of : PendingRequest → Type 0 = λ q. (request_sandbox q == name) ≡ true in
    (
      sort-IsSorted request_id both,
      All-sort is_of (by_key request_id) both (
          All-append is_of (map metadata_request metadata_ones)
            (map read_write_request read_write_ones)
            (All-map is_of metadata_request metadata_ones
              (All-pass (λ q. q.sandbox == name) (Map.values r.pending)))
            (All-map is_of read_write_request read_write_ones
              (All-pass (λ q. q.sandbox == name) (Map.values r.pending_read_write)))),
      sort-perm (by_key request_id) both,
    )
