-- ===== src/Examples/Registries.antt =====
-- src/state.rs: the registry on small data.
use gatefs.Registry.Reinsert.{insert-remove_pending_request}
use gatefs.Registry.Listing.{pending_requests_for_sandbox_lem}
use gatefs.Examples.Data.{granted, docs_intent, docs_request, literal_glob}
use gatefs.Registry.Index.{
  IsIndexed, insert_pending_request-IsIndexed, new_registry-IsIndexed,
  remove_pending_request-IsIndexed,
}
use gatefs.Registry.{
  SandboxRegistry, insert_pending_request, is_expired_in, match_read_write_grant_for_intent,
  new_registry, next_operation_id, pending_requests_for_sandbox,
  prune_expired_read_write_grants_for_sandbox, remove_pending_request,
}
use gatefs.Registry.Grants.{Served, match_read_write_grant_for_intent_lem, prune_lem}
use gatefs.Sort.{IsSorted}
use mathlib.Core.List.{Perm}
use gatefs.Map
use gatefs.Base.{
  All, [], arith, list_ord, map, nat_ord, not, refl, retain, true, ℕ, ◌++◌, ◌==◌, ◌∷◌, ◌≡◌,
}
use gatefs.Pending.{
  PendingOperationKey, metadata_request, operation_key_ord, read_write_request, request_id,
  request_sandbox,
}
use gatefs.Text.{bytes}

insert_pending_request-IsIndexed_example :
    IsIndexed (insert_pending_request docs_request (next_operation_id new_registry).0)
unfolding Map.get
insert_pending_request-IsIndexed_example =
    insert_pending_request-IsIndexed new_registry docs_request new_registry-IsIndexed refl
      (omega arith) (λ key h. refl)

abbrev one_pending : SandboxRegistry
one_pending = insert_pending_request docs_request (next_operation_id new_registry).0

one_pending-IsIndexed : IsIndexed one_pending
unfolding Map.get
one_pending-IsIndexed =
    insert_pending_request-IsIndexed new_registry docs_request new_registry-IsIndexed refl
      (omega arith) (λ key h. refl)

remove_pending_request-IsIndexed_example : IsIndexed (remove_pending_request 1 one_pending).0
remove_pending_request-IsIndexed_example =
    remove_pending_request-IsIndexed one_pending 1 one_pending-IsIndexed

prune_lem_example : prune_expired_read_write_grants_for_sandbox (bytes "box") 5 granted ≡ (
  record granted {
    read_write_grants =
        retain (λ e. not (is_expired_in (bytes "box") 5 e.1)) granted.read_write_grants;
  },
  Map.values (retain (λ e. is_expired_in (bytes "box") 5 e.1) granted.read_write_grants),
)
prune_lem_example = prune_lem (bytes "box") 5 granted (tt, tt)

match_read_write_grant_for_intent_lem_example :
    Served literal_glob docs_intent 5 granted
      (match_read_write_grant_for_intent literal_glob docs_intent 5 granted)
match_read_write_grant_for_intent_lem_example =
    match_read_write_grant_for_intent_lem literal_glob docs_intent 5 granted (tt, tt)

abbrev waiting : SandboxRegistry
waiting = record granted { pending = (1, docs_request) ∷ [] }

pending_requests_for_sandbox_lem_example :
    IsSorted request_id (pending_requests_for_sandbox (bytes "box") waiting)
    × All
        (λ q. (request_sandbox q == bytes "box") ≡ true)
        (pending_requests_for_sandbox (bytes "box") waiting)
    × Perm (pending_requests_for_sandbox (bytes "box") waiting) (
        map metadata_request (retain (λ q. q.sandbox == bytes "box") (Map.values waiting.pending))
        ++ map read_write_request
            (retain (λ q. q.sandbox == bytes "box") (Map.values waiting.pending_read_write)))
pending_requests_for_sandbox_lem_example = pending_requests_for_sandbox_lem (bytes "box") waiting

insert-remove_pending_request_example :
    ((j : ℕ)
      → Map.get j
          (insert_pending_request docs_request (remove_pending_request 1 one_pending).0).pending
        ≡ Map.get j one_pending.pending)
    × ((key : PendingOperationKey)
        → Map.get key
            (insert_pending_request docs_request
              (remove_pending_request 1 one_pending).0).pending_index
          ≡ Map.get key one_pending.pending_index)
unfolding insert_pending_request next_operation_id Map.insert Map.get
insert-remove_pending_request_example =
    insert-remove_pending_request one_pending 1 docs_request one_pending-IsIndexed refl
