-- ===== src/Session/Allow.antt =====
-- src/session.rs: `allow` with a grant: whom the grant serves, and what it releases.
use gatefs.StdPath.{PathBuf}
use gatefs.Pending.{PendingReadWriteRequest, ProcessIdentityEvidence, process_identity_ord}
use gatefs.Registry.{SandboxRegistry, next_operation_id, remove_pending_read_write_request}
use gatefs.Metadata.{SystemTime}
use gatefs.Grant.{
  ReadWriteAccessGrant, ReadWriteGrantLifetime, ReadWriteGrantLifetimeRequest,
  ReadWriteGrantSubject, duration, duration_expires_at, duration_request, exact, one_shot,
  one_shot_request, process_tree,
}
use gatefs.Text.{Bytes, bytes, decimal}
use gatefs.Base.{
  Bool, List, Option, [], any, find, if◌then◌else◌, leb, nat_eq, none, or_else, some, ℕ, ◌*◌, ◌++◌,
  ◌==◌, ◌∷◌, nat_ord, list_ord,
}
use gatefs.Map

-- What the machine tells: the processes, the time, and the last time of its clock.
pub record Machine : Type 0 where
  pub identity_for_pid : ℕ → Option ProcessIdentityEvidence
  pub process_tree_for_pid : ℕ → Option (List ProcessIdentityEvidence)
  pub now : SystemTime
  pub last_time : SystemTime

-- A request that the grant releases; the selected one has no event of its own.
pub record ReleasedReadWritePending : Type 0 where
  pub id : ℕ
  pub attach_id : Option ℕ
  pub release_event_id : Option ℕ
  pub waiter : Option ℕ

pub record GrantAllowOutcome : Type 0 where
  pub decision_id : ℕ
  pub grant_event_id : Option ℕ
  pub consumed_event_id : Option ℕ
  pub log_path : PathBuf
  pub request_id : ℕ
  pub request_attach_id : Option ℕ
  pub released : List ReleasedReadWritePending
  pub grant : Option ReadWriteAccessGrant
  pub warning : Option Bytes
  pub downgraded : Bool

-- The grant's subject, if one is found, who it says the requester is, and a warning.
pub record Chosen : Type 0 where
  pub subject : Option ReadWriteGrantSubject
  pub requester : Option ProcessIdentityEvidence
  pub warning : Option Bytes

abbrev tree_unavailable : ℕ → Bytes
tree_unavailable process =
    bytes "process tree unavailable for pid "
    ++ (decimal process ++ bytes "; using exact requester grant")

abbrev identity_unavailable : ℕ → Bytes
identity_unavailable process =
    bytes "requester identity unavailable for pid "
    ++ (decimal process ++ bytes "; released current request without creating grant")

unfoldable pub exact_subject : ℕ → Option Bytes → Option ProcessIdentityEvidence → Chosen
exact_subject process warning none = record {
  subject = none;
  requester = none;
  warning = some (identity_unavailable process);
}
exact_subject process warning (some identity) = record {
  subject = some (exact identity);
  requester = some identity;
  warning = warning;
}

-- A process tree that was found, and who of it asks.
unfoldable pub tree_subject :
    ℕ
    → List ProcessIdentityEvidence
    → Option ProcessIdentityEvidence
    → Option ProcessIdentityEvidence
    → Chosen
unfolding exact_subject
tree_subject process identities own none =
    exact_subject process (some (tree_unavailable process)) own
tree_subject process identities own (some identity) =
    if any (λ i. i == identity) identities
    then record {
      subject = some (process_tree identities);
      requester = some identity;
      warning = none;
    }
    else exact_subject process (some (tree_unavailable process)) (some identity)

abbrev asks_as : ℕ → ProcessIdentityEvidence → Bool
asks_as process identity = nat_eq identity.pid process

unfoldable pub choose_in_tree :
    PendingReadWriteRequest
    → Option ProcessIdentityEvidence
    → Option (List ProcessIdentityEvidence)
    → Chosen
unfolding exact_subject tree_subject
choose_in_tree q own none = exact_subject q.pid (some (tree_unavailable q.pid)) own
choose_in_tree q own (some []) = exact_subject q.pid (some (tree_unavailable q.pid)) own
choose_in_tree q own (some (i ∷ is)) =
    tree_subject q.pid (i ∷ is) own (or_else q.process_identity (find (asks_as q.pid) (i ∷ is)))

unfoldable pub choose_subject : Machine → Bool → PendingReadWriteRequest → Chosen
unfolding choose_in_tree
choose_subject machine tree q =
    let own = or_else q.process_identity (machine.identity_for_pid q.pid) in
    if tree
    then choose_in_tree q own (machine.process_tree_for_pid q.pid)
    else exact_subject q.pid none own

unfoldable pub lifetime_of : Machine → ReadWriteGrantLifetimeRequest → ReadWriteGrantLifetime
unfolding duration_expires_at
lifetime_of machine one_shot_request = one_shot
lifetime_of machine (duration_request seconds) =
    duration (duration_expires_at machine.last_time machine.now (seconds * 1000000000))

-- `Iterator::min`.
unfoldable pub least : List ℕ → Option ℕ
least [] = none
least (n ∷ ns) = elim (least ns) [ none ↦ some n | some m ↦ some (if leb n m then n else m) ]

-- One id of a matching request; an id with no request is passed over.
unfoldable pub release_found :
    ℕ
    → SandboxRegistry × Option PendingReadWriteRequest
    → SandboxRegistry × List ReleasedReadWritePending
unfolding next_operation_id
release_found id (r, none) = (r, [])
release_found id (r, some q) =
    let (r1, event_id) = next_operation_id r in
    (
      record r1 { pending_waiters = Map.remove id r1.pending_waiters },
      record {
        id = id;
        attach_id = q.attach_id;
        release_event_id = some event_id;
        waiter = Map.get id r1.pending_waiters;
      }
          ∷ [],
    )

unfoldable pub release_each :
    List ℕ → SandboxRegistry → SandboxRegistry × List ReleasedReadWritePending
unfolding release_found remove_pending_read_write_request
release_each [] r = (r, [])
release_each (id ∷ ids) r =
    let (r1, first) = release_found id (remove_pending_read_write_request id r) in
    let (r2, later) = release_each ids r1 in (r2, first ++ later)
