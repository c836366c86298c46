-- ===== src/Session/Release.antt =====
-- src/session.rs: `allow` with a grant: the requests that it releases, its lines and its response.
use gatefs.Text.{Bytes}
use gatefs.Policy.{Glob}
use gatefs.Path.{SandboxPath}
use gatefs.Session.Allow.{
  GrantAllowOutcome, Machine, ReleasedReadWritePending, least, lifetime_of, release_each,
}
use gatefs.Pending.{PendingReadWriteRequest}
use gatefs.StdPath.{PathBuf}
use gatefs.Grant.{
  ReadWriteAccessGrant, ReadWriteGrantLifetime, ReadWriteGrantLifetimeRequest,
  ReadWriteGrantSubject, duration, epoch_millis, matches_request, one_shot,
}
use gatefs.Registry.{
  SandboxRegistry, insert_pending_read_write_request, insert_read_write_grant,
  matching_pending_read_write_ids_for_grant, next_operation_id,
}
use gatefs.Base.{
  Bool, List, Option, [], false, if◌then◌else◌, nat_eq, none, some, true, ℕ, ◌++◌, ◌∷◌, nat_ord,
}
use gatefs.Map

unfoldable pub put_waiter : ℕ → Option ℕ → SandboxRegistry → SandboxRegistry
put_waiter id none r = r
put_waiter id (some waiter) r = record r {
  pending_waiters = Map.insert id waiter r.pending_waiters;
}

-- The request is pending again, with its waiter.
unfoldable pub put_back : PendingReadWriteRequest → ℕ → Option ℕ → SandboxRegistry → SandboxRegistry
unfolding insert_pending_read_write_request put_waiter
put_back q id waiter r = put_waiter id waiter (insert_pending_read_write_request q r)

-- The releases, whether the selected request is one of them, and the event of a consumed grant.
pub record Releases : Type 0 where
  pub released : List ReleasedReadWritePending
  pub selected_released : Bool
  pub consumed_event_id : Option ℕ

abbrev pub selected_release : ℕ → Option ℕ → Option ℕ → ReleasedReadWritePending
selected_release id attach_id waiter = record {
  id = id;
  attach_id = attach_id;
  release_event_id = none;
  waiter = waiter;
}

-- A grant for one use serves the oldest of the requests that it matches, or waits for one.
unfoldable pub release_one :
    ReadWriteAccessGrant
    → ReleasedReadWritePending
    → Option ℕ
    → SandboxRegistry
    → SandboxRegistry × Releases
unfolding release_each next_operation_id insert_read_write_grant
release_one g selected none r = (
  insert_read_write_grant g r,
  record { released = []; selected_released = false; consumed_event_id = none },
)
release_one g selected (some oldest) r =
    if nat_eq oldest selected.id
    then (let (r1, event_id) = next_operation_id r in
        (
          r1,
          record {
            released = selected ∷ [];
            selected_released = true;
            consumed_event_id = some event_id;
          },
        ))
    else (let (r1, others) = release_each (oldest ∷ []) r in
        let (r2, event_id) = next_operation_id r1 in
        (
          r2,
          record {
            released = others;
            selected_released = false;
            consumed_event_id = some event_id;
          },
        ))

-- A grant for a time serves all the requests that it matches, and stays.
unfoldable pub release_all :
    ReadWriteAccessGrant
    → ReleasedReadWritePending
    → Bool
    → List ℕ
    → SandboxRegistry
    → SandboxRegistry × Releases
unfolding release_each insert_read_write_grant
release_all g selected selected_matches ids r =
    let (r1, others) = release_each ids r in
    (
      insert_read_write_grant g r1,
      record {
        released = (if selected_matches then selected ∷ others else others);
        selected_released = selected_matches;
        consumed_event_id = none;
      },
    )

unfoldable pub release_by :
    ReadWriteGrantLifetime
    → ReadWriteAccessGrant
    → ReleasedReadWritePending
    → Bool
    → List ℕ
    → SandboxRegistry
    → SandboxRegistry × Releases
unfolding release_one release_all least
release_by one_shot g selected selected_matches ids r =
    release_one g selected (least (if selected_matches then ids ++ selected.id ∷ [] else ids)) r
release_by (duration expires_at) g selected selected_matches ids r =
    release_all g selected selected_matches ids r

-- The grant of an `allow`: the selected request, its identity, and what the options say.
pub record Grounds : Type 0 where
  pub request : PendingReadWriteRequest
  pub waiter : Option ℕ
  pub path : SandboxPath
  pub lifetime : ReadWriteGrantLifetimeRequest
  pub decision_id : ℕ
  pub log_path : PathBuf
  pub warning : Option Bytes

unfoldable pub new_grant :
    Machine → Bytes → Grounds → ReadWriteGrantSubject → ℕ → ReadWriteAccessGrant
unfolding lifetime_of
new_grant machine name f subject grant_id = record {
  id = grant_id;
  sandbox = name;
  kind = f.request.kind;
  path_pattern = f.path;
  subject = subject;
  lifetime = lifetime_of machine f.lifetime;
  created_at = epoch_millis machine.now;
}

unfoldable pub put_back_unless :
    Bool → PendingReadWriteRequest → ℕ → Option ℕ → SandboxRegistry → SandboxRegistry
unfolding put_back
put_back_unless released q id waiter r = if released then r else put_back q id waiter r

-- No subject is found: the selected request alone is released. Otherwise the grant is made.
unfoldable pub grant_for_subject :
    Machine
    → Glob
    → Bytes
    → ℕ
    → Grounds
    → Option ReadWriteGrantSubject
    → SandboxRegistry
    → SandboxRegistry × GrantAllowOutcome
unfolding next_operation_id release_by put_back new_grant put_back_unless
grant_for_subject machine glob name id f none r = (
  r,
  record {
    decision_id = f.decision_id;
    grant_event_id = none;
    consumed_event_id = none;
    log_path = f.log_path;
    request_id = id;
    request_attach_id = f.request.attach_id;
    released = selected_release id f.request.attach_id f.waiter ∷ [];
    grant = none;
    warning = f.warning;
    downgraded = true;
  },
)
grant_for_subject machine glob name id f (some subject) r =
    let (r1, grant_id) = next_operation_id r in
    let (r2, grant_event_id) = next_operation_id r1 in
    let g = new_grant machine name f subject grant_id in
    let (r3, releases) =
      release_by g.lifetime g (selected_release id f.request.attach_id f.waiter)
        (matches_request glob g f.request machine.now)
        (matching_pending_read_write_ids_for_grant glob g machine.now r2) r2 in
    (
      put_back_unless releases.selected_released f.request id f.waiter r3,
      record {
        decision_id = f.decision_id;
        grant_event_id = some grant_event_id;
        consumed_event_id = releases.consumed_event_id;
        log_path = f.log_path;
        request_id = id;
        request_attach_id = f.request.attach_id;
        released = releases.released;
        grant = some g;
        warning = f.warning;
        downgraded = false;
      },
    )
