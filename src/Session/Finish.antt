-- ===== src/Session/Finish.antt =====
-- src/session.rs: `allow` with a grant: its guards, its lines and its response.
use gatefs.Pending.{
  PendingDecision, PendingReadWriteRequest, PendingRequest, ProcessIdentityEvidence,
  metadata_request, read_write_request,
}
use gatefs.Session.Release.{grant_for_subject, put_back}
use gatefs.Session.{Outcome, not_found, with_registry}
use gatefs.Policy.{kind_log_name}
use gatefs.Session.Allow.{GrantAllowOutcome, Machine, ReleasedReadWritePending, choose_subject}
use gatefs.Registry.{SandboxRegistry, insert_any_pending_request, next_operation_id}
use gatefs.Session.Scope.{append_result, first_error}
use gatefs.Sandbox.{Sandbox}
use gatefs.World.{Outside, World, format_attach_field, notify_waiter}
use gatefs.Session.Decide.{allow_request, take_pending}
use gatefs.Ipc.{Response, done, warning}
use gatefs.Path.{SandboxPath, as_str}
use gatefs.Text.{Bytes, bytes, decimal}
use gatefs.StdPath.{PathBuf}
use gatefs.Grant.{
  ReadWriteAccessGrant, ReadWriteGrantLifetime, ReadWriteGrantLifetimeRequest,
  ReadWriteGrantOptions, duration, duration_request, grant_pattern_matches, lifetime_log_name,
  one_shot, one_shot_request, subject_len, subject_log_name,
}
use gatefs.Base.{
  Bool, List, Option, [], false, if◌then◌else◌, map, nat_eq, none, not, or_else, some, unwrap_or, ℕ,
  ◌++◌, ◌∷◌, nat_ord, list_ord,
}
use gatefs.Map
use gatefs.Error.{Error, Result, err, message, ok}

-- `format!`, of the texts of its pieces.
unfoldable pub concat_texts : List Bytes → Bytes
concat_texts [] = []
concat_texts (s ∷ ss) = s ++ concat_texts ss

-- `value.replace('\\', "\\\\").replace('"', "\\\"")`, of one byte.
unfoldable quote_byte : ℕ → Bytes
quote_byte b = if nat_eq b 92 then 92 ∷ 92 ∷ [] else if nat_eq b 34 then 92 ∷ 34 ∷ [] else b ∷ []

unfoldable pub quote_log_value : Bytes → Bytes
unfolding quote_byte concat_texts
quote_log_value plain = 34 ∷ (concat_texts (map quote_byte plain) ++ 34 ∷ [])

abbrev expiry_field : ReadWriteGrantLifetime → Bytes
expiry_field one_shot = []
expiry_field (duration expires_at) = bytes " expires_at_epoch_ms=" ++ decimal expires_at

unfoldable pub format_grant_created_body : ReadWriteAccessGrant → Bytes
unfolding lifetime_log_name subject_log_name subject_len concat_texts
format_grant_created_body g = concat_texts (
    bytes "grant-created grant="
    ∷ decimal g.id
    ∷ bytes " kind="
    ∷ kind_log_name g.kind
    ∷ bytes " path="
    ∷ as_str g.path_pattern
    ∷ bytes " subject="
    ∷ subject_log_name g.subject
    ∷ bytes " subject_count="
    ∷ decimal (subject_len g.subject)
    ∷ bytes " lifetime="
    ∷ lifetime_log_name g.lifetime
    ∷ expiry_field g.lifetime
    ∷ [])

unfoldable pub format_grant_consumed_body : ℕ → Bytes
format_grant_consumed_body grant_id =
    bytes "grant-consumed grant=" ++ (decimal grant_id ++ bytes " lifetime=one-shot")

-- The selected request with the identity that was found, as the grant reads it.
abbrev with_requester :
    Option ProcessIdentityEvidence → PendingReadWriteRequest → PendingReadWriteRequest
with_requester identity q = record q { process_identity = or_else q.process_identity identity }

abbrev path_mismatch : SandboxPath → SandboxPath → Error
path_mismatch grant_path path = message (
    bytes "read/write grant path "
    ++ (as_str grant_path ++ (bytes " does not match pending path " ++ as_str path)))

module _ (machine : Machine) (outside : Outside) where
  -- After the sandbox is looked up: the decision's id, the path, the subject.
  unfoldable pub grant_found :
      Bytes
      → ℕ
      → ReadWriteGrantOptions
      → PendingReadWriteRequest
      → Option Sandbox
      → SandboxRegistry
      → SandboxRegistry × Result GrantAllowOutcome
  unfolding next_operation_id put_back choose_subject grant_for_subject
  grant_found name id options q none r = (r, err (not_found name))
  grant_found name id options q (some s) r =
      let (r1, decision_id) = next_operation_id r in
      let waiter = Map.get id r1.pending_waiters in
      let r2 : SandboxRegistry = record r1 { pending_waiters = Map.remove id r1.pending_waiters } in
      let grant_path = unwrap_or options.path q.path in
      let chosen = choose_subject machine options.tree q in
      if not (grant_pattern_matches outside.glob grant_path q.path)
      then (put_back q id waiter r2, err (path_mismatch grant_path q.path))
      else (let (r3, outcome) =
            grant_for_subject machine outside.glob name id
              (record {
                request = with_requester chosen.requester q;
                waiter = waiter;
                path = grant_path;
                lifetime = options.lifetime;
                decision_id = decision_id;
                log_path = s.log_path;
                warning = chosen.warning;
              })
              chosen.subject r2 in
          (r3, ok outcome))

  -- After the request is taken: a metadata request is filed again.
  unfoldable pub grant_taken :
      Bytes
      → ℕ
      → ReadWriteGrantOptions
      → World × Result PendingRequest
      → World × Result GrantAllowOutcome
  unfolding grant_found insert_any_pending_request
  grant_taken name id options (w, err e) = (w, err e)
  grant_taken name id options (w, ok (metadata_request q)) = (
    with_registry w (insert_any_pending_request (metadata_request q) w.registry),
    err (
        message
          (bytes "read/write grant options can only be used with read/write pending requests")),
  )
  grant_taken name id options (w, ok (read_write_request q)) =
      let (r, outcome) =
        grant_found name id options q (Map.get name w.registry.sandboxes) w.registry in
      (with_registry w r, outcome)

  -- `append` of a line that is written where its event has an id.
  unfoldable pub append_if : PathBuf → Option ℕ → Bytes → World → World × Result (Unit {0})
  unfolding append_result
  append_if log none body w = (w, ok tt)
  append_if log (some id) body w = append_result outside log id body w

  abbrev release_body : ℕ → ReleasedReadWritePending → Bytes
  release_body decision c =
      bytes "grant-release request="
      ++ (decimal c.id
          ++ (format_attach_field c.attach_id ++ (bytes " decision=" ++ decimal decision)))

  -- The lines and the words of the released requests, one after the other.
  unfoldable pub finish_released :
      PathBuf → ℕ → List ReleasedReadWritePending → World → World × Result (Unit {0})
  unfolding append_if notify_waiter
  finish_released log decision [] w = (w, ok tt)
  finish_released log decision (c ∷ cs) w =
      let (v, first) = append_if log c.release_event_id (release_body decision c) w in
      let (u, later) =
        finish_released log decision cs (notify_waiter c.waiter PendingDecision.apply v) in
      (u, first_error first later)

  abbrev pub warning_field : Option Bytes → Bytes
  unfolding quote_log_value
  warning_field none = []
  warning_field (some plain) = bytes " warning=" ++ quote_log_value plain

  abbrev pub decision_body : GrantAllowOutcome → Bytes
  decision_body o =
      bytes "decision request="
      ++ (decimal o.request_id
          ++ (format_attach_field o.request_attach_id
              ++ (bytes " ALLOW"
                  ++ ((if o.downgraded then bytes " downgraded=grantless" else [])
                      ++ warning_field o.warning))))

  abbrev if_granted : Option ReadWriteAccessGrant → Option ℕ → Option ℕ
  if_granted none event_id = none
  if_granted (some g) event_id = event_id

  abbrev pub created_body : Option ReadWriteAccessGrant → Bytes
  unfolding format_grant_created_body
  created_body none = []
  created_body (some g) = format_grant_created_body g

  abbrev pub consumed_body : Option ReadWriteAccessGrant → Bytes
  unfolding format_grant_consumed_body
  consumed_body none = []
  consumed_body (some g) = format_grant_consumed_body g.id

  abbrev warned : Option Bytes → Result (Unit {0}) → Result Response
  warned message_text (err e) = err e
  warned none (ok u) = ok done
  warned (some plain) (ok u) = ok (warning plain)

  unfoldable pub finish_read_write_grant_allow : GrantAllowOutcome → World → Outcome
  unfolding append_result append_if finish_released
  finish_read_write_grant_allow o w =
      let (w1, decided) = append_result outside o.log_path o.decision_id (decision_body o) w in
      let (w2, created) =
        append_if o.log_path (if_granted o.grant o.grant_event_id) (created_body o.grant) w1 in
      let (w3, consumed) =
        append_if o.log_path (if_granted o.grant o.consumed_event_id) (consumed_body o.grant) w2 in
      let (w4, released) = finish_released o.log_path o.request_id o.released w3 in
      (
        w4,
        warned o.warning
            (first_error decided (first_error created (first_error consumed released))),
      )

  abbrev is_instant : ReadWriteGrantLifetimeRequest → Bool
  is_instant one_shot_request = false
  is_instant (duration_request seconds) = nat_eq seconds 0

  abbrev finish_granted : World × Result GrantAllowOutcome → Outcome
  unfolding finish_read_write_grant_allow
  finish_granted (w, err e) = (w, err e)
  finish_granted (w, ok o) = finish_read_write_grant_allow o w

  unfoldable pub allow_read_write_grant : Bytes → ℕ → ReadWriteGrantOptions → World → Outcome
  unfolding take_pending grant_taken finish_read_write_grant_allow
  allow_read_write_grant name id options w =
      if is_instant options.lifetime
      then (w, err (message (bytes "duration must be greater than zero")))
      else finish_granted (grant_taken name id options (take_pending name id w))

  -- `allow`: with grant options it makes a grant, which cannot go with `do_nothing`.
  unfoldable pub allow : Bytes → ℕ → Bool → Option ReadWriteGrantOptions → World → Outcome
  unfolding allow_request allow_read_write_grant
  allow name id only_release none w = allow_request outside name id only_release w
  allow name id only_release (some options) w =
      if only_release
      then (
        w,
        err (message (bytes "allow --do-nothing cannot be combined with read/write grant options")),
      )
      else allow_read_write_grant name id options w
