-- ===== src/Fs.antt =====
-- src/fs.rs: how the file system asks leave for reads and writes: grants, pending requests, decisions.
pub mod Leave
pub mod Proceed
pub mod Free
pub mod Flags
pub mod Attr
pub mod Change
pub mod Keys
pub mod Supersede
pub mod Applied
pub mod Superseding
pub mod Asking
pub mod Exact
pub mod Indexed
use gatefs.Metadata.{SystemTime}
use gatefs.Policy.{ProtectionKind}
use gatefs.Registry.{
  SandboxRegistry, TrustedPathScope, insert_pending_read_write_request,
  match_read_write_grant_for_intent, next_operation_id,
}
use gatefs.Sandbox.{Sandbox, is_bypass, is_protected}
use gatefs.Grant.{GrantMatchOutcome, Intent, matched, not_matched}
use gatefs.Operation.{ReadWriteEffect, ReadWriteOperation, is_xattr_operation}
use gatefs.Sandbox.Objects.{path_is_directory}
use gatefs.Pending.{
  PendingReadWriteRequest, ProcessIdentityEvidence, RequesterIdentity, new_with_attach_effect,
  with_process_identity,
}
use gatefs.Text.{Bytes, bytes}
use gatefs.Base.{
  Bool, List, Option, [], any, false, if◌then◌else◌, inl, inr, list_ord, nat_eq, nat_ord, none, not,
  some, true, ℕ, ◌&&◌, ◌++◌, ◌+◌, ◌==◌, ◌||◌, ◌∷◌, ◌⊎◌,
}
use gatefs.StdPath.{PathBuf, component_ord}
use gatefs.Path.{SandboxPath, sandbox_path_ord, starts_with}
use gatefs.World.{Outside, World, append_line, format_attach_field}
use gatefs.Map

-- The error numbers of the model's code.
pub data Errno : Type 0 where
  enoent eio enotsup eperm ecanceled einval : Errno
  os_error : ℕ → Errno

pub data ReadWriteDecision : Type 0 where
  proceed denied canceled : ReadWriteDecision

-- A mounted view: its sandbox and its attach.
pub record SandboxFs : Type 0 where
  pub sandbox_name : Bytes
  pub attach_id : Option ℕ

-- The `any` over the paths of a trusted operation.
unfoldable pub scope_covers : SandboxPath → TrustedPathScope → Bool
scope_covers path scope =
    if scope.recursive then starts_with path scope.path else path == scope.path

abbrev pub is_some_of : Option ℕ → ℕ → Bool
is_some_of none n = false
is_some_of (some m) n = nat_eq m n

unfoldable pub is_trusted_operation : SandboxRegistry → Bytes → ℕ → ℕ → SandboxPath → Bool
unfolding scope_covers
is_trusted_operation registry sandbox_name process user path =
    any
      (λ op.
        op.sandbox == sandbox_name
        && (is_some_of op.pid process
            && (is_some_of op.uid user && any (scope_covers path) op.paths)))
      (Map.values registry.trusted)

-- What `authorize_read_write` collects: the requests that it waits for, each with its waiter, and
-- the events of consumed grants.
pub record Asked : Type 0 where
  pub waits : List (ℕ × ℕ)
  pub consumed_events : List (ℕ × ℕ)

-- One access: who asks, from which view, at what time, and for which operation.
pub record Access : Type 0 where
  pub fs : SandboxFs
  pub requester : RequesterIdentity
  pub process_identity : Option ProcessIdentityEvidence
  pub now : SystemTime
  pub operation : ReadWriteOperation

module _ (outside : Outside) where
  -- The test under which an effect needs no leave.
  unfoldable pub needs_no_leave : Sandbox → ReadWriteOperation → ReadWriteEffect → Bool
  needs_no_leave s op e =
      let target_is_dir = path_is_directory outside.host s e.path in
      (is_xattr_operation op && is_bypass outside.glob s ProtectionKind.xattr e.path target_is_dir)
      || (is_bypass outside.glob s e.kind e.path target_is_dir
          || not (is_protected outside.glob s e.kind e.path target_is_dir))

  abbrev pub intent_of : Access → ReadWriteEffect → Intent
  intent_of a e = record {
    sandbox = a.fs.sandbox_name;
    kind = e.kind;
    path = e.path;
    identity = a.process_identity;
  }

  abbrev pub request_of : Access → ReadWriteEffect → ℕ → PendingReadWriteRequest
  request_of a e id =
      with_process_identity a.process_identity
        (new_with_attach_effect id a.fs.sandbox_name a.fs.attach_id a.operation e a.requester)

  -- Once the line is appended, the request is pending; if it was refused, the loop ends.
  unfoldable pub queue_written :
      Access → ReadWriteEffect → Asked → ℕ → ℕ → World × Bool → World × (Errno ⊎ Asked)
  unfolding insert_pending_read_write_request
  queue_written a e asked id waiter (w, false) = (w, inl eio)
  queue_written a e asked id waiter (w, true) =
      let q = insert_pending_read_write_request (request_of a e id) w.registry in
      (
        record w {
          registry = record q { pending_waiters = Map.insert id waiter q.pending_waiters };
        },
        inr (record asked { waits = asked.waits ++ (id, waiter) ∷ [] }),
      )

  -- The end of the loop's body: a request that waits.
  unfoldable pub queue_effect :
      Access → PathBuf → ReadWriteEffect → Asked → World → World × (Errno ⊎ Asked)
  unfolding append_line next_operation_id queue_written
  queue_effect a log_path e asked w =
      let (r, id) = next_operation_id w.registry in
      queue_written a e asked id w.next_waiter (
        append_line outside log_path id
          (bytes "pending" ++ format_attach_field a.fs.attach_id ++ b' ' ∷ e.description)
          (record w { registry = r; next_waiter = w.next_waiter + 1 }))

  -- After the search for a grant.
  unfoldable pub after_match :
      Access
      → PathBuf
      → ReadWriteEffect
      → GrantMatchOutcome
      → Asked
      → World
      → World × (Errno ⊎ Asked)
  unfolding queue_effect next_operation_id
  after_match a log_path e not_matched asked w = queue_effect a log_path e asked w
  after_match a log_path e (matched grant_id consumed) asked w =
      let (r, event_id) = next_operation_id w.registry in
      if consumed
      then (
        record w { registry = r },
        inr (record asked { consumed_events = asked.consumed_events ++ (event_id, grant_id) ∷ [] }),
      )
      else (w, inr asked)

  -- The body of the loop over the effects, once the sandbox is looked up.
  unfoldable pub ask_in_sandbox :
      Access → PathBuf → ReadWriteEffect → Option Sandbox → Asked → World → World × (Errno ⊎ Asked)
  unfolding needs_no_leave after_match match_read_write_grant_for_intent
  ask_in_sandbox a log_path e none asked w = (w, inl enoent)
  ask_in_sandbox a log_path e (some s) asked w =
      let (r, outcome) =
        match_read_write_grant_for_intent outside.glob (intent_of a e) a.now w.registry in
      if needs_no_leave s a.operation e
      then (w, inr asked)
      else after_match a log_path e outcome asked (record w { registry = r })

  unfoldable pub ask_effect :
      Access → PathBuf → ReadWriteEffect → Asked → World → World × (Errno ⊎ Asked)
  unfolding ask_in_sandbox
  ask_effect a log_path e asked w =
      ask_in_sandbox a log_path e (Map.get a.fs.sandbox_name w.registry.sandboxes) asked w

  unfoldable pub ask_effects :
      Access → PathBuf → List ReadWriteEffect → Asked → World → World × (Errno ⊎ Asked)
  unfolding ask_effect
  ask_effects a log_path [] asked w = (w, inr asked)
  ask_effects a log_path (e ∷ es) asked w =
      let (v, result) = ask_effect a log_path e asked w in
      elim result [ inl errno ↦ (v, inl errno) | inr more ↦ ask_effects a log_path es more v ]
