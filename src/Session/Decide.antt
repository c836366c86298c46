-- ===== src/Session/Decide.antt =====
-- src/session.rs: the decisions on one request: `allow` without a grant, `deny`, `cancel`.
use gatefs.StdPath.{PathBuf}
use gatefs.Registry.{
  SandboxRegistry, insert_any_pending_request, next_operation_id, remove_any_pending_request,
}
use gatefs.Metadata.{metadata_path}
use gatefs.Sandbox.{Sandbox}
use gatefs.Sandbox.Objects.{apply_metadata_override_to_object}
use gatefs.Ipc.{done}
use gatefs.Pending.{
  PendingDecision, PendingRequest, metadata_request, read_write_request, request_attach_id,
  request_sandbox,
}
use gatefs.World.{Outside, World, append_line, format_attach_field, notify_waiter}
use gatefs.Error.{◌>>=◌, Result, err, message, ok}
use gatefs.Session.{Outcome, not_found, put_sandbox, with_registry}
use gatefs.Text.{Bytes, bytes, decimal}
use gatefs.Base.{
  Bool, Option, false, if◌then◌else◌, list_ord, nat_ord, none, some, true, ℕ, ◌++◌, ◌==◌,
}
use gatefs.Map

-- The start of every decision: the request is taken out, and filed again if it is another sandbox's.
unfoldable pub take_found :
    Bytes → ℕ → World → SandboxRegistry × Option PendingRequest → World × Result PendingRequest
take_found name id w (r, none) =
    (with_registry w r, err (message (bytes "pending operation not found: " ++ decimal id)))
take_found name id w (r, some q) =
    if request_sandbox q == name then (with_registry w r, ok q) else (
      with_registry w (insert_any_pending_request q r),
      err (
          message (
            bytes "pending operation "
            ++ (decimal id ++ (bytes " does not belong to sandbox " ++ name)))),
    )

unfoldable pub take_pending : Bytes → ℕ → World → World × Result PendingRequest
unfolding take_found
take_pending name id w = take_found name id w (remove_any_pending_request id w.registry)

abbrev pub forget_waiter : ℕ → World → World
forget_waiter id w =
    with_registry w
      (record w.registry { pending_waiters = Map.remove id w.registry.pending_waiters })

abbrev pub deny_body : ℕ → Bytes → Bytes
deny_body id field = bytes "decision request=" ++ (decimal id ++ (field ++ bytes " DENY"))

abbrev pub cancel_body : ℕ → Bytes → Bytes → Bytes
cancel_body id reason field =
    bytes "cancel request=" ++ (decimal id ++ (field ++ (bytes " reason=" ++ reason)))

abbrev pub allow_decision : Bool → PendingDecision
allow_decision true = PendingDecision.do_nothing
allow_decision false = PendingDecision.apply

abbrev pub allow_body : ℕ → Bool → Bytes → Bytes
allow_body id only_release field =
    bytes "decision request="
    ++ (decimal id
        ++ (field ++ (if only_release then bytes " ALLOW_DO_NOTHING" else bytes " ALLOW")))

-- Where no thread waits, an allowed metadata operation is applied here.
unfoldable pub apply_unwaited :
    Bytes → Sandbox → Bool → Option ℕ → PendingRequest → World → Result World
unfolding apply_metadata_override_to_object
apply_unwaited name s only_release (some waiter) q w = ok w
apply_unwaited name s only_release none (read_write_request q) w = ok w
apply_unwaited name s only_release none (metadata_request q) w = if only_release then ok w else do
  s' ← apply_metadata_override_to_object q.object (metadata_path q.operation) q.operation s
  ok (put_sandbox name s' w)

module _ (outside : Outside) where
  -- The end of every decision: the line, then the waiter, whose word does not hang on the line.
  unfoldable pub finish_decision :
      PathBuf → ℕ → Bytes → Option ℕ → PendingDecision → World → Outcome
  unfolding append_line notify_waiter
  finish_decision log id body waiter decision w =
      let (v, written) = append_line outside log id body w in
      (
        notify_waiter waiter decision v,
        if written
            then ok done
            else err (outside.log_error (record { log_path = log; id = id; body = body })),
      )

  -- `deny` and `cancel` after the request is taken; `body` makes the line from the attach field.
  unfoldable pub close_found :
      Bytes → ℕ → ℕ → Bytes → PendingDecision → Option Sandbox → World → Outcome
  unfolding finish_decision
  close_found name id event_id body decision none w = (w, err (not_found name))
  close_found name id event_id body decision (some s) w =
      finish_decision s.log_path event_id body (Map.get id w.registry.pending_waiters) decision
        (forget_waiter id w)

  unfoldable pub close_taken :
      Bytes → ℕ → (Bytes → Bytes) → PendingDecision → World × Result PendingRequest → Outcome
  unfolding close_found next_operation_id
  close_taken name id body decision (w, err e) = (w, err e)
  close_taken name id body decision (w, ok q) =
      let (r, event_id) = next_operation_id w.registry in
      close_found name id event_id (body (format_attach_field (request_attach_id q))) decision
        (Map.get name r.sandboxes) (with_registry w r)

  unfoldable pub deny_request : Bytes → ℕ → World → Outcome
  unfolding take_pending close_taken
  deny_request name id w =
      close_taken name id (deny_body id) PendingDecision.deny (take_pending name id w)

  unfoldable pub cancel_request : Bytes → ℕ → Bytes → World → Outcome
  unfolding take_pending close_taken
  cancel_request name id reason w =
      close_taken name id (cancel_body id reason) PendingDecision.cancel (take_pending name id w)

  unfoldable pub allow_applied :
      ℕ → ℕ → Bool → PendingRequest → Option ℕ → PathBuf → World → Result World → Outcome
  unfolding finish_decision
  allow_applied id event_id only_release q waiter log w (err e) = (w, err e)
  allow_applied id event_id only_release q waiter log w (ok v) =
      finish_decision log event_id
        (allow_body id only_release (format_attach_field (request_attach_id q))) waiter
        (allow_decision only_release) v

  unfoldable pub allow_found :
      Bytes → ℕ → ℕ → Bool → PendingRequest → Option ℕ → Option Sandbox → World → Outcome
  unfolding apply_unwaited allow_applied
  allow_found name id event_id only_release q waiter none w = (w, err (not_found name))
  allow_found name id event_id only_release q waiter (some s) w =
      allow_applied id event_id only_release q waiter s.log_path w
        (apply_unwaited name s only_release waiter q w)

  unfoldable pub allow_taken : Bytes → ℕ → Bool → World × Result PendingRequest → Outcome
  unfolding allow_found next_operation_id
  allow_taken name id only_release (w, err e) = (w, err e)
  allow_taken name id only_release (w, ok q) =
      let (r, event_id) = next_operation_id w.registry in
      allow_found name id event_id only_release q (Map.get id r.pending_waiters)
        (Map.get name r.sandboxes) (forget_waiter id (with_registry w r))

  -- `allow` without grant options.
  unfoldable pub allow_request : Bytes → ℕ → Bool → World → Outcome
  unfolding take_pending allow_taken
  allow_request name id only_release w = allow_taken name id only_release (take_pending name id w)
