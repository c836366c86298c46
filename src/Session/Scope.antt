-- ===== src/Session/Scope.antt =====
-- src/session.rs: the cancellations of a whole sandbox or of one attached view.
use gatefs.StdPath.{PathBuf}
use gatefs.Sandbox.{Sandbox}
use gatefs.Session.{Outcome, not_found, with_registry}
use gatefs.Error.{Result, err, ok}
use gatefs.Pending.{PendingDecision, PendingRequest, request_attach_id, request_id}
use gatefs.Registry.{
  SandboxRegistry, next_operation_id, pending_requests_for_sandbox, points_to,
  remove_any_pending_request,
}
use gatefs.Session.Decide.{cancel_body}
use gatefs.Ipc.{Response, done}
use gatefs.World.{Outside, World, append_line, format_attach_field, notify_waiter}
use gatefs.Text.{Bytes, bytes, decimal}
use gatefs.Base.{
  Bool, List, Option, [], if◌then◌else◌, length, list_ord, map, nat_ord, none, retain, some, ℕ,
  ◌++◌, ◌∷◌,
}
use gatefs.Map

-- A request that was taken out, and the id of its event.
pub record CanceledPending : Type 0 where
  pub id : ℕ
  pub event_id : ℕ
  pub attach_id : Option ℕ
  pub waiter : Option ℕ

-- `and_then(|pending| pending.attach_id())`.
abbrev pub attach_of : Option PendingRequest → Option ℕ
attach_of none = none
attach_of (some q) = request_attach_id q

-- The loop over the ids, with what names the attach of each request that was removed.
unfoldable pub take_each :
    (Option PendingRequest → Option ℕ)
    → List ℕ
    → SandboxRegistry
    → SandboxRegistry × List CanceledPending
unfolding next_operation_id remove_any_pending_request
take_each field [] r = (r, [])
take_each field (id ∷ ids) r =
    let (r1, q) = remove_any_pending_request id r in
    let waiter = Map.get id r1.pending_waiters in
    let (r2, event_id) =
      next_operation_id (record r1 { pending_waiters = Map.remove id r1.pending_waiters }) in
    let (r3, items) = take_each field ids r2 in
    (r3, record { id = id; event_id = event_id; attach_id = field q; waiter = waiter } ∷ items)

abbrev pub scope_body : Option ℕ → Bytes → Bytes → ℕ → Bytes
scope_body attach_id scope reason count =
    bytes "cancel"
    ++ (format_attach_field attach_id
        ++ (bytes " scope="
            ++ (scope ++ (bytes " reason=" ++ (reason ++ (bytes " count=" ++ decimal count))))))

-- The first error of a sequence of lines.
abbrev pub first_error : Result (Unit {0}) → Result (Unit {0}) → Result (Unit {0})
first_error (err e) later = err e
first_error (ok u) later = later

unfoldable pub notify_each : List CanceledPending → World → World
unfolding notify_waiter
notify_each [] w = w
notify_each (c ∷ cs) w = notify_each cs (notify_waiter c.waiter PendingDecision.cancel w)

abbrev pub response_of : Result (Unit {0}) → Result Response
response_of (ok u) = ok done
response_of (err e) = err e

module _ (outside : Outside) where
  -- `log_writer.append`, with its result.
  unfoldable pub append_result : PathBuf → ℕ → Bytes → World → World × Result (Unit {0})
  unfolding append_line
  append_result log id body w =
      let (v, written) = append_line outside log id body w in
      (
        v,
        if written
            then ok tt
            else err (outside.log_error (record { log_path = log; id = id; body = body })),
      )

  unfoldable pub append_each :
      PathBuf → Bytes → List CanceledPending → World → World × Result (Unit {0})
  unfolding append_result
  append_each log reason [] w = (w, ok tt)
  append_each log reason (c ∷ cs) w =
      let (v, first) =
        append_result log c.event_id (cancel_body c.id reason (format_attach_field c.attach_id))
          w in
      let (u, later) = append_each log reason cs v in (u, first_error first later)

  unfoldable pub finish_cancel_scope :
      ℕ → PathBuf → List CanceledPending → Bytes → Option ℕ → Bytes → World → Outcome
  unfolding append_result append_each notify_each
  finish_cancel_scope scope_event_id log items scope attach_id reason w =
      let (v, first) =
        append_result log scope_event_id (scope_body attach_id scope reason (length items)) w in
      let (u, later) = append_each log reason items v in
      (notify_each items u, response_of (first_error first later))

  -- The body of `cancel_all` without a mount point, once the sandbox is looked up.
  unfoldable pub cancel_all_found : Bytes → Option Sandbox → World → Outcome
  unfolding take_each finish_cancel_scope next_operation_id pending_requests_for_sandbox
  cancel_all_found name none w = (w, err (not_found name))
  cancel_all_found name (some s) w =
      let ids = map request_id (pending_requests_for_sandbox name w.registry) in
      let (r, scope_event_id) = next_operation_id w.registry in
      let (r', items) = take_each attach_of ids r in
      finish_cancel_scope scope_event_id s.log_path items (bytes "sandbox") none
        (bytes "cancel-all") (with_registry w r')

  unfoldable pub cancel_all_requests : Bytes → World → Outcome
  unfolding cancel_all_found
  cancel_all_requests name w = cancel_all_found name (Map.get name w.registry.sandboxes) w

  abbrev pub of_attach : ℕ → PendingRequest → Bool
  of_attach attach_id q = points_to (request_attach_id q) attach_id

  unfoldable pub cancel_view_found : Bytes → ℕ → Bytes → Option Sandbox → World → Outcome
  unfolding take_each finish_cancel_scope next_operation_id pending_requests_for_sandbox
  cancel_view_found name attach_id reason none w = (w, err (not_found name))
  cancel_view_found name attach_id reason (some s) w =
      let ids =
        map request_id
          (retain (of_attach attach_id) (pending_requests_for_sandbox name w.registry)) in
      let (r, scope_event_id) = next_operation_id w.registry in
      let (r', items) = take_each (λ q. some attach_id) ids r in
      finish_cancel_scope scope_event_id s.log_path items (bytes "attached-view") (some attach_id)
        reason (with_registry w r')

  unfoldable pub cancel_attached_view : Bytes → ℕ → Bytes → World → Outcome
  unfolding cancel_view_found
  cancel_attached_view name attach_id reason w =
      cancel_view_found name attach_id reason (Map.get name w.registry.sandboxes) w
