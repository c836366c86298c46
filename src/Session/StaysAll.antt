-- ===== src/Session/StaysAll.antt =====
-- src/session.rs and src/fs.rs: what `allow`, `cancel_all` and an ask keep of the registry.
use gatefs.Session.Sweep.{stepped}
use gatefs.Session.{put_sandbox, with_registry}
use gatefs.Metadata.{metadata_path}
use gatefs.Session.Board.{append_line-board}
use gatefs.StdPath.{PathBuf}
use gatefs.Sandbox.Objects.{apply_metadata_override_to_object}
use gatefs.Session.Decide.{
  allow_applied, allow_body, allow_decision, allow_found, allow_taken, apply_unwaited, cancel_body,
  finish_decision, forget_waiter,
}
use gatefs.Sandbox.{Sandbox}
use gatefs.Text.{Bytes, bytes}
use gatefs.Session.Scope.{
  CanceledPending, append_each, append_result, attach_of, cancel_all_found, cancel_all_requests,
  finish_cancel_scope, notify_each, scope_body, take_each,
}
use gatefs.Session.Stays.{
  Stays, Stays-refl, Stays-trans, equal-Stays, finish_decision-Stays, notify_waiter-registry,
  put_sandbox-Stays, remove_any-Stays, same-Stays,
}
use gatefs.Error.{Result, err, ok, ◌>>=◌}
use gatefs.Pending.{
  PendingDecision, PendingRequest, metadata_request, read_write_request, request_attach_id,
  request_id,
}
use gatefs.Registry.{
  SandboxRegistry, next_operation_id, pending_requests_for_sandbox, remove_any_pending_request,
}
use gatefs.World.{Outside, World, append_line, format_attach_field, notify_waiter}
use gatefs.Base.{
  Bool, List, Option, [], false, length, list_ord, map, nat_ord, none, refl, some, true, ℕ, ◌∙◌,
  ◌∷◌, ◌≡◌,
}
use gatefs.Map

abbrev AppliedStays : World → Result World → Type 0
AppliedStays w (err e) = Unit {0}
AppliedStays w (ok v) = Stays w.registry v.registry

apply_unwaited-Stays :
    (name : Bytes) (s : Sandbox) (only_release : Bool) (waiter : Option ℕ) (q : PendingRequest)
    (w : World)
    → AppliedStays w (apply_unwaited name s only_release waiter q w)
unfolding apply_unwaited
apply_unwaited-Stays name s only_release (some u) q w = Stays-refl w.registry
apply_unwaited-Stays name s only_release none (read_write_request q) w = Stays-refl w.registry
apply_unwaited-Stays name s true none (metadata_request q) w = Stays-refl w.registry
apply_unwaited-Stays name s false none (metadata_request q) w =
    put (apply_metadata_override_to_object q.object (metadata_path q.operation) q.operation s)
  where
    put : (x : Result Sandbox) → AppliedStays w (x >>= λ s'. ok (put_sandbox name s' w))
    put (err e) = tt
    put (ok s') = put_sandbox-Stays name s' w

take_each-Stays :
    (field : Option PendingRequest → Option ℕ) (ids : List ℕ) (r : SandboxRegistry)
    → Stays r (take_each field ids r).0
unfolding take_each next_operation_id
take_each-Stays field [] r = Stays-refl r
take_each-Stays field (id ∷ ids) r =
    Stays-trans r (stepped id r) (take_each field ids (stepped id r)).0
      (Stays-trans r (remove_any_pending_request id r).0 (stepped id r) (remove_any-Stays id r)
        (same-Stays (remove_any_pending_request id r).0 (stepped id r) refl refl refl))
      (take_each-Stays field ids (stepped id r))

-- The requests of a scope are taken after its own event is numbered.
pub taken_of-Stays :
    (field : Option PendingRequest → Option ℕ) (ids : List ℕ) (r : SandboxRegistry)
    → Stays r (take_each field ids (next_operation_id r).0).0
unfolding next_operation_id
taken_of-Stays field ids r =
    Stays-trans r (next_operation_id r).0 (take_each field ids (next_operation_id r).0).0
      (same-Stays r (next_operation_id r).0 refl refl refl)
      (take_each-Stays field ids (next_operation_id r).0)

notify_each-registry :
    (items : List CanceledPending) (w : World) → (notify_each items w).registry ≡ w.registry
unfolding notify_each
notify_each-registry [] w = refl
notify_each-registry (c ∷ cs) w =
    notify_each-registry cs (notify_waiter c.waiter PendingDecision.cancel w)
    ∙ notify_waiter-registry c.waiter PendingDecision.cancel w

module _ (outside : Outside) where
  allow_applied-Stays :
      (id event_id : ℕ) (only_release : Bool) (q : PendingRequest) (waiter : Option ℕ)
      (log : PathBuf) (w : World) (x : Result World)
      → AppliedStays w x
      → Stays w.registry
          (allow_applied outside id event_id only_release q waiter log w x).0.registry
  unfolding allow_applied
  allow_applied-Stays id event_id only_release q waiter log w (err e) h = Stays-refl w.registry
  allow_applied-Stays id event_id only_release q waiter log w (ok v) h =
      Stays-trans w.registry v.registry
        (finish_decision outside log event_id
          (allow_body id only_release (format_attach_field (request_attach_id q))) waiter
          (allow_decision only_release) v).0.registry
        h
        (finish_decision-Stays outside log event_id
          (allow_body id only_release (format_attach_field (request_attach_id q))) waiter
          (allow_decision only_release) v)

  pub allow_taken-Stays :
      (name : Bytes) (id : ℕ) (only_release : Bool) (x : World × Result PendingRequest)
      → Stays x.0.registry (allow_taken outside name id only_release x).0.registry
  unfolding allow_taken allow_found next_operation_id
  allow_taken-Stays name id only_release (v, err e) = Stays-refl v.registry
  allow_taken-Stays name id only_release (v, ok q) = by_cases (Map.get name v.registry.sandboxes)
    where
      taken : World
      taken = forget_waiter id (with_registry v (next_operation_id v.registry).0)

      by_cases :
          (s : Option Sandbox)
          → Stays v.registry
              (allow_found outside name id v.registry.next_operation only_release q
                (Map.get id v.registry.pending_waiters)
                s
                taken).0.registry
      by_cases none = same-Stays v.registry taken.registry refl refl refl
      by_cases (some s) =
          Stays-trans v.registry taken.registry
            (allow_found outside name id v.registry.next_operation only_release q
              (Map.get id v.registry.pending_waiters) (some s) taken).0.registry
            (same-Stays v.registry taken.registry refl refl refl)
            (allow_applied-Stays id v.registry.next_operation only_release q
              (Map.get id v.registry.pending_waiters) s.log_path taken
              (apply_unwaited name s only_release (Map.get id v.registry.pending_waiters) q taken)
              (apply_unwaited-Stays name s only_release (Map.get id v.registry.pending_waiters) q
                taken))

  append_each-registry :
      (log : PathBuf) (reason : Bytes) (items : List CanceledPending) (w : World)
      → (append_each outside log reason items w).0.registry ≡ w.registry
  unfolding append_each append_result
  append_each-registry log reason [] w = refl
  append_each-registry log reason (c ∷ cs) w =
      append_each-registry log reason cs
        (append_line outside log c.event_id
          (cancel_body c.id reason (format_attach_field c.attach_id)) w).0
      ∙ (append_line-board outside log c.event_id
          (cancel_body c.id reason (format_attach_field c.attach_id)) w).0

  -- The lines and the words of a canceled scope leave the registry alone.
  pub finish_cancel_scope-registry :
      (event_id : ℕ) (log : PathBuf) (items : List CanceledPending) (scope : Bytes)
      (attach_id : Option ℕ) (reason : Bytes) (w : World)
      → (finish_cancel_scope outside event_id log items scope attach_id reason w).0.registry
        ≡ w.registry
  unfolding finish_cancel_scope append_result
  finish_cancel_scope-registry event_id log items scope attach_id reason w =
      let line =
        append_line outside log event_id (scope_body attach_id scope reason (length items)) w in
      notify_each-registry items (append_each outside log reason items line.0).0
      ∙ append_each-registry log reason items line.0
      ∙ (append_line-board outside log event_id (scope_body attach_id scope reason (length items))
          w).0

  pub cancel_all_requests-Stays :
      (name : Bytes) (w : World) → Stays w.registry (cancel_all_requests outside name w).0.registry
  unfolding cancel_all_requests cancel_all_found next_operation_id
  cancel_all_requests-Stays name w = by_cases (Map.get name w.registry.sandboxes)
    where
      by_cases :
          (s : Option Sandbox) → Stays w.registry (cancel_all_found outside name s w).0.registry
      by_cases none = Stays-refl w.registry
      by_cases (some s) =
          let ids = map request_id (pending_requests_for_sandbox name w.registry) in
          let taken = take_each attach_of ids (next_operation_id w.registry).0 in
          Stays-trans w.registry taken.0 (cancel_all_found outside name (some s) w).0.registry
            (taken_of-Stays attach_of ids w.registry)
            (equal-Stays taken.0 (cancel_all_found outside name (some s) w).0.registry (
              finish_cancel_scope-registry w.registry.next_operation s.log_path taken.1
                (bytes "sandbox") none (bytes "cancel-all") (with_registry w taken.0)))
