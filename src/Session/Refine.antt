-- ===== src/Session/Refine.antt =====
-- src/session.rs: that `deny`, `cancel` and `allow` do what a decision is to do.
use gatefs.StdPath.{PathBuf}
use gatefs.Metadata.{metadata_path}
use gatefs.Sandbox.Objects.{apply_metadata_override_to_object}
use gatefs.Registry.Asked.{IsFiled}
use gatefs.Session.Taken.{TakenAs, take_pending-TakenAs}
use gatefs.Registry.{next_operation_id}
use gatefs.Session.{put_sandbox, with_registry}
use gatefs.Sandbox.{Sandbox, u64_mod}
use gatefs.Pending.{
  PendingDecision, PendingRequest, metadata_request, read_write_request, request_attach_id,
  request_sandbox,
}
use gatefs.Text.{Bytes}
use gatefs.World.{Outside, World, format_attach_field}
use gatefs.Error.{Error, Result, err, ok, ◌>>=◌}
use gatefs.Session.Board.{
  Board, IsHoused, answered, board, cleared, finish_decision-board, same_board, settle,
  settle_found, told,
}
use gatefs.Session.Decide.{
  allow_applied, allow_body, allow_decision, allow_found, allow_request, allow_taken,
  apply_unwaited, cancel_body, cancel_request, close_found, close_taken, deny_body, deny_request,
  forget_waiter, take_pending,
}
use gatefs.Base.{
  ==_iff, Bool, List, Option, ap, arith, false, if◌then◌else◌, is_some, list_ord, nat_ord, none,
  refl, some, subst, sym, true, ℕ, ◌%◌, ◌+◌, ◌==◌, ◌∙◌, ◌≡◌,
}
use gatefs.Map

-- The board after the request and its waiter are out, whatever id the event took.
forgotten-cleared :
    (name : Bytes) (id : ℕ) (w v : World) (q : PendingRequest) (next : ℕ)
    → TakenAs name id w (v, ok q)
    → board (forget_waiter id (with_registry v (record v.registry { next_operation = next })))
      ≡ cleared id (board w)
unfolding TakenAs
forgotten-cleared name id w v q next t =
    same_board
      (board (forget_waiter id (with_registry v (record v.registry { next_operation = next }))))
      (cleared id (board w)) (λ i. ap (λ (b : Board). b.asked i) t.0)
      (λ i.
        Map.get-remove id i v.registry.pending_waiters
        ∙ ap (λ (m : List (ℕ × ℕ)). if id == i then none else Map.get i m) t.1.0.1.0)
      (λ u. ap (λ (b : Board). b.answers u) t.0)

-- The sandbox in whose name the request was taken is there.
taken_sandbox :
    (name : Bytes) (id : ℕ) (w v : World) (q : PendingRequest)
    → IsHoused w.registry
    → TakenAs name id w (v, ok q)
    → is_some (Map.get name v.registry.sandboxes) ≡ true
unfolding TakenAs
taken_sandbox name id w v q housed t =
    ap (λ (m : List (Bytes × Sandbox)). is_some (Map.get name m)) t.1.0.0
    ∙ subst (λ n. is_some (Map.get n w.registry.sandboxes) ≡ true) t.1.1.1 (housed id q t.1.1.0)

-- What a decision on a request that was taken is to do.
settle-taken :
    (name : Bytes) (id : ℕ) (w v : World) (q : PendingRequest) (d : PendingDecision)
    → TakenAs name id w (v, ok q)
    → settle name id d (board w)
      ≡ told (Map.get id w.registry.pending_waiters) d (cleared id (board w))
unfolding TakenAs settle settle_found
settle-taken name id w v q d t =
    ap (λ x. settle_found name id d x (board w)) t.1.1.0
    ∙ rw ((==_iff (request_sandbox q) name).1 t.1.1.1) refl

same_waiters :
    (name : Bytes) (id : ℕ) (w v : World) (q : PendingRequest)
    → TakenAs name id w (v, ok q)
    → v.registry.pending_waiters ≡ w.registry.pending_waiters
unfolding TakenAs
same_waiters name id w v q t = t.1.0.1.0

-- The word to the waiter and the lookups, as the decision's end leaves them.
told-settle :
    (name : Bytes) (id : ℕ) (w v : World) (q : PendingRequest) (d : PendingDecision) (next : ℕ)
    → TakenAs name id w (v, ok q)
    → told
        (Map.get id v.registry.pending_waiters)
        d
        (board (forget_waiter id (with_registry v (record v.registry { next_operation = next }))))
      ≡ settle name id d (board w)
told-settle name id w v q d next t =
    ap
      (λ m.
        told (Map.get id m) d (
          board (forget_waiter id (with_registry v (record v.registry { next_operation = next })))))
      (same_waiters name id w v q t)
    ∙ ap (told (Map.get id w.registry.pending_waiters) d) (forgotten-cleared name id w v q next t)
    ∙ sym (settle-taken name id w v q d t)

-- Where nothing was taken, the board is as it was, which is what the decision is to do.
untouched-settle :
    (name : Bytes) (id : ℕ) (w v : World) (e : Error) (d : PendingDecision)
    → TakenAs name id w (v, err e)
    → board v ≡ settle name id d (board w)
unfolding TakenAs
untouched-settle name id w v e d t = t.0 ∙ sym (t.1.1 d)

nobody_told :
    (waiter : Option ℕ) (d : PendingDecision) (w : World)
    → waiter ≡ none
    → board w ≡ told waiter d (board w)
unfolding answered
nobody_told none d w h = refl
nobody_told (some u) d w h = ground arith

-- An operation that is applied where nobody waits, which the board does not show.
abbrev AppliedAs : Option ℕ → World → Result World → Type 0
AppliedAs waiter w (err e) = waiter ≡ none
AppliedAs waiter w (ok v) = board v ≡ board w

apply_unwaited-AppliedAs :
    (name : Bytes) (s : Sandbox) (only_release : Bool) (waiter : Option ℕ) (q : PendingRequest)
    (w : World)
    → AppliedAs waiter w (apply_unwaited name s only_release waiter q w)
unfolding apply_unwaited
apply_unwaited-AppliedAs name s only_release (some u) q w = refl
apply_unwaited-AppliedAs name s only_release none (read_write_request q) w = refl
apply_unwaited-AppliedAs name s true none (metadata_request q) w = refl
apply_unwaited-AppliedAs name s false none (metadata_request q) w =
    put (apply_metadata_override_to_object q.object (metadata_path q.operation) q.operation s)
  where
    put : (x : Result Sandbox) → AppliedAs none w (x >>= λ s'. ok (put_sandbox name s' w))
    put (err e) = refl
    put (ok s') = refl

module _ (outside : Outside) where
  close_found-board :
      (name : Bytes) (id event_id : ℕ) (body : Bytes) (d : PendingDecision) (s : Option Sandbox)
      (w : World)
      → is_some s ≡ true
      → board (close_found outside name id event_id body d s w).0
        ≡ told (Map.get id w.registry.pending_waiters) d (board (forget_waiter id w))
  unfolding close_found
  close_found-board name id event_id body d none w h = ground arith
  close_found-board name id event_id body d (some s) w h =
      finish_decision-board outside s.log_path event_id body (Map.get id w.registry.pending_waiters)
        d (forget_waiter id w)

  close_taken-board :
      (name : Bytes) (id : ℕ) (body : Bytes → Bytes) (d : PendingDecision) (w : World)
      (x : World × Result PendingRequest)
      → IsHoused w.registry
      → TakenAs name id w x
      → board (close_taken outside name id body d x).0 ≡ settle name id d (board w)
  unfolding close_taken next_operation_id
  close_taken-board name id body d w (v, err e) housed t = untouched-settle name id w v e d t
  close_taken-board name id body d w (v, ok q) housed t =
      close_found-board name id v.registry.next_operation
        (body (format_attach_field (request_attach_id q))) d (Map.get name v.registry.sandboxes)
        (with_registry v (next_operation_id v.registry).0) (taken_sandbox name id w v q housed t)
      ∙ told-settle name id w v q d ((v.registry.next_operation + 1) % u64_mod) t

  allow_applied-board :
      (id event_id : ℕ) (only_release : Bool) (q : PendingRequest) (waiter : Option ℕ)
      (log : PathBuf) (w : World) (x : Result World)
      → AppliedAs waiter w x
      → board (allow_applied outside id event_id only_release q waiter log w x).0
        ≡ told waiter (allow_decision only_release) (board w)
  unfolding allow_applied
  allow_applied-board id event_id only_release q waiter log w (err e) h =
      nobody_told waiter (allow_decision only_release) w h
  allow_applied-board id event_id only_release q waiter log w (ok v) h =
      finish_decision-board outside log event_id
        (allow_body id only_release (format_attach_field (request_attach_id q))) waiter
        (allow_decision only_release) v
      ∙ ap (told waiter (allow_decision only_release)) h

  allow_found-board :
      (name : Bytes) (id event_id : ℕ) (only_release : Bool) (q : PendingRequest)
      (waiter : Option ℕ) (s : Option Sandbox) (w : World)
      → is_some s ≡ true
      → board (allow_found outside name id event_id only_release q waiter s w).0
        ≡ told waiter (allow_decision only_release) (board w)
  unfolding allow_found
  allow_found-board name id event_id only_release q waiter none w h = ground arith
  allow_found-board name id event_id only_release q waiter (some s) w h =
      allow_applied-board id event_id only_release q waiter s.log_path w
        (apply_unwaited name s only_release waiter q w)
        (apply_unwaited-AppliedAs name s only_release waiter q w)

  allow_taken-board :
      (name : Bytes) (id : ℕ) (only_release : Bool) (w : World) (x : World × Result PendingRequest)
      → IsHoused w.registry
      → TakenAs name id w x
      → board (allow_taken outside name id only_release x).0
        ≡ settle name id (allow_decision only_release) (board w)
  unfolding allow_taken next_operation_id
  allow_taken-board name id only_release w (v, err e) housed t =
      untouched-settle name id w v e (allow_decision only_release) t
  allow_taken-board name id only_release w (v, ok q) housed t =
      allow_found-board name id v.registry.next_operation only_release q
        (Map.get id v.registry.pending_waiters) (Map.get name v.registry.sandboxes)
        (forget_waiter id (with_registry v (next_operation_id v.registry).0))
        (taken_sandbox name id w v q housed t)
      ∙ told-settle name id w v q (allow_decision only_release)
          ((v.registry.next_operation + 1) % u64_mod) t

  -- Where each request stands under its own id in one table and its sandbox is there, `deny`,
  -- `cancel` and `allow` without a grant each do to the board what a decision is to do: a request of
  -- the sandbox leaves it and its waiter, if any, is told the decision, whether the log takes the
  -- line or not; for any other id the board stays as it was.
  pub decide-settle :
      (name : Bytes) (id : ℕ) (reason : Bytes) (only_release : Bool) (w : World)
      → IsFiled w.registry
      → IsHoused w.registry
      → (board (deny_request outside name id w).0 ≡ settle name id PendingDecision.deny (board w))
        × ((board (cancel_request outside name id reason w).0
              ≡ settle name id PendingDecision.cancel (board w))
            × (board (allow_request outside name id only_release w).0
                ≡ settle name id (allow_decision only_release) (board w)))
  unfolding deny_request cancel_request allow_request
  decide-settle name id reason only_release w filed housed = (
    close_taken-board name id (deny_body id) PendingDecision.deny w (take_pending name id w) housed
        (take_pending-TakenAs name id w filed),
    (
      close_taken-board name id (cancel_body id reason) PendingDecision.cancel w
          (take_pending name id w) housed (take_pending-TakenAs name id w filed),
      allow_taken-board name id only_release w (take_pending name id w) housed
          (take_pending-TakenAs name id w filed),
    ),
  )
