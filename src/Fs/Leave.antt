-- ===== src/Fs/Leave.antt =====
-- src/fs.rs: `authorize_read_write` as a whole, up to its first wait and from there on.
use gatefs.Operation.{effects}
use gatefs.Sandbox.{Sandbox}
use gatefs.Grant.{ReadWriteAccessGrant}
use gatefs.Text.{Bytes, bytes, decimal}
use gatefs.StdPath.{PathBuf}
use gatefs.Pending.{apply, cancel, deny, do_nothing}
use gatefs.Fs.{
  Access, Asked, Errno, ReadWriteDecision, ask_effects, canceled, denied, enoent, proceed,
}
use gatefs.World.{Outside, World, append_line, notify_waiter}
use gatefs.Registry.{
  SandboxRegistry, next_operation_id, prune_expired_read_write_grants_for_sandbox,
  remove_pending_read_write_request,
}
use gatefs.Base.{
  List, Option, [], if◌then◌else◌, inl, inr, is_some, list_ord, nat_ord, none, some, ℕ, ◌++◌, ◌∷◌,
  ◌⊎◌,
}
use gatefs.Map

module _ (outside : Outside) where
  -- The events of the grants that were pruned: each takes an id.
  unfoldable pub expired_events :
      List ReadWriteAccessGrant → SandboxRegistry → SandboxRegistry × List (ℕ × ℕ)
  unfolding next_operation_id
  expired_events [] r = (r, [])
  expired_events (g ∷ gs) r =
      let (s, event_id) = next_operation_id r in
      let (t, events) = expired_events gs s in (t, (event_id, g.id) ∷ events)

  -- The events' lines; a refused line is passed over.
  unfoldable pub append_events : PathBuf → Bytes → Bytes → List (ℕ × ℕ) → World → World
  unfolding append_line
  append_events log_path event lifetime [] w = w
  append_events log_path event lifetime ((event_id, grant_id) ∷ events) w =
      let body =
        bytes "grant-"
        ++ event
        ++ bytes " grant="
        ++ decimal grant_id
        ++ bytes " lifetime="
        ++ lifetime in
      append_events log_path event lifetime events (append_line outside log_path event_id body w).0

  -- After the loop: the events' lines, unless the loop ended with an error.
  unfoldable pub after_effects :
      PathBuf → List (ℕ × ℕ) → World × (Errno ⊎ Asked) → World × (Errno ⊎ List (ℕ × ℕ))
  unfolding append_events
  after_effects log_path events (w, inl errno) = (w, inl errno)
  after_effects log_path events (w, inr asked) = (
    append_events log_path (bytes "consumed") (bytes "one-shot") asked.consumed_events
        (append_events log_path (bytes "expired") (bytes "duration") events w),
    inr asked.waits,
  )

  -- After the pruning: the ids of its events, and the loop.
  unfoldable pub after_pruning :
      Access
      → PathBuf
      → World
      → SandboxRegistry × List ReadWriteAccessGrant
      → World × (Errno ⊎ List (ℕ × ℕ))
  unfolding expired_events ask_effects after_effects
  after_pruning a log_path w (r, gone) =
      let (t, events) = expired_events gone r in
      let start : Asked = record { waits = []; consumed_events = [] } in
      after_effects log_path events
        (ask_effects outside a log_path (effects a.operation) start (record w { registry = t }))

  unfoldable pub ask_leave_in : Access → Option Sandbox → World → World × (Errno ⊎ List (ℕ × ℕ))
  unfolding prune_expired_read_write_grants_for_sandbox after_pruning
  ask_leave_in a none w = (w, inl enoent)
  ask_leave_in a (some s) w =
      after_pruning a s.log_path w
        (prune_expired_read_write_grants_for_sandbox a.fs.sandbox_name a.now w.registry)

  -- `authorize_read_write` up to its first wait.
  unfoldable pub ask_leave : Access → World → World × (Errno ⊎ List (ℕ × ℕ))
  unfolding ask_leave_in
  ask_leave a w = ask_leave_in a (Map.get a.fs.sandbox_name w.registry.sandboxes) w

-- The waits, in order, up to the first refusal; `none` while a waiter that is waited for is open.
unfoldable pub wait_for_all : List (ℕ × ℕ) → World → Option ReadWriteDecision
wait_for_all [] w = some proceed
wait_for_all ((id, waiter) ∷ waits) w =
    let later = wait_for_all waits w in
    elim (Map.get waiter w.decided) [
      | none ↦ none
      | some apply ↦ later
      | some do_nothing ↦ later
      | some deny ↦ some denied
      | some cancel ↦ some canceled
    ]

-- The body of the loop in `cancel_unresolved_read_write_effects`.
unfoldable pub cancel_unresolved : ℕ → ℕ → World → World
unfolding notify_waiter remove_pending_read_write_request
cancel_unresolved id waiter w =
    let (r, request) = remove_pending_read_write_request id w.registry in
    if is_some request
    then notify_waiter (some waiter) cancel
        (record w { registry = record r { pending_waiters = Map.remove id r.pending_waiters } })
    else record w { registry = r }

unfoldable pub cancel_unresolved_read_write_effects : List (ℕ × ℕ) → World → World
unfolding cancel_unresolved
cancel_unresolved_read_write_effects [] w = w
cancel_unresolved_read_write_effects ((id, waiter) ∷ waits) w =
    cancel_unresolved_read_write_effects waits (cancel_unresolved id waiter w)

-- `authorize_read_write` from its first wait on.
unfoldable pub finish_leave : List (ℕ × ℕ) → World → Option (World × ReadWriteDecision)
unfolding wait_for_all cancel_unresolved_read_write_effects
finish_leave waits w = elim (wait_for_all waits w) [
  | none ↦ none
  | some proceed ↦ some (w, proceed)
  | some denied ↦ some (cancel_unresolved_read_write_effects waits w, denied)
  | some canceled ↦ some (cancel_unresolved_read_write_effects waits w, canceled)
]
