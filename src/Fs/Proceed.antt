-- ===== src/Fs/Proceed.antt =====
-- src/fs.rs: when an operation proceeds.
use gatefs.Text.{bytes}
use gatefs.Registry.Grants.{Served, match_read_write_grant_for_intent_lem}
use gatefs.StdPath.{PathBuf}
use gatefs.Grant.{GrantMatchOutcome, ReadWriteAccessGrant, matches_intent}
use gatefs.Registry.{
  SandboxRegistry, insert_pending_read_write_request, match_read_write_grant_for_intent,
  next_operation_id, remove_pending_read_write_request,
}
use gatefs.Operation.{ReadWriteEffect}
use gatefs.Sandbox.{Sandbox}
use gatefs.Fs.{
  Access, Asked, Errno, ReadWriteDecision, after_match, ask_effect, ask_in_sandbox, canceled,
  denied, intent_of, needs_no_leave, proceed, queue_effect, queue_written, request_of,
}
use gatefs.World.{Outside, World, append_line, format_attach_field, notify_waiter}
use gatefs.Fs.Leave.{cancel_unresolved, cancel_unresolved_read_write_effects, wait_for_all}
use gatefs.Pending.{
  PendingDecision, apply, cancel, deny, do_nothing, new_with_attach_effect, with_process_identity,
}
use gatefs.Base.{
  ==_refl, All, Bool, Bool-cases, List, Option, [], any, ap, arith, false, if◌then◌else◌, inl, inr,
  is_some, list_ord, nat_ord, none, refl, some, subst, sym, true, ℕ, ◌++◌, ◌+◌, ◌==◌, ◌||◌, ◌↔◌,
  ◌∙◌, ◌∷◌, ◌≡◌, ◌⊎◌,
}
use gatefs.Map
use gatefs.Registry.Grants.{again, nobody, once}

abbrev pub is_approval : Option PendingDecision → Bool
is_approval none = false
is_approval (some apply) = true
is_approval (some do_nothing) = true
is_approval (some deny) = false
is_approval (some cancel) = false

-- The waits of an access end with leave to proceed exactly if every waiter was given an approval.
pub wait_for_all-proceed :
    (waits : List (ℕ × ℕ)) (w : World)
    → (wait_for_all waits w ≡ some proceed)
      ↔ All (λ e. is_approval (Map.get e.1 w.decided) ≡ true) waits
unfolding wait_for_all
wait_for_all-proceed [] w = (λ h. tt, λ h. refl)
wait_for_all-proceed ((id, waiter) ∷ waits) w =
    one (Map.get waiter w.decided) (wait_for_all waits w) (wait_for_all-proceed waits w)
  where
    one :
        {P : Type 0} (o : Option PendingDecision) (later : Option ReadWriteDecision)
        → (later ≡ some proceed) ↔ P
        → ((elim o [
          | none ↦ none
          | some apply ↦ later
          | some do_nothing ↦ later
          | some deny ↦ some denied
          | some cancel ↦ some canceled
        ])
            ≡ some proceed)
          ↔ ((is_approval o ≡ true) × P)
    one none later h = (λ e. ground (arith, e), λ e. ground (arith, e))
    one (some apply) later h = (λ e. (refl, h.0 e), λ e. h.1 e.1)
    one (some do_nothing) later h = (λ e. (refl, h.0 e), λ e. h.1 e.1)
    one (some deny) later h = (λ e. ground (arith, e), λ e. ground (arith, e))
    one (some cancel) later h = (λ e. ground (arith, e), λ e. ground (arith, e))

-- An answer of the loop's body, short of an error: the effect needs no leave; or a grant serves it;
-- or a request for it is pending, under the next id and with a new waiter, and the operation waits for it.
abbrev pub IsAnswered :
    Outside → Access → Sandbox → ReadWriteEffect → Asked → World → World × (Errno ⊎ Asked) → Type 0
IsAnswered o a s e asked w (v, inl errno) = Unit
IsAnswered o a s e asked w (v, inr more) =
    (needs_no_leave o s a.operation e ≡ true)
    ⊎ (((id : ℕ) × (g : ReadWriteAccessGrant) × (Map.get id w.registry.read_write_grants ≡ some g)
          × (matches_intent o.glob g (intent_of o a e) a.now ≡ true))
        ⊎ ((Map.get w.registry.next_operation v.registry.pending_read_write
              ≡ some (request_of o a e w.registry.next_operation))
            × (Map.get w.registry.next_operation v.registry.pending_waiters ≡ some w.next_waiter)
            × (more.waits ≡ asked.waits ++ (w.registry.next_operation, w.next_waiter) ∷ [])))

queue_written-IsAnswered :
    (o : Outside) (a : Access) (s : Sandbox) (e : ReadWriteEffect) (asked : Asked) (w : World)
    (x : World × Bool)
    → IsAnswered o a s e asked w
        (queue_written o a e asked w.registry.next_operation w.next_waiter x)
unfolding queue_written insert_pending_read_write_request with_process_identity
    new_with_attach_effect
queue_written-IsAnswered o a s e asked w (v, false) = tt
queue_written-IsAnswered o a s e asked w (v, true) =
    let id = w.registry.next_operation in
    inr (
      inr (
        Map.get-insert id id (request_of o a e id) v.registry.pending_read_write
            ∙ rw (==_refl id) refl,
        Map.get-insert id id w.next_waiter v.registry.pending_waiters ∙ rw (==_refl id) refl,
        refl,
      ))

after_match-IsAnswered :
    (o : Outside) (a : Access) (s : Sandbox) (log_path : PathBuf) (e : ReadWriteEffect)
    (asked : Asked) (w : World)
    → (x : SandboxRegistry × GrantMatchOutcome) → Served o.glob (intent_of o a e) a.now w.registry x
    → IsAnswered o a s e asked w
        (after_match o a log_path e x.1 asked (record w { registry = x.0 }))
unfolding after_match
after_match-IsAnswered o a s log_path e asked w x (nobody h) =
    unfold queue_effect next_operation_id in
    queue_written-IsAnswered o a s e asked w (
      append_line o log_path w.registry.next_operation
        (bytes "pending" ++ format_attach_field a.fs.attach_id ++ b' ' ∷ e.description)
        (record w { registry = (next_operation_id w.registry).0; next_waiter = w.next_waiter + 1 }))
after_match-IsAnswered o a s log_path e asked w x (once id g f h k) = inr (inl (id, g, f, h))
after_match-IsAnswered o a s log_path e asked w x (again id t g f h k) = inr (inl (id, g, f, h))

ask_in_sandbox-IsAnswered :
    (o : Outside) (a : Access) (s : Sandbox) (log_path : PathBuf) (e : ReadWriteEffect)
    (asked : Asked) (w : World)
    → Map.IsMap w.registry.read_write_grants
    → IsAnswered o a s e asked w (ask_in_sandbox o a log_path e (some s) asked w)
unfolding ask_in_sandbox
ask_in_sandbox-IsAnswered o a s log_path e asked w m =
    let answer = match_read_write_grant_for_intent o.glob (intent_of o a e) a.now w.registry in
    let go : Bool → World × (Errno ⊎ Asked) = λ b.
      if b
      then (w, inr asked)
      else after_match o a log_path e answer.1 asked (record w { registry = answer.0 }) in
    elim (Bool-cases (needs_no_leave o s a.operation e)) [
      | inl h ↦ subst (λ b. IsAnswered o a s e asked w (go b)) (sym h) (inl h)
      | inr h ↦
          subst (λ b. IsAnswered o a s e asked w (go b)) (sym h)
            (after_match-IsAnswered o a s log_path e asked w answer
              (match_read_write_grant_for_intent_lem o.glob (intent_of o a e) a.now w.registry m))
    ]

-- Where the sandbox of the access is registered and the grants stand in the order of their ids,
-- an effect that the loop's body passes without an error needs no leave; or a grant held before
-- it matches the access; or a request for it is pending under the next id, with a new waiter, and
-- the operation waits for that.
pub ask_effect-IsAnswered :
    (o : Outside) (a : Access) (s : Sandbox) (log_path : PathBuf) (e : ReadWriteEffect)
    (asked : Asked) (w : World)
    → Map.get a.fs.sandbox_name w.registry.sandboxes ≡ some s
    → Map.IsMap w.registry.read_write_grants
    → IsAnswered o a s e asked w (ask_effect o a log_path e asked w)
unfolding ask_effect
ask_effect-IsAnswered o a s log_path e asked w h m =
    subst (λ x. IsAnswered o a s e asked w (ask_in_sandbox o a log_path e x asked w)) (sym h)
      (ask_in_sandbox-IsAnswered o a s log_path e asked w m)

cancel_unresolved_lem :
    (id waiter : ℕ) (w : World)
    → (cancel_unresolved id waiter w).registry.pending_read_write
      ≡ Map.remove id w.registry.pending_read_write
unfolding cancel_unresolved remove_pending_read_write_request notify_waiter
cancel_unresolved_lem id waiter w =
    elim (Bool-cases (is_some (Map.get id w.registry.pending_read_write))) [
      | inl e ↦ rw e refl
      | inr e ↦ rw e refl
    ]

none_twice :
    {A : Type 0} (a b : Bool) (o : Option A)
    → (if a then none else if b then none else o) ≡ (if b || a then none else o)
none_twice a b o = ground arith

-- After a refusal, the requests that the operation waited for are gone, and every other is kept.
pub cancel_unresolved_read_write_effects_lem :
    (waits : List (ℕ × ℕ)) (w : World) (id : ℕ)
    → Map.get id (cancel_unresolved_read_write_effects waits w).registry.pending_read_write
      ≡ (if any (λ e. e.0 == id) waits then none else Map.get id w.registry.pending_read_write)
unfolding cancel_unresolved_read_write_effects any
cancel_unresolved_read_write_effects_lem [] w id = refl
cancel_unresolved_read_write_effects_lem ((j, waiter) ∷ waits) w id =
    cancel_unresolved_read_write_effects_lem waits (cancel_unresolved j waiter w) id
    ∙ ap (λ o. if any (λ e. e.0 == id) waits then none else o)
        (ap (Map.get id) (cancel_unresolved_lem j waiter w)
          ∙ Map.get-remove j id w.registry.pending_read_write)
    ∙ none_twice (any (λ e. e.0 == id) waits) (j == id) (Map.get id w.registry.pending_read_write)
