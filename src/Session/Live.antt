-- ===== src/Session/Live.antt =====
-- src/fs.rs: that an ask keeps each request under its id, which was given to it, and in a sandbox that is there.
use gatefs.Sandbox.{Sandbox}
use gatefs.StdPath.{PathBuf}
use gatefs.Text.{Bytes, bytes}
use gatefs.Operation.{ReadWriteEffect}
use gatefs.Registry.Index.{next_id, some-if}
use gatefs.World.{Outside, World, append_line, format_attach_field}
use gatefs.Session.Board.{Board, IsHoused, append_line-board, cleared, settle, settle_found, told}
use gatefs.Grant.{GrantMatchOutcome, ReadWriteAccessGrant, matched, matches_intent, not_matched}
use gatefs.Fs.{
  Access, Asked, after_match, ask_effect, ask_in_sandbox, intent_of, needs_no_leave, queue_effect,
  queue_written, request_of,
}
use gatefs.Registry.Filing.{insert_any-IsFiled}
use gatefs.Session.Sweep.{of_others}
use gatefs.Pending.{
  PendingDecision, PendingRequest, new_with_attach_effect, read_write_request, request_id,
  request_sandbox, with_process_identity, metadata_request,
}
use gatefs.Registry.{
  SandboxRegistry, consume, insert_any_pending_request, insert_pending_request, is_one_shot,
  match_found, match_read_write_grant_for_intent, next_operation_id,
}
use gatefs.Registry.Asked.{
  IsFiled, either_request, insert_any-OthersSame, lookup_pending, lookup_pending-insert_any,
}
use gatefs.Session.Stays.{Stays, same-Stays}
use gatefs.Base.{
  ==_iff, Bool, Bool-cases, Option, Option-cases, ap, arith, false, find, if◌then◌else◌, inl, inr,
  is_some, list_ord, nat_ord, none, refl, some, subst, sym, true, ℕ, ◌++◌, ◌+◌, ◌<◌, ◌≤◌, ◌^◌, ◌==◌,
  ◌∙◌, ◌∷◌, ◌≡◌,
}
use gatefs.Map

-- The ids of the pending requests are below the next one.
abbrev pub IsNumbered : SandboxRegistry → Type 0
IsNumbered r = (id : ℕ) (q : PendingRequest) → lookup_pending id r ≡ some q → id < r.next_operation

-- Each request stands under its own id in one table, its sandbox is there, and its id was given.
abbrev pub IsLive : SandboxRegistry → Type 0
IsLive r = IsFiled r × IsHoused r × IsNumbered r

pub unused : (r : SandboxRegistry) → IsNumbered r → lookup_pending r.next_operation r ≡ none
unused r n = elim (Option-cases (lookup_pending r.next_operation r)) [
  | inl e ↦ e
  | inr (q, e) ↦ absurd (omega (arith, n r.next_operation q e))
]

-- The registries of one kind of step: nothing new is asked, and the sandboxes stay.
pub fewer-IsLive :
    (r s : SandboxRegistry)
    → ((id : ℕ) (q : PendingRequest) → lookup_pending id s ≡ some q → lookup_pending id r ≡ some q)
    → Stays r s
    → r.next_operation ≤ s.next_operation
    → IsLive r
    → IsLive s
fewer-IsLive r s fewer stays later live = (
  stays.0 live.0,
  λ id q h. stays.1 (request_sandbox q) (live.1 id q (fewer id q h)),
  λ id q h. omega (arith, live.2 id q (fewer id q h), later),
)

pub same-IsLive :
    (r s : SandboxRegistry)
    → s.pending ≡ r.pending
    → s.pending_read_write ≡ r.pending_read_write
    → s.sandboxes ≡ r.sandboxes
    → r.next_operation ≤ s.next_operation
    → IsLive r
    → IsLive s
same-IsLive r s e d h later =
    fewer-IsLive r s
      (λ id q k.
        ap (λ m. either_request (Map.get id m) (Map.get id r.pending_read_write)) (sym e)
        ∙ ap (λ m. either_request (Map.get id s.pending) (Map.get id m)) (sym d)
        ∙ k)
      (same-Stays r s e d h) later

insert_any-next_operation :
    (q : PendingRequest) (r : SandboxRegistry)
    → (insert_any_pending_request q r).next_operation ≡ r.next_operation
unfolding insert_any_pending_request insert_pending_request
insert_any-next_operation (metadata_request q) r = refl
insert_any-next_operation (read_write_request q) r = refl

-- A new request for a sandbox that is there.
pub insert_any-IsLive :
    (q : PendingRequest) (r : SandboxRegistry)
    → lookup_pending (request_id q) r ≡ none
    → is_some (Map.get (request_sandbox q) r.sandboxes) ≡ true
    → request_id q < r.next_operation
    → IsLive r
    → IsLive (insert_any_pending_request q r)
insert_any-IsLive q r free present given live = (
  insert_any-IsFiled q r free live.0,
  λ id p h.
      subst (λ m. is_some (Map.get (request_sandbox p) m) ≡ true)
        (sym (insert_any-OthersSame q r).0)
        (elim (some-if (request_id q == id) q p (lookup_pending id r)
          (sym (lookup_pending-insert_any q id r free) ∙ h)) [
            | inl (b, e) ↦
                subst (λ x. is_some (Map.get (request_sandbox x) r.sandboxes) ≡ true) e present
            | inr (b, e) ↦ live.1 id p e
          ]),
  λ id p h.
      subst (λ n. id < n) (sym (insert_any-next_operation q r))
        (elim (some-if (request_id q == id) q p (lookup_pending id r)
          (sym (lookup_pending-insert_any q id r free) ∙ h)) [
            | inl (b, e) ↦ subst (λ i. i < r.next_operation) ((==_iff (request_id q) id).0 b) given
            | inr (b, e) ↦ live.2 id p e
          ]),
)

pub settle-asked :
    (name : Bytes) (id : ℕ) (d : PendingDecision) (b : Board) (i : ℕ) (q : PendingRequest)
    → (settle name id d b).asked i ≡ some q
    → b.asked i ≡ some q
unfolding settle settle_found
settle-asked name id d b i q h = by_cases (b.asked id) h
  where
    kept : (t : Bool) → (if t then none else b.asked i) ≡ some q → b.asked i ≡ some q
    kept true e = ground (arith, e)
    kept false e = e

    chosen :
        (t : Bool)
        → (if t then told (b.waiting id) d (cleared id b) else b).asked i ≡ some q
        → b.asked i ≡ some q
    chosen true e = kept (id == i) e
    chosen false e = e

    by_cases :
        (x : Option PendingRequest)
        → (settle_found name id d x b).asked i ≡ some q
        → b.asked i ≡ some q
    by_cases none e = e
    by_cases (some p) e = chosen (request_sandbox p == name) e

pub of_others-asked :
    (name : Bytes) (x : Option PendingRequest) (q : PendingRequest)
    → of_others name x ≡ some q
    → x ≡ some q
unfolding of_others
of_others-asked name none q h = ground (arith, h)
of_others-asked name (some p) q h = kept (request_sandbox p == name) h
  where
    kept : (t : Bool) → (if t then none else some p) ≡ some q → some p ≡ some q
    kept true e = ground (arith, e)
    kept false e = e

match-tables :
    (x : Option (ℕ × ReadWriteAccessGrant)) (r : SandboxRegistry)
    → ((match_found x r).0.pending ≡ r.pending)
      × (((match_found x r).0.pending_read_write ≡ r.pending_read_write)
          × (((match_found x r).0.sandboxes ≡ r.sandboxes)
              × ((match_found x r).0.next_operation ≡ r.next_operation)))
unfolding match_found consume
match-tables none r = (refl, (refl, (refl, refl)))
match-tables (some (id, g)) r = elim (Bool-cases (is_one_shot (Map.get id r.read_write_grants))) [
  | inl b ↦ rw b (refl, (refl, (refl, refl)))
  | inr b ↦ rw b (refl, (refl, (refl, refl)))
]

module _ (outside : Outside) (a : Access) (log : PathBuf) (e : ReadWriteEffect)
    (collected : Asked) where
  queue_written-IsLive :
      (id waiter : ℕ) (x : World × Bool)
      → IsLive x.0.registry
      → lookup_pending id x.0.registry ≡ none
      → is_some (Map.get a.fs.sandbox_name x.0.registry.sandboxes) ≡ true
      → id < x.0.registry.next_operation
      → IsLive (queue_written outside a e collected id waiter x).0.registry
  unfolding queue_written with_process_identity new_with_attach_effect insert_any_pending_request
      request_id request_sandbox
  queue_written-IsLive id waiter (v, false) live free present given = live
  queue_written-IsLive id waiter (v, true) live free present given =
      same-IsLive
        (insert_any_pending_request (read_write_request (request_of outside a e id)) v.registry)
        (queue_written outside a e collected id waiter (v, true)).0.registry refl refl refl
        (omega arith)
        (insert_any-IsLive (read_write_request (request_of outside a e id)) v.registry free present
          given live)

  after_match-IsLive :
      (outcome : GrantMatchOutcome) (w : World)
      → IsLive w.registry
      → w.registry.next_operation + 1 < 2 ^ 64
      → is_some (Map.get a.fs.sandbox_name w.registry.sandboxes) ≡ true
      → IsLive (after_match outside a log e outcome collected w).0.registry
  unfolding after_match queue_effect next_operation_id
  after_match-IsLive not_matched w live room present =
      let body = bytes "pending" ++ format_attach_field a.fs.attach_id ++ b' ' ∷ e.description in
      let asking : World = record w {
        registry = (next_operation_id w.registry).0;
        next_waiter = w.next_waiter + 1;
      } in
      let later : w.registry.next_operation ≤ asking.registry.next_operation =
        omega (arith, next_id w.registry.next_operation room) in
      let line = append_line outside log w.registry.next_operation body asking in
      let same : line.0.registry ≡ asking.registry =
        (append_line-board outside log w.registry.next_operation body asking).0 in
      queue_written-IsLive w.registry.next_operation w.next_waiter line
        (subst IsLive (sym same) (same-IsLive w.registry asking.registry refl refl refl later live))
        (ap (lookup_pending w.registry.next_operation) same ∙ unused w.registry live.2)
        (ap (λ r. is_some (Map.get a.fs.sandbox_name r.sandboxes)) same ∙ present)
        (subst (λ r. w.registry.next_operation < r.next_operation) (sym same)
          (omega (arith, next_id w.registry.next_operation room)))
  after_match-IsLive (matched id true) w live room present =
      same-IsLive w.registry (next_operation_id w.registry).0 refl refl refl
        (omega (arith, next_id w.registry.next_operation room)) live
  after_match-IsLive (matched id false) w live room present = live

  ask_in_sandbox-IsLive :
      (s : Option Sandbox) (w : World)
      → Map.get a.fs.sandbox_name w.registry.sandboxes ≡ s
      → IsLive w.registry
      → w.registry.next_operation + 1 < 2 ^ 64
      → IsLive (ask_in_sandbox outside a log e s collected w).0.registry
  unfolding ask_in_sandbox match_read_write_grant_for_intent
  ask_in_sandbox-IsLive none w h live room = live
  ask_in_sandbox-IsLive (some s) w h live room =
      elim (Bool-cases (needs_no_leave outside s a.operation e)) [
        | inl b ↦ rw b live
        | inr b ↦ rw b (
            after_match-IsLive answer.1 (record w { registry = answer.0 })
              (same-IsLive w.registry answer.0 tables.0 tables.1.0 tables.1.1.0
                (omega (arith, tables.1.1.1)) live)
              (omega (arith, tables.1.1.1, room))
              (ap (λ m. is_some (Map.get a.fs.sandbox_name m)) tables.1.1.0 ∙ ap is_some h))
      ]
    where
      found : Option (ℕ × ReadWriteAccessGrant)
      found =
          find (λ g. matches_intent outside.glob g.1 (intent_of outside a e) a.now)
            w.registry.read_write_grants

      answer : SandboxRegistry × GrantMatchOutcome
      answer = match_found found w.registry

      tables :
          (answer.0.pending ≡ w.registry.pending)
          × ((answer.0.pending_read_write ≡ w.registry.pending_read_write)
              × ((answer.0.sandboxes ≡ w.registry.sandboxes)
                  × (answer.0.next_operation ≡ w.registry.next_operation)))
      tables = match-tables found w.registry

  -- While there is room for an id, an ask keeps the registry live.
  pub ask_effect-IsLive :
      (w : World)
      → IsLive w.registry
      → w.registry.next_operation + 1 < 2 ^ 64
      → IsLive (ask_effect outside a log e collected w).0.registry
  unfolding ask_effect
  ask_effect-IsLive w live room =
      ask_in_sandbox-IsLive (Map.get a.fs.sandbox_name w.registry.sandboxes) w refl live room
