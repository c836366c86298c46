-- ===== src/Examples/Sessions.antt =====
-- Decisions, a grant and dates at concrete arguments.

use gatefs.Sort.{sort_by}
use gatefs.Session.Live.{IsLive, IsNumbered}
use gatefs.Session.Reach.{Reach-IsLive, canceled_all, denied_one, here, next}
use gatefs.Session.Allow.{Machine}
use gatefs.Registry.Index.{some-if}
use gatefs.Grant.{duration_request, exact, matches_request}
use gatefs.Session.Scope.{cancel_all_requests}
use gatefs.Text.{bytes, decimal}
use gatefs.Log.Civil.{civil_from_days-IsDate, civil_from_days-date_after}
use gatefs.Registry.Filing.{insert_any-IsFiled, new_registry-IsFiled}
use gatefs.Session.CancelAll.{cancel_all_requests-settle_each}
use gatefs.Session.Release.{Grounds, grant_for_subject, new_grant}
use gatefs.Log.{civil_from_days, format_timestamp}
use gatefs.Policy.{read}
use gatefs.Session.Serve.{grant_for_subject-unserved}
use gatefs.Log.Calendar.{IsDate, date_after}
use gatefs.Session.Refine.{decide-settle}
use gatefs.Pending.{
  PendingDecision, PendingReadWriteRequest, PendingRequest, metadata_request, read_write_request,
  request_id, request_sandbox,
}
use gatefs.Session.Sweep.{of_others, settle_each}
use gatefs.Operation.{read_file}
use gatefs.Registry.{
  SandboxRegistry, insert_any_pending_request, insert_pending_request, new_registry,
  pending_requests_for_sandbox, remove_any_pending_request,
}
use gatefs.Int.{as_i32, negsuc, pos, quot, ◌*ℤ◌, ◌+ℤ◌, ◌-ℤ◌}
use gatefs.World.{World}
use gatefs.Session.Decide.{allow_decision, allow_request, cancel_request, deny_request}
use gatefs.Registry.Asked.{IsFiled, lookup_pending, lookup_pending-insert_any}
use gatefs.Examples.Data.{box, docs, docs_request, home, literal_glob, outside, reader}
use gatefs.Registry.Owned.{same_tables-IsFiled}
use gatefs.Session.Board.{IsHoused, board, settle}
use gatefs.Base.{
  ==_iff, [], arith, cmp_list, false, inl, inr, is_some, list_ord, map, nat_ord, none, refl, some,
  subst, sym, true, ℕ, ◌<◌, ◌==◌, ◌^◌, ◌∙◌, ◌∷◌, ◌≡◌, retain,
}
use gatefs.Map

-- Request 1 asks to change the mode of `/docs`; waiter 0 waits for it.
abbrev vacant : SandboxRegistry
vacant = record new_registry {
  sandboxes = (bytes "box", box) ∷ [];
  pending_waiters = (1, 0) ∷ [];
  next_operation = 2;
}

abbrev asking : SandboxRegistry
asking = insert_any_pending_request (metadata_request docs_request) vacant

abbrev asking_world : World
asking_world = record { registry = asking; log = []; decided = []; next_waiter = 1 }

nothing_asked : (id : ℕ) → lookup_pending id vacant ≡ none
unfolding Map.get
nothing_asked id = refl

asking-IsFiled : IsFiled asking
asking-IsFiled =
    insert_any-IsFiled (metadata_request docs_request) vacant
      (nothing_asked (request_id (metadata_request docs_request)))
      (same_tables-IsFiled new_registry vacant refl refl new_registry-IsFiled)

asking_one :
    (id : ℕ) (q : PendingRequest)
    → lookup_pending id asking ≡ some q
    → (1 ≡ id) × (metadata_request docs_request ≡ q)
unfolding insert_any_pending_request request_id
asking_one id q h =
    elim (some-if (1 == id) (metadata_request docs_request) q (lookup_pending id vacant) (
      sym (lookup_pending-insert_any (metadata_request docs_request) id vacant (nothing_asked 1))
      ∙ h)) [
        | inl (b, e) ↦ ((==_iff 1 id).0 b, e)
        | inr (b, e) ↦ absurd (ground (arith, e, nothing_asked id))
      ]

asking-IsHoused : IsHoused asking
unfolding request_sandbox Map.get cmp_list insert_any_pending_request insert_pending_request
asking-IsHoused id q h =
    subst (λ x. is_some (Map.get (request_sandbox x) asking.sandboxes) ≡ true) (asking_one id q h).1
      refl

asking-IsNumbered : IsNumbered asking
unfolding insert_any_pending_request insert_pending_request
asking-IsNumbered id q h = omega (arith, (asking_one id q h).0)

decide-settle_example :
    (board (deny_request outside (bytes "box") 1 asking_world).0
      ≡ settle (bytes "box") 1 PendingDecision.deny (board asking_world))
    × ((board (cancel_request outside (bytes "box") 1 (bytes "explicit") asking_world).0
          ≡ settle (bytes "box") 1 PendingDecision.cancel (board asking_world))
        × (board (allow_request outside (bytes "box") 1 false asking_world).0
            ≡ settle (bytes "box") 1 (allow_decision false) (board asking_world)))
decide-settle_example =
    decide-settle outside (bytes "box") 1 (bytes "explicit") false asking_world asking-IsFiled
      asking-IsHoused

box_is_there : Map.get (bytes "box") asking_world.registry.sandboxes ≡ some box
unfolding Map.get cmp_list insert_any_pending_request insert_pending_request
box_is_there = refl

cancel_all_requests-settle_each_example :
    (board (cancel_all_requests outside (bytes "box") asking_world).0
      ≡ settle_each
          (bytes "box")
          (map request_id (pending_requests_for_sandbox (bytes "box") asking))
          PendingDecision.cancel
          (board asking_world))
    × ((id : ℕ)
        → (board (cancel_all_requests outside (bytes "box") asking_world).0).asked id
          ≡ of_others (bytes "box") ((board asking_world).asked id))
cancel_all_requests-settle_each_example =
    cancel_all_requests-settle_each outside (bytes "box") box asking_world asking-IsFiled
      box_is_there

-- The request is denied, and then all of the sandbox's are canceled.
abbrev settled_world : World
settled_world =
    (cancel_all_requests outside (bytes "box")
      (deny_request outside (bytes "box") 1 asking_world).0).0

asking_next : asking_world.registry.next_operation ≡ 2
unfolding insert_any_pending_request
asking_next = refl

denied_next : (deny_request outside (bytes "box") 1 asking_world).0.registry.next_operation ≡ 3
unfolding deny_request remove_any_pending_request Map.get insert_any_pending_request Map.insert
    cmp_list request_sandbox
denied_next = refl

settled_next : settled_world.registry.next_operation ≡ 4
unfolding deny_request cancel_all_requests Map.get insert_any_pending_request Map.insert cmp_list
    request_sandbox sort_by retain Map.remove
settled_next = refl

Reach-IsLive_example : IsLive settled_world.registry
Reach-IsLive_example =
    Reach-IsLive outside asking_world settled_world
      (asking-IsFiled, asking-IsHoused, asking-IsNumbered)
      (next
        (next here (denied_one (bytes "box") 1 asking_world)
          (omega (arith, asking_next, denied_next)))
        (canceled_all (bytes "box") (deny_request outside (bytes "box") 1 asking_world).0)
        (omega (arith, denied_next, settled_next)))

abbrev machine : Machine
machine = record {
  identity_for_pid = λ process. none;
  process_tree_for_pid = λ process. none;
  now = 5;
  last_time = 2 ^ 80;
}

-- A process asks to read `/docs`; another request of it waits under 1.
abbrev docs_read : ℕ → PendingReadWriteRequest
docs_read id = record {
  id = id;
  sandbox = bytes "box";
  attach_id = none;
  operation = read_file docs;
  kind = read;
  path = docs;
  pid = 7;
  uid = 1000;
  gid = 1000;
  process_identity = some reader;
  description = bytes "path=/docs READ";
}

abbrev reading : SandboxRegistry
reading = insert_any_pending_request (read_write_request (docs_read 1)) vacant

reading-IsFiled : IsFiled reading
reading-IsFiled =
    insert_any-IsFiled (read_write_request (docs_read 1)) vacant
      (nothing_asked (request_id (read_write_request (docs_read 1))))
      (same_tables-IsFiled new_registry vacant refl refl new_registry-IsFiled)

abbrev docs_grounds : Grounds
docs_grounds = record {
  request = docs_read 2;
  waiter = none;
  path = docs;
  lifetime = duration_request 60;
  decision_id = 3;
  log_path = home;
  warning = none;
}

grant_for_subject-unserved_example :
    (Map.get reading.next_operation
        (grant_for_subject machine literal_glob
          (bytes "box")
          2
          docs_grounds
          (some (exact reader))
          reading).0.read_write_grants
      ≡ some (new_grant machine (bytes "box") docs_grounds (exact reader) reading.next_operation))
    × ((i : ℕ) (q : PendingReadWriteRequest)
        → Map.get i
            (grant_for_subject machine literal_glob
              (bytes "box")
              2
              docs_grounds
              (some (exact reader))
              reading).0.pending_read_write
          ≡ some q
        → matches_request literal_glob
            (new_grant machine (bytes "box") docs_grounds (exact reader) reading.next_operation)
            q
            machine.now
          ≡ false)
grant_for_subject-unserved_example =
    grant_for_subject-unserved machine literal_glob (bytes "box") 2 60 docs_grounds (exact reader)
      reading reading-IsFiled refl

civil_from_days-date_after_example :
    civil_from_days (pos 59) ≡ (pos (date_after 59).0, (date_after 59).1)
civil_from_days-date_after_example = civil_from_days-date_after 59 (omega arith)

civil_from_days-IsDate_example :
    (year : ℕ) × ((civil_from_days (pos 19782)).0 ≡ pos year)
    × (year < 2 ^ 31)
    × IsDate (year, (civil_from_days (pos 19782)).1)
civil_from_days-IsDate_example = civil_from_days-IsDate 19782 (omega arith)

-- The day before the epoch.
before_epoch : civil_from_days (negsuc 0) ≡ (pos 1969, (12, 31))
unfolding civil_from_days as_i32 ◌-ℤ◌ ◌+ℤ◌ ◌*ℤ◌ quot
before_epoch = refl

-- The time that the tests of the log print.
new_year_2024 : format_timestamp 1704067200123456789 ≡ bytes "[2024-01-01T00:00:00.123456Z]"
unfolding format_timestamp decimal as_i32 ◌-ℤ◌ ◌+ℤ◌ ◌*ℤ◌ quot
new_year_2024 = refl
