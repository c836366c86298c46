-- ===== src/Session/CancelAll.antt =====
-- src/session.rs: what `cancel_all` of a sandbox does to the board.
use gatefs.Registry.Listing.{pending_requests_for_sandbox_lem}
use gatefs.Registry.Owned.{
  pending_requests_for_sandbox-any, pending_requests_for_sandbox-lookup_pending,
  same_tables-IsFiled,
}
use gatefs.Session.{with_registry}
use gatefs.Sandbox.{Sandbox}
use gatefs.StdPath.{PathBuf}
use gatefs.Registry.Asked.{IsFiled, lookup_pending}
use gatefs.Session.Sweep.{
  Cancelable, board_with, lookup_pending-take_each, of_others, settle_each, take_each-settle_each,
  told_each,
}
use gatefs.Session.Board.{Board, append_line-board, board, board_of, notify_waiter-board, told}
use gatefs.Pending.{PendingDecision, PendingRequest, request_id, request_sandbox}
use gatefs.Text.{Bytes, bytes}
use gatefs.Session.Decide.{cancel_body}
use gatefs.World.{Outside, World, append_line, format_attach_field, notify_waiter}
use gatefs.Session.Scope.{
  CanceledPending, append_each, append_result, attach_of, cancel_all_found, cancel_all_requests,
  finish_cancel_scope, notify_each, scope_body, take_each,
}
use gatefs.Registry.{SandboxRegistry, next_operation_id, pending_requests_for_sandbox}
use gatefs.Base.{
  ==_iff, All, All-any, All-both, All-imp, All-map, Bool, Bool-cases, List, Option, [], any, ap,
  arith, false, if_elim, if◌then◌else◌, inl, inr, length, list_ord, map, nat_ord, none, refl, some,
  subst, sym, true, ℕ, ◌==◌, ◌∙◌, ◌∷◌, ◌≡◌,
}
use gatefs.Map

notify_each-board :
    (items : List CanceledPending) (w : World)
    → board (notify_each items w) ≡ told_each items (board w)
unfolding notify_each told_each
notify_each-board [] w = refl
notify_each-board (c ∷ cs) w =
    notify_each-board cs (notify_waiter c.waiter PendingDecision.cancel w)
    ∙ ap (told_each cs) (notify_waiter-board c.waiter PendingDecision.cancel w)

told_each-asked :
    (items : List CanceledPending) (b : Board) (id : ℕ) → (told_each items b).asked id ≡ b.asked id
unfolding told_each
told_each-asked [] b id = refl
told_each-asked (c ∷ cs) b id = told_each-asked cs (told c.waiter PendingDecision.cancel b) id

-- The ids of a sandbox's list may be canceled in its name.
listed-Cancelable :
    (name : Bytes) (r : SandboxRegistry)
    → IsFiled r
    → All (Cancelable name r) (map request_id (pending_requests_for_sandbox name r))
listed-Cancelable name r f =
    let listed = pending_requests_for_sandbox name r in
    All-map (Cancelable name r) request_id listed (
      All-imp (λ q k. inl (q, (k.0, (==_iff (request_sandbox q) name).0 k.1))) listed
        (All-both (λ q. lookup_pending (request_id q) r ≡ some q)
          (λ q. (request_sandbox q == name) ≡ true) listed
          (pending_requests_for_sandbox-lookup_pending name r f)
          (pending_requests_for_sandbox_lem name r).1))

of_others_lem :
    (name : Bytes) (ids : List ℕ) (i : ℕ) (r : SandboxRegistry) (x : Option PendingRequest)
    → lookup_pending i r ≡ x
    → All (Cancelable name r) ids
    → ((q : PendingRequest)
        → x ≡ some q
        → (request_sandbox q == name) ≡ true
        → any (λ j. j == i) ids ≡ true)
    → (if any (λ j. j == i) ids then none else x) ≡ of_others name x
unfolding of_others
of_others_lem name ids i r none h c covered =
    if_elim (λ o. o ≡ none) (any (λ j. j == i) ids) refl refl
of_others_lem name ids i r (some q) h c covered = elim (Bool-cases (request_sandbox q == name)) [
  | inl b ↦ rw (b, covered q refl b) refl
  | inr b ↦ rw b (not_listed (any (λ j. j == i) ids) refl b)
]
  where
    impossible : Cancelable name r i → (request_sandbox q == name) ≡ false → none ≡ some q
    impossible (inl (p, (g, own))) d =
        let listed : p ≡ q = ground (arith, g, h) in
        let named : (request_sandbox q == name) ≡ true =
          (==_iff (request_sandbox q) name).1 (ap request_sandbox (sym listed) ∙ own) in
        ground (arith, named, d)
    impossible (inr (g, k)) d = ground (arith, g, h)

    not_listed :
        (b : Bool)
        → any (λ j. j == i) ids ≡ b
        → (request_sandbox q == name) ≡ false
        → (if b then none else some q) ≡ some q
    not_listed false e d = refl
    not_listed true e d =
        let (j, (same, k)) = All-any (Cancelable name r) (λ j. j == i) ids c e in
        impossible (subst (Cancelable name r) ((==_iff j i).0 same) k) d

module _ (outside : Outside) where
  append_result-registry :
      (log : PathBuf) (id : ℕ) (body : Bytes) (w : World)
      → board (append_result outside log id body w).0 ≡ board w
  unfolding append_result
  append_result-registry log id body w =
      ap (λ r. board_of r (append_line outside log id body w).0.decided)
        (append_line-board outside log id body w).0
      ∙ ap (board_of w.registry) (append_line-board outside log id body w).1

  append_each-board :
      (log : PathBuf) (reason : Bytes) (items : List CanceledPending) (w : World)
      → board (append_each outside log reason items w).0 ≡ board w
  unfolding append_each
  append_each-board log reason [] w = refl
  append_each-board log reason (c ∷ cs) w =
      append_each-board log reason cs
        (append_result outside log c.event_id
          (cancel_body c.id reason (format_attach_field c.attach_id)) w).0
      ∙ append_result-registry log c.event_id
          (cancel_body c.id reason (format_attach_field c.attach_id)) w

  -- The lines of a canceled scope, taken or not, do not keep a waiter from its word.
  finish_cancel_scope-board :
      (event_id : ℕ) (log : PathBuf) (items : List CanceledPending) (scope : Bytes)
      (attach_id : Option ℕ) (reason : Bytes) (w : World)
      → board (finish_cancel_scope outside event_id log items scope attach_id reason w).0
        ≡ told_each items (board w)
  unfolding finish_cancel_scope
  finish_cancel_scope-board event_id log items scope attach_id reason w =
      let line =
        append_result outside log event_id (scope_body attach_id scope reason (length items)) w in
      notify_each-board items (append_each outside log reason items line.0).0
      ∙ ap (told_each items) (
          append_each-board log reason items line.0
          ∙ append_result-registry log event_id (scope_body attach_id scope reason (length items))
              w)

  -- Where each request stands under its own id in one table, `cancel_all` of a sandbox that is there
  -- does to the board what canceling each id of its list is to do, one after the other, whether the
  -- log takes the lines or not; after it no request of the sandbox is asked, and each other one is.
  pub cancel_all_requests-settle_each :
      (name : Bytes) (s : Sandbox) (w : World)
      → IsFiled w.registry
      → Map.get name w.registry.sandboxes ≡ some s
      → (board (cancel_all_requests outside name w).0
          ≡ settle_each name
              (map request_id (pending_requests_for_sandbox name w.registry))
              PendingDecision.cancel
              (board w))
        × ((id : ℕ)
            → (board (cancel_all_requests outside name w).0).asked id
              ≡ of_others name ((board w).asked id))
  unfolding cancel_all_requests cancel_all_found next_operation_id
  cancel_all_requests-settle_each name s w f h = subst Canceled (sym h) (
    closed
        ∙ take_each-settle_each name attach_of ids r1 (board w).answers filed
            (listed-Cancelable name w.registry f),
    λ id.
        ap (λ (b : Board). b.asked id) closed
        ∙ told_each-asked (take_each attach_of ids r1).1
            (board_with (take_each attach_of ids r1).0 (board w).answers) id
        ∙ lookup_pending-take_each attach_of ids id r1 filed
        ∙ of_others_lem name ids id w.registry (lookup_pending id w.registry) refl
            (listed-Cancelable name w.registry f)
            (λ q k own. pending_requests_for_sandbox-any name id q w.registry f k own),
  )
    where
      ids : List ℕ
      ids = map request_id (pending_requests_for_sandbox name w.registry)

      r1 : SandboxRegistry
      r1 = (next_operation_id w.registry).0

      filed : IsFiled r1
      filed = same_tables-IsFiled w.registry r1 refl refl f

      Canceled : Option Sandbox → Type 0
      Canceled x =
          (board (cancel_all_found outside name x w).0
            ≡ settle_each name ids PendingDecision.cancel (board w))
          × ((id : ℕ)
              → (board (cancel_all_found outside name x w).0).asked id
                ≡ of_others name ((board w).asked id))

      closed :
          board (cancel_all_found outside name (some s) w).0
          ≡ told_each
              (take_each attach_of ids r1).1
              (board_with (take_each attach_of ids r1).0 (board w).answers)
      closed =
          finish_cancel_scope-board w.registry.next_operation s.log_path
            (take_each attach_of ids r1).1 (bytes "sandbox") none (bytes "cancel-all")
            (with_registry w (take_each attach_of ids r1).0)
