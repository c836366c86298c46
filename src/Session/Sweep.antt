-- ===== src/Session/Sweep.antt =====
-- src/session.rs: that `cancel_all` cancels each request of the sandbox, and no other.
use gatefs.Registry.Owned.{remove_any-IsFiled, same_tables-IsFiled}
use gatefs.Registry.{SandboxRegistry, next_operation_id, remove_any_pending_request}
use gatefs.Sandbox.{u64_mod}
use gatefs.Session.Board.{Board, answered, cleared, same_board, settle, settle_found, told}
use gatefs.Pending.{PendingDecision, PendingRequest, request_sandbox}
use gatefs.Registry.Asked.{
  IsFiled, lookup_pending, lookup_pending-remove_any, remove_any-OthersSame,
}
use gatefs.Session.Scope.{CanceledPending, take_each}
use gatefs.Text.{Bytes}
use gatefs.Base.{
  ==_iff, All, All-imp, Bool, Bool-cases, List, Option, [], any, ap, arith, if◌then◌else◌, inl, inr,
  none, refl, some, subst, sym, ℕ, ◌%◌, ◌+◌, ◌==◌, ◌||◌, ◌∙◌, ◌∷◌, ◌≡◌, ◌⊎◌, nat_ord, list_ord,
}
use gatefs.Map

-- What decisions on several requests are to do, one after the other.
unfoldable pub settle_each : Bytes → List ℕ → PendingDecision → Board → Board
settle_each name [] d b = b
settle_each name (id ∷ ids) d b = settle_each name ids d (settle name id d b)

-- What is left of a request where its sandbox's are canceled.
unfoldable pub of_others : Bytes → Option PendingRequest → Option PendingRequest
of_others name none = none
of_others name (some q) = if request_sandbox q == name then none else some q

unfoldable pub told_each : List CanceledPending → Board → Board
told_each [] b = b
told_each (c ∷ cs) b = told_each cs (told c.waiter PendingDecision.cancel b)

abbrev pub board_with : SandboxRegistry → (ℕ → Option PendingDecision) → Board
board_with r answers = record {
  asked = λ id. lookup_pending id r;
  waiting = λ id. Map.get id r.pending_waiters;
  answers = answers;
}

-- An id that may be canceled in a sandbox's name: its request's, or nobody's any more.
abbrev pub Cancelable : Bytes → SandboxRegistry → ℕ → Type 0
Cancelable name r id =
    ((q : PendingRequest) × ((lookup_pending id r ≡ some q) × (request_sandbox q ≡ name)))
    ⊎ ((lookup_pending id r ≡ none) × (Map.get id r.pending_waiters ≡ none))

-- The registry after one id of the loop.
abbrev pub stepped : ℕ → SandboxRegistry → SandboxRegistry
stepped id r =
    let r1 : SandboxRegistry = (remove_any_pending_request id r).0 in
    record r1 {
      pending_waiters = Map.remove id r1.pending_waiters;
      next_operation = (r1.next_operation + 1) % u64_mod;
    }

lookup_pending-stepped :
    (id i : ℕ) (r : SandboxRegistry)
    → IsFiled r
    → lookup_pending i (stepped id r) ≡ (if id == i then none else lookup_pending i r)
lookup_pending-stepped id i r f = lookup_pending-remove_any id i r f

waiters-stepped :
    (id i : ℕ) (r : SandboxRegistry)
    → Map.get i (stepped id r).pending_waiters
      ≡ (if id == i then none else Map.get i r.pending_waiters)
waiters-stepped id i r =
    Map.get-remove id i (remove_any_pending_request id r).0.pending_waiters
    ∙ ap (λ (m : List (ℕ × ℕ)). if id == i then none else Map.get i m)
        (remove_any-OthersSame id r).1.0

stepped-IsFiled : (id : ℕ) (r : SandboxRegistry) → IsFiled r → IsFiled (stepped id r)
stepped-IsFiled id r f =
    same_tables-IsFiled (remove_any_pending_request id r).0 (stepped id r) refl refl
      (remove_any-IsFiled id r f)

none_if :
    {A : Type 0} (id i : ℕ) (look : ℕ → Option A)
    → look id ≡ none
    → (if id == i then none else look i) ≡ look i
none_if id i look h = elim (Bool-cases (id == i)) [
  | inl b ↦ rw b (sym (subst (λ j. look j ≡ none) ((==_iff id i).0 b) h))
  | inr b ↦ rw b refl
]

stepped-Cancelable :
    (name : Bytes) (id j : ℕ) (r : SandboxRegistry)
    → IsFiled r
    → Cancelable name r j
    → Cancelable name (stepped id r) j
stepped-Cancelable name id j r f c = elim (Bool-cases (id == j)) [
  | inl b ↦ inr (lookup_pending-stepped id j r f ∙ rw b refl, waiters-stepped id j r ∙ rw b refl)
  | inr b ↦ elim c [
    | inl (q, (h, own)) ↦ inl (q, (lookup_pending-stepped id j r f ∙ rw b h, own))
    | inr (h, k) ↦ inr (lookup_pending-stepped id j r f ∙ rw b h, waiters-stepped id j r ∙ rw b k)
  ]
]

-- One id of the loop and its waiter's word do what a cancellation is to do.
stepped-settle :
    (name : Bytes) (id : ℕ) (r : SandboxRegistry) (answers : ℕ → Option PendingDecision)
    → IsFiled r
    → Cancelable name r id
    → told
        (Map.get id (remove_any_pending_request id r).0.pending_waiters)
        PendingDecision.cancel
        (board_with (stepped id r) answers)
      ≡ settle name id PendingDecision.cancel (board_with r answers)
unfolding settle settle_found answered
stepped-settle name id r answers f c =
    ap (λ m. told (Map.get id m) PendingDecision.cancel (board_with (stepped id r) answers))
      (remove_any-OthersSame id r).1.0
    ∙ by_cases c
  where
    gone : board_with (stepped id r) answers ≡ cleared id (board_with r answers)
    gone =
        same_board (board_with (stepped id r) answers) (cleared id (board_with r answers))
          (λ i. lookup_pending-stepped id i r f) (λ i. waiters-stepped id i r) (λ v. refl)

    by_cases :
        Cancelable name r id
        → told
            (Map.get id r.pending_waiters)
            PendingDecision.cancel
            (board_with (stepped id r) answers)
          ≡ settle name id PendingDecision.cancel (board_with r answers)
    by_cases (inl (q, (h, own))) =
        ap (told (Map.get id r.pending_waiters) PendingDecision.cancel) gone
        ∙ sym (
            ap (λ x. settle_found name id PendingDecision.cancel x (board_with r answers)) h
            ∙ rw ((==_iff (request_sandbox q) name).1 own) refl)
    by_cases (inr (h, k)) =
        ap (λ u. told u PendingDecision.cancel (board_with (stepped id r) answers)) k
        ∙ gone
        ∙ same_board (cleared id (board_with r answers)) (board_with r answers)
            (λ i. none_if id i (λ j. lookup_pending j r) h)
            (λ i. none_if id i (λ j. Map.get j r.pending_waiters) k) (λ v. refl)
        ∙ sym (ap (λ x. settle_found name id PendingDecision.cancel x (board_with r answers)) h)

-- The loop and the words to the waiters cancel each of the ids.
pub take_each-settle_each :
    (name : Bytes) (field : Option PendingRequest → Option ℕ) (ids : List ℕ) (r : SandboxRegistry)
    (answers : ℕ → Option PendingDecision)
    → IsFiled r
    → All (Cancelable name r) ids
    → told_each (take_each field ids r).1 (board_with (take_each field ids r).0 answers)
      ≡ settle_each name ids PendingDecision.cancel (board_with r answers)
unfolding take_each settle_each told_each next_operation_id
take_each-settle_each name field [] r answers f c = refl
take_each-settle_each name field (id ∷ ids) r answers f c =
    take_each-settle_each name field ids (stepped id r)
      (answered (Map.get id (remove_any_pending_request id r).0.pending_waiters)
        PendingDecision.cancel answers)
      (stepped-IsFiled id r f) (All-imp (λ j k. stepped-Cancelable name id j r f k) ids c.1)
    ∙ ap (settle_each name ids PendingDecision.cancel) (stepped-settle name id r answers f c.0)

-- What the loop leaves in the tables.
pub lookup_pending-take_each :
    (field : Option PendingRequest → Option ℕ) (ids : List ℕ) (i : ℕ) (r : SandboxRegistry)
    → IsFiled r
    → lookup_pending i (take_each field ids r).0
      ≡ (if any (λ j. j == i) ids then none else lookup_pending i r)
unfolding take_each any next_operation_id
lookup_pending-take_each field [] i r f = refl
lookup_pending-take_each field (id ∷ ids) i r f =
    lookup_pending-take_each field ids i (stepped id r) (stepped-IsFiled id r f)
    ∙ ap (λ o. if any (λ j. j == i) ids then none else o) (lookup_pending-stepped id i r f)
    ∙ either (any (λ j. j == i) ids) (id == i)
  where
    either :
        (a b : Bool)
        → (if a then none else if b then none else lookup_pending i r)
          ≡ (if b || a then none else lookup_pending i r)
    either a b = ground arith
