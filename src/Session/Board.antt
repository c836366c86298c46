-- ===== src/Session/Board.antt =====
-- src/session.rs and src/fs.rs, seen from afar: what is asked, who waits, and what was answered.
use gatefs.Registry.Asked.{lookup_pending}
use gatefs.Registry.{SandboxRegistry}
use gatefs.StdPath.{PathBuf}
use gatefs.Text.{Bytes}
use gatefs.World.{Outside, World, append_line, notify_waiter}
use gatefs.Session.Decide.{finish_decision}
use gatefs.Pending.{PendingDecision, PendingRequest, request_sandbox}
use gatefs.Base.{
  Bool, List, Option, ap, fun_ext, if_elim, if◌then◌else◌, is_some, list_ord, nat_ord, none, refl,
  some, true, ℕ, ◌==◌, ◌∙◌, ◌≡◌,
}
use gatefs.Map

pub record Board : Type 0 where
  pub asked : ℕ → Option PendingRequest
  pub waiting : ℕ → Option ℕ
  pub answers : ℕ → Option PendingDecision

abbrev pub board_of : SandboxRegistry → List (ℕ × PendingDecision) → Board
board_of r decided = record {
  asked = λ id. lookup_pending id r;
  waiting = λ id. Map.get id r.pending_waiters;
  answers = λ waiter. Map.get waiter decided;
}

abbrev pub board : World → Board
board w = board_of w.registry w.decided

pub same_board :
    (a b : Board)
    → ((id : ℕ) → a.asked id ≡ b.asked id)
    → ((id : ℕ) → a.waiting id ≡ b.waiting id)
    → ((waiter : ℕ) → a.answers waiter ≡ b.answers waiter)
    → a ≡ b
same_board a b h k l =
    ap (λ (f : ℕ → Option PendingRequest). record a { asked = f }) (fun_ext h)
    ∙ ap (λ (f : ℕ → Option ℕ). record a { asked = b.asked; waiting = f }) (fun_ext k)
    ∙ ap (λ (f : ℕ → Option PendingDecision). record b { answers = f }) (fun_ext l)

-- A waiter, if there is one, is told a decision.
unfoldable pub answered :
    Option ℕ → PendingDecision → (ℕ → Option PendingDecision) → ℕ → Option PendingDecision
answered none d answers waiter = answers waiter
answered (some told) d answers waiter = if told == waiter then some d else answers waiter

abbrev pub told : Option ℕ → PendingDecision → Board → Board
told waiter d b = record b { answers = answered waiter d b.answers }

-- A request is off the board.
abbrev pub cleared : ℕ → Board → Board
cleared id b = record b {
  asked = λ i. if id == i then none else b.asked i;
  waiting = λ i. if id == i then none else b.waiting i;
}

-- What a decision on a request is to do: a request of the sandbox leaves the board, and its waiter
-- is told; any other id changes nothing.
unfoldable pub settle_found : Bytes → ℕ → PendingDecision → Option PendingRequest → Board → Board
settle_found name id d none b = b
settle_found name id d (some q) b =
    if request_sandbox q == name then told (b.waiting id) d (cleared id b) else b

unfoldable pub settle : Bytes → ℕ → PendingDecision → Board → Board
unfolding settle_found
settle name id d b = settle_found name id d (b.asked id) b

-- The sandbox of every request is there.
abbrev pub IsHoused : SandboxRegistry → Type 0
IsHoused r =
    (id : ℕ) (q : PendingRequest)
    → lookup_pending id r ≡ some q
    → is_some (Map.get (request_sandbox q) r.sandboxes) ≡ true

pub notify_waiter-board :
    (waiter : Option ℕ) (d : PendingDecision) (w : World)
    → board (notify_waiter waiter d w) ≡ told waiter d (board w)
unfolding notify_waiter answered
notify_waiter-board none d w = refl
notify_waiter-board (some u) d w =
    same_board (board (notify_waiter (some u) d w)) (told (some u) d (board w)) (λ id. refl)
      (λ id. refl) (λ v. Map.get-insert u v d w.decided)

module _ (outside : Outside) where
  pub append_line-board :
      (log : PathBuf) (id : ℕ) (body : Bytes) (w : World)
      → ((append_line outside log id body w).0.registry ≡ w.registry)
        × ((append_line outside log id body w).0.decided ≡ w.decided)
  unfolding append_line
  append_line-board log id body w =
      if_elim {A = World × Bool} (λ x. (x.0.registry ≡ w.registry) × (x.0.decided ≡ w.decided))
        (outside.accepts (record { log_path = log; id = id; body = body }) w.log) (refl, refl)
        (refl, refl)

  -- The end of a decision tells the waiter, whether the log takes the line or not.
  pub finish_decision-board :
      (log : PathBuf) (id : ℕ) (body : Bytes) (waiter : Option ℕ) (d : PendingDecision) (w : World)
      → board (finish_decision outside log id body waiter d w).0 ≡ told waiter d (board w)
  unfolding finish_decision
  finish_decision-board log id body waiter d w =
      notify_waiter-board waiter d (append_line outside log id body w).0
      ∙ ap (λ r. told waiter d (board_of r (append_line outside log id body w).0.decided))
          (append_line-board log id body w).0
      ∙ ap (λ a. told waiter d (board_of w.registry a)) (append_line-board log id body w).1
