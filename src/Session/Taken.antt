-- ===== src/Session/Taken.antt =====
-- src/session.rs: how every decision takes its request out of the tables.
use gatefs.Session.Decide.{take_found, take_pending}
use gatefs.Text.{Bytes}
use gatefs.World.{World}
use gatefs.Session.Board.{Board, board, same_board, settle, settle_found}
use gatefs.Registry.{SandboxRegistry, insert_any_pending_request, remove_any_pending_request}
use gatefs.Session.{with_registry}
use gatefs.Pending.{
  PendingDecision, PendingMetadataRequest, PendingReadWriteRequest, PendingRequest,
  metadata_request, read_write_request, request_id, request_sandbox,
}
use gatefs.Error.{Result, err, ok}
use gatefs.Registry.Asked.{
  IsFiled, OthersSame, either_request, insert_any-OthersSame, lookup_pending,
  lookup_pending-insert_any, lookup_pending-remove_any, remove_any-OthersSame,
  remove_any-lookup_pending,
}
use gatefs.Base.{
  ==_iff, ==_refl, Bool-cases, Option, ap, arith, if◌then◌else◌, inl, inr, list_ord, nat_ord, none,
  refl, some, subst, sym, ℕ, ◌==◌, ◌∙◌, ◌≡◌,
}
use gatefs.Map

-- What a request is under its id, and no other.
pub lookup_pending-request_id :
    (id : ℕ) (r : SandboxRegistry) (q : PendingRequest)
    → IsFiled r
    → lookup_pending id r ≡ some q
    → request_id q ≡ id
unfolding request_id
lookup_pending-request_id id r q f h =
    by_cases (Map.get id r.pending) (Map.get id r.pending_read_write) q refl refl h
  where
    by_cases :
        (x : Option PendingMetadataRequest) (y : Option PendingReadWriteRequest)
        (q : PendingRequest)
        → Map.get id r.pending ≡ x
        → Map.get id r.pending_read_write ≡ y
        → either_request x y ≡ some q
        → request_id q ≡ id
    by_cases (some m) y (metadata_request q) e d h =
        f.own_metadata id q (e ∙ ap some (ground arith))
    by_cases (some m) y (read_write_request q) e d h = ground arith
    by_cases none (some n) (metadata_request q) e d h = ground arith
    by_cases none (some n) (read_write_request q) e d h =
        f.own_read_write id q (d ∙ ap some (ground arith))
    by_cases none none q e d h = ground arith

-- The world after a request is asked for: it is out of the tables, or all is as it was.
abbrev without_request : ℕ → Board → Board
without_request id b = record b { asked = λ i. if id == i then none else b.asked i }

unfoldable pub TakenAs : Bytes → ℕ → World → World × Result PendingRequest → Type 0
TakenAs name id w (v, err e) =
    (board v ≡ board w)
    × (OthersSame w.registry v.registry
        × ((d : PendingDecision) → settle name id d (board w) ≡ board w))
TakenAs name id w (v, ok q) =
    (board v ≡ without_request id (board w))
    × (OthersSame w.registry v.registry
        × ((lookup_pending id w.registry ≡ some q) × (request_sandbox q ≡ name)))

no_request_lem :
    (id i : ℕ) (r : SandboxRegistry)
    → lookup_pending id r ≡ none
    → (if id == i then none else lookup_pending i r) ≡ lookup_pending i r
no_request_lem id i r h = elim (Bool-cases (id == i)) [
  | inl b ↦ rw b (sym (subst (λ j. lookup_pending j r ≡ none) ((==_iff id i).0 b) h))
  | inr b ↦ rw b refl
]

put_back_lem :
    (id i : ℕ) (q : PendingRequest) (r : SandboxRegistry)
    → request_id q ≡ id
    → lookup_pending id r ≡ some q
    → (if request_id q == i then some q else if id == i then none else lookup_pending i r)
      ≡ lookup_pending i r
put_back_lem id i q r same h =
    ap (λ j. if j == i then some q else if id == i then none else lookup_pending i r) same
    ∙ elim (Bool-cases (id == i)) [
      | inl b ↦ rw b (sym (subst (λ j. lookup_pending j r ≡ some q) ((==_iff id i).0 b) h))
      | inr b ↦ rw b refl
    ]

take_found-TakenAs :
    (name : Bytes) (id : ℕ) (w : World) (s : SandboxRegistry) (x : Option PendingRequest)
    → IsFiled w.registry
    → ((i : ℕ) → lookup_pending i s ≡ (if id == i then none else lookup_pending i w.registry))
    → OthersSame w.registry s
    → lookup_pending id w.registry ≡ x
    → TakenAs name id w (take_found name id w (s, x))
unfolding TakenAs take_found settle settle_found
take_found-TakenAs name id w s none f gone others h = (
  same_board (board (with_registry w s)) (board w) (λ i. gone i ∙ no_request_lem id i w.registry h)
      (λ i. ap (Map.get i) others.1.0) (λ v. refl),
  (others, λ d. ap (λ x. settle_found name id d x (board w)) h),
)
take_found-TakenAs name id w s (some q) f gone others h =
    elim (Bool-cases (request_sandbox q == name)) [
      | inl b ↦ rw b (
        same_board (board (with_registry w s)) (without_request id (board w)) gone
            (λ i. ap (Map.get i) others.1.0) (λ v. refl),
        (others, (h, (==_iff (request_sandbox q) name).0 b)),
      )
      | inr b ↦ rw b (
        same_board (board (with_registry w (insert_any_pending_request q s))) (board w) same_asked
            (λ i. ap (Map.get i) (after.1.0 ∙ others.1.0)) (λ v. refl),
        (
          (
            after.0 ∙ others.0,
            (after.1.0 ∙ others.1.0, (after.1.1.0 ∙ others.1.1.0, after.1.1.1 ∙ others.1.1.1)),
          ),
          λ d. ap (λ x. settle_found name id d x (board w)) h ∙ rw b refl,
        ),
      )
    ]
  where
    after : OthersSame s (insert_any_pending_request q s)
    after = insert_any-OthersSame q s

    own : request_id q ≡ id
    own = lookup_pending-request_id id w.registry q f h

    free : lookup_pending (request_id q) s ≡ none
    free = ap (λ i. lookup_pending i s) own ∙ gone id ∙ rw (==_refl id) refl

    same_asked :
        (i : ℕ) → lookup_pending i (insert_any_pending_request q s) ≡ lookup_pending i w.registry
    same_asked i =
        lookup_pending-insert_any q i s free
        ∙ ap (λ o. if request_id q == i then some q else o) (gone i)
        ∙ put_back_lem id i q w.registry own h

-- A decision first takes its request out, or leaves the board as it was.
pub take_pending-TakenAs :
    (name : Bytes) (id : ℕ) (w : World)
    → IsFiled w.registry
    → TakenAs name id w (take_pending name id w)
unfolding take_pending
take_pending-TakenAs name id w f =
    take_found-TakenAs name id w (remove_any_pending_request id w.registry).0
      (remove_any_pending_request id w.registry).1 f
      (λ i. lookup_pending-remove_any id i w.registry f) (remove_any-OthersSame id w.registry)
      (sym (remove_any-lookup_pending id w.registry))
