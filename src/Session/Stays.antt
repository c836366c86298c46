-- ===== src/Session/Stays.antt =====
-- src/session.rs: what every decision keeps of the registry.
use gatefs.Session.Taken.{lookup_pending-request_id}
use gatefs.Session.Board.{append_line-board}
use gatefs.Registry.Owned.{remove_any-IsFiled, same_tables-IsFiled}
use gatefs.Session.Decide.{
  close_found, close_taken, finish_decision, forget_waiter, take_found, take_pending,
}
use gatefs.World.{Outside, World, append_line, format_attach_field, notify_waiter}
use gatefs.Registry.Asked.{
  IsFiled, insert_any-OthersSame, lookup_pending, lookup_pending-remove_any, remove_any-OthersSame,
  remove_any-lookup_pending,
}
use gatefs.Registry.Filing.{insert_any-IsFiled}
use gatefs.Text.{Bytes}
use gatefs.StdPath.{PathBuf}
use gatefs.Sandbox.{Sandbox}
use gatefs.Error.{Result, err, ok}
use gatefs.Session.{put_sandbox, with_registry}
use gatefs.Registry.{
  SandboxRegistry, insert_any_pending_request, next_operation_id, remove_any_pending_request,
}
use gatefs.Pending.{PendingDecision, PendingRequest, request_attach_id, request_sandbox}
use gatefs.Base.{
  ==_refl, Bool-cases, Option, ap, if_elim, inl, inr, is_some, list_ord, nat_ord, none, refl, some,
  subst, sym, true, ℕ, ◌==◌, ◌∙◌, ◌≡◌,
}
use gatefs.Map

-- The sandboxes that are there stay there.
abbrev pub Kept : SandboxRegistry → SandboxRegistry → Type 0
Kept r s =
    (name : Bytes)
    → is_some (Map.get name r.sandboxes) ≡ true
    → is_some (Map.get name s.sandboxes) ≡ true

-- The tables are filed still, and the sandboxes are there.
abbrev pub Stays : SandboxRegistry → SandboxRegistry → Type 0
Stays r s = (IsFiled r → IsFiled s) × Kept r s

pub Stays-refl : (r : SandboxRegistry) → Stays r r
Stays-refl r = (λ f. f, λ name h. h)

pub Stays-trans : (r s t : SandboxRegistry) → Stays r s → Stays s t → Stays r t
Stays-trans r s t h k = (λ f. k.0 (h.0 f), λ name g. k.1 name (h.1 name g))

pub same-Stays :
    (r s : SandboxRegistry)
    → s.pending ≡ r.pending
    → s.pending_read_write ≡ r.pending_read_write
    → s.sandboxes ≡ r.sandboxes
    → Stays r s
same-Stays r s e d h =
    (same_tables-IsFiled r s e d, λ name g. subst (λ m. is_some (Map.get name m) ≡ true) (sym h) g)

pub equal-Stays : (r s : SandboxRegistry) → s ≡ r → Stays r s
equal-Stays r s e = subst (Stays r) (sym e) (Stays-refl r)

pub put_sandbox-Stays :
    (name : Bytes) (s : Sandbox) (w : World) → Stays w.registry (put_sandbox name s w).registry
put_sandbox-Stays name s w = (
  same_tables-IsFiled w.registry (put_sandbox name s w).registry refl refl,
  λ other h.
      subst (λ x. is_some x ≡ true) (sym (Map.get-insert name other s w.registry.sandboxes))
        (if_elim (λ x. is_some x ≡ true) (name == other) refl h),
)

pub notify_waiter-registry :
    (waiter : Option ℕ) (d : PendingDecision) (w : World)
    → (notify_waiter waiter d w).registry ≡ w.registry
unfolding notify_waiter
notify_waiter-registry none d w = refl
notify_waiter-registry (some u) d w = refl

pub remove_any-Stays : (id : ℕ) (r : SandboxRegistry) → Stays r (remove_any_pending_request id r).0
remove_any-Stays id r = (
  remove_any-IsFiled id r,
  λ name h. subst (λ m. is_some (Map.get name m) ≡ true) (sym (remove_any-OthersSame id r).0) h,
)

-- A request that is put back where it was.
put_back-Stays :
    (id : ℕ) (q : PendingRequest) (r : SandboxRegistry)
    → IsFiled r
    → lookup_pending id r ≡ some q
    → Stays r (insert_any_pending_request q (remove_any_pending_request id r).0)
put_back-Stays id q r f h = (
  λ g.
      insert_any-IsFiled q (remove_any_pending_request id r).0
        (ap (λ i. lookup_pending i (remove_any_pending_request id r).0)
            (lookup_pending-request_id id r q f h)
          ∙ lookup_pending-remove_any id id r f
          ∙ rw (==_refl id) refl)
        (remove_any-IsFiled id r f),
  λ name g.
      subst (λ m. is_some (Map.get name m) ≡ true)
        (sym (
          (insert_any-OthersSame q (remove_any_pending_request id r).0).0
          ∙ (remove_any-OthersSame id r).0))
        g,
)

pub take_pending-Stays :
    (name : Bytes) (id : ℕ) (w : World)
    → IsFiled w.registry
    → Stays w.registry (take_pending name id w).0.registry
unfolding take_pending take_found
take_pending-Stays name id w f =
    by_cases (remove_any_pending_request id w.registry).1
      (sym (remove_any-lookup_pending id w.registry))
  where
    by_cases :
        (x : Option PendingRequest)
        → lookup_pending id w.registry ≡ x
        → Stays w.registry
            (take_found name id w ((remove_any_pending_request id w.registry).0, x)).0.registry
    by_cases none h = remove_any-Stays id w.registry
    by_cases (some q) h = elim (Bool-cases (request_sandbox q == name)) [
      | inl b ↦ rw b (remove_any-Stays id w.registry)
      | inr b ↦ rw b (put_back-Stays id q w.registry f h)
    ]

module _ (outside : Outside) where
  pub finish_decision-Stays :
      (log : PathBuf) (id : ℕ) (body : Bytes) (waiter : Option ℕ) (d : PendingDecision) (w : World)
      → Stays w.registry (finish_decision outside log id body waiter d w).0.registry
  unfolding finish_decision
  finish_decision-Stays log id body waiter d w =
      equal-Stays w.registry (finish_decision outside log id body waiter d w).0.registry (
        notify_waiter-registry waiter d (append_line outside log id body w).0
        ∙ (append_line-board outside log id body w).0)

  pub close_taken-Stays :
      (name : Bytes) (id : ℕ) (body : Bytes → Bytes) (d : PendingDecision)
      (x : World × Result PendingRequest)
      → Stays x.0.registry (close_taken outside name id body d x).0.registry
  unfolding close_taken close_found next_operation_id
  close_taken-Stays name id body d (v, err e) = Stays-refl v.registry
  close_taken-Stays name id body d (v, ok q) = by_cases (Map.get name v.registry.sandboxes)
    where
      by_cases :
          (s : Option Sandbox)
          → Stays v.registry
              (close_found outside name id v.registry.next_operation
                (body (format_attach_field (request_attach_id q)))
                d
                s
                (with_registry v (next_operation_id v.registry).0)).0.registry
      by_cases none = same-Stays v.registry (next_operation_id v.registry).0 refl refl refl
      by_cases (some s) =
          Stays-trans v.registry
            (forget_waiter id (with_registry v (next_operation_id v.registry).0)).registry
            (finish_decision outside s.log_path v.registry.next_operation
              (body (format_attach_field (request_attach_id q)))
              (Map.get id v.registry.pending_waiters) d
              (forget_waiter id (with_registry v (next_operation_id v.registry).0))).0.registry
            (same-Stays v.registry
              (forget_waiter id (with_registry v (next_operation_id v.registry).0)).registry refl
              refl refl)
            (finish_decision-Stays s.log_path v.registry.next_operation
              (body (format_attach_field (request_attach_id q)))
              (Map.get id v.registry.pending_waiters) d
              (forget_waiter id (with_registry v (next_operation_id v.registry).0)))
