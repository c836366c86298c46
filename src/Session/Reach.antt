-- ===== src/Session/Reach.antt =====
-- src/session.rs and src/fs.rs: the worlds that asks and decisions lead to.
use gatefs.Fs.Attr.{Kernel}
use gatefs.Fs.Change.{Change, begin_metadata_request}
use gatefs.Fs.Asking.{begin_metadata_request-IsLive}
use gatefs.Path.{SandboxPath}
use gatefs.Session.{with_registry}
use gatefs.Registry.Partial.{some-none-if}
use gatefs.Registry.{SandboxRegistry, next_operation_id, pending_requests_for_sandbox}
use gatefs.Session.Sweep.{lookup_pending-take_each}
use gatefs.Registry.Owned.{same_tables-IsFiled}
use gatefs.Text.{Bytes, bytes}
use gatefs.Session.CancelAll.{cancel_all_requests-settle_each}
use gatefs.Operation.{ReadWriteEffect}
use gatefs.Session.Refine.{decide-settle}
use gatefs.Fs.{Access, Asked, ask_effect}
use gatefs.Pending.{PendingDecision, PendingRequest, request_id}
use gatefs.Session.Live.{IsLive, ask_effect-IsLive, fewer-IsLive, of_others-asked, settle-asked}
use gatefs.Registry.Asked.{IsFiled, lookup_pending}
use gatefs.Session.StaysAll.{
  allow_taken-Stays, cancel_all_requests-Stays, finish_cancel_scope-registry, taken_of-Stays,
}
use gatefs.Sandbox.{Sandbox}
use gatefs.Session.Stays.{Stays, Stays-trans, close_taken-Stays, take_pending-Stays}
use gatefs.StdPath.{PathBuf}
use gatefs.Session.Decide.{
  allow_decision, allow_request, cancel_body, cancel_request, deny_body, deny_request, take_pending,
}
use gatefs.Session.Scope.{
  CanceledPending, cancel_all_found, cancel_all_requests, cancel_attached_view, cancel_view_found,
  of_attach, take_each,
}
use gatefs.Session.Board.{Board, board, settle}
use gatefs.World.{Outside, World}
use gatefs.Base.{
  Bool, List, Option, [], any, ap, false, list_ord, map, nat_ord, none, refl, retain, some, subst,
  sym, ℕ, ◌+◌, ◌<◌, ◌==◌, ◌^◌, ◌∙◌, ◌≡◌, ◌≤◌,
}
use gatefs.Map

-- One step of the threads: an effect of a read or a write asks, a change of metadata is asked for, or
-- the user decides.
pub data Step (outside : Outside) : World → World → Type 0 where
  ask :
      (a : Access) (log : PathBuf) (e : ReadWriteEffect) (collected : Asked) (w : World)
      → w.registry.next_operation + 1 < 2 ^ 64
      → Step outside w (ask_effect outside a log e collected w).0
  asked_change :
      (kernel : Kernel) (c : Change) (inodes : List (ℕ × SandboxPath)) (w : World)
      → w.registry.next_operation + 7 < 2 ^ 64
      → Step outside w
          (begin_metadata_request kernel outside c (record { inodes = inodes; world = w })).0.world
  denied_one :
      (name : Bytes) (id : ℕ) (w : World) → Step outside w (deny_request outside name id w).0
  canceled_one :
      (name : Bytes) (id : ℕ) (reason : Bytes) (w : World)
      → Step outside w (cancel_request outside name id reason w).0
  allowed_one :
      (name : Bytes) (id : ℕ) (only_release : Bool) (w : World)
      → Step outside w (allow_request outside name id only_release w).0
  canceled_all : (name : Bytes) (w : World) → Step outside w (cancel_all_requests outside name w).0
  canceled_view :
      (name : Bytes) (attach_id : ℕ) (reason : Bytes) (w : World)
      → Step outside w (cancel_attached_view outside name attach_id reason w).0

-- Steps that follow each other, in none of which the counter of ids wraps around.
pub data Reach (outside : Outside) (start : World) : World → Type 0 where
  here : Reach outside start start
  next :
      {v w : World}
      → Reach outside start v
      → Step outside v w
      → v.registry.next_operation ≤ w.registry.next_operation
      → Reach outside start w

decided-IsLive :
    (name : Bytes) (id : ℕ) (d : PendingDecision) (w v : World)
    → board v ≡ settle name id d (board w)
    → Stays w.registry v.registry
    → w.registry.next_operation ≤ v.registry.next_operation
    → IsLive w.registry
    → IsLive v.registry
decided-IsLive name id d w v h stays later =
    fewer-IsLive w.registry v.registry
      (λ i q e. settle-asked name id d (board w) i q (sym (ap (λ (b : Board). b.asked i) h) ∙ e))
      stays later

canceled_all-IsLive :
    (outside : Outside) (name : Bytes) (w : World) (s : Option Sandbox)
    → Map.get name w.registry.sandboxes ≡ s
    → w.registry.next_operation ≤ (cancel_all_requests outside name w).0.registry.next_operation
    → IsLive w.registry
    → IsLive (cancel_all_requests outside name w).0.registry
unfolding cancel_all_requests cancel_all_found
canceled_all-IsLive outside name w none h later live =
    subst (λ x. IsLive (cancel_all_found outside name x w).0.registry) (sym h) live
canceled_all-IsLive outside name w (some s) h later live =
    fewer-IsLive w.registry (cancel_all_requests outside name w).0.registry
      (λ i q e.
        of_others-asked name (lookup_pending i w.registry) q
          (sym ((cancel_all_requests-settle_each outside name s w live.0 h).1 i) ∙ e))
      (cancel_all_requests-Stays outside name w) later live

-- What is left after some requests of a view are taken was asked before.
taken_of-asked :
    (field : Option PendingRequest → Option ℕ) (ids : List ℕ) (i : ℕ) (r : SandboxRegistry)
    (q : PendingRequest)
    → IsFiled r
    → lookup_pending i (take_each field ids (next_operation_id r).0).0 ≡ some q
    → lookup_pending i r ≡ some q
unfolding next_operation_id
taken_of-asked field ids i r q f h =
    (some-none-if (any (λ j. j == i) ids) q (lookup_pending i r) (
      sym (
        lookup_pending-take_each field ids i (next_operation_id r).0
          (same_tables-IsFiled r (next_operation_id r).0 refl refl f))
      ∙ h)).1

cancel_view_found-IsLive :
    (outside : Outside) (name : Bytes) (attach_id : ℕ) (reason : Bytes) (s : Option Sandbox)
    (w : World)
    → w.registry.next_operation
      ≤ (cancel_view_found outside name attach_id reason s w).0.registry.next_operation
    → IsLive w.registry
    → IsLive (cancel_view_found outside name attach_id reason s w).0.registry
unfolding cancel_view_found
cancel_view_found-IsLive outside name attach_id reason none w later live = live
cancel_view_found-IsLive outside name attach_id reason (some s) w later live =
    subst IsLive (sym same) (
      fewer-IsLive w.registry taken.0
        (λ i q. taken_of-asked (λ x. some attach_id) ids i w.registry q live.0)
        (taken_of-Stays (λ x. some attach_id) ids w.registry)
        (subst (λ (r : SandboxRegistry). w.registry.next_operation ≤ r.next_operation) same later)
        live)
  where
    ids : List ℕ
    ids =
        map request_id
          (retain (of_attach outside attach_id) (pending_requests_for_sandbox name w.registry))

    taken : SandboxRegistry × List CanceledPending
    taken = take_each (λ x. some attach_id) ids (next_operation_id w.registry).0

    same : (cancel_view_found outside name attach_id reason (some s) w).0.registry ≡ taken.0
    same =
        unfold next_operation_id in
        finish_cancel_scope-registry outside w.registry.next_operation s.log_path taken.1
          (bytes "attached-view") (some attach_id) reason (with_registry w taken.0)

Step-IsLive :
    {outside : Outside} {w v : World}
    → Step outside w v
    → w.registry.next_operation ≤ v.registry.next_operation
    → IsLive w.registry
    → IsLive v.registry
unfolding deny_request cancel_request allow_request cancel_attached_view
Step-IsLive {outside} (ask a log e collected w room) later live =
    ask_effect-IsLive outside a log e collected w live room
Step-IsLive {outside} (asked_change kernel c inodes w room) later live =
    begin_metadata_request-IsLive kernel outside c (record { inodes = inodes; world = w }) room live
Step-IsLive {outside} (denied_one name id w) later live =
    decided-IsLive name id PendingDecision.deny w (deny_request outside name id w).0
      (decide-settle outside name id [] false w live.0 live.1).0
      (Stays-trans w.registry (take_pending name id w).0.registry
        (deny_request outside name id w).0.registry (take_pending-Stays name id w live.0)
        (close_taken-Stays outside name id (deny_body id) PendingDecision.deny
          (take_pending name id w)))
      later live
Step-IsLive {outside} (canceled_one name id reason w) later live =
    decided-IsLive name id PendingDecision.cancel w (cancel_request outside name id reason w).0
      (decide-settle outside name id reason false w live.0 live.1).1.0
      (Stays-trans w.registry (take_pending name id w).0.registry
        (cancel_request outside name id reason w).0.registry (take_pending-Stays name id w live.0)
        (close_taken-Stays outside name id (cancel_body id reason) PendingDecision.cancel
          (take_pending name id w)))
      later live
Step-IsLive {outside} (allowed_one name id only_release w) later live =
    decided-IsLive name id (allow_decision only_release) w
      (allow_request outside name id only_release w).0
      (decide-settle outside name id [] only_release w live.0 live.1).1.1
      (Stays-trans w.registry (take_pending name id w).0.registry
        (allow_request outside name id only_release w).0.registry
        (take_pending-Stays name id w live.0)
        (allow_taken-Stays outside name id only_release (take_pending name id w)))
      later live
Step-IsLive {outside} (canceled_all name w) later live =
    canceled_all-IsLive outside name w (Map.get name w.registry.sandboxes) refl later live
Step-IsLive {outside} (canceled_view name attach_id reason w) later live =
    cancel_view_found-IsLive outside name attach_id reason (Map.get name w.registry.sandboxes) w
      later live

-- Whatever asks for reads and writes, requests for changes of metadata, denials, cancellations of one
-- request, of a sandbox or of an attached view, and allowances without a grant follow each other while
-- the counter of ids does not wrap around: each pending request stands under its own id, in one of the
-- two tables alone, its sandbox is there, and its id is below the next one, if so at the start.
pub Reach-IsLive :
    (outside : Outside) (start w : World)
    → IsLive start.registry
    → Reach outside start w
    → IsLive w.registry
Reach-IsLive outside start w live here = live
Reach-IsLive outside start w live (next path step later) =
    Step-IsLive step later (Reach-IsLive outside start _ live path)
