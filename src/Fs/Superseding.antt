-- ===== src/Fs/Superseding.antt =====
-- src/fs.rs: that the requests which a metadata request supersedes leave the others in order.
use gatefs.StdPath.{PathBuf, component_ord}
use gatefs.Session.Board.{append_line-board}
use gatefs.Path.{sandbox_path_ord}
use gatefs.World.{Outside, World, append_line, format_attach_field}
use gatefs.Text.{Bytes, bytes}
use gatefs.Registry.{SandboxRegistry, next_operation_id}
use gatefs.Sandbox.{Sandbox}
use gatefs.Pending.{PendingMetadataRequest, operation_key_ord}
use gatefs.Fs.Change.{supersede}
use gatefs.Base.{
  Bool, List, Option, [], ap, arith, length, list_ord, nat_ord, none, refl, some, subst, sym, ℕ,
  ◌++◌, ◌+◌, ◌<◌, ◌==◌, ◌^◌, ◌∙◌, ◌∷◌, ◌≡◌, ◌≤◌,
}
use gatefs.StdPath.{PathBuf, component_ord}
use gatefs.Session.Board.{append_line-board}
use gatefs.Path.{sandbox_path_ord}
use gatefs.World.{Outside, World, append_line, format_attach_field}
use gatefs.Text.{Bytes, bytes, decimal}
use gatefs.Registry.{
  SandboxRegistry, next_operation_id, remove_any_pending_request, remove_found,
  remove_pending_request,
}
use gatefs.Sandbox.{Sandbox}
use gatefs.Pending.{PendingMetadataRequest, operation_key_ord}
use gatefs.Fs.Change.{supersede, supersede_found}
use gatefs.Base.{
  Bool, List, Option, [], ap, arith, length, list_ord, nat_ord, none, refl, some, subst, sym, ℕ,
  ◌++◌, ◌+◌, ◌<◌, ◌==◌, ◌^◌, ◌∙◌, ◌∷◌, ◌≡◌, ◌≤◌,
}
use gatefs.Map
use gatefs.Session.Live.{IsLive, fewer-IsLive, same-IsLive}
use gatefs.Session.Stays.{Stays, put_sandbox-Stays, remove_any-Stays}
use gatefs.Registry.Asked.{
  lookup_pending, lookup_pending-remove_any, remove_any-removed_by, removed_by,
}
use gatefs.Registry.Partial.{some-none-if}
use gatefs.Registry.Index.{next_id}

sandbox-Stays :
    (r : SandboxRegistry) (name : Bytes) (s : Sandbox)
    → Stays r (record r { sandboxes = Map.insert name s r.sandboxes })
sandbox-Stays r name s =
    put_sandbox-Stays name s (record { registry = r; log = []; decided = []; next_waiter = 0 })

pub sandbox-IsLive :
    (r : SandboxRegistry) (name : Bytes) (s : Sandbox)
    → IsLive r
    → IsLive (record r { sandboxes = Map.insert name s r.sandboxes })
sandbox-IsLive r name s live =
    fewer-IsLive r (record r { sandboxes = Map.insert name s r.sandboxes }) (λ id q h. h)
      (sandbox-Stays r name s) (omega arith) live

pub numbered-IsLive :
    (r : SandboxRegistry)
    → r.next_operation + 1 < 2 ^ 64
    → IsLive r
    → IsLive (next_operation_id r).0
unfolding next_operation_id
numbered-IsLive r room live =
    same-IsLive r (next_operation_id r).0 refl refl refl
      (omega (arith, next_id r.next_operation room)) live

taken_out :
    (id : ℕ) (q : PendingMetadataRequest) (r : SandboxRegistry)
    → Map.get id r.pending ≡ some q
    → (remove_any_pending_request id r).0 ≡ (remove_found id (some q) r).0
unfolding removed_by remove_found
taken_out id q r e =
    ap (λ x. x.0) (remove_any-removed_by id r)
    ∙ ap (λ x. (removed_by id x (Map.get id r.pending_read_write) r).0) e

remove_found-IsLive :
    (id : ℕ) (q : PendingMetadataRequest) (r : SandboxRegistry)
    → Map.get id r.pending ≡ some q
    → IsLive r
    → IsLive (remove_found id (some q) r).0
unfolding remove_found
remove_found-IsLive id q r e live =
    fewer-IsLive r (remove_found id (some q) r).0
      (λ i p h.
        (some-none-if (id == i) p (lookup_pending i r) (
          sym (lookup_pending-remove_any id i r live.0)
          ∙ ap (lookup_pending i) (taken_out id q r e)
          ∙ h)).1)
      (subst (Stays r) (taken_out id q r e) (remove_any-Stays id r)) (omega arith) live

-- A round of the loop keeps the requests in order, the sandboxes as they are and the room for ids.
abbrev pub Superseding : ℕ → SandboxRegistry → SandboxRegistry → Type 0
Superseding n r s =
    (IsLive r → IsLive s)
    × ((s.next_operation ≤ r.next_operation + n) × (s.sandboxes ≡ r.sandboxes))

module _ (outside : Outside) (log : PathBuf) where
  supersede_found-Superseding :
      (id : ℕ) (w : World) (x : Option PendingMetadataRequest)
      → Map.get id w.registry.pending ≡ x
      → w.registry.next_operation + 1 < 2 ^ 64
      → Superseding 1 w.registry
          (supersede_found outside log id w (remove_found id x w.registry)).0.registry
  unfolding supersede_found remove_found next_operation_id
  supersede_found-Superseding id w none e room = (λ live. live, (omega arith, refl))
  supersede_found-Superseding id w (some q) e room = (
    λ live.
        same-IsLive numbered after (ap (λ r. r.pending) same) (ap (λ r. r.pending_read_write) same)
          (ap (λ r. r.sandboxes) same) (omega (arith, ap (λ r. r.next_operation) same))
          (numbered-IsLive (remove_found id (some q) w.registry).0 room
            (remove_found-IsLive id q w.registry e live)),
    (
      omega (arith, ap (λ r. r.next_operation) same, next_id w.registry.next_operation room),
      ap (λ r. r.sandboxes) same,
    ),
  )
    where
      numbered : SandboxRegistry
      numbered = (next_operation_id (remove_found id (some q) w.registry).0).0

      body : Bytes
      body =
          bytes "decision request="
          ++ (decimal id ++ (format_attach_field q.attach_id ++ bytes " DENY reason=superseded"))

      line : World × Bool
      line =
          append_line outside log w.registry.next_operation body (record w { registry = numbered })

      same : line.0.registry ≡ numbered
      same =
          (append_line-board outside log w.registry.next_operation body
            (record w { registry = numbered })).0

      after : SandboxRegistry
      after = record line.0.registry {
        pending_waiters = Map.remove id line.0.registry.pending_waiters;
      }

  pub supersede-Superseding :
      (ids : List ℕ) (w : World)
      → w.registry.next_operation + length ids < 2 ^ 64
      → Superseding (length ids) w.registry (supersede outside log ids w).0.registry
  unfolding supersede remove_pending_request
  supersede-Superseding [] w room = (λ live. live, (omega arith, refl))
  supersede-Superseding (id ∷ ids) w room =
      let first : Superseding 1 w.registry w1.registry =
        supersede_found-Superseding id w (Map.get id w.registry.pending) refl
          (omega (arith, room)) in
      let rest = supersede-Superseding ids w1 (omega (arith, room, first.1.0)) in
      (λ live. rest.0 (first.0 live), (omega (arith, rest.1.0, first.1.0), rest.1.1 ∙ first.1.1))
    where
      w1 : World
      w1 =
          (supersede_found outside log id w
            (remove_found id (Map.get id w.registry.pending) w.registry)).0
