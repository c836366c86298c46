-- ===== src/Fs/Asking.antt =====
-- src/fs.rs: that a metadata request keeps each pending request under its id and in a sandbox that is
-- there.
use gatefs.Fs.Superseding.{Superseding, numbered-IsLive, sandbox-IsLive, supersede-Superseding}
use gatefs.Fs.Applied.{Keeps, applied_now-Keeps, begin_metadata_request-Keeps}
use gatefs.Fs.Indexed.{few_ids, notify_superseded-registry}
use gatefs.Session.{with_registry}
use gatefs.Sandbox.Objects.{apply_metadata_override_to_object, path_is_directory}
use gatefs.StdPath.{PathBuf, component_ord}
use gatefs.Session.Board.{append_line-board}
use gatefs.Path.{sandbox_path_ord}
use gatefs.Fs.Attr.{Kernel, View}
use gatefs.Attr.{FileAttr}
use gatefs.World.{Outside, World, append_line, format_attach_field}
use gatefs.Text.{Bytes, bytes}
use gatefs.Registry.{
  SandboxRegistry, insert_any_pending_request, insert_pending_request, next_operation_id,
}
use gatefs.Metadata.{PendingOperationKind, metadata_event_body, pending_kinds}
use gatefs.Sandbox.{MetadataObjectKey, Sandbox}
use gatefs.Pending.{
  PendingMetadataRequest, PendingOperationKey, metadata_request, operation_key_ord,
  pending_metadata_keys, request_id, request_sandbox,
}
use gatefs.Fs.Change.{
  Change, begin_metadata_request, begin_untrusted_change, change_request, kind_needs_leave,
  notify_superseded, queue_change, supersede, take_keys, unique_ids,
}
use gatefs.Base.{
  Bool, Bool-cases, List, Option, [], any, ap, arith, inl, inr, is_empty, is_some, length, list_ord,
  nat_ord, not, refl, subst, sym, true, ℕ, ◌++◌, ◌+◌, ◌<◌, ◌^◌, ◌||◌, ◌∙◌, ◌∷◌, ◌≡◌, ◌≤◌,
}
use gatefs.StdPath.{PathBuf, component_ord}
use gatefs.Session.Board.{append_line-board}
use gatefs.Path.{sandbox_path_ord}
use gatefs.World.{Outside, World, append_line, format_attach_field}
use gatefs.Text.{Bytes, bytes}
use gatefs.Registry.{SandboxRegistry, next_operation_id}
use gatefs.Sandbox.{Sandbox}
use gatefs.Pending.{PendingMetadataRequest, operation_key_ord}
use gatefs.Fs.Change.{supersede}
use gatefs.Base.{
  Bool, Bool-cases, List, Option, [], any, ap, arith, inl, inr, is_empty, is_some, length, list_ord,
  nat_ord, not, refl, subst, sym, true, ℕ, ◌++◌, ◌+◌, ◌<◌, ◌^◌, ◌||◌, ◌∙◌, ◌∷◌, ◌≡◌, ◌≤◌,
}
use gatefs.Map
use gatefs.Session.Live.{IsLive, insert_any-IsLive, same-IsLive, unused}
use gatefs.Registry.Index.{next_id}

module _ (kernel : Kernel) (outside : Outside) where
  queue_change-IsLive :
      (c : Change) (object : MetadataObjectKey) (kinds : List PendingOperationKind)
      (unchanged : FileAttr) (log : PathBuf) (v : View) (w : World) (waiters : List (Option ℕ))
      (failed : Bool)
      → w.registry.next_operation + 1 < 2 ^ 64
      → is_some (Map.get c.fs.sandbox_name w.registry.sandboxes) ≡ true
      → IsLive w.registry
      → IsLive
          (queue_change kernel outside c object kinds unchanged log v
            (w, (waiters, failed))).0.world.registry
  unfolding queue_change next_operation_id change_request insert_any_pending_request
      insert_pending_request request_id request_sandbox
  queue_change-IsLive c object kinds unchanged log v w waiters failed room present live =
      elim (Bool-cases (failed || not line.1)) [
        | inl b ↦ rw b (subst IsLive (sym same) numbered)
        | inr b ↦ rw b (
            same-IsLive (insert_pending_request q w2.registry)
              (record (insert_pending_request q w2.registry) {
                pending_waiters =
                    Map.insert w.registry.next_operation w.next_waiter
                      (insert_pending_request q w2.registry).pending_waiters;
              })
              refl refl refl (omega arith)
              (subst (λ r. IsLive (insert_pending_request q r)) (sym same)
                (insert_any-IsLive (metadata_request q) (next_operation_id w.registry).0
                  (unused w.registry live.2) present
                  (omega (arith, next_id w.registry.next_operation room)) numbered)))
      ]
    where
      numbered : IsLive (next_operation_id w.registry).0
      numbered = numbered-IsLive w.registry room live

      q : PendingMetadataRequest
      q = change_request c object kinds w.registry.next_operation

      body : Bytes
      body =
          bytes "pending"
          ++ (format_attach_field c.fs.attach_id ++ b' ' ∷ metadata_event_body c.operation)

      line : World × Bool
      line = append_line outside log w.registry.next_operation body (record w {
        registry = (next_operation_id w.registry).0;
        next_waiter = w.next_waiter + 1;
      })

      w2 : World
      w2 = notify_superseded waiters line.0

      same : w2.registry ≡ (next_operation_id w.registry).0
      same =
          notify_superseded-registry waiters line.0
          ∙ (append_line-board outside log w.registry.next_operation body (record w {
            registry = (next_operation_id w.registry).0;
            next_waiter = w.next_waiter + 1;
          })).0

  begin_untrusted_change-IsLive :
      (c : Change) (object : MetadataObjectKey) (unchanged : FileAttr) (s : Sandbox) (v : View)
      → is_some (Map.get c.fs.sandbox_name v.world.registry.sandboxes) ≡ true
      → v.world.registry.next_operation + 7 < 2 ^ 64
      → Keeps IsLive v.world.registry (begin_untrusted_change kernel outside c object unchanged s v)
  unfolding begin_untrusted_change
  begin_untrusted_change-IsLive c object unchanged s v present room live =
      elim (Bool-cases (is_empty kinds)) [
        | inl b ↦ rw b live
        | inr b ↦
            rw b
              (elim (Bool-cases (
                any (kind_needs_leave outside s c.path (path_is_directory outside.host s c.path))
                  kinds)) [
                    | inr n ↦ rw n (
                        applied_now-Keeps kernel outside IsLive sandbox-IsLive numbered-IsLive c
                          (apply_metadata_override_to_object object c.path c.operation s) v live)
                    | inl n ↦ rw n (
                        queue_change-IsLive c object kinds unchanged s.log_path v older.0 older.1.0
                          older.1.1 (omega (arith, superseded.1.0, few, room))
                          (ap (λ m. is_some (Map.get c.fs.sandbox_name m)) superseded.1.1 ∙ present)
                          (superseded.0
                            (same-IsLive v.world.registry taken refl refl refl (omega arith) live)))
                  ])
      ]
    where
      kinds : List PendingOperationKind
      kinds = pending_kinds c.operation

      keys : List PendingOperationKey
      keys = pending_metadata_keys c.fs.sandbox_name object kinds

      ids : List ℕ
      ids = unique_ids [] (take_keys keys v.world.registry.pending_index).1

      few : length ids ≤ 6
      few = few_ids c.fs.sandbox_name object c.operation v.world.registry.pending_index

      taken : SandboxRegistry
      taken = record v.world.registry {
        pending_index = (take_keys keys v.world.registry.pending_index).0;
      }

      older : World × (List (Option ℕ) × Bool)
      older = supersede outside s.log_path ids (with_registry v.world taken)

      superseded : Superseding (length ids) taken older.0.registry
      superseded =
          supersede-Superseding outside s.log_path ids (with_registry v.world taken)
            (omega (arith, few, room))

  -- While there is room for seven ids, a metadata request keeps the registry live.
  pub begin_metadata_request-IsLive :
      (c : Change) (v : View)
      → v.world.registry.next_operation + 7 < 2 ^ 64
      → IsLive v.world.registry
      → IsLive (begin_metadata_request kernel outside c v).0.world.registry
  begin_metadata_request-IsLive c v room live =
      begin_metadata_request-Keeps kernel outside IsLive sandbox-IsLive numbered-IsLive
        begin_untrusted_change-IsLive c v room live
