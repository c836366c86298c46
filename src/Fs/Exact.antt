-- ===== src/Fs/Exact.antt =====
-- src/fs.rs: that a metadata request keeps the index of the pending requests exact.
use gatefs.Fs.Applied.{Keeps, applied_now-Keeps, begin_metadata_request-Keeps}
use gatefs.Fs.Indexed.{few_ids, notify_superseded-registry, numbered-IsIndexed, same-IsIndexed}
use gatefs.Session.{with_registry}
use gatefs.Fs.Supersede.{supersede-IsIndexed}
use gatefs.Sandbox.Objects.{apply_metadata_override_to_object, path_is_directory}
use gatefs.StdPath.{PathBuf, component_ord}
use gatefs.Session.Board.{append_line-board}
use gatefs.Registry.Keys.{has_key}
use gatefs.Path.{sandbox_path_ord}
use gatefs.Fs.Attr.{Kernel, View}
use gatefs.Attr.{FileAttr}
use gatefs.World.{Outside, World, append_line, format_attach_field}
use gatefs.Text.{Bytes, bytes}
use gatefs.Registry.Index.{IsIndexed, insert_pending_request-IsIndexed}
use gatefs.Registry.{SandboxRegistry, insert_pending_request, next_operation_id}
use gatefs.Metadata.{PendingOperationKind, metadata_event_body, pending_kinds}
use gatefs.Sandbox.{MetadataObjectKey, Sandbox}
use gatefs.Pending.{
  PendingMetadataRequest, PendingOperationKey, operation_key_ord, pending_metadata_keys,
  request_keys,
}
use gatefs.Fs.Change.{
  Change, begin_metadata_request, begin_untrusted_change, change_request, kind_needs_leave,
  notify_superseded, queue_change, supersede, take_keys, unique_ids,
}
use gatefs.Base.{
  Bool, Bool-cases, List, Option, [], any, arith, inl, inr, is_empty, length, list_ord, nat_ord,
  none, not, refl, subst, sym, true, ℕ, ◌++◌, ◌+◌, ◌<◌, ◌^◌, ◌||◌, ◌∙◌, ◌∷◌, ◌≡◌, ◌≤◌,
}
use gatefs.Map

sandbox-IsIndexed :
    (r : SandboxRegistry) (name : Bytes) (s : Sandbox)
    → IsIndexed r
    → IsIndexed (record r { sandboxes = Map.insert name s r.sandboxes })
sandbox-IsIndexed r name s w =
    same-IsIndexed r (record r { sandboxes = Map.insert name s r.sandboxes }) refl refl
      (omega arith) w

module _ (kernel : Kernel) (outside : Outside) where
  -- Once its keys are free, a new request is filed under a new id.
  queue_change-IsIndexed :
      (c : Change) (object : MetadataObjectKey) (kinds : List PendingOperationKind)
      (unchanged : FileAttr) (log : PathBuf) (v : View) (w : World) (waiters : List (Option ℕ))
      (failed : Bool)
      → w.registry.next_operation + 1 < 2 ^ 64
      → ((key : PendingOperationKey)
          → has_key key (pending_metadata_keys c.fs.sandbox_name object kinds) ≡ true
          → Map.get key w.registry.pending_index ≡ none)
      → IsIndexed w.registry
      → IsIndexed
          (queue_change kernel outside c object kinds unchanged log v
            (w, (waiters, failed))).0.world.registry
  unfolding queue_change next_operation_id request_keys change_request
  queue_change-IsIndexed c object kinds unchanged log v w waiters failed room free i =
      elim (Bool-cases (failed || not line.1)) [
        | inl b ↦ rw b (subst IsIndexed (sym same) (numbered-IsIndexed w.registry room i))
        | inr b ↦ rw b (
            same-IsIndexed (insert_pending_request q w2.registry)
              (record (insert_pending_request q w2.registry) {
                pending_waiters =
                    Map.insert w.registry.next_operation w.next_waiter
                      (insert_pending_request q w2.registry).pending_waiters;
              })
              refl refl (omega arith)
              (subst (λ r. IsIndexed (insert_pending_request q r)) (sym same)
                (insert_pending_request-IsIndexed w.registry q i refl room free)))
      ]
    where
      q : PendingMetadataRequest
      q = change_request c object kinds w.registry.next_operation

      asking : World
      asking = record w {
        registry = (next_operation_id w.registry).0;
        next_waiter = w.next_waiter + 1;
      }

      body : Bytes
      body =
          bytes "pending"
          ++ (format_attach_field c.fs.attach_id ++ b' ' ∷ metadata_event_body c.operation)

      line : World × Bool
      line = append_line outside log w.registry.next_operation body asking

      w2 : World
      w2 = notify_superseded waiters line.0

      same : w2.registry ≡ (next_operation_id w.registry).0
      same =
          notify_superseded-registry waiters line.0
          ∙ (append_line-board outside log w.registry.next_operation body asking).0

  begin_untrusted_change-Keeps :
      (c : Change) (object : MetadataObjectKey) (unchanged : FileAttr) (s : Sandbox) (v : View)
      → v.world.registry.next_operation + 7 < 2 ^ 64
      → Keeps IsIndexed v.world.registry
          (begin_untrusted_change kernel outside c object unchanged s v)
  unfolding begin_untrusted_change
  begin_untrusted_change-Keeps c object unchanged s v room w = elim (Bool-cases (is_empty kinds)) [
    | inl b ↦ rw b w
    | inr b ↦
        rw b
          (elim (Bool-cases (
            any (kind_needs_leave outside s c.path (path_is_directory outside.host s c.path))
              kinds)) [
                | inr n ↦ rw n (
                    applied_now-Keeps kernel outside IsIndexed sandbox-IsIndexed numbered-IsIndexed
                      c (apply_metadata_override_to_object object c.path c.operation s) v w)
                | inl n ↦ rw n (
                    queue_change-IsIndexed c object kinds unchanged s.log_path v older.0 older.1.0
                      older.1.1 (omega (arith, superseded.1.1, few, room)) superseded.1.0
                      superseded.0)
              ])
  ]
    where
      kinds : List PendingOperationKind
      kinds = pending_kinds c.operation

      keys : List PendingOperationKey
      keys = pending_metadata_keys c.fs.sandbox_name object kinds

      ids : List ℕ
      ids = unique_ids [] (take_keys keys v.world.registry.pending_index).1

      few : length ids ≤ 6
      few = few_ids c.fs.sandbox_name object c.operation v.world.registry.pending_index

      older : World × (List (Option ℕ) × Bool)
      older = supersede outside s.log_path ids (
          with_registry v.world (record v.world.registry {
            pending_index = (take_keys keys v.world.registry.pending_index).0;
          }))

      superseded :
          IsIndexed older.0.registry
          × (((key : PendingOperationKey)
                → has_key key keys ≡ true
                → Map.get key older.0.registry.pending_index ≡ none)
              × (older.0.registry.next_operation ≤ v.world.registry.next_operation + length ids))
      superseded = supersede-IsIndexed outside s.log_path keys v.world w (omega (arith, few, room))

  -- A metadata request, whichever way it goes, keeps an exact index exact while there is room for
  -- seven ids: it is applied at once, or refused, or filed under keys that the requests it supersedes
  -- have left.
  pub begin_metadata_request-IsIndexed :
      (c : Change) (v : View)
      → v.world.registry.next_operation + 7 < 2 ^ 64
      → IsIndexed v.world.registry
      → IsIndexed (begin_metadata_request kernel outside c v).0.world.registry
  begin_metadata_request-IsIndexed c v room w =
      begin_metadata_request-Keeps kernel outside IsIndexed sandbox-IsIndexed numbered-IsIndexed
        (λ c object unchanged s v there. begin_untrusted_change-Keeps c object unchanged s v) c v
        room w
