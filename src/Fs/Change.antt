-- ===== src/Fs/Change.antt =====
-- src/fs.rs: metadata requests, up to their wait and from there on.
use gatefs.Policy.{ProtectionKind}
use gatefs.Attr.{FileAttr}
use gatefs.Fs.Attr.{Kernel, View, attr_for_path}
use gatefs.Path.{SandboxPath, sandbox_path_ord}
use gatefs.Text.{Bytes, bytes, decimal}
use gatefs.World.{Outside, World, append_line, format_attach_field, notify_waiter}
use gatefs.Metadata.{
  MetadataOperation, PendingOperationKind, metadata_path, pending_kinds, metadata_event_body,
}
use gatefs.Sandbox.{MetadataObjectKey, Sandbox, is_protected, resolve}
use gatefs.Sandbox.Objects.{
  apply_metadata_override_to_object, metadata_object_key, path_is_directory,
}
use gatefs.Registry.{
  SandboxRegistry, TrustedOperation, insert_pending_request, next_operation_id,
  remove_pending_request,
}
use gatefs.StdPath.{PathBuf, component_ord}
use gatefs.Pending.{
  PendingDecision, PendingMetadataRequest, PendingOperationKey, RequesterIdentity,
  pending_metadata_keys, operation_key_ord,
}
use gatefs.Error.{Result, err, ok}
use gatefs.Fs.{
  Errno, SandboxFs, ecanceled, eio, enoent, enotsup, eperm, is_some_of, is_trusted_operation,
  scope_covers,
}
use gatefs.Base.{
  Bool, List, Option, [], any, false, find, if◌then◌else◌, inl, inr, is_empty, is_some, none, not,
  some, ℕ, ◌&&◌, ◌++◌, ◌+◌, ◌==◌, ◌||◌, ◌∷◌, ◌⊎◌, list_ord, nat_ord,
}
use gatefs.Map

-- Who asks, from which view, to do what.
pub record Change : Type 0 where
  pub fs : SandboxFs
  pub requester : RequesterIdentity
  pub path : SandboxPath
  pub operation : MetadataOperation

pub record PendingMetadataOutcome : Type 0 where
  pub unchanged_attr : FileAttr
  pub path : SandboxPath
  pub object : MetadataObjectKey
  pub operation : MetadataOperation
  pub waiter : ℕ

pub data MetadataOutcome : Type 0 where
  applied : FileAttr → MetadataOutcome
  pending : PendingMetadataOutcome → MetadataOutcome

abbrev pub Begun : Type 0
Begun = View × (Errno ⊎ MetadataOutcome)

abbrev pub on_registry : SandboxRegistry → View → View
on_registry r v = record v { world = record v.world { registry = r } }

-- The trusted operation that covers the change.
unfoldable pub trusts : Change → TrustedOperation → Bool
unfolding scope_covers
trusts c op =
    op.sandbox == c.fs.sandbox_name
    && (is_some_of op.pid c.requester.pid
        && (is_some_of op.uid c.requester.uid && any (scope_covers c.path) op.paths))

unfoldable pub trusted_body : Option TrustedOperation → Bytes → Bytes
trusted_body none description = bytes "trusted " ++ description
trusted_body (some op) description =
    bytes "trusted trusted=" ++ (decimal op.id ++ b' ' ∷ description)

-- `filter_map(|key| registry.pending_index.remove(&key))`.
abbrev pub keep_id :
    Option ℕ → List (PendingOperationKey × ℕ) × List ℕ → List (PendingOperationKey × ℕ) × List ℕ
keep_id none found = found
keep_id (some id) found = (found.0, id ∷ found.1)

unfoldable pub take_keys :
    List PendingOperationKey
    → List (PendingOperationKey × ℕ)
    → List (PendingOperationKey × ℕ) × List ℕ
take_keys [] index = (index, [])
take_keys (k ∷ ks) index = keep_id (Map.get k index) (take_keys ks (Map.remove k index))

-- The ids in their order, each once.
unfoldable pub unique_ids : List ℕ → List ℕ → List ℕ
unique_ids seen [] = seen
unique_ids seen (id ∷ ids) =
    if any (λ i. i == id) seen then unique_ids seen ids else unique_ids (seen ++ id ∷ []) ids

unfoldable pub notify_superseded : List (Option ℕ) → World → World
unfolding notify_waiter
notify_superseded [] w = w
notify_superseded (u ∷ us) w = notify_superseded us (notify_waiter u PendingDecision.deny w)

unfoldable pub change_request :
    Change → MetadataObjectKey → List PendingOperationKind → ℕ → PendingMetadataRequest
change_request c object kinds id = record {
  id = id;
  sandbox = c.fs.sandbox_name;
  attach_id = c.fs.attach_id;
  operation = c.operation;
  object = object;
  kinds = kinds;
  pid = c.requester.pid;
  uid = c.requester.uid;
  gid = c.requester.gid;
  description = metadata_event_body c.operation;
}

module _ (outside : Outside) where
  -- Whether a kind of change needs leave.
  unfoldable pub kind_needs_leave : Sandbox → SandboxPath → Bool → PendingOperationKind → Bool
  kind_needs_leave s path target_is_dir PendingOperationKind.xattr =
      is_protected outside.glob s ProtectionKind.metadata path target_is_dir
      || is_protected outside.glob s ProtectionKind.xattr path target_is_dir
  kind_needs_leave s path target_is_dir kind =
      is_protected outside.glob s ProtectionKind.metadata path target_is_dir

  -- One older request, if it is still there: its line, and its waiter.
  unfoldable pub supersede_found :
      PathBuf
      → ℕ
      → World
      → SandboxRegistry × Option PendingMetadataRequest
      → World × (List (Option ℕ) × Bool)
  unfolding append_line next_operation_id
  supersede_found log id w (r, none) = (record w { registry = r }, ([], false))
  supersede_found log id w (r, some q) =
      let (r1, decision_id) = next_operation_id r in
      let body =
        bytes "decision request="
        ++ (decimal id ++ (format_attach_field q.attach_id ++ bytes " DENY reason=superseded")) in
      let (w1, written) = append_line outside log decision_id body (record w { registry = r1 }) in
      (
        record w1 {
          registry = record w1.registry {
            pending_waiters = Map.remove id w1.registry.pending_waiters;
          };
        },
        (Map.get id w1.registry.pending_waiters ∷ [], not written),
      )

  unfoldable pub supersede : PathBuf → List ℕ → World → World × (List (Option ℕ) × Bool)
  unfolding supersede_found remove_pending_request
  supersede log [] w = (w, ([], false))
  supersede log (id ∷ ids) w =
      let (w1, (first, failed)) = supersede_found log id w (remove_pending_request id w.registry) in
      let (w2, (later, failed_later)) = supersede log ids w1 in
      (w2, (first ++ later, failed || failed_later))

module _ (kernel : Kernel) (outside : Outside) where
  abbrev pub as_applied : View × (Errno ⊎ FileAttr) → Begun
  as_applied (v, inl e) = (v, inl e)
  as_applied (v, inr attr) = (v, inr (applied attr))

  -- The override is written, and the attributes are read again.
  unfoldable pub applied_now : Change → Result Sandbox → View → Begun
  unfolding attr_for_path
  applied_now c (err e) v = (v, inl enotsup)
  applied_now c (ok s) v = as_applied (
      attr_for_path kernel c.fs c.path (
        on_registry
          (record v.world.registry {
            sandboxes = Map.insert c.fs.sandbox_name s v.world.registry.sandboxes;
          })
          v))

  unfoldable pub begin_trusted_change : Change → MetadataObjectKey → Sandbox → View → Begun
  unfolding applied_now trusts trusted_body append_line next_operation_id
  begin_trusted_change c object s v =
      let (r, id) = next_operation_id v.world.registry in
      let body =
        trusted_body (find (trusts c) (Map.values r.trusted)) (metadata_event_body c.operation) in
      let (w, written) = append_line outside s.log_path id body (record v.world { registry = r }) in
      if not (is_some (resolve s (metadata_path c.operation)))
      then (v, inl enotsup)
      else if not written
      then (record v { world = w }, inl eio)
      else applied_now c (apply_metadata_override_to_object object c.path c.operation s)
          (record v { world = w })

  -- The older requests of the same keys are out: the new one's line, their words, and the request.
  unfoldable pub queue_change :
      Change
      → MetadataObjectKey
      → List PendingOperationKind
      → FileAttr
      → PathBuf
      → View
      → World × (List (Option ℕ) × Bool)
      → Begun
  unfolding append_line next_operation_id notify_superseded insert_pending_request
  queue_change c object kinds unchanged log v (w, (waiters, failed)) =
      let (r, id) = next_operation_id w.registry in
      let (w1, written) =
        append_line outside log id
          (bytes "pending"
            ++ (format_attach_field c.fs.attach_id ++ b' ' ∷ metadata_event_body c.operation))
          (record w { registry = r; next_waiter = w.next_waiter + 1 }) in
      let w2 = notify_superseded waiters w1 in
      let q = insert_pending_request (change_request c object kinds id) w2.registry in
      if failed || not written then (record v { world = w2 }, inl eio) else (
        record v {
          world = record w2 {
            registry = record q { pending_waiters = Map.insert id w.next_waiter q.pending_waiters };
          };
        },
        inr (
            pending (record {
              unchanged_attr = unchanged;
              path = c.path;
              object = object;
              operation = c.operation;
              waiter = w.next_waiter;
            })),
      )

  -- A change that no trusted operation covers.
  unfoldable pub begin_untrusted_change :
      Change → MetadataObjectKey → FileAttr → Sandbox → View → Begun
  unfolding kind_needs_leave applied_now supersede queue_change take_keys unique_ids
      pending_metadata_keys
  begin_untrusted_change c object unchanged s v =
      let kinds = pending_kinds c.operation in
      let target_is_dir = path_is_directory outside.host s c.path in
      let (index, ids) =
        take_keys (pending_metadata_keys c.fs.sandbox_name object kinds)
          v.world.registry.pending_index in
      let r : SandboxRegistry = record v.world.registry { pending_index = index } in
      if is_empty kinds
      then (v, inr (applied unchanged))
      else if not (any (kind_needs_leave outside s c.path target_is_dir) kinds)
      then applied_now c (apply_metadata_override_to_object object c.path c.operation s) v
      else queue_change c object kinds unchanged s.log_path v
          (supersede outside s.log_path (unique_ids [] ids) (record v.world { registry = r }))

  unfoldable pub begin_in : Change → FileAttr → Option Sandbox → View → Begun
  unfolding begin_trusted_change begin_untrusted_change is_trusted_operation
  begin_in c unchanged none v = (v, inl enoent)
  begin_in c unchanged (some s) v = elim (metadata_object_key s c.path) [
    | none ↦ (v, inl enotsup)
    | some object ↦
        if is_trusted_operation v.world.registry c.fs.sandbox_name c.requester.pid c.requester.uid
          c.path
        then begin_trusted_change c object s v
        else begin_untrusted_change c object unchanged s v
  ]

  unfoldable pub begin_read : Change → View × (Errno ⊎ FileAttr) → Begun
  unfolding begin_in
  begin_read c (v, inl e) = (v, inl e)
  begin_read c (v, inr unchanged) =
      begin_in c unchanged (Map.get c.fs.sandbox_name v.world.registry.sandboxes) v

  unfoldable pub begin_metadata_request : Change → View → Begun
  unfolding attr_for_path begin_read
  begin_metadata_request c v = begin_read c (attr_for_path kernel c.fs c.path v)

  -- `apply_pending_operation`, and the attributes after it.
  unfoldable pub apply_pending_operation :
      SandboxFs → PendingMetadataOutcome → Option Sandbox → View → View × (Errno ⊎ FileAttr)
  unfolding attr_for_path
  apply_pending_operation fs p none v = (v, inl enoent)
  apply_pending_operation fs p (some s) v =
      elim (apply_metadata_override_to_object p.object (metadata_path p.operation) p.operation s) [
        | err e ↦ (v, inl enotsup)
        | ok s' ↦ attr_for_path kernel fs p.path (
            on_registry
              (record v.world.registry {
                sandboxes = Map.insert fs.sandbox_name s' v.world.registry.sandboxes;
              })
              v)
      ]

  unfoldable pub finish_decided :
      SandboxFs → PendingMetadataOutcome → PendingDecision → View → View × (Errno ⊎ FileAttr)
  unfolding apply_pending_operation
  finish_decided fs p PendingDecision.apply v =
      apply_pending_operation fs p (Map.get fs.sandbox_name v.world.registry.sandboxes) v
  finish_decided fs p PendingDecision.do_nothing v = (v, inr p.unchanged_attr)
  finish_decided fs p PendingDecision.deny v = (v, inl eperm)
  finish_decided fs p PendingDecision.cancel v = (v, inl ecanceled)

  -- `finish_pending_attr`; `none` while its waiter was told nothing.
  unfoldable pub finish_pending_attr :
      SandboxFs → PendingMetadataOutcome → View → Option (View × (Errno ⊎ FileAttr))
  unfolding finish_decided
  finish_pending_attr fs p v = elim (Map.get p.waiter v.world.decided) [
    | none ↦ none
    | some d ↦ some (finish_decided fs p d v)
  ]
