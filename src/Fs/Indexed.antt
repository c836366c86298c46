-- ===== src/Fs/Indexed.antt =====
-- src/fs.rs: what a metadata request leaves of the index of the pending requests.
use gatefs.Map.{found, keys}
use gatefs.Registry.Partial.{same-IsIndexedBut}
use gatefs.StdPath.{component_ord}
use gatefs.Path.{sandbox_path_ord}
use gatefs.World.{World, notify_waiter}
use gatefs.Text.{Bytes}
use gatefs.Registry.Index.{IsIndexed, IsIndexed-IsIndexedBut, IsIndexedBut-IsIndexed, next_id}
use gatefs.Registry.{SandboxRegistry, next_operation_id}
use gatefs.Session.Stays.{notify_waiter-registry}
use gatefs.Metadata.{
  MetadataOperation, PendingOperationKind, chattr, chmod, chown, pending_kinds, push_if, set_attr,
}
use gatefs.Sandbox.{MetadataObjectKey}
use gatefs.Pending.{PendingDecision, PendingOperationKey, operation_key_ord, pending_metadata_keys}
use gatefs.Fs.Change.{keep_id, notify_superseded, take_keys, unique_ids}
use gatefs.Base.{
  Bool, Bool-cases, List, Option, [], any, ap, arith, false, inl, inr, is_some, length,
  length-append, list_ord, nat_ord, none, refl, some, suc, true, ℕ, ◌++◌, ◌+◌, ◌<◌, ◌==◌, ◌^◌, ◌||◌,
  ◌∙◌, ◌∷◌, ◌≡◌, ◌≤◌,
}
use gatefs.Map

unique_ids-length : (seen ids : List ℕ) → length (unique_ids seen ids) ≤ length seen + length ids
unfolding unique_ids
unique_ids-length seen [] = omega arith
unique_ids-length seen (id ∷ ids) = elim (Bool-cases (any (λ i. i == id) seen)) [
  | inl b ↦ rw b (omega (arith, unique_ids-length seen ids))
  | inr b ↦
      rw b (omega (arith, unique_ids-length (seen ++ id ∷ []) ids, length-append seen (id ∷ [])))
]

keep_id-length :
    (x : Option ℕ) (found : List (PendingOperationKey × ℕ) × List ℕ)
    → length (keep_id x found).1 ≤ length found.1 + 1
keep_id-length none found = omega arith
keep_id-length (some id) found = omega arith

take_keys-length :
    (ks : List PendingOperationKey) (index : List (PendingOperationKey × ℕ))
    → length (take_keys ks index).1 ≤ length ks
unfolding take_keys
take_keys-length [] index = omega arith
take_keys-length (k ∷ ks) index = omega (
  arith,
  keep_id-length (Map.get k index) (take_keys ks (Map.remove k index)),
  take_keys-length ks (Map.remove k index),
)

keys-length :
    (sandbox : Bytes) (object : MetadataObjectKey) (kinds : List PendingOperationKind)
    → length (pending_metadata_keys sandbox object kinds) ≡ length kinds
unfolding pending_metadata_keys
keys-length sandbox object [] = refl
keys-length sandbox object (k ∷ ks) =
    ap suc (unfold pending_metadata_keys in keys-length sandbox object ks)

push_if-length : (b : Bool) (k : PendingOperationKind) → length (push_if b k) ≤ 1
push_if-length true k = omega arith
push_if-length false k = omega arith

joined-length :
    (ks js : List PendingOperationKind) (m n : ℕ)
    → length ks ≤ m
    → length js ≤ n
    → length (ks ++ js) ≤ m + n
joined-length ks js m n h k = omega (arith, length-append ks js, h, k)

few_kinds : (op : MetadataOperation) → length (pending_kinds op) ≤ 6
unfolding pending_kinds
few_kinds (chmod p m) = omega arith
few_kinds (chown p u g) = omega (
  arith,
  joined-length (push_if (is_some u) PendingOperationKind.uid)
      (push_if (is_some g) PendingOperationKind.gid) 1 1
      (push_if-length (is_some u) PendingOperationKind.uid)
      (push_if-length (is_some g) PendingOperationKind.gid),
)
few_kinds (chattr p f) = omega arith
few_kinds (MetadataOperation.set_xattr p name) = omega arith
few_kinds (MetadataOperation.remove_xattr p name) = omega arith
few_kinds (set_attr p o) =
    let times_one =
      push_if-length (is_some o.atime || is_some o.mtime) PendingOperationKind.times in
    let flags_one = push_if-length (is_some o.flags) PendingOperationKind.flags in
    let gid_one = push_if-length (is_some o.gid) PendingOperationKind.gid in
    let uid_one = push_if-length (is_some o.uid) PendingOperationKind.uid in
    let mode_one = push_if-length (is_some o.mode) PendingOperationKind.mode in
    let four = joined-length _ _ 1 1 flags_one times_one in
    let three = joined-length _ _ 1 2 gid_one four in
    let two = joined-length _ _ 1 3 uid_one three in
    omega (arith, joined-length _ _ 1 4 mode_one two)

-- A metadata operation supersedes six requests at most.
pub few_ids :
    (sandbox : Bytes) (object : MetadataObjectKey) (op : MetadataOperation)
    (index : List (PendingOperationKey × ℕ))
    → length (
        unique_ids [] (take_keys (pending_metadata_keys sandbox object (pending_kinds op)) index).1)
      ≤ 6
few_ids sandbox object op index =
    let keys = pending_metadata_keys sandbox object (pending_kinds op) in
    omega (
      arith,
      unique_ids-length [] (take_keys keys index).1,
      take_keys-length keys index,
      keys-length sandbox object (pending_kinds op),
      few_kinds op,
    )

-- The index and the counter are what counts.
pub same-IsIndexed :
    (r s : SandboxRegistry)
    → s.pending ≡ r.pending
    → s.pending_index ≡ r.pending_index
    → r.next_operation ≤ s.next_operation
    → IsIndexed r
    → IsIndexed s
same-IsIndexed r s e d n w =
    IsIndexedBut-IsIndexed (same-IsIndexedBut [] r s e d n (IsIndexed-IsIndexedBut w))

pub notify_superseded-registry :
    (us : List (Option ℕ)) (w : World) → (notify_superseded us w).registry ≡ w.registry
unfolding notify_superseded
notify_superseded-registry [] w = refl
notify_superseded-registry (u ∷ us) w =
    notify_superseded-registry us (notify_waiter u PendingDecision.deny w)
    ∙ notify_waiter-registry u PendingDecision.deny w

pub numbered-IsIndexed :
    (r : SandboxRegistry)
    → r.next_operation + 1 < 2 ^ 64
    → IsIndexed r
    → IsIndexed (next_operation_id r).0
unfolding next_operation_id
numbered-IsIndexed r room w =
    same-IsIndexed r (next_operation_id r).0 refl refl
      (omega (arith, next_id r.next_operation room)) w
