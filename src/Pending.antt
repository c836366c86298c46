-- ===== src/Pending.antt =====
-- src/state.rs: requests that wait for a decision. src/process_info.rs: who asks.
use gatefs.Path.{SandboxPath}
use gatefs.Policy.{ProtectionKind}
use gatefs.Operation.{ReadWriteEffect, ReadWriteOperation, event_body, operation_kind}
use gatefs.Text.{Bytes}
use gatefs.Base.{
  List, Option, Ord, arith, list_ord, map, nat_ord, none, ord_by, pair_ord, some, ℕ, ◌≡◌,
}
use gatefs.Metadata.{
  MetadataOperation, PendingOperationKind, metadata_path, pending_kind_ord, shell_hint,
}
use gatefs.Sandbox.{MetadataObjectKey, object_key_ord}
use gatefs.StdPath.{component_ord}

-- A process: its pid, and its start time, since a pid is used again.
pub record ProcessIdentityEvidence : Type 0 where
  pub pid : ℕ
  pub start_time : ℕ

abbrev identity_key : ProcessIdentityEvidence → ℕ × ℕ
identity_key p = (p.pid, p.start_time)

pub identity_key-injective :
    (a b : ProcessIdentityEvidence) → identity_key a ≡ identity_key b → a ≡ b
identity_key-injective a b e = ground arith

instance abbrev pub process_identity_ord : Ord ProcessIdentityEvidence
process_identity_ord = ord_by identity_key pair_ord identity_key-injective

-- What a metadata request waits on: one kind of one object of one sandbox.
pub record PendingOperationKey : Type 0 where
  pub sandbox : Bytes
  pub object : MetadataObjectKey
  pub kind : PendingOperationKind

abbrev operation_key : PendingOperationKey → Bytes × (MetadataObjectKey × PendingOperationKind)
operation_key k = (k.sandbox, (k.object, k.kind))

pub operation_key-injective :
    (a b : PendingOperationKey) → operation_key a ≡ operation_key b → a ≡ b
operation_key-injective a b e = ground arith

instance abbrev pub operation_key_ord : Ord PendingOperationKey
operation_key_ord = ord_by operation_key pair_ord operation_key-injective

pub record PendingMetadataRequest : Type 0 where
  pub id : ℕ
  pub sandbox : Bytes
  pub attach_id : Option ℕ
  pub operation : MetadataOperation
  pub object : MetadataObjectKey
  pub kinds : List PendingOperationKind
  pub pid : ℕ
  pub uid : ℕ
  pub gid : ℕ
  pub description : Bytes

unfoldable pub pending_metadata_keys :
    Bytes → MetadataObjectKey → List PendingOperationKind → List PendingOperationKey
pending_metadata_keys sandbox object kinds =
    map (λ k. record { sandbox = sandbox; object = object; kind = k }) kinds

unfoldable pub request_keys : PendingMetadataRequest → List PendingOperationKey
unfolding pending_metadata_keys
request_keys r = pending_metadata_keys r.sandbox r.object r.kinds

pub record RequesterIdentity : Type 0 where
  pub pid : ℕ
  pub uid : ℕ
  pub gid : ℕ

pub record PendingReadWriteRequest : Type 0 where
  pub id : ℕ
  pub sandbox : Bytes
  pub attach_id : Option ℕ
  pub operation : ReadWriteOperation
  pub kind : ProtectionKind
  pub path : SandboxPath
  pub pid : ℕ
  pub uid : ℕ
  pub gid : ℕ
  pub process_identity : Option ProcessIdentityEvidence
  pub description : Bytes

unfoldable new_with_attach_path :
    ℕ
    → Bytes
    → Option ℕ
    → ReadWriteOperation
    → SandboxPath
    → RequesterIdentity
    → PendingReadWriteRequest
new_with_attach_path id sandbox attach_id operation path requester = record {
  id = id;
  sandbox = sandbox;
  attach_id = attach_id;
  operation = operation;
  kind = operation_kind operation;
  path = path;
  pid = requester.pid;
  uid = requester.uid;
  gid = requester.gid;
  process_identity = none;
  description = event_body operation;
}

unfoldable pub new_with_attach_effect :
    ℕ
    → Bytes
    → Option ℕ
    → ReadWriteOperation
    → ReadWriteEffect
    → RequesterIdentity
    → PendingReadWriteRequest
new_with_attach_effect id sandbox attach_id operation effect requester = record {
  id = id;
  sandbox = sandbox;
  attach_id = attach_id;
  operation = operation;
  kind = effect.kind;
  path = effect.path;
  pid = requester.pid;
  uid = requester.uid;
  gid = requester.gid;
  process_identity = none;
  description = effect.description;
}

unfoldable pub with_process_identity :
    Option ProcessIdentityEvidence → PendingReadWriteRequest → PendingReadWriteRequest
with_process_identity identity r = record r { process_identity = identity }

pub data PendingRequest : Type 0 where
  metadata_request : PendingMetadataRequest → PendingRequest
  read_write_request : PendingReadWriteRequest → PendingRequest

unfoldable pub request_id : PendingRequest → ℕ
request_id (metadata_request r) = r.id
request_id (read_write_request r) = r.id

unfoldable pub request_sandbox : PendingRequest → Bytes
request_sandbox (metadata_request r) = r.sandbox
request_sandbox (read_write_request r) = r.sandbox

unfoldable pub request_attach_id : PendingRequest → Option ℕ
request_attach_id (metadata_request r) = r.attach_id
request_attach_id (read_write_request r) = r.attach_id

unfoldable request_path : PendingRequest → SandboxPath
request_path (metadata_request r) = metadata_path r.operation
request_path (read_write_request r) = r.path

unfoldable request_description : PendingRequest → Bytes
request_description (metadata_request r) = r.description
request_description (read_write_request r) = r.description

unfoldable metadata_shell_hint : PendingRequest → Option Bytes
metadata_shell_hint (metadata_request r) = some (shell_hint r.operation)
metadata_shell_hint (read_write_request r) = none

pub data PendingDecision : Type 0 where
  apply do_nothing deny cancel : PendingDecision
