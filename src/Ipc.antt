-- ===== src/Ipc.antt =====
-- src/ipc.rs: the requests that a session answers, and its responses.
use gatefs.Grant.{ReadWriteGrantOptions}
use gatefs.Registry.{TrustedPathScope}
use gatefs.Path.{SandboxPath}
use gatefs.Pending.{PendingRequest}
use gatefs.Policy.{Include, PolicyPattern, ProtectionKind, Rule}
use gatefs.Base.{Bool, List, Option, ℕ}
use gatefs.Text.{Bytes}

pub data Request : Type 0 where
  ping : Request
  shutdown : Bytes → Request
  attach : Bytes → Bytes → Bool → Request
  detach : Bytes → Bytes → Request
  mount : Bytes → Bytes → SandboxPath → Request
  umount : Bytes → SandboxPath → Request
  hide : Bytes → SandboxPath → Request
  protect unprotect bypass unbypass : Bytes → ProtectionKind → PolicyPattern → Request
  list_protection list_bypass : Bytes → Include → Request
  list_mounts metadata : Bytes → Request
  begin_trusted_operation : Bytes → Bytes → Bytes → List TrustedPathScope → Request
  register_trusted_pid : Bytes → ℕ → ℕ → Request
  end_trusted_operation : Bytes → Request
  pending : Bytes → Request
  allow : Bytes → ℕ → Bool → Option ReadWriteGrantOptions → Request
  deny cancel : Bytes → ℕ → Request
  cancel_all : Bytes → Option Bytes → Request
  log_path : Bytes → Request

pub data Response : Type 0 where
  done : Response
  text : Bytes → Response
  pending_items : List PendingRequest → Response
  protection_rules bypass_rules : List Rule → Response
  trusted : Bytes → ℕ → Bytes → Response
  warning : Bytes → Response
  failure : Bytes → Response
