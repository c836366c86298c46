-- ===== src/Operation.antt =====
-- src/state.rs: `ReadWriteOperation`, and the effects that each operation asks leave for.
pub mod Consistency
use gatefs.Text.{Bytes, bytes}
use gatefs.Policy.{ProtectionKind, metadata, read, write, xattr}
use gatefs.Path.{SandboxPath, as_str}
use gatefs.Base.{Bool, List, [], false, true, ◌++◌, ◌∷◌}

pub record ReadWriteEffect : Type 0 where
  pub kind : ProtectionKind
  pub path : SandboxPath
  pub description : Bytes

pub data ReadWriteOperation : Type 0 where
  read_file : SandboxPath → ReadWriteOperation
  read_directory : SandboxPath → ReadWriteOperation
  get_xattr : SandboxPath → Bytes → ReadWriteOperation
  list_xattr : SandboxPath → ReadWriteOperation
  open_write : SandboxPath → ReadWriteOperation
  write_file : SandboxPath → ReadWriteOperation
  set_xattr : SandboxPath → Bytes → ReadWriteOperation
  remove_xattr : SandboxPath → Bytes → ReadWriteOperation
  truncate : SandboxPath → ReadWriteOperation
  create : SandboxPath → ReadWriteOperation
  mkdir : SandboxPath → ReadWriteOperation
  mknod : SandboxPath → ReadWriteOperation
  symlink : SandboxPath → ReadWriteOperation
  link : SandboxPath → SandboxPath → ReadWriteOperation
  unlink : SandboxPath → ReadWriteOperation
  rmdir : SandboxPath → ReadWriteOperation
  rename : SandboxPath → SandboxPath → ReadWriteOperation

-- `format!("path={path}…")`, with what follows the path.
abbrev pub path_line : SandboxPath → Bytes → Bytes
path_line p rest = bytes "path=" ++ as_str p ++ rest

abbrev pub effect : ProtectionKind → SandboxPath → Bytes → ReadWriteEffect
effect kind p rest = record { kind = kind; path = p; description = path_line p rest }

unfoldable pub effects : ReadWriteOperation → List ReadWriteEffect
effects (read_file p) = effect read p (bytes " READ file") ∷ []
effects (read_directory p) = effect read p (bytes " READ directory") ∷ []
effects (get_xattr p name) =
    effect read p (bytes " READ GETXATTR name=" ++ name)
    ∷ effect xattr p (bytes " XATTR GETXATTR name=" ++ name)
    ∷ []
effects (list_xattr p) =
    effect read p (bytes " READ LISTXATTR") ∷ effect xattr p (bytes " XATTR LISTXATTR") ∷ []
effects (open_write p) = effect write p (bytes " WRITE open") ∷ []
effects (write_file p) = effect write p (bytes " WRITE data") ∷ []
effects (set_xattr p name) =
    effect write p (bytes " WRITE SETXATTR name=" ++ name)
    ∷ effect metadata p (bytes " METADATA SETXATTR name=" ++ name)
    ∷ effect xattr p (bytes " XATTR SETXATTR name=" ++ name)
    ∷ []
effects (remove_xattr p name) =
    effect write p (bytes " WRITE REMOVEXATTR name=" ++ name)
    ∷ effect metadata p (bytes " METADATA REMOVEXATTR name=" ++ name)
    ∷ effect xattr p (bytes " XATTR REMOVEXATTR name=" ++ name)
    ∷ []
effects (truncate p) =
    effect write p (bytes " WRITE truncate") ∷ effect metadata p (bytes " METADATA truncate") ∷ []
effects (create p) = effect write p (bytes " WRITE create") ∷ []
effects (mkdir p) = effect write p (bytes " WRITE mkdir") ∷ []
effects (mknod p) = effect write p (bytes " WRITE mknod") ∷ []
effects (symlink p) = effect write p (bytes " WRITE symlink") ∷ []
effects (link from to) =
    effect metadata from (bytes " METADATA link to=" ++ as_str to)
    ∷ effect write to (bytes " WRITE link from=" ++ as_str from)
    ∷ []
effects (unlink p) = effect write p (bytes " WRITE unlink") ∷ []
effects (rmdir p) = effect write p (bytes " WRITE rmdir") ∷ []
effects (rename from to) =
    effect write from (bytes " WRITE rename to=" ++ as_str to)
    ∷ effect write to (bytes " WRITE rename from=" ++ as_str from)
    ∷ []

-- `effects().first().map(kind).unwrap_or(Write)`.
unfoldable pub operation_kind : ReadWriteOperation → ProtectionKind
unfolding effects
operation_kind op = elim (effects op) [ [] ↦ write | e ∷ es ↦ e.kind ]

unfoldable pub operation_path : ReadWriteOperation → SandboxPath
operation_path (read_file p) = p
operation_path (read_directory p) = p
operation_path (get_xattr p name) = p
operation_path (list_xattr p) = p
operation_path (open_write p) = p
operation_path (write_file p) = p
operation_path (set_xattr p name) = p
operation_path (remove_xattr p name) = p
operation_path (truncate p) = p
operation_path (create p) = p
operation_path (mkdir p) = p
operation_path (mknod p) = p
operation_path (symlink p) = p
operation_path (link from to) = from
operation_path (unlink p) = p
operation_path (rmdir p) = p
operation_path (rename from to) = from

unfoldable pub protection_paths : ReadWriteOperation → List SandboxPath
unfolding operation_path
protection_paths (link from to) = from ∷ to ∷ []
protection_paths (rename from to) = from ∷ to ∷ []
protection_paths op = operation_path op ∷ []

-- `event_body`, which `description` returns too.
unfoldable pub event_body : ReadWriteOperation → Bytes
event_body (read_file p) = path_line p (bytes " READ file")
event_body (read_directory p) = path_line p (bytes " READ directory")
event_body (get_xattr p name) = path_line p (bytes " READ GETXATTR name=" ++ name)
event_body (list_xattr p) = path_line p (bytes " READ LISTXATTR")
event_body (open_write p) = path_line p (bytes " WRITE open")
event_body (write_file p) = path_line p (bytes " WRITE data")
event_body (set_xattr p name) = path_line p (bytes " WRITE SETXATTR name=" ++ name)
event_body (remove_xattr p name) = path_line p (bytes " WRITE REMOVEXATTR name=" ++ name)
event_body (truncate p) = path_line p (bytes " WRITE truncate")
event_body (create p) = path_line p (bytes " WRITE create")
event_body (mkdir p) = path_line p (bytes " WRITE mkdir")
event_body (mknod p) = path_line p (bytes " WRITE mknod")
event_body (symlink p) = path_line p (bytes " WRITE symlink")
event_body (link from to) = path_line from (bytes " WRITE link to=" ++ as_str to)
event_body (unlink p) = path_line p (bytes " WRITE unlink")
event_body (rmdir p) = path_line p (bytes " WRITE rmdir")
event_body (rename from to) = path_line from (bytes " WRITE rename to=" ++ as_str to)

-- The `matches!` on extended attributes in `authorize_read_write` of src/fs.rs.
unfoldable pub is_xattr_operation : ReadWriteOperation → Bool
is_xattr_operation (get_xattr p name) = true
is_xattr_operation (list_xattr p) = true
is_xattr_operation (set_xattr p name) = true
is_xattr_operation (remove_xattr p name) = true
is_xattr_operation op = false
