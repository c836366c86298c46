-- ===== src/Operation/Consistency.antt =====
-- src/state.rs: what an operation's effects have to do with its paths and its kind.
use gatefs.Operation.{
  ReadWriteOperation, create, effects, get_xattr, is_xattr_operation, link, list_xattr, mkdir,
  mknod, open_write, operation_path, protection_paths, read_directory, read_file, remove_xattr,
  rename, rmdir, set_xattr, symlink, truncate, unlink, write_file,
}
use gatefs.Base.{
  ==_refl, All, Bool, List, [], any, arith, list_ord, map, nat_ord, refl, true, ◌==◌, ◌∷◌, ◌≡◌,
}
use gatefs.Path.{SandboxPath, sandbox_path_ord}
use gatefs.Policy.{ProtectionKind, protection_kind_ord}
use gatefs.StdPath.{component_ord}

-- The operations that a bypass of kind xattr covers as a whole are those with an effect of that kind.
pub effects-is_xattr_operation :
    (op : ReadWriteOperation)
    → any (λ e. e.kind == ProtectionKind.xattr) (effects op) ≡ is_xattr_operation op
unfolding effects is_xattr_operation any
effects-is_xattr_operation (read_file p) = refl
effects-is_xattr_operation (read_directory p) = refl
effects-is_xattr_operation (get_xattr p name) = refl
effects-is_xattr_operation (list_xattr p) = refl
effects-is_xattr_operation (open_write p) = refl
effects-is_xattr_operation (write_file p) = refl
effects-is_xattr_operation (set_xattr p name) = refl
effects-is_xattr_operation (remove_xattr p name) = refl
effects-is_xattr_operation (truncate p) = refl
effects-is_xattr_operation (create p) = refl
effects-is_xattr_operation (mkdir p) = refl
effects-is_xattr_operation (mknod p) = refl
effects-is_xattr_operation (symlink p) = refl
effects-is_xattr_operation (link from to) = refl
effects-is_xattr_operation (unlink p) = refl
effects-is_xattr_operation (rmdir p) = refl
effects-is_xattr_operation (rename from to) = refl

abbrev pub holds_path : List SandboxPath → SandboxPath → Bool
holds_path paths p = any (λ q. q == p) paths

one_path : (p : SandboxPath) (paths : List SandboxPath) → holds_path (p ∷ paths) p ≡ true
unfolding any
one_path p paths = rw (==_refl p) refl

two_paths : (p q : SandboxPath) → holds_path (q ∷ p ∷ []) p ≡ true
unfolding any
two_paths p q = rw (==_refl p) ground arith

-- The paths of an operation's effects are the paths that it is protected by.
pub effects-protection_paths :
    (op : ReadWriteOperation)
    → All (λ e. holds_path (protection_paths op) e.path ≡ true) (effects op)
      × All (λ p. holds_path (map (λ e. e.path) (effects op)) p ≡ true) (protection_paths op)
unfolding effects protection_paths operation_path
effects-protection_paths (read_file p) = ((one_path p [], tt), (one_path p [], tt))
effects-protection_paths (read_directory p) = ((one_path p [], tt), (one_path p [], tt))
effects-protection_paths (get_xattr p name) =
    ((one_path p [], (one_path p [], tt)), (one_path p (p ∷ []), tt))
effects-protection_paths (list_xattr p) =
    ((one_path p [], (one_path p [], tt)), (one_path p (p ∷ []), tt))
effects-protection_paths (open_write p) = ((one_path p [], tt), (one_path p [], tt))
effects-protection_paths (write_file p) = ((one_path p [], tt), (one_path p [], tt))
effects-protection_paths (set_xattr p name) =
    ((one_path p [], (one_path p [], (one_path p [], tt))), (one_path p (p ∷ p ∷ []), tt))
effects-protection_paths (remove_xattr p name) =
    ((one_path p [], (one_path p [], (one_path p [], tt))), (one_path p (p ∷ p ∷ []), tt))
effects-protection_paths (truncate p) =
    ((one_path p [], (one_path p [], tt)), (one_path p (p ∷ []), tt))
effects-protection_paths (create p) = ((one_path p [], tt), (one_path p [], tt))
effects-protection_paths (mkdir p) = ((one_path p [], tt), (one_path p [], tt))
effects-protection_paths (mknod p) = ((one_path p [], tt), (one_path p [], tt))
effects-protection_paths (symlink p) = ((one_path p [], tt), (one_path p [], tt))
effects-protection_paths (link from to) = (
  (one_path from (to ∷ []), (two_paths to from, tt)),
  (one_path from (to ∷ []), (two_paths to from, tt)),
)
effects-protection_paths (unlink p) = ((one_path p [], tt), (one_path p [], tt))
effects-protection_paths (rmdir p) = ((one_path p [], tt), (one_path p [], tt))
effects-protection_paths (rename from to) = (
  (one_path from (to ∷ []), (two_paths to from, tt)),
  (one_path from (to ∷ []), (two_paths to from, tt)),
)
