-- ===== src/Attr.antt =====
-- src/state.rs and src/fs.rs: the attributes and the inode numbers of paths.
use gatefs.Sandbox.{u64_mod}
use gatefs.Text.{Bytes}
use gatefs.Path.{SandboxPath, as_str}
use gatefs.Metadata.{MetadataOverride, SystemTime}
use gatefs.StdPath.{root_path, component_ord}
use gatefs.Base.{
  Bool, Option, [], if◌then◌else◌, nat_eq, none, some, unwrap_or, ℕ, ◌%◌, ◌*◌, ◌+◌, ◌==◌, ◌^◌, ◌∷◌,
  list_ord, nat_ord,
}
use Prim.Native.Nat.{bit_and, bit_xor}

pub data FileType : Type 0 where
  directory symlink regular_file named_pipe socket char_device block_device : FileType

pub record FileAttr : Type 0 where
  pub ino : ℕ
  pub size : ℕ
  pub blocks : ℕ
  pub atime : SystemTime
  pub mtime : SystemTime
  pub ctime : SystemTime
  pub crtime : SystemTime
  pub kind : FileType
  pub perm : ℕ
  pub nlink : ℕ
  pub uid : ℕ
  pub gid : ℕ
  pub rdev : ℕ
  pub blksize : ℕ
  pub flags : ℕ

-- What the host tells of a file; a time before the epoch reads 0.
pub record Stat : Type 0 where
  pub mode : ℕ
  pub is_dir : Bool
  pub is_symlink : Bool
  pub is_file : Bool
  pub size : ℕ
  pub blocks : ℕ
  pub atime : SystemTime
  pub mtime : SystemTime
  pub ctime : SystemTime
  pub nlink : ℕ
  pub uid : ℕ
  pub gid : ℕ
  pub rdev : ℕ
  pub blksize : ℕ

-- The loop of `stable_ino` over the bytes.
unfoldable pub hash_bytes : ℕ → Bytes → ℕ
hash_bytes hash [] = hash
hash_bytes hash (b ∷ s) = hash_bytes (bit_xor hash b * 0x100000001b3 % u64_mod) s

unfoldable pub stable_ino : SandboxPath → ℕ
unfolding hash_bytes
stable_ino path =
    if path.inner == root_path
    then 1
    else 2 + bit_and (hash_bytes 0xcbf29ce484222325 (as_str path)) 0x000fffffffffffff

-- The bits of the mode that tell the type.
unfoldable pub type_of_mode : ℕ → FileType
type_of_mode format =
    if nat_eq format 0o040000
    then directory
    else if nat_eq format 0o120000
    then symlink
    else if nat_eq format 0o100000
    then regular_file
    else if nat_eq format 0o010000
    then named_pipe
    else if nat_eq format 0o140000
    then socket
    else if nat_eq format 0o020000
    then char_device
    else if nat_eq format 0o060000
    then block_device
    else regular_file

unfoldable pub mode_to_kind : Stat → FileType
unfolding type_of_mode
mode_to_kind s =
    if s.is_dir
    then directory
    else if s.is_symlink
    then symlink
    else if s.is_file
    then regular_file
    else type_of_mode (bit_and s.mode 0o170000)

-- The effective ids of the process are given.
unfoldable pub virtual_dir_attr : ℕ → ℕ → SandboxPath → FileAttr
unfolding stable_ino
virtual_dir_attr user group path = record {
  ino = stable_ino path;
  size = 0;
  blocks = 0;
  atime = 0;
  mtime = 0;
  ctime = 0;
  crtime = 0;
  kind = directory;
  perm = 0o555;
  nlink = 2;
  uid = user;
  gid = group;
  rdev = 0;
  blksize = 4096;
  flags = 0x10;
}

-- `real_attr` of what `symlink_metadata` answers.
unfoldable pub real_attr : SandboxPath → Stat → FileAttr
unfolding stable_ino mode_to_kind
real_attr path s = record {
  ino = stable_ino path;
  size = s.size;
  blocks = s.blocks;
  atime = s.atime;
  mtime = s.mtime;
  ctime = s.ctime;
  crtime = 0;
  kind = mode_to_kind s;
  perm = bit_and s.mode 0o7777;
  nlink = s.nlink % 2 ^ 32;
  uid = s.uid;
  gid = s.gid;
  rdev = s.rdev % 2 ^ 32;
  blksize = s.blksize % 2 ^ 32;
  flags = 0;
}

unfoldable pub apply_override : FileAttr → Option MetadataOverride → FileAttr
apply_override attr none = attr
apply_override attr (some o) = record attr {
  perm = unwrap_or o.mode attr.perm;
  uid = unwrap_or o.uid attr.uid;
  gid = unwrap_or o.gid attr.gid;
  flags = unwrap_or o.flags attr.flags;
  atime = unwrap_or o.atime attr.atime;
  mtime = unwrap_or o.mtime attr.mtime;
}
