-- ===== src/Examples/Changes.antt =====
-- src/fs.rs: a change of mode while an older one of the same path is pending, and the flags of an inode.
use gatefs.Fs.Flags.{
  Endian, decode_fsxattr_flags, decode_fsxattr_flags-encode_fsxattr, encode_fsxattr, has_flag,
  supported_flags,
}
use gatefs.Examples.Data.{box, docs, docs_pattern, docs_request, outside}
use gatefs.Text.{bytes}
use gatefs.Attr.{Stat}
use gatefs.Metadata.{chmod}
use gatefs.Fs.Attr.{Kernel, View}
use gatefs.Fs.Change.{Change, begin_metadata_request}
use gatefs.Fs.Exact.{begin_metadata_request-IsIndexed}
use gatefs.Fs.Indexed.{same-IsIndexed}
use gatefs.Sandbox.{Sandbox}
use gatefs.Policy.{ProtectionKind, add_rule, protection_kind_ord}
use gatefs.Registry.{SandboxRegistry, insert_pending_request, new_registry, next_operation_id}
use gatefs.Registry.Index.{IsIndexed, insert_pending_request-IsIndexed, new_registry-IsIndexed}
use gatefs.Base.{
  All, [], arith, false, inr, list_ord, nat_ord, none, refl, true, ℕ, ◌%◌, ◌*◌, ◌+◌, ◌-◌, ◌/◌, ◌^◌,
  ◌∷◌, ◌≡◌,
}
use gatefs.Map

abbrev docs_stat : Stat
docs_stat = record {
  mode = 16877;
  is_dir = true;
  is_symlink = false;
  is_file = false;
  size = 4096;
  blocks = 8;
  atime = 0;
  mtime = 0;
  ctime = 0;
  nlink = 2;
  uid = 1000;
  gid = 1000;
  rdev = 0;
  blksize = 4096;
}

abbrev kernel : Kernel
kernel = record {
  symlink_metadata = λ p. inr docs_stat;
  effective_uid = 1000;
  effective_gid = 1000;
}

-- Process 7, whose request 1 is pending, asks again to change the mode of `/docs`, to 0600.
abbrev new_mode : Change
new_mode = record {
  fs = record { sandbox_name = bytes "box"; attach_id = none };
  requester = record { pid = 7; uid = 1000; gid = 1000 };
  path = docs;
  operation = chmod docs 384;
}

-- The metadata of `/docs` is protected.
abbrev protected : Sandbox
protected = record box { protection_rules = (add_rule ProtectionKind.metadata docs_pattern []).0 }

abbrev first : SandboxRegistry
first = insert_pending_request docs_request (next_operation_id new_registry).0

abbrev asked_once : SandboxRegistry
asked_once = record first {
  sandboxes = (bytes "box", protected) ∷ [];
  pending_waiters = (1, 0) ∷ [];
}

asked_once-IsIndexed : IsIndexed asked_once
unfolding Map.get
asked_once-IsIndexed = same-IsIndexed first asked_once refl refl (omega arith) (
    insert_pending_request-IsIndexed new_registry docs_request new_registry-IsIndexed refl
      (omega arith) (λ key h. refl))

abbrev view : View
view = record {
  inodes = [];
  world = record { registry = asked_once; log = []; decided = []; next_waiter = 1 };
}

begin_metadata_request-IsIndexed_example :
    IsIndexed (begin_metadata_request kernel outside new_mode view).0.world.registry
unfolding insert_pending_request next_operation_id
begin_metadata_request-IsIndexed_example =
    begin_metadata_request-IsIndexed kernel outside new_mode view (omega arith) asked_once-IsIndexed

-- A machine that writes the lowest byte first.
abbrev little : Endian
little = record {
  to_ne_bytes =
      λ word. (word % 256, (word / 256 % 256, (word / 65536 % 256, word / 16777216 % 256)));
  from_ne_bytes = λ bytes. bytes.0 + 256 * bytes.1.0 + 65536 * bytes.1.1.0 + 16777216 * bytes.1.1.1;
}

-- Immutable and append-only, with a flag that is not supported.
decode_fsxattr_flags-encode_fsxattr_example :
    (kept : ℕ) × (decode_fsxattr_flags little (encode_fsxattr little 0x32) ≡ inr kept)
    × All (λ flag. has_flag kept flag ≡ has_flag 0x32 flag) supported_flags
    × (has_flag kept (2 ^ 32 - 1 - 0x200000f8) ≡ false)
decode_fsxattr_flags-encode_fsxattr_example =
    decode_fsxattr_flags-encode_fsxattr little (λ word h. omega arith) 0x32
