-- ===== src/Metadata.antt =====
-- src/state.rs: metadata operations, the overrides that they leave, and the kinds that they wait on.
pub mod Independence
use gatefs.Path.{SandboxPath, as_str}
use gatefs.Text.{Bytes, bytes, decimal, hex, octal, octal4}
use gatefs.Operation.{path_line}
use gatefs.Base.{
  Bool, List, Option, Ord, [], arith, if◌then◌else◌, is_none, is_some, nat_ord, none, or_else,
  ord_by, some, ℕ, ◌&&◌, ◌++◌, ◌||◌, ◌∷◌, ◌≡◌,
}

-- A point of time, in nanoseconds from the epoch.
abbrev pub SystemTime : Type 0
SystemTime = ℕ

pub record MetadataOverride : Type 0 where
  pub mode : Option ℕ
  pub uid : Option ℕ
  pub gid : Option ℕ
  pub flags : Option ℕ
  pub atime : Option SystemTime
  pub mtime : Option SystemTime

-- `MetadataOverride::default`.
abbrev pub no_override : MetadataOverride
no_override = record {
  mode = none;
  uid = none;
  gid = none;
  flags = none;
  atime = none;
  mtime = none;
}

unfoldable pub is_empty_override : MetadataOverride → Bool
is_empty_override o =
    is_none o.mode
    && is_none o.uid
    && is_none o.gid
    && is_none o.flags
    && is_none o.atime
    && is_none o.mtime

pub data PendingOperationKind : Type 0 where
  mode uid gid flags times xattr : PendingOperationKind

abbrev pending_kind_rank : PendingOperationKind → ℕ
pending_kind_rank mode = 0
pending_kind_rank uid = 1
pending_kind_rank gid = 2
pending_kind_rank flags = 3
pending_kind_rank times = 4
pending_kind_rank xattr = 5

pub pending_kind_rank-injective :
    (a b : PendingOperationKind) → pending_kind_rank a ≡ pending_kind_rank b → a ≡ b
pending_kind_rank-injective mode b e = ground arith
pending_kind_rank-injective uid b e = ground arith
pending_kind_rank-injective gid b e = ground arith
pending_kind_rank-injective flags b e = ground arith
pending_kind_rank-injective times b e = ground arith
pending_kind_rank-injective xattr b e = ground arith

instance abbrev pub pending_kind_ord : Ord PendingOperationKind
pending_kind_ord = ord_by pending_kind_rank nat_ord pending_kind_rank-injective

pub data MetadataOperation : Type 0 where
  chmod : SandboxPath → ℕ → MetadataOperation
  chown : SandboxPath → Option ℕ → Option ℕ → MetadataOperation
  chattr : SandboxPath → ℕ → MetadataOperation
  set_attr : SandboxPath → MetadataOverride → MetadataOperation
  set_xattr : SandboxPath → Bytes → MetadataOperation
  remove_xattr : SandboxPath → Bytes → MetadataOperation

unfoldable pub metadata_path : MetadataOperation → SandboxPath
metadata_path (chmod p m) = p
metadata_path (chown p u g) = p
metadata_path (chattr p f) = p
metadata_path (set_attr p o) = p
metadata_path (set_xattr p name) = p
metadata_path (remove_xattr p name) = p

abbrev pub push_if : Bool → PendingOperationKind → List PendingOperationKind
push_if test kind = if test then kind ∷ [] else []

unfoldable pub pending_kinds : MetadataOperation → List PendingOperationKind
pending_kinds (chmod p m) = mode ∷ []
pending_kinds (chown p u g) = push_if (is_some u) uid ++ push_if (is_some g) gid
pending_kinds (chattr p f) = flags ∷ []
pending_kinds (set_xattr p name) = xattr ∷ []
pending_kinds (remove_xattr p name) = xattr ∷ []
pending_kinds (set_attr p o) =
    push_if (is_some o.mode) mode
    ++ (push_if (is_some o.uid) uid
        ++ (push_if (is_some o.gid) gid
            ++ (push_if (is_some o.flags) flags
                ++ push_if (is_some o.atime || is_some o.mtime) times)))

-- The `match` in `apply_metadata_override_to_object`: what an operation writes into an override.
unfoldable pub write_override : MetadataOperation → MetadataOverride → MetadataOverride
write_override (chmod p m) o = record o { mode = some m }
write_override (chown p u g) o = record o { uid = or_else u o.uid; gid = or_else g o.gid }
write_override (chattr p f) o = record o { flags = some f }
write_override (set_xattr p name) o = o
write_override (remove_xattr p name) o = o
write_override (set_attr p a) o = record {
  mode = or_else a.mode o.mode;
  uid = or_else a.uid o.uid;
  gid = or_else a.gid o.gid;
  flags = or_else a.flags o.flags;
  atime = or_else a.atime o.atime;
  mtime = or_else a.mtime o.mtime;
}

-- Fields joined by spaces.
unfoldable join_spaces : List Bytes → Bytes
join_spaces [] = []
join_spaces (s ∷ []) = s
join_spaces (s ∷ t ∷ ts) = s ++ b' ' ∷ join_spaces (t ∷ ts)

abbrev shown {ℓ} : {A : Type ℓ} → Option A → (A → Bytes) → List Bytes
shown none f = []
shown (some a) f = f a ∷ []

abbrev or_unchanged : List Bytes → List Bytes
or_unchanged [] = bytes "unchanged" ∷ []
or_unchanged (s ∷ ss) = s ∷ ss

unfoldable format_setattr_body : SandboxPath → MetadataOverride → Bytes
unfolding join_spaces
format_setattr_body p o =
    let fields : List Bytes =
      shown o.mode (λ m. bytes "mode=" ++ octal4 m)
      ++ (shown o.uid (λ u. bytes "uid=" ++ decimal u)
          ++ (shown o.gid (λ g. bytes "gid=" ++ decimal g)
              ++ (shown o.flags (λ f. bytes "flags=0x" ++ hex f)
                  ++ (shown o.atime (λ t. bytes "atime=<set>")
                      ++ shown o.mtime (λ t. bytes "mtime=<set>"))))) in
    path_line p (bytes " SETATTR " ++ join_spaces (or_unchanged fields))

unfoldable format_chown_shell_hint : SandboxPath → Option ℕ → Option ℕ → Bytes
format_chown_shell_hint p (some u) (some g) =
    bytes "chown " ++ decimal u ++ bytes ":" ++ decimal g ++ bytes " " ++ as_str p
format_chown_shell_hint p (some u) none = bytes "chown " ++ decimal u ++ bytes " " ++ as_str p
format_chown_shell_hint p none (some g) = bytes "chown :" ++ decimal g ++ bytes " " ++ as_str p
format_chown_shell_hint p none none = bytes "chown unchanged " ++ as_str p

-- `MetadataOperation::event_body`, which `description` returns too.
unfoldable pub metadata_event_body : MetadataOperation → Bytes
unfolding format_setattr_body
metadata_event_body (chmod p m) = path_line p (bytes " SETATTR mode=" ++ octal4 m)
metadata_event_body (chown p u g) = format_setattr_body p (record no_override { uid = u; gid = g })
metadata_event_body (chattr p f) = path_line p (bytes " CHATTR flags=0x" ++ hex f)
metadata_event_body (set_xattr p name) = path_line p (bytes " SETXATTR name=" ++ name)
metadata_event_body (remove_xattr p name) = path_line p (bytes " REMOVEXATTR name=" ++ name)
metadata_event_body (set_attr p o) = format_setattr_body p o

abbrev chmod_hint : SandboxPath → ℕ → Bytes
chmod_hint p m = bytes "chmod " ++ octal m ++ bytes " " ++ as_str p

abbrev chattr_hint : SandboxPath → ℕ → Bytes
chattr_hint p f = bytes "chattr flags=0x" ++ hex f ++ bytes " " ++ as_str p

-- The `match` on the six fields of a `SetAttr`.
set_attr_hint :
    SandboxPath
    → Bytes
    → Option ℕ
    → Option ℕ
    → Option ℕ
    → Option ℕ
    → Option SystemTime
    → Option SystemTime
    → Bytes
unfolding format_chown_shell_hint
set_attr_hint p body (some m) none none none none none = chmod_hint p m
set_attr_hint p body none (some u) none none none none = format_chown_shell_hint p (some u) none
set_attr_hint p body none none (some g) none none none = format_chown_shell_hint p none (some g)
set_attr_hint p body none (some u) (some g) none none none =
    format_chown_shell_hint p (some u) (some g)
set_attr_hint p body none none none (some f) none none = chattr_hint p f
set_attr_hint p body m u g f a t = body

unfoldable pub shell_hint : MetadataOperation → Bytes
unfolding set_attr_hint format_chown_shell_hint metadata_event_body
shell_hint (chmod p m) = chmod_hint p m
shell_hint (chown p u g) = format_chown_shell_hint p u g
shell_hint (chattr p f) = chattr_hint p f
shell_hint (set_xattr p name) = bytes "setfattr -n " ++ name ++ bytes " " ++ as_str p
shell_hint (remove_xattr p name) = bytes "setfattr -x " ++ name ++ bytes " " ++ as_str p
shell_hint (set_attr p o) =
    set_attr_hint p (metadata_event_body (set_attr p o)) o.mode o.uid o.gid o.flags o.atime o.mtime
