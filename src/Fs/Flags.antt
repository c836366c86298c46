-- ===== src/Fs/Flags.antt =====
-- src/fs.rs: the flags of an inode, and those of `struct fsxattr`.
use Prim.Native.Nat.{bit_and, bit_or}
use gatefs.Fs.{Errno, einval, enotsup}
use gatefs.Text.{Bytes, bytes}
use gatefs.Base.{
  All, Bool, List, [], any, ap, arith, false, if◌then◌else◌, inl, inr, length, ltb, nat_eq, not,
  refl, suc, zero, ℕ, ◌-◌, ◌<◌, ◌^◌, ◌∙◌, ◌∷◌, ◌≡◌, ◌⊎◌,
}

abbrev pub fs_immutable_fl : ℕ
fs_immutable_fl = 0x10

abbrev pub fs_append_fl : ℕ
fs_append_fl = 0x20

abbrev pub fs_sync_fl : ℕ
fs_sync_fl = 0x08

abbrev pub fs_noatime_fl : ℕ
fs_noatime_fl = 0x80

abbrev pub fs_nodump_fl : ℕ
fs_nodump_fl = 0x40

abbrev pub fs_projinherit_fl : ℕ
fs_projinherit_fl = 0x20000000

abbrev fs_xflag_immutable : ℕ
fs_xflag_immutable = 0x08

abbrev fs_xflag_append : ℕ
fs_xflag_append = 0x10

abbrev fs_xflag_sync : ℕ
fs_xflag_sync = 0x20

abbrev fs_xflag_noatime : ℕ
fs_xflag_noatime = 0x40

abbrev fs_xflag_nodump : ℕ
fs_xflag_nodump = 0x80

abbrev fs_xflag_projinherit : ℕ
fs_xflag_projinherit = 0x200

unfoldable fs_supported_xflags : ℕ
fs_supported_xflags = bit_or fs_xflag_immutable (
    bit_or fs_xflag_append (
      bit_or fs_xflag_sync (bit_or fs_xflag_noatime (bit_or fs_xflag_nodump fs_xflag_projinherit))))

-- `word & flag != 0`.
abbrev pub has_flag : ℕ → ℕ → Bool
has_flag word flag = not (nat_eq (bit_and word flag) 0)

-- `if test { word |= flag; }`.
abbrev set_if : Bool → ℕ → ℕ → ℕ
set_if test flag word = if test then bit_or word flag else word

unfoldable pub flags_to_xflags : ℕ → ℕ
flags_to_xflags flags = set_if (has_flag flags fs_projinherit_fl) fs_xflag_projinherit (
    set_if (has_flag flags fs_nodump_fl) fs_xflag_nodump (
      set_if (has_flag flags fs_noatime_fl) fs_xflag_noatime (
        set_if (has_flag flags fs_sync_fl) fs_xflag_sync (
          set_if (has_flag flags fs_append_fl) fs_xflag_append
            (set_if (has_flag flags fs_immutable_fl) fs_xflag_immutable 0)))))

unfoldable pub xflags_to_flags : ℕ → Errno ⊎ ℕ
unfolding fs_supported_xflags
xflags_to_flags xflags =
    if has_flag xflags (2 ^ 32 - 1 - fs_supported_xflags)
    then inl enotsup
    else inr (
        set_if (has_flag xflags fs_xflag_projinherit) fs_projinherit_fl (
          set_if (has_flag xflags fs_xflag_nodump) fs_nodump_fl (
            set_if (has_flag xflags fs_xflag_noatime) fs_noatime_fl (
              set_if (has_flag xflags fs_xflag_sync) fs_sync_fl (
                set_if (has_flag xflags fs_xflag_append) fs_append_fl
                  (set_if (has_flag xflags fs_xflag_immutable) fs_immutable_fl 0))))))

-- How the machine orders the four bytes of a word: `to_ne_bytes` and `from_ne_bytes`.
pub record Endian : Type 0 where
  pub to_ne_bytes : ℕ → ℕ × (ℕ × (ℕ × ℕ))
  pub from_ne_bytes : ℕ × (ℕ × (ℕ × ℕ)) → ℕ

-- `[0u8; n]`.
unfoldable zeros : ℕ → Bytes
zeros zero = []
zeros (suc n) = 0 ∷ zeros n

unfoldable take : ℕ → Bytes → Bytes
take zero s = []
take (suc n) [] = []
take (suc n) (b ∷ s) = b ∷ take n s

abbrev fsxattr_size : ℕ
fsxattr_size = 28

module _ (endian : Endian) where
  unfoldable pub encode_fsxattr : ℕ → Bytes
  unfolding flags_to_xflags zeros
  encode_fsxattr flags =
      let (a, (b, (c, d))) = endian.to_ne_bytes (flags_to_xflags flags) in
      a ∷ b ∷ c ∷ d ∷ zeros (fsxattr_size - 4)

  -- The four bytes of the word and those after it; data that is too short for them is refused before.
  decode_rest : ℕ × (ℕ × (ℕ × ℕ)) → Bytes → Errno ⊎ ℕ
  unfolding xflags_to_flags any take
  decode_rest word rest =
      if any (λ byte. not (nat_eq byte 0)) (take (fsxattr_size - 4) rest)
      then inl enotsup
      else xflags_to_flags (endian.from_ne_bytes word)

  unfoldable pub decode_fsxattr_flags : Bytes → Errno ⊎ ℕ
  unfolding decode_rest
  decode_fsxattr_flags (a ∷ b ∷ c ∷ d ∷ rest) =
      if ltb (length rest) (fsxattr_size - 4) then inl einval else decode_rest (a, (b, (c, d))) rest
  decode_fsxattr_flags bytes = inl einval

-- The words of six tests.
xflags_of : Bool → Bool → Bool → Bool → Bool → Bool → ℕ
xflags_of a b c d e f = set_if f fs_xflag_projinherit (
    set_if e fs_xflag_nodump (
      set_if d fs_xflag_noatime
        (set_if c fs_xflag_sync (set_if b fs_xflag_append (set_if a fs_xflag_immutable 0)))))

flags_of : Bool → Bool → Bool → Bool → Bool → Bool → ℕ
flags_of a b c d e f = set_if f fs_projinherit_fl (
    set_if e fs_nodump_fl (
      set_if d fs_noatime_fl
        (set_if c fs_sync_fl (set_if b fs_append_fl (set_if a fs_immutable_fl 0)))))

decoded :
    (a b c d e f : Bool) → xflags_to_flags (xflags_of a b c d e f) ≡ inr (flags_of a b c d e f)
unfolding xflags_to_flags xflags_of flags_of
decoded a b c d e f = ground arith

abbrev pub supported_flags : List ℕ
supported_flags =
    fs_immutable_fl ∷ fs_append_fl ∷ fs_sync_fl ∷ fs_noatime_fl ∷ fs_nodump_fl ∷ fs_projinherit_fl
    ∷ []

small : (a b c d e f : Bool) → xflags_of a b c d e f < 2 ^ 32
unfolding xflags_of
small a b c d e f = ground arith

same_tests :
    (flags : ℕ) (a b c d e f : Bool)
    → has_flag flags fs_immutable_fl ≡ a
    → has_flag flags fs_append_fl ≡ b
    → has_flag flags fs_sync_fl ≡ c
    → has_flag flags fs_noatime_fl ≡ d
    → has_flag flags fs_nodump_fl ≡ e
    → has_flag flags fs_projinherit_fl ≡ f
    → All (λ flag. has_flag (flags_of a b c d e f) flag ≡ has_flag flags flag) supported_flags
unfolding flags_of
same_tests flags a b c d e f h i j k l m = (
  ground arith,
  (ground arith, (ground arith, (ground arith, (ground arith, (ground arith, tt))))),
)

no_others : (a b c d e f : Bool) → has_flag (flags_of a b c d e f) (2 ^ 32 - 1 - 0x200000f8) ≡ false
unfolding flags_of
no_others a b c d e f = ground arith

-- Where the machine reads back the words that it writes, encoding the flags of an inode for
-- `FSGETXATTR` and decoding them as for `FSSETXATTR` succeeds, keeps each of the six supported flags
-- as it was, and drops all others.
pub decode_fsxattr_flags-encode_fsxattr :
    (endian : Endian)
    → ((word : ℕ) → word < 2 ^ 32 → endian.from_ne_bytes (endian.to_ne_bytes word) ≡ word)
    → (flags : ℕ)
    → (kept : ℕ) × (decode_fsxattr_flags endian (encode_fsxattr endian flags) ≡ inr kept)
      × All (λ flag. has_flag kept flag ≡ has_flag flags flag) supported_flags
      × (has_flag kept (2 ^ 32 - 1 - 0x200000f8) ≡ false)
unfolding decode_fsxattr_flags encode_fsxattr decode_rest flags_to_xflags xflags_of zeros take any
decode_fsxattr_flags-encode_fsxattr endian back flags = (
  flags_of a b c d e f,
  ap xflags_to_flags (back (xflags_of a b c d e f) (small a b c d e f)) ∙ decoded a b c d e f,
  same_tests flags a b c d e f refl refl refl refl refl refl,
  no_others a b c d e f,
)
  where
    a : Bool
    a = has_flag flags fs_immutable_fl

    b : Bool
    b = has_flag flags fs_append_fl

    c : Bool
    c = has_flag flags fs_sync_fl

    d : Bool
    d = has_flag flags fs_noatime_fl

    e : Bool
    e = has_flag flags fs_nodump_fl

    f : Bool
    f = has_flag flags fs_projinherit_fl
