-- ===== src/Policy.antt =====
-- src/state.rs: protection kinds, glob patterns, and the rules that name them.

pub mod Rules
use gatefs.Text.{Bytes, bytes}
use gatefs.Sort.{sort_by}
use gatefs.Path.{SandboxPath, as_str, normalize_sandbox_path}
use gatefs.Base.{
  Bool, List, Option, Ord, Ordering, [], any, arith, false, if◌then◌else◌, is_empty, is_none, last?,
  list_ord, nat_eq, nat_ord, none, not, ord_by, pair_ord, remove_first, retain, some, then_with,
  true, ℕ, ◌&&◌, ◌++◌, ◌==◌, ◌||◌, ◌∷◌, ◌≡◌,
}
use gatefs.StdPath.{PathBuf, component_ord, components, display, root_path}
use gatefs.Error.{Result, err, message, ok, ◌>>=◌}

pub data ProtectionKind : Type 0 where
  read write metadata xattr : ProtectionKind

-- The variants in their order, as `derive(Ord)` compares them.
abbrev kind_rank : ProtectionKind → ℕ
kind_rank read = 0
kind_rank write = 1
kind_rank metadata = 2
kind_rank xattr = 3

pub kind_rank-injective : (a b : ProtectionKind) → kind_rank a ≡ kind_rank b → a ≡ b
kind_rank-injective read b e = ground arith
kind_rank-injective write b e = ground arith
kind_rank-injective metadata b e = ground arith
kind_rank-injective xattr b e = ground arith

instance abbrev pub protection_kind_ord : Ord ProtectionKind
protection_kind_ord = ord_by kind_rank nat_ord kind_rank-injective

unfoldable pub kind_log_name : ProtectionKind → Bytes
kind_log_name read = bytes "READ"
kind_log_name write = bytes "WRITE"
kind_log_name metadata = bytes "METADATA"
kind_log_name xattr = bytes "XATTR"

-- The crate `glob`: which texts are no patterns, and why, and which paths a pattern matches under the options
-- of the source (case counts, `*` stops at a slash, a leading dot is as any other character).
pub record Glob : Type 0 where
  pub compile_error : Bytes → Option Bytes
  pub matches_path : Bytes → PathBuf → Bool

pub record PolicyPattern : Type 0 where
  pub raw : Bytes
  pub directory_only : Bool

abbrev bool_rank : Bool → ℕ
bool_rank false = 0
bool_rank true = 1

abbrev pattern_key : PolicyPattern → Bytes × ℕ
pattern_key p = (p.raw, bool_rank p.directory_only)

bool_rank-injective : (a b : Bool) → bool_rank a ≡ bool_rank b → a ≡ b
bool_rank-injective false b e = ground arith
bool_rank-injective true b e = ground arith

pub pattern_key-injective : (a b : PolicyPattern) → pattern_key a ≡ pattern_key b → a ≡ b
pattern_key-injective a b e = ground (arith, bool_rank-injective a.directory_only b.directory_only)

instance abbrev pub policy_pattern_ord : Ord PolicyPattern
policy_pattern_ord = ord_by pattern_key pair_ord pattern_key-injective

unfoldable ends_with_slash : Bytes → Bool
ends_with_slash s = elim (last? s) [ none ↦ false | some b ↦ nat_eq b b'/' ]

-- `pattern != "/" && pattern.ends_with('/')`.
unfoldable is_directory_text : Bytes → Bool
unfolding ends_with_slash
is_directory_text s = not (s == bytes "/") && ends_with_slash s

-- `trim_end_matches('/')`.
unfoldable trim_end_slashes : Bytes → Bytes
trim_end_slashes [] = []
trim_end_slashes (b ∷ s) =
    let rest = trim_end_slashes s in if nat_eq b b'/' && is_empty rest then [] else b ∷ rest

unfoldable glob_pattern_for_match : Bytes → Bytes
unfolding is_directory_text trim_end_slashes
glob_pattern_for_match pattern =
    if is_directory_text pattern then trim_end_slashes pattern else pattern

unfoldable push_slash : Bool → Bytes → Bytes
push_slash directory_only raw =
    if directory_only && not (raw == bytes "/") then raw ++ b'/' ∷ [] else raw

unfoldable normalize_policy_pattern : Bytes → Result Bytes
unfolding is_directory_text push_slash
normalize_policy_pattern pattern =
    if is_empty pattern
    then err (message (bytes "policy pattern cannot be empty"))
    else if any (λ b. nat_eq b 0) pattern
    then err (message (bytes "policy pattern cannot contain NUL"))
    else do
      normalized ← normalize_sandbox_path (components pattern)
      ok (push_slash (is_directory_text pattern) (display normalized))

-- `PolicyPattern::from` a path.
unfoldable pub pattern_of_path : SandboxPath → PolicyPattern
pattern_of_path p = record { raw = as_str p; directory_only = false }

module _ (glob : Glob) where
  -- `PolicyPattern::new`.
  unfoldable new_pattern : Bytes → Result PolicyPattern
  unfolding normalize_policy_pattern glob_pattern_for_match is_directory_text
  new_pattern pattern = do
    raw ← normalize_policy_pattern pattern
    (elim (glob.compile_error (glob_pattern_for_match raw)) [
      | none ↦ ok (record { raw = raw; directory_only = is_directory_text raw })
      | some e ↦ err (message (bytes "invalid glob pattern " ++ (raw ++ (bytes ": " ++ e))))
    ])

  unfoldable pub matches : PolicyPattern → SandboxPath → Bool → Bool
  unfolding glob_pattern_for_match
  matches pattern path target_is_dir =
      let text = glob_pattern_for_match pattern.raw in
      if pattern.directory_only && not target_is_dir
      then false
      else if pattern.directory_only && not (pattern.raw == bytes "/") && (path.inner == root_path)
      then false
      else if is_none (glob.compile_error text)
      then glob.matches_path text path.inner
      else false

-- `ProtectionRule` and `BypassRule` have the same fields.
pub record Rule : Type 0 where
  pub kind : ProtectionKind
  pub pattern : PolicyPattern

pub data ProtectionRuleResult : Type 0 where
  added already_present removed not_present : ProtectionRuleResult

unfoldable pub rule_result_log_name : ProtectionRuleResult → Bytes
rule_result_log_name added = bytes "added"
rule_result_log_name already_present = bytes "already-present"
rule_result_log_name removed = bytes "removed"
rule_result_log_name not_present = bytes "not-present"

-- `rule.kind == kind && rule.pattern == pattern`.
abbrev pub is_rule : ProtectionKind → PolicyPattern → Rule → Bool
is_rule kind pattern rule = rule.kind == kind && rule.pattern == pattern

-- The body of `protect` and of `add_bypass`, on the list of rules of each.
unfoldable pub add_rule :
    ProtectionKind → PolicyPattern → List Rule → List Rule × ProtectionRuleResult
add_rule kind pattern rules =
    if any (is_rule kind pattern) rules
    then (rules, already_present)
    else (rules ++ record { kind = kind; pattern = pattern } ∷ [], added)

-- The body of `unprotect` and of `remove_bypass`.
unfoldable pub remove_rule :
    ProtectionKind → PolicyPattern → List Rule → List Rule × ProtectionRuleResult
remove_rule kind pattern rules =
    if any (is_rule kind pattern) rules
    then (remove_first (is_rule kind pattern) rules, removed)
    else (rules, not_present)

pub record Include : Type 0 where
  pub include_read : Bool
  pub include_write : Bool
  pub include_metadata : Bool
  pub include_xattr : Bool

unfoldable includes : Include → ProtectionKind → Bool
includes i kind =
    let include_all =
      not i.include_read && not i.include_write && not i.include_metadata && not i.include_xattr in
    elim kind [
      | read ↦ i.include_read || include_all
      | write ↦ i.include_write || include_all
      | metadata ↦ i.include_metadata || include_all
      | xattr ↦ i.include_xattr || include_all
    ]

-- Not greater, by pattern and then by kind.
abbrev rule_le : Rule → Rule → Bool
rule_le left right =
    elim (then_with (policy_pattern_ord.cmp left.pattern right.pattern)
      (protection_kind_ord.cmp left.kind right.kind)) [ Ordering.gt ↦ false | _ ↦ true ]

-- The body of the listings `protection_rules` and `bypass_rules`.
unfoldable pub list_rules : Include → List Rule → List Rule
unfolding includes
list_rules i rules = sort_by rule_le (retain (λ rule. includes i rule.kind) rules)

-- The body of `is_protected` and of `is_bypass`.
unfoldable pub matches_rule : Glob → List Rule → ProtectionKind → SandboxPath → Bool → Bool
unfolding matches
matches_rule glob rules kind path target_is_dir =
    any (λ rule. rule.kind == kind && matches glob rule.pattern path target_is_dir) rules
