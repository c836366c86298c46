-- ===== src/Sandbox.antt =====
-- src/state.rs: a sandbox, its overlay of mounted layers and hide rules, and how a path resolves.
pub mod Newest
pub mod Hide
pub mod Objects
pub mod Unmount
pub mod Override
pub mod Mount
pub mod Above
pub mod Invariant
pub mod Removal
use gatefs.Text.{Bytes}
use gatefs.Error.{err, ok}
use gatefs.Metadata.{MetadataOverride}
use gatefs.Overlay.{OverlayEffect, collapse_latest, value}
use gatefs.Sort.{max_by_key}
use gatefs.Policy.{
  Glob, Include, PolicyPattern, ProtectionKind, ProtectionRuleResult, Rule, add_rule, list_rules,
  matches_rule, remove_rule,
}
use gatefs.Base.{
  Bool, List, Option, Ord, [], any, arith, false, if◌then◌else◌, is_some, list_ord, ltb, map, max,
  nat_ord, none, not, ord_by, pair_ord, remove_last, retain, some, true, ℕ, ◌%◌, ◌&&◌, ◌++◌, ◌+◌,
  ◌==◌, ◌^◌, ◌∷◌, ◌≡◌,
}
use gatefs.StdPath.{PathBuf, component_ord, join_path, root_path}
use gatefs.Path.{SandboxPath, sandbox_path_ord, starts_with, strip_prefix}

-- `u64` counters wrap.
abbrev pub u64_mod : ℕ
u64_mod = 2 ^ 64

pub record MountLayer : Type 0 where
  pub id : ℕ
  pub local : PathBuf
  pub on_fs : SandboxPath

pub record HideRule : Type 0 where
  pub id : ℕ
  pub path : SandboxPath

pub record MetadataObjectKey : Type 0 where
  pub layer_id : ℕ
  pub relative_path : PathBuf

abbrev object_key : MetadataObjectKey → ℕ × PathBuf
object_key k = (k.layer_id, k.relative_path)

pub object_key-injective : (a b : MetadataObjectKey) → object_key a ≡ object_key b → a ≡ b
object_key-injective a b e = ground arith

instance abbrev pub object_key_ord : Ord MetadataObjectKey
object_key_ord = ord_by object_key pair_ord object_key-injective

pub record MetadataEntry : Type 0 where
  pub sandbox_path : SandboxPath
  pub overrides : MetadataOverride

pub record AttachMount : Type 0 where
  pub id : ℕ
  pub mountpoint : PathBuf
  pub temporary : Bool
  pub active : Bool

pub data ResolvedPath : Type 0 where
  real : PathBuf → ℕ → SandboxPath → ResolvedPath
  virtual_dir : SandboxPath → ResolvedPath

pub data OverlayEntry : Type 0 where
  layer : MountLayer → OverlayEntry
  hide : HideRule → OverlayEntry

pub data OverlayResolution : Type 0 where
  resolved : ResolvedPath → OverlayResolution
  hidden missing : OverlayResolution

pub record Sandbox : Type 0 where
  pub name : Bytes
  pub layers : List MountLayer
  pub hides : List HideRule
  pub metadata : List (MetadataObjectKey × MetadataEntry)
  pub protection_rules : List Rule
  pub bypass_rules : List Rule
  pub attaches : List (PathBuf × AttachMount)
  pub next_layer_id : ℕ
  pub next_hide_id : ℕ
  pub log_path : PathBuf

abbrev pub new_sandbox : Bytes → PathBuf → Sandbox
new_sandbox name log_path = record {
  name = name;
  layers = [];
  hides = [];
  metadata = [];
  protection_rules = [];
  bypass_rules = [];
  attaches = [];
  next_layer_id = 1;
  next_hide_id = 1;
  log_path = log_path;
}

unfoldable pub next_overlay_order : Sandbox → Sandbox × ℕ
next_overlay_order s =
    let id = max s.next_layer_id s.next_hide_id in
    (record s { next_layer_id = (id + 1) % u64_mod; next_hide_id = (id + 1) % u64_mod }, id)

unfoldable pub add_layer : PathBuf → SandboxPath → Sandbox → Sandbox × ℕ
unfolding next_overlay_order
add_layer local on_fs s =
    let (s', id) = next_overlay_order s in
    (record s' { layers = s'.layers ++ record { id = id; local = local; on_fs = on_fs } ∷ [] }, id)

unfoldable pub remove_layer : SandboxPath → Sandbox → Sandbox × Bool
remove_layer on_fs s =
    if any (λ l. l.on_fs == on_fs) s.layers
    then (record s { layers = remove_last (λ l. l.on_fs == on_fs) s.layers }, true)
    else (s, false)

unfoldable pub add_hide : SandboxPath → Sandbox → Sandbox × ℕ
unfolding next_overlay_order
add_hide path s =
    let (s', id) = next_overlay_order s in
    (record s' { hides = s'.hides ++ record { id = id; path = path } ∷ [] }, id)

unfoldable pub protect : ProtectionKind → PolicyPattern → Sandbox → Sandbox × ProtectionRuleResult
protect kind pattern s =
    let (rules, result) = add_rule kind pattern s.protection_rules in
    (record s { protection_rules = rules }, result)

unfoldable pub unprotect : ProtectionKind → PolicyPattern → Sandbox → Sandbox × ProtectionRuleResult
unprotect kind pattern s =
    let (rules, result) = remove_rule kind pattern s.protection_rules in
    (record s { protection_rules = rules }, result)

unfoldable pub add_bypass :
    ProtectionKind → PolicyPattern → Sandbox → Sandbox × ProtectionRuleResult
add_bypass kind pattern s =
    let (rules, result) = add_rule kind pattern s.bypass_rules in
    (record s { bypass_rules = rules }, result)

unfoldable pub remove_bypass :
    ProtectionKind → PolicyPattern → Sandbox → Sandbox × ProtectionRuleResult
remove_bypass kind pattern s =
    let (rules, result) = remove_rule kind pattern s.bypass_rules in
    (record s { bypass_rules = rules }, result)

unfoldable pub list_protection_rules : Include → Sandbox → List Rule
list_protection_rules i s = list_rules i s.protection_rules

unfoldable pub list_bypass_rules : Include → Sandbox → List Rule
list_bypass_rules i s = list_rules i s.bypass_rules

unfoldable pub is_protected : Glob → Sandbox → ProtectionKind → SandboxPath → Bool → Bool
is_protected glob s = matches_rule glob s.protection_rules

unfoldable pub is_bypass : Glob → Sandbox → ProtectionKind → SandboxPath → Bool → Bool
is_bypass glob s = matches_rule glob s.bypass_rules

unfoldable pub real_resolution : SandboxPath → MountLayer → OverlayResolution
real_resolution path l = elim (strip_prefix path l.on_fs) [
  | err e ↦ missing
  | ok rest ↦ resolved (real (join_path l.local rest) l.id path)
]

abbrev pub covers : SandboxPath → MountLayer → Bool
covers path l = starts_with path l.on_fs

abbrev pub hides_path : SandboxPath → HideRule → Bool
hides_path path h = starts_with path h.path

-- The layer lies strictly below the path.
abbrev pub lies_below : SandboxPath → MountLayer → Bool
lies_below path l = starts_with l.on_fs path && not (l.on_fs == path)

abbrev pub layer_effect : MountLayer → ℕ × OverlayEffect OverlayEntry
layer_effect l = (l.id, value (layer l))

abbrev pub hide_effect : HideRule → ℕ × OverlayEffect OverlayEntry
hide_effect h = (h.id, value (hide h))

unfoldable pub newest_covering_entry : Sandbox → SandboxPath → Option OverlayEntry
newest_covering_entry s path = collapse_latest (
    map layer_effect (retain (covers path) s.layers)
    ++ map hide_effect (retain (hides_path path) s.hides))

unfoldable pub newest_covering_layer : Sandbox → SandboxPath → Option MountLayer
newest_covering_layer s path = max_by_key (λ l. l.id) (retain (covers path) s.layers)

unfoldable pub newest_descendant_layer : Sandbox → SandboxPath → Option MountLayer
newest_descendant_layer s path = max_by_key (λ l. l.id) (retain (lies_below path) s.layers)

-- `newest_descendant_layer.is_some_and(|layer| layer.id > hide.id)`.
abbrev pub newer_than : Option MountLayer → ℕ → Bool
newer_than none id = false
newer_than (some l) id = ltb id l.id

-- The `match` on the newest covering entry.
unfoldable pub resolve_below_root :
    SandboxPath → Option OverlayEntry → Option MountLayer → OverlayResolution
unfolding real_resolution
resolve_below_root path (some (layer l)) descendant = real_resolution path l
resolve_below_root path (some (hide h)) descendant =
    if newer_than descendant h.id then resolved (virtual_dir path) else hidden
resolve_below_root path none descendant =
    if is_some descendant then resolved (virtual_dir path) else missing

unfoldable pub resolve_root : SandboxPath → Option MountLayer → OverlayResolution
unfolding real_resolution
resolve_root path (some l) = real_resolution path l
resolve_root path none = resolved (virtual_dir path)

unfoldable pub resolve_overlay : Sandbox → SandboxPath → OverlayResolution
unfolding resolve_root resolve_below_root
resolve_overlay s path =
    if path.inner == root_path
    then resolve_root path (newest_covering_layer s path)
    else resolve_below_root path (newest_covering_entry s path) (newest_descendant_layer s path)

abbrev pub resolution : OverlayResolution → Option ResolvedPath
resolution (resolved r) = some r
resolution hidden = none
resolution missing = none

unfoldable pub resolve : Sandbox → SandboxPath → Option ResolvedPath
unfolding resolve_overlay
resolve s path = resolution (resolve_overlay s path)

abbrev pub is_hidden_resolution : OverlayResolution → Bool
is_hidden_resolution hidden = true
is_hidden_resolution r = false

unfoldable pub is_hidden : Sandbox → SandboxPath → Bool
unfolding resolve_overlay
is_hidden s path = is_hidden_resolution (resolve_overlay s path)

abbrev is_virtual_resolution : OverlayResolution → Bool
is_virtual_resolution (resolved (virtual_dir p)) = true
is_virtual_resolution r = false

unfoldable pub is_virtual_dir : Sandbox → SandboxPath → Bool
unfolding resolve_overlay
is_virtual_dir s path = is_virtual_resolution (resolve_overlay s path)
