-- ===== src/Examples/Rules.antt =====
-- src/state.rs: rules and operations on small data.
use gatefs.Operation.Consistency.{effects-is_xattr_operation, effects-protection_paths, holds_path}
use gatefs.Base.{All, [], any, list_ord, map, nat_ord, refl, true, ◌&&◌, ◌==◌, ◌||◌, ◌≡◌}
use gatefs.StdPath.{component_ord}
use gatefs.Examples.Data.{docs, docs_pattern, literal_glob, tmp}
use gatefs.Operation.{effects, is_xattr_operation, protection_paths, read_file, rename}
use gatefs.Policy.Rules.{matches_rule-add_rule, remove-add_rule}
use gatefs.Base.{All, [], any, map, refl, true, ◌&&◌, ◌==◌, ◌||◌, ◌≡◌}
use gatefs.Policy.{
  ProtectionKind, add_rule, matches, matches_rule, protection_kind_ord, read, remove_rule, removed,
}

remove-add_rule_example :
    remove_rule read docs_pattern (add_rule read docs_pattern []).0 ≡ ([], removed)
unfolding add_rule any
remove-add_rule_example = remove-add_rule read docs_pattern [] refl

matches_rule-add_rule_example :
    matches_rule literal_glob (add_rule read docs_pattern []).0 read docs true ≡ (
      matches_rule literal_glob [] read docs true
      || (read == read && matches literal_glob docs_pattern docs true))
matches_rule-add_rule_example =
    matches_rule-add_rule literal_glob read read docs_pattern [] docs true

effects-is_xattr_operation_example :
    any (λ e. e.kind == ProtectionKind.xattr) (effects (read_file docs))
    ≡ is_xattr_operation (read_file docs)
effects-is_xattr_operation_example = effects-is_xattr_operation (read_file docs)

effects-protection_paths_example :
    All
      (λ e. holds_path (protection_paths (rename docs tmp)) e.path ≡ true)
      (effects (rename docs tmp))
    × All
        (λ p. holds_path (map (λ e. e.path) (effects (rename docs tmp))) p ≡ true)
        (protection_paths (rename docs tmp))
effects-protection_paths_example = effects-protection_paths (rename docs tmp)
