-- ===== src/Examples/Paths.antt =====
-- src/path.rs, src/overlay.rs and the metadata operations of src/state.rs on small data.
use gatefs.Overlay.{OverlayEffect, collapse_latest, collapse_latest-max, entry_value, value}
use gatefs.Path.RoundTrip.{new-as_str}
use gatefs.Path.Prefix.{join-strip_prefix, parent-join}
use gatefs.Sort.{max_by_key}
use gatefs.Path.Components.{join-total, new-total}
use gatefs.Path.{SandboxPath, as_str, file_name, join, new, parent, strip_prefix}
use gatefs.Metadata.Independence.{write_override_comm}
use gatefs.Path.Normal.{IsName, IsNormal}
use gatefs.Examples.Data.{
  a-IsName, docs, docs-IsNormal, docs_a, docs_a-IsNormal, docs_a-starts_with,
}
use gatefs.Error.{ok}
use gatefs.StdPath.{components, normal, path_text}
use gatefs.Base.{All, List, [], all, any, map, none, refl, some, ℕ, ◌∷◌, ◌≡◌}
use gatefs.Text.{Bytes, bytes, is_utf8}
use gatefs.Metadata.{chmod, chown, no_override, pending_kinds, write_override}

dots : as_str docs ≡ bytes "/docs"
unfolding as_str path_text is_utf8
dots = refl

new-total_example : (p : SandboxPath) × (new (bytes "docs/../tmp") ≡ ok p) × IsNormal p.inner
new-total_example = new-total (bytes "docs/../tmp")

join-total_example :
    (q : SandboxPath) × (join docs (components (bytes "../tmp")) ≡ ok q) × IsNormal q.inner
join-total_example = join-total docs (bytes "../tmp") docs-IsNormal

new-as_str_example : new (as_str docs) ≡ ok docs
unfolding path_text is_utf8
new-as_str_example = new-as_str docs docs-IsNormal refl

join-strip_prefix_example :
    (names : List Bytes) × (strip_prefix docs_a docs ≡ ok (map normal names))
    × All IsName names
    × (join docs (map normal names) ≡ ok docs_a)
join-strip_prefix_example =
    join-strip_prefix docs_a docs docs_a-IsNormal docs-IsNormal docs_a-starts_with

parent-join_example :
    (q : SandboxPath) × (join docs (normal (bytes "a") ∷ []) ≡ ok q)
    × IsNormal q.inner
    × (parent q ≡ some docs)
    × (file_name q ≡ some (bytes "a"))
unfolding is_utf8
parent-join_example = parent-join docs (bytes "a") docs-IsNormal a-IsName refl

abbrev two_values : List (ℕ × OverlayEffect ℕ)
two_values = (2, value 7) ∷ (1, value 5) ∷ []

collapse_latest-max_example :
    collapse_latest two_values ≡ entry_value (max_by_key (λ e. e.0) two_values)
collapse_latest-max_example = collapse_latest-max two_values

write_override_comm_example :
    write_override (chmod docs 420) (write_override (chown docs (some 1) none) no_override)
    ≡ write_override (chown docs (some 1) none) (write_override (chmod docs 420) no_override)
unfolding all pending_kinds any
write_override_comm_example =
    write_override_comm (chmod docs 420) (chown docs (some 1) none) no_override refl
