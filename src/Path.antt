-- ===== src/Path.antt =====
-- src/path.rs: sandbox paths, their normal form, and the rewriting of arguments.
pub mod Normal
pub mod Components
pub mod Prefix
pub mod RoundTrip
use gatefs.Base.{
  Bool, List, Option, Ord, [], arith, if◌then◌else◌, last?, list_ord, nat_eq, none, ord_by, some,
  unwrap_or, ◌++◌, ◌==◌, ◌∷◌, ◌≡◌,
}
use gatefs.Text.{Bytes, bytes, is_utf8, to_string_lossy}
use gatefs.Error.{Result, err, message, ok, ◌>>=◌}
use gatefs.StdPath.{
  Component, PathBuf, component_ord, components, cur_dir, is_absolute, join_path, normal,
  parent_dir, parent_path, path_starts_with, path_text, pop, prefix, root_dir, root_path,
  strip_path,
}

-- `normalize_sandbox_path`: the loop over the components, with the path built so far.
unfoldable pub normalize_loop : PathBuf → List Component → Result PathBuf
normalize_loop out [] = ok out
normalize_loop out (prefix b ∷ cs) =
    err (message (bytes "prefix paths are not valid sandbox paths"))
normalize_loop out (root_dir ∷ cs) = normalize_loop out cs
normalize_loop out (cur_dir ∷ cs) = normalize_loop out cs
normalize_loop out (parent_dir ∷ cs) = normalize_loop (if out == root_path then out else pop out) cs
normalize_loop out (normal part ∷ cs) = normalize_loop (out ++ normal part ∷ []) cs

unfoldable pub normalize_sandbox_path : PathBuf → Result PathBuf
unfolding normalize_loop
normalize_sandbox_path p = normalize_loop root_path p

pub record SandboxPath : Type 0 where
  pub inner : PathBuf

pub SandboxPath-injective : (a b : SandboxPath) → a.inner ≡ b.inner → a ≡ b
SandboxPath-injective a b e = ground arith

instance abbrev pub sandbox_path_ord : Ord SandboxPath
sandbox_path_ord = ord_by (λ p. p.inner) list_ord SandboxPath-injective

abbrev pub root : SandboxPath
root = record { inner = root_path }

-- `SandboxPath::new` on a path, and on the text of one.
unfoldable pub of_path : PathBuf → Result SandboxPath
unfolding normalize_sandbox_path
of_path p = do inner ← normalize_sandbox_path p; ok (record { inner = inner })

unfoldable pub new : Bytes → Result SandboxPath
unfolding of_path
new s = of_path (components s)

-- `to_str().unwrap_or("/")`.
unfoldable pub as_str : SandboxPath → Bytes
as_str p = if is_utf8 (path_text p.inner) then path_text p.inner else bytes "/"

-- `SandboxPath::parent`: `Self::new(p).ok()`.
abbrev to_option {ℓ} : {A : Type ℓ} → Result A → Option A
to_option (ok a) = some a
to_option (err e) = none

unfoldable pub parent : SandboxPath → Option SandboxPath
unfolding of_path
parent p =
    if p.inner == root_path
    then none
    else elim (parent_path p.inner) [ none ↦ none | some q ↦ to_option (of_path q) ]

unfoldable last_name : Option Component → Option Bytes
unfolding to_string_lossy
last_name none = none
last_name (some (normal b)) = some (to_string_lossy b)
last_name (some c) = none

unfoldable pub file_name : SandboxPath → Option Bytes
unfolding last_name
file_name p = last_name (last? p.inner)

unfoldable pub join : SandboxPath → PathBuf → Result SandboxPath
unfolding of_path
join p child = if is_absolute child then of_path child else of_path (join_path p.inner child)

unfoldable pub starts_with : SandboxPath → SandboxPath → Bool
starts_with p base = path_starts_with p.inner base.inner

unfoldable pub strip_prefix : SandboxPath → SandboxPath → Result PathBuf
unfolding as_str
strip_prefix p base =
    if base.inner == root_path
    then ok (unwrap_or (strip_path p.inner root_path) p.inner)
    else elim (strip_path p.inner base.inner) [
      | none ↦ err (message (as_str p ++ bytes " is not under " ++ as_str base))
      | some rest ↦ ok rest
    ]

unfoldable pub rewrite_sandbox_path_arg : Bytes → Bytes
rewrite_sandbox_path_arg [] = []
rewrite_sandbox_path_arg (b ∷ rest) =
    if nat_eq b b'/' then elim rest [ [] ↦ bytes "." | c ∷ r ↦ bytes "./" ++ c ∷ r ] else b ∷ rest
