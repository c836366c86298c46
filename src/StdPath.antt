-- ===== src/StdPath.antt =====
-- What src/path.rs and src/state.rs use of `std::path`, on Unix: a path is the list of its
-- components, by which Rust compares, orders and joins paths.
use gatefs.Base.{
  Bool, List, Option, Ord, [], arith, drop_last, false, if◌then◌else◌, is_empty, last?, list_ord,
  nat_eq, nat_ord, none, ord_by, pair_ord, some, true, ℕ, ◌&&◌, ◌++◌, ◌==◌, ◌∷◌, ◌≡◌,
}
use gatefs.Text.{Bytes, bytes, to_string_lossy}

-- `std::path::Component`.
pub data Component : Type 0 where
  prefix : Bytes → Component
  root_dir cur_dir parent_dir : Component
  normal : Bytes → Component

-- The variants in their order, as `derive(Ord)` compares them.
abbrev component_key : Component → ℕ × Bytes
component_key (prefix b) = (0, b)
component_key root_dir = (1, [])
component_key cur_dir = (2, [])
component_key parent_dir = (3, [])
component_key (normal b) = (4, b)

pub component_key-injective : (a b : Component) → component_key a ≡ component_key b → a ≡ b
component_key-injective (prefix a) b e = ground arith
component_key-injective root_dir b e = ground arith
component_key-injective cur_dir b e = ground arith
component_key-injective parent_dir b e = ground arith
component_key-injective (normal a) b e = ground arith

instance abbrev pub component_ord : Ord Component
component_ord = ord_by component_key pair_ord component_key-injective

abbrev pub PathBuf : Type 0
PathBuf = List Component

abbrev pub root_path : PathBuf
root_path = root_dir ∷ []

-- The text between the slashes.
unfoldable pub cons_first : ℕ → List Bytes → List Bytes
cons_first b [] = (b ∷ []) ∷ []
cons_first b (s ∷ ss) = (b ∷ s) ∷ ss

unfoldable pub segments : Bytes → List Bytes
unfolding cons_first
segments [] = [] ∷ []
segments (b ∷ s) = if nat_eq b b'/' then [] ∷ segments s else cons_first b (segments s)

-- A segment in the middle of a path: empty ones and `.` are skipped.
unfoldable pub component : Bytes → List Component
component s =
    if is_empty s
    then []
    else if s == bytes "."
    then []
    else if s == bytes ".."
    then parent_dir ∷ []
    else normal s ∷ []

unfoldable pub inner_components : List Bytes → List Component
unfolding component
inner_components [] = []
inner_components (s ∷ ss) = component s ++ inner_components ss

-- The first segment of a path with no root: `.` stays.
unfoldable pub relative_components : List Bytes → List Component
unfolding inner_components
relative_components [] = []
relative_components (s ∷ ss) =
    if s == bytes "." then cur_dir ∷ inner_components ss else inner_components (s ∷ ss)

-- `Path::components`.
unfoldable pub components : Bytes → PathBuf
unfolding segments relative_components
components [] = []
components (b ∷ s) =
    if nat_eq b b'/'
    then root_dir ∷ inner_components (segments s)
    else relative_components (segments (b ∷ s))

-- The text of a component, and of a path: `Path::as_os_str`.
abbrev pub component_text : Component → Bytes
component_text (prefix b) = b
component_text root_dir = []
component_text cur_dir = bytes "."
component_text parent_dir = bytes ".."
component_text (normal b) = b

unfoldable pub joined : List Component → Bytes
joined [] = []
joined (c ∷ []) = component_text c
joined (c ∷ d ∷ cs) = component_text c ++ b'/' ∷ joined (d ∷ cs)

unfoldable pub path_text : PathBuf → Bytes
unfolding joined
path_text (root_dir ∷ cs) = b'/' ∷ joined cs
path_text cs = joined cs

-- `Path::display`, and `Path::to_string_lossy`.
unfoldable pub display : PathBuf → Bytes
unfolding path_text to_string_lossy
display p = to_string_lossy (path_text p)

unfoldable pub is_absolute : PathBuf → Bool
is_absolute (root_dir ∷ cs) = true
is_absolute cs = false

-- `Path::join`: an absolute path replaces, and a leading `.` is gone in the middle of a path.
unfoldable pub join_path : PathBuf → PathBuf → PathBuf
join_path [] q = q
join_path (c ∷ p) (root_dir ∷ q) = root_dir ∷ q
join_path (c ∷ p) (cur_dir ∷ q) = (c ∷ p) ++ q
join_path (c ∷ p) q = (c ∷ p) ++ q

-- `Path::parent`.
abbrev pub has_parent : Option Component → Bool
has_parent none = false
has_parent (some (prefix b)) = false
has_parent (some root_dir) = false
has_parent (some c) = true

unfoldable pub parent_path : PathBuf → Option PathBuf
parent_path p = if has_parent (last? p) then some (drop_last p) else none

-- `PathBuf::pop`.
unfoldable pub pop : PathBuf → PathBuf
pop p = if has_parent (last? p) then drop_last p else p

-- `Path::starts_with`, and `Path::strip_prefix`, by whole components.
unfoldable pub path_starts_with : PathBuf → PathBuf → Bool
path_starts_with p [] = true
path_starts_with [] (b ∷ bs) = false
path_starts_with (c ∷ p) (b ∷ bs) = c == b && path_starts_with p bs

unfoldable pub strip_path : PathBuf → PathBuf → Option PathBuf
strip_path p [] = some p
strip_path [] (b ∷ bs) = none
strip_path (c ∷ p) (b ∷ bs) = if c == b then strip_path p bs else none
