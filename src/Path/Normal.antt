-- ===== src/Path/Normal.antt =====
-- The normal form of a sandbox path: the root, and proper names below it. (src/path.rs)
use mathlib.Core.List.{map-append}
use gatefs.StdPath.{
  Component, PathBuf, component, component_ord, cur_dir, has_parent, normal, parent_dir, pop,
  prefix, root_dir, root_path,
}
use gatefs.Error.{ok}
use gatefs.Text.{Bytes}
use gatefs.Base.{
  ==_iff, All, All-append, List, [], ap, arith, drop_last, false, if◌then◌else◌, last?, list_ord,
  map, nat_eq, nat_ord, refl, true, ◌++◌, ◌==◌, ◌∷◌, ◌≡◌,
}
use gatefs.Path.{SandboxPath, normalize_loop, normalize_sandbox_path, of_path}

-- What may stand between two slashes as a plain name: not empty, not `.` or `..`, with no slash.
abbrev pub IsName : Bytes → Type 0
IsName b = (component b ≡ normal b ∷ []) × All (λ c. nat_eq c b'/' ≡ false) b

-- The components that parsing a Unix path makes.
abbrev pub IsProper : Component → Type 0
IsProper (prefix b) = ⊥
IsProper (normal b) = IsName b
IsProper c = Unit

abbrev pub rooted : List Bytes → PathBuf
rooted ns = root_dir ∷ map normal ns

abbrev pub IsNormal : PathBuf → Type 0
IsNormal p = (ns : List Bytes) × (p ≡ rooted ns) × All IsName ns

-- The names after one component.
abbrev step_names : List Bytes → Component → List Bytes
step_names ns parent_dir = drop_last ns
step_names ns (normal b) = ns ++ b ∷ []
step_names ns c = ns

All-drop_last {ℓ κ} : {A : Type ℓ} (P : A → Type κ) (xs : List A) → All P xs → All P (drop_last xs)
unfolding drop_last
All-drop_last P [] h = tt
All-drop_last P (x ∷ []) h = tt
All-drop_last P (x ∷ y ∷ ys) h = (h.0, All-drop_last P (y ∷ ys) h.1)

drop_last-map {ℓ κ} :
    {A : Type ℓ} {B : Type κ} (f : A → B) (xs : List A)
    → drop_last (map f xs) ≡ map f (drop_last xs)
unfolding drop_last
drop_last-map f [] = refl
drop_last-map f (x ∷ []) = refl
drop_last-map f (x ∷ y ∷ ys) = ap (◌∷◌ (f x)) (drop_last-map f (y ∷ ys))

last?-map-normal : (b : Bytes) (ns : List Bytes) → has_parent (last? (map normal (b ∷ ns))) ≡ true
unfolding last?
last?-map-normal b [] = refl
last?-map-normal b (c ∷ ns) = last?-map-normal c ns

pop-rooted : (ns : List Bytes) → pop (rooted ns) ≡ rooted (drop_last ns)
unfolding pop drop_last last?
pop-rooted [] = refl
pop-rooted (b ∷ ns) = rw (last?-map-normal b ns) (ap (◌∷◌ root_dir) (drop_last-map normal (b ∷ ns)))

back-rooted :
    (ns : List Bytes)
    → (if rooted ns == root_path then rooted ns else pop (rooted ns)) ≡ rooted (drop_last ns)
unfolding drop_last
back-rooted [] = ground (arith, pop-rooted [])
back-rooted (b ∷ ns) = ground (arith, pop-rooted (b ∷ ns), ==_iff (rooted (b ∷ ns)) root_path)

-- The loop on a rooted path, as a fold over the names; it cannot fail on proper components.
unfoldable pub fold_names : List Bytes → List Component → List Bytes
fold_names ns [] = ns
fold_names ns (c ∷ cs) = fold_names (step_names ns c) cs

pub normalize_loop-rooted :
    (cs : PathBuf) (ns : List Bytes)
    → All IsProper cs
    → normalize_loop (rooted ns) cs ≡ ok (rooted (fold_names ns cs))
unfolding normalize_loop fold_names
normalize_loop-rooted [] ns h = refl
normalize_loop-rooted (prefix b ∷ cs) ns h = absurd h.0
normalize_loop-rooted (root_dir ∷ cs) ns h = normalize_loop-rooted cs ns h.1
normalize_loop-rooted (cur_dir ∷ cs) ns h = normalize_loop-rooted cs ns h.1
normalize_loop-rooted (parent_dir ∷ cs) ns h =
    rw (back-rooted ns) (normalize_loop-rooted cs (drop_last ns) h.1)
normalize_loop-rooted (normal b ∷ cs) ns h =
    rw (← map-append normal ns (b ∷ [])) (normalize_loop-rooted cs (ns ++ b ∷ []) h.1)

All-fold_names :
    (cs : PathBuf) (ns : List Bytes)
    → All IsProper cs
    → All IsName ns
    → All IsName (fold_names ns cs)
unfolding fold_names
All-fold_names [] ns h k = k
All-fold_names (prefix b ∷ cs) ns h k = absurd h.0
All-fold_names (root_dir ∷ cs) ns h k = All-fold_names cs ns h.1 k
All-fold_names (cur_dir ∷ cs) ns h k = All-fold_names cs ns h.1 k
All-fold_names (parent_dir ∷ cs) ns h k =
    All-fold_names cs (drop_last ns) h.1 (All-drop_last IsName ns k)
All-fold_names (normal b ∷ cs) ns h k =
    All-fold_names cs (ns ++ b ∷ []) h.1 (All-append IsName ns (b ∷ []) k (h.0, tt))

-- A path of proper components always has a normal form.
pub of_path-total :
    (cs : PathBuf) → All IsProper cs → (p : SandboxPath) × (of_path cs ≡ ok p) × IsNormal p.inner
unfolding of_path normalize_sandbox_path
of_path-total cs h = (
  record { inner = rooted (fold_names [] cs) },
  rw (normalize_loop-rooted cs [] h),
  (fold_names [] cs, refl, All-fold_names cs [] h tt),
)
