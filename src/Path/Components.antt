-- ===== src/Path/Components.antt =====
-- Every text parses into proper components, so `SandboxPath::new` is total. (src/path.rs)
use gatefs.StdPath.{
  PathBuf, component, component_ord, components, cons_first, cur_dir, inner_components, is_absolute,
  join_path, normal, parent_dir, prefix, relative_components, root_dir, segments,
}
use gatefs.Error.{ok}
use gatefs.Text.{Bytes, bytes}
use gatefs.Base.{
  All, All-append, Bool-cases, List, [], arith, false, if_elim, inl, inr, list_ord, map, nat_eq,
  nat_ord, subst, sym, ℕ, ◌==◌, ◌∷◌, ◌≡◌, ◌⊎◌,
}
use gatefs.Path.Normal.{IsName, IsNormal, IsProper, of_path-total}
use gatefs.Path.{SandboxPath, join, new}

abbrev NoSlash : Bytes → Type 0
NoSlash = All (λ c. nat_eq c b'/' ≡ false)

cons_first-NoSlash :
    (b : ℕ) (ss : List Bytes)
    → nat_eq b b'/' ≡ false
    → All NoSlash ss
    → All NoSlash (cons_first b ss)
unfolding cons_first
cons_first-NoSlash b [] e h = ((e, tt), tt)
cons_first-NoSlash b (s ∷ ss) e h = ((e, h.0), h.1)

segments-NoSlash : (s : Bytes) → All NoSlash (segments s)
unfolding segments
segments-NoSlash [] = (tt, tt)
segments-NoSlash (b ∷ s) = elim (Bool-cases (nat_eq b b'/')) [
  | inl e ↦ rw e (tt, segments-NoSlash s)
  | inr e ↦ rw e (cons_first-NoSlash b (segments s) e (segments-NoSlash s))
]

-- The four outcomes of one segment.
component_cases :
    (s : Bytes)
    → (component s ≡ []) ⊎ (component s ≡ parent_dir ∷ []) ⊎ (component s ≡ normal s ∷ [])
unfolding component
component_cases s = ground arith

component-IsProper : (s : Bytes) → NoSlash s → All IsProper (component s)
component-IsProper s h = elim (component_cases s) [
  | inl e ↦ rw e tt
  | inr (inl e) ↦ rw e (tt, tt)
  | inr (inr e) ↦ subst (All IsProper) (sym e) ((e, h), tt)
]

inner-IsProper : (ss : List Bytes) → All NoSlash ss → All IsProper (inner_components ss)
unfolding inner_components
inner-IsProper [] h = tt
inner-IsProper (s ∷ ss) h =
    All-append IsProper (component s) (inner_components ss) (component-IsProper s h.0)
      (inner-IsProper ss h.1)

relative-IsProper : (ss : List Bytes) → All NoSlash ss → All IsProper (relative_components ss)
unfolding relative_components
relative-IsProper [] h = tt
relative-IsProper (s ∷ ss) h =
    if_elim (All IsProper) (s == bytes ".") (tt, inner-IsProper ss h.1) (inner-IsProper (s ∷ ss) h)

components-IsProper : (s : Bytes) → All IsProper (components s)
unfolding components
components-IsProper [] = tt
components-IsProper (b ∷ s) =
    if_elim (All IsProper) (nat_eq b b'/') (tt, inner-IsProper (segments s) (segments-NoSlash s))
      (relative-IsProper (segments (b ∷ s)) (segments-NoSlash (b ∷ s)))

-- Every text names a sandbox path, and that path is in normal form.
pub new-total : (s : Bytes) → (p : SandboxPath) × (new s ≡ ok p) × IsNormal p.inner
unfolding new
new-total s = of_path-total (components s) (components-IsProper s)

rooted-IsProper : (ns : List Bytes) → All IsName ns → All IsProper (map normal ns)
rooted-IsProper [] h = tt
rooted-IsProper (b ∷ ns) h = (h.0, rooted-IsProper ns h.1)

normal-IsProper : (p : PathBuf) → IsNormal p → All IsProper p
normal-IsProper p (ns, e, h) = subst (All IsProper) (sym e) (tt, rooted-IsProper ns h)

join_path-IsProper :
    (p q : PathBuf) → All IsProper p → All IsProper q → All IsProper (join_path p q)
unfolding join_path
join_path-IsProper [] q h k = k
join_path-IsProper (c ∷ p) [] h k = All-append IsProper (c ∷ p) [] h k
join_path-IsProper (c ∷ p) (prefix b ∷ q) h k = absurd k.0
join_path-IsProper (c ∷ p) (root_dir ∷ q) h k = k
join_path-IsProper (c ∷ p) (cur_dir ∷ q) h k = All-append IsProper (c ∷ p) q h k.1
join_path-IsProper (c ∷ p) (parent_dir ∷ q) h k = All-append IsProper (c ∷ p) (parent_dir ∷ q) h k
join_path-IsProper (c ∷ p) (normal b ∷ q) h k = All-append IsProper (c ∷ p) (normal b ∷ q) h k

-- A path in normal form joined with any text, `..` and absolute paths included, succeeds with a
-- path in normal form.
pub join-total :
    (p : SandboxPath) (s : Bytes)
    → IsNormal p.inner
    → (q : SandboxPath) × (join p (components s) ≡ ok q) × IsNormal q.inner
unfolding join
join-total p s h = elim (Bool-cases (is_absolute (components s))) [
  | inl e ↦ rw e (of_path-total (components s) (components-IsProper s))
  | inr e ↦ rw e (
      of_path-total (join_path p.inner (components s)) (
        join_path-IsProper p.inner (components s) (normal-IsProper p.inner h)
          (components-IsProper s)))
]
