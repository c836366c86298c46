-- ===== src/Path/Prefix.antt =====
-- `starts_with`, `strip_prefix`, `join` and `parent` of sandbox paths agree. (src/path.rs)
use gatefs.Path.RoundTrip.{of_path-normal}
use mathlib.Core.List.{map-append, tail}
use gatefs.Error.{ok}
use gatefs.Text.{Bytes, is_utf8, to_string_lossy}
use gatefs.Path.Normal.{IsName, IsNormal, rooted}
use gatefs.StdPath.{
  PathBuf, component_ord, is_absolute, join_path, normal, parent_path, path_starts_with, root_dir,
  root_path, strip_path,
}
use gatefs.Path.{SandboxPath, file_name, join, of_path, parent, starts_with, strip_prefix}
use gatefs.Base.{
  All, ==_iff, ==_refl, All-append, Bool-cases, List, Option-cases, [], ap, arith, drop_last-snoc,
  false, inl, inr, is_some, last?-snoc, length, length-append, list_ord, map, nat_ord, refl, some,
  sym, true, List, ◌++◌, ◌==◌, ◌∙◌, ◌∷◌, ◌≡◌,
}

strip_path-append : (p base rest : PathBuf) → strip_path p base ≡ some rest → p ≡ base ++ rest
unfolding strip_path
strip_path-append p [] rest e = ground arith
strip_path-append [] (b ∷ bs) rest e = cc
strip_path-append (c ∷ p) (b ∷ bs) rest e = ground (arith, ==_iff c b, strip_path-append p bs rest)

strip_path_self : (base rest : PathBuf) → strip_path (base ++ rest) base ≡ some rest
unfolding strip_path
strip_path_self [] rest = refl
strip_path_self (b ∷ bs) rest = rw (==_refl b) (strip_path_self bs rest)

-- A stripped prefix exists exactly where the test for it passes.
starts-is_some-strip : (p base : PathBuf) → path_starts_with p base ≡ is_some (strip_path p base)
unfolding path_starts_with strip_path
starts-is_some-strip p [] = refl
starts-is_some-strip [] (b ∷ bs) = refl
starts-is_some-strip (c ∷ p) (b ∷ bs) = ground (arith, starts-is_some-strip p bs)

-- Below plain names, what is left of plain names is plain.
suffix_plain :
    (ns ms : List Bytes) (rest : PathBuf)
    → All IsName ns
    → map normal ns ≡ map normal ms ++ rest
    → (ks : List Bytes) × (rest ≡ map normal ks) × All IsName ks
suffix_plain ns [] rest h e = (ns, sym e, h)
suffix_plain [] (m ∷ ms) rest h e = cc
suffix_plain (n ∷ ns) (m ∷ ms) rest h e = suffix_plain ns ms rest h.1 (ground arith)

-- Plain names go below any path.
pub join_path-names :
    (p : PathBuf) (ks : List Bytes) → join_path p (map normal ks) ≡ p ++ map normal ks
unfolding join_path
join_path-names [] ks = refl
join_path-names (c ∷ p) [] = refl
join_path-names (c ∷ p) (k ∷ ks) = refl

is_absolute-plain : (ks : List Bytes) → is_absolute (map normal ks) ≡ false
unfolding is_absolute
is_absolute-plain [] = refl
is_absolute-plain (k ∷ ks) = refl

join-plain :
    (p base : SandboxPath) (ms ks : List Bytes)
    → IsNormal p.inner
    → base.inner ≡ rooted ms
    → p.inner ≡ rooted ms ++ map normal ks
    → join base (map normal ks) ≡ ok p
unfolding join
join-plain p base ms ks n e f = rw (is_absolute-plain ks) (
    ap (λ q. of_path (join_path q (map normal ks))) e
    ∙ ap of_path (join_path-names (rooted ms) ks ∙ sym f)
    ∙ of_path-normal p n)

starts→strip :
    (p base : PathBuf)
    → path_starts_with p base ≡ true
    → (rest : PathBuf) × (strip_path p base ≡ some rest)
starts→strip p base h = elim (Option-cases (strip_path p base)) [
  | inl e ↦ ground (arith, starts-is_some-strip p base)
  | inr (rest, e) ↦ (rest, e)
]

-- The two branches of `strip_prefix` are one where the prefix is a prefix.
strip_prefix-strip_path :
    (p base : SandboxPath) (rest : PathBuf)
    → strip_path p.inner base.inner ≡ some rest
    → strip_prefix p base ≡ ok rest
unfolding strip_prefix
strip_prefix-strip_path p base rest e = elim (Bool-cases (base.inner == root_path)) [
  | inl r ↦ rw (r, ← (==_iff base.inner root_path).0 r, e)
  | inr r ↦ rw (r, e)
]

-- A path in normal form that starts with `base`, in normal form too, has a remainder of plain names
-- below it, which starts with no root, and joining `base` with that remainder gives the path back.
pub join-strip_prefix :
    (p base : SandboxPath)
    → IsNormal p.inner
    → IsNormal base.inner
    → starts_with p base ≡ true
    → (names : List Bytes) × (strip_prefix p base ≡ ok (map normal names))
      × All IsName names
      × (join base (map normal names) ≡ ok p)
unfolding starts_with
join-strip_prefix p base n (ms, e, h) s =
    let (rest, found) = starts→strip p.inner base.inner s in
    let split : p.inner ≡ rooted ms ++ rest =
      strip_path-append p.inner base.inner rest found ∙ ap (λ q. q ++ rest) e in
    let (ks, plain, named) = suffix_plain n.0 ms rest n.2 (ap tail (sym n.1 ∙ split)) in
    (
      ks,
      strip_prefix-strip_path p base rest found ∙ ap ok plain,
      named,
      join-plain p base ms ks n e (split ∙ ap (λ q. rooted ms ++ q) plain),
    )

snoc≢root : (ns : List Bytes) (b : Bytes) → (rooted ns ++ normal b ∷ [] == root_path) ≡ false
snoc≢root ns b = elim (Bool-cases (rooted ns ++ normal b ∷ [] == root_path)) [
  | inl e ↦ absurd (
      omega (
        arith,
        ap length ((==_iff (rooted ns ++ normal b ∷ []) root_path).0 e),
        length-append (map normal ns) (normal b ∷ []),
      ))
  | inr e ↦ e
]

child-IsNormal : (p : PathBuf) (b : Bytes) → IsNormal p → IsName b → IsNormal (p ++ normal b ∷ [])
child-IsNormal p b (ns, e, h) name = (
  ns ++ b ∷ [],
  ap (λ q. q ++ normal b ∷ []) e ∙ ap (◌∷◌ root_dir) (sym (map-append normal ns (b ∷ []))),
  All-append IsName ns (b ∷ []) h (name, tt),
)

parent-child :
    (p : SandboxPath) (ns : List Bytes) (b : Bytes)
    → IsNormal p.inner
    → p.inner ≡ rooted ns
    → parent (record { inner = p.inner ++ normal b ∷ [] }) ≡ some p
unfolding parent parent_path
parent-child p ns b n e = rw (
  ap (λ q. q ++ normal b ∷ [] == root_path) e ∙ snoc≢root ns b,
  last?-snoc p.inner (normal b),
  drop_last-snoc p.inner (normal b),
  of_path-normal p n,
)

join-child :
    (p : SandboxPath) (ns : List Bytes) (b : Bytes)
    → p.inner ≡ rooted ns
    → IsNormal (p.inner ++ normal b ∷ [])
    → join p (normal b ∷ []) ≡ ok (record { inner = p.inner ++ normal b ∷ [] })
unfolding join is_absolute
join-child p ns b e n =
    ap of_path (
      ap (λ q. join_path q (normal b ∷ [])) e
      ∙ join_path-names (rooted ns) (b ∷ [])
      ∙ ap (λ q. q ++ normal b ∷ []) (sym e))
    ∙ of_path-normal (record { inner = p.inner ++ normal b ∷ [] }) n

-- A name in UTF-8, joined to a path in normal form, gives a child in normal form; the parent of the
-- child is the path, and its file name is the name.
pub parent-join :
    (p : SandboxPath) (b : Bytes)
    → IsNormal p.inner
    → IsName b
    → is_utf8 b ≡ true
    → (q : SandboxPath) × (join p (normal b ∷ []) ≡ ok q)
      × IsNormal q.inner
      × (parent q ≡ some p)
      × (file_name q ≡ some b)
unfolding file_name to_string_lossy
parent-join p b n name utf8 = (
  record { inner = p.inner ++ normal b ∷ [] },
  join-child p n.0 b n.1 (child-IsNormal p.inner b n name),
  child-IsNormal p.inner b n name,
  parent-child p n.0 b n n.1,
  rw (last?-snoc p.inner (normal b), utf8),
)
