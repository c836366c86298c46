-- ===== src/Path/RoundTrip.antt =====
-- The text of a sandbox path reads back as the same path, and rewritten arguments name the same
-- path. (src/path.rs)
use gatefs.Error.{ok}
use gatefs.Path.{SandboxPath, as_str, new, normalize_loop, normalize_sandbox_path, of_path}
use mathlib.Core.List.{append-nil, append_assoc}
use gatefs.StdPath.{
  component, component_ord, components, cons_first, inner_components, joined, normal, path_text,
  root_dir, root_path, segments,
}
use gatefs.Text.{Bytes, is_utf8}
use gatefs.Base.{
  All, List, [], ap, false, list_ord, map, nat_eq, nat_ord, refl, sym, true, ◌++◌, ◌∙◌, ◌∷◌, ◌≡◌,
}
use gatefs.Path.Normal.{IsName, IsNormal, IsProper, fold_names, normalize_loop-rooted, rooted}

segments-noslash :
    (b s : Bytes) → All (λ c. nat_eq c b'/' ≡ false) b → segments (b ++ b'/' ∷ s) ≡ b ∷ segments s
unfolding segments cons_first
segments-noslash [] s h = refl
segments-noslash (c ∷ b) s h = rw (h.0, segments-noslash b s h.1)

segments_last : (b : Bytes) → All (λ c. nat_eq c b'/' ≡ false) b → segments b ≡ b ∷ []
unfolding segments cons_first
segments_last [] h = refl
segments_last (c ∷ b) h = rw (h.0, segments_last b h.1)

-- The text of plain names reads back as those names.
names_read_back :
    (b : Bytes) (ns : List Bytes)
    → All IsName (b ∷ ns)
    → inner_components (segments (joined (map normal (b ∷ ns)))) ≡ map normal (b ∷ ns)
unfolding joined inner_components
names_read_back b [] h = rw (segments_last b h.0.1, inner_components, h.0.0)
names_read_back b (c ∷ ns) h =
    rw (segments-noslash b (joined (map normal (c ∷ ns))) h.0.1, inner_components, h.0.0)
      (ap (◌∷◌ (normal b)) (names_read_back c ns h.1))

fold_names-plain : (ms ns : List Bytes) → fold_names ms (map normal ns) ≡ ms ++ ns
unfolding fold_names
fold_names-plain ms [] = sym (append-nil ms)
fold_names-plain ms (b ∷ ns) = fold_names-plain (ms ++ b ∷ []) ns ∙ append_assoc ms (b ∷ []) ns

rooted_reads_back :
    (ns : List Bytes) → All IsName ns → components (path_text (rooted ns)) ≡ rooted ns
unfolding path_text components
rooted_reads_back [] h = unfold segments inner_components component in refl
rooted_reads_back (b ∷ ns) h = ap (◌∷◌ root_dir) (names_read_back b ns h)

plain-IsProper : (ns : List Bytes) → All IsName ns → All IsProper (map normal ns)
plain-IsProper [] h = tt
plain-IsProper (b ∷ ns) h = (h.0, plain-IsProper ns h.1)

-- A path in normal form is its own normal form.
pub of_path-normal : (p : SandboxPath) → IsNormal p.inner → of_path p.inner ≡ ok p
unfolding of_path normalize_sandbox_path
of_path-normal p (ns, e, h) =
    let fold : normalize_loop root_path (rooted ns) ≡ ok (rooted ns) =
      normalize_loop-rooted (rooted ns) [] (tt, plain-IsProper ns h)
      ∙ ap (λ ms. ok (rooted ms)) (unfold fold_names in fold_names-plain [] ns) in
    rw (e, fold)

-- The text that is serialized for a path in normal form, if it is UTF-8, is read back as that path.
pub new-as_str :
    (p : SandboxPath)
    → IsNormal p.inner
    → is_utf8 (path_text p.inner) ≡ true
    → new (as_str p) ≡ ok p
unfolding new as_str
new-as_str p n u = rw u (read n)
  where
    read : IsNormal p.inner → of_path (components (path_text p.inner)) ≡ ok p
    read (ns, e, h) =
        ap (λ q. of_path (components (path_text q))) e
        ∙ ap of_path (rooted_reads_back ns h ∙ sym e)
        ∙ of_path-normal p (ns, e, h)
