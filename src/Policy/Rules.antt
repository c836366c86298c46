-- ===== src/Policy/Rules.antt =====
-- src/state.rs: the rules that `protect`, `unprotect` and their bypass twins keep.
use gatefs.Path.{SandboxPath}
use gatefs.Base.{
  ==_iff, ==_refl, Bool, Bool-cases, List, [], any, any-append, ap, arith, false, inl, inr,
  list_ord, nat_ord, refl, remove_first, true, ◌&&◌, ◌++◌, ◌==◌, ◌||◌, ◌∙◌, ◌∷◌, ◌≡◌,
}
use gatefs.Policy.{
  Glob, PolicyPattern, ProtectionKind, Rule, add_rule, added, already_present, is_rule, matches,
  matches_rule, policy_pattern_ord, protection_kind_ord, remove_rule, removed,
}

abbrev rule_of : ProtectionKind → PolicyPattern → Rule
rule_of kind pattern = record { kind = kind; pattern = pattern }

is_rule-itself :
    (kind : ProtectionKind) (pattern : PolicyPattern)
    → is_rule kind pattern (rule_of kind pattern) ≡ true
is_rule-itself kind pattern = rw (==_refl kind, ==_refl pattern) refl

module _ {A : Type 0} where
  remove_first-snoc :
      (p : A → Bool) (x : A) (xs : List A)
      → any p xs ≡ false
      → p x ≡ true
      → remove_first p (xs ++ x ∷ []) ≡ xs
  unfolding remove_first any
  remove_first-snoc p x [] h e = rw e refl
  remove_first-snoc p x (y ∷ ys) h e = elim (Bool-cases (p y)) [
    | inl f ↦ ground (arith, h, f)
    | inr f ↦ rw f (ap (◌∷◌ y) (remove_first-snoc p x ys (ground (arith, h, f)) e))
  ]

  any-absorb :
      (p q : A → Bool) (c : Bool) (xs : List A)
      → any p xs ≡ true
      → ((x : A) → p x ≡ true → q x ≡ c)
      → any q xs ≡ (any q xs || c)
  unfolding any
  any-absorb p q c [] h f = ground (arith, h)
  any-absorb p q c (x ∷ xs) h f = elim (Bool-cases (p x)) [
    | inl e ↦ ground (arith, f x e)
    | inr e ↦ ground (arith, any-absorb p q c xs (ground (arith, h, e)) f)
  ]

  any-one : (p : A → Bool) (x : A) → any p (x ∷ []) ≡ p x
  unfolding any
  any-one p x = ground arith

-- Adding a rule twice adds it once: the second call says so and changes nothing.
pub add_rule-again :
    (kind : ProtectionKind) (pattern : PolicyPattern) (rules : List Rule)
    → add_rule kind pattern (add_rule kind pattern rules).0
      ≡ ((add_rule kind pattern rules).0, already_present)
unfolding add_rule
add_rule-again kind pattern rules = elim (Bool-cases (any (is_rule kind pattern) rules)) [
  | inl e ↦ rw (e, e) refl
  | inr e ↦
      rw
        (
          e,
          any-append (is_rule kind pattern) rules (rule_of kind pattern ∷ []),
          any-one (is_rule kind pattern) (rule_of kind pattern),
          is_rule-itself kind pattern,
          e,
        )
        refl
]

add_rule-present :
    (kind : ProtectionKind) (pattern : PolicyPattern) (rules : List Rule)
    → any (is_rule kind pattern) rules ≡ true
    → (add_rule kind pattern rules).1 ≡ already_present
unfolding add_rule
add_rule-present kind pattern rules e = rw e refl

both : (a b : Bool) → (a && b) ≡ true → (a ≡ true) × (b ≡ true)
both a b h = ground arith

-- Removing a rule that was just added restores the rules.
pub remove-add_rule :
    (kind : ProtectionKind) (pattern : PolicyPattern) (rules : List Rule)
    → (add_rule kind pattern rules).1 ≡ added
    → remove_rule kind pattern (add_rule kind pattern rules).0 ≡ (rules, removed)
unfolding add_rule remove_rule
remove-add_rule kind pattern rules h = elim (Bool-cases (any (is_rule kind pattern) rules)) [
  | inl e ↦ ground (arith, add_rule-present kind pattern rules e, h)
  | inr e ↦
      rw
        (
          e,
          any-append (is_rule kind pattern) rules (rule_of kind pattern ∷ []),
          any-one (is_rule kind pattern) (rule_of kind pattern),
          is_rule-itself kind pattern,
          e,
          remove_first-snoc (is_rule kind pattern) (rule_of kind pattern) rules e
              (is_rule-itself kind pattern),
        )
        refl
]

-- What the rules match once one is added is what they matched before or what that rule matches.
pub matches_rule-add_rule :
    (glob : Glob) (kind other : ProtectionKind) (pattern : PolicyPattern) (rules : List Rule)
    (path : SandboxPath) (target_is_dir : Bool)
    → matches_rule glob (add_rule kind pattern rules).0 other path target_is_dir ≡ (
        matches_rule glob rules other path target_is_dir
        || (kind == other && matches glob pattern path target_is_dir))
unfolding add_rule matches_rule
matches_rule-add_rule glob kind other pattern rules path target_is_dir =
    elim (Bool-cases (any (is_rule kind pattern) rules)) [
      | inl e ↦
          rw e (any-absorb (is_rule kind pattern) test (test (rule_of kind pattern)) rules e same)
      | inr e ↦ rw e (
          any-append test rules (rule_of kind pattern ∷ [])
          ∙ ap (λ b. any test rules || b) (any-one test (rule_of kind pattern)))
    ]
  where
    test : Rule → Bool
    test rule = rule.kind == other && matches glob rule.pattern path target_is_dir

    same :
        (rule : Rule) → is_rule kind pattern rule ≡ true → test rule ≡ test (rule_of kind pattern)
    same rule h =
        let (a, b) = both (rule.kind == kind) (rule.pattern == pattern) h in
        ap test (λ i. record {
          kind = (==_iff rule.kind kind).0 a i;
          pattern = (==_iff rule.pattern pattern).0 b i;
        })
