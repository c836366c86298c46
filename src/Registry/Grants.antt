-- ===== src/Registry/Grants.antt =====
-- src/state.rs: which grant serves an access, and which grants are pruned.
use gatefs.Text.{Bytes}
use gatefs.Metadata.{SystemTime}
use gatefs.Registry.{
  SandboxRegistry, consume, is_expired_in, match_found, match_read_write_grant_for_intent,
  prune_expired_read_write_grants_for_sandbox, remove_grants,
}
use gatefs.Policy.{Glob}
use gatefs.Grant.{
  GrantMatchOutcome, Intent, ReadWriteAccessGrant, ReadWriteGrantLifetime, duration, matched,
  matches_intent, not_matched, one_shot,
}
use gatefs.Base.{
  ==_iff, ==_refl, All, All-map, All-retain, Bool, Bool-cases, List, Option, Ordering, [], ap,
  arith, false, find, inl, inr, nat_ord, none, not, refl, retain, some, subst, sym, true, ℕ, ◌==◌,
  ◌∙◌, ◌∷◌, ◌≡◌,
}
use gatefs.Map

abbrev LaterThan : ℕ → ℕ × ReadWriteAccessGrant → Type 0
LaterThan id e = nat_ord.cmp id e.0 ≡ Ordering.lt

remove-later :
    (id : ℕ) (m : List (ℕ × ReadWriteAccessGrant)) → All (LaterThan id) m → Map.remove id m ≡ m
unfolding Map.remove
remove-later id [] h = refl
remove-later id ((j, g) ∷ m) h = ground (arith, remove-later id m h.1)

earlier : (j id : ℕ) → nat_ord.cmp j id ≡ Ordering.lt → (j == id) ≡ false
earlier j id h = ground arith

-- Removals of ids that come later pass the first entry over.
remove_grants-later :
    (ids : List ℕ) (j : ℕ) (g : ReadWriteAccessGrant) (m : List (ℕ × ReadWriteAccessGrant))
    → All (λ id. nat_ord.cmp j id ≡ Ordering.lt) ids
    → remove_grants ids ((j, g) ∷ m) ≡ ((j, g) ∷ (remove_grants ids m).0, (remove_grants ids m).1)
unfolding remove_grants Map.remove Map.get
remove_grants-later [] j g m h = refl
remove_grants-later (id ∷ ids) j g m h =
    rw (earlier j id h.0, remove_grants-later ids j g (Map.remove id m) h.1) refl

-- Removing the entries that pass a test, by their ids, leaves the rest and returns them in order.
remove_grants-retain :
    (p : ReadWriteAccessGrant → Bool) (m : List (ℕ × ReadWriteAccessGrant))
    → Map.IsMap m
    → remove_grants (Map.keys (retain (λ e. p e.1) m)) m
      ≡ (retain (λ e. not (p e.1)) m, Map.values (retain (λ e. p e.1) m))
unfolding retain remove_grants Map.get Map.remove
remove_grants-retain p [] h = refl
remove_grants-retain p ((j, g) ∷ m) h = elim (Bool-cases (p g)) [
  | inl e ↦ rw (e, ==_refl j, remove-later j m h.0, remove_grants-retain p m h.1) refl
  | inr e ↦ rw e (
      remove_grants-later (Map.keys (retain (λ e. p e.1) m)) j g m (
        All-map (λ id. nat_ord.cmp j id ≡ Ordering.lt) (λ e. e.0) (retain (λ e. p e.1) m)
          (All-retain (LaterThan j) (λ e. p e.1) m h.0))
      ∙ ap (λ x. ((j, g) ∷ x.0, x.1)) (remove_grants-retain p m h.1))
]

-- How an access is matched: either no grant serves it, and nothing changes; or the grant that it
-- names does, which is removed if it is one-shot, and nothing else changes.
pub data Served (glob : Glob) (i : Intent) (now : SystemTime) (r : SandboxRegistry)
    : SandboxRegistry × GrantMatchOutcome → Type 0 where
  nobody :
      All (λ e. matches_intent glob e.1 i now ≡ false) r.read_write_grants
      → Served glob i now r (r, not_matched)
  once :
      (id : ℕ) (g : ReadWriteAccessGrant)
      → Map.get id r.read_write_grants ≡ some g
      → matches_intent glob g i now ≡ true
      → g.lifetime ≡ one_shot
      → Served glob i now r
          (record r { read_write_grants = Map.remove id r.read_write_grants }, matched id true)
  again :
      (id expires_at : ℕ) (g : ReadWriteAccessGrant)
      → Map.get id r.read_write_grants ≡ some g
      → matches_intent glob g i now ≡ true
      → g.lifetime ≡ duration expires_at
      → Served glob i now r (r, matched id false)

-- Where the grants stand in the order of their ids, pruning takes the expired grants of the
-- sandbox, in that order, and keeps the rest.
pub prune_lem :
    (sandbox : Bytes) (now : SystemTime) (r : SandboxRegistry)
    → Map.IsMap r.read_write_grants
    → prune_expired_read_write_grants_for_sandbox sandbox now r ≡ (
      record r {
        read_write_grants = retain (λ e. not (is_expired_in sandbox now e.1)) r.read_write_grants;
      },
      Map.values (retain (λ e. is_expired_in sandbox now e.1) r.read_write_grants),
    )
unfolding prune_expired_read_write_grants_for_sandbox
prune_lem sandbox now r m =
    ap (λ x. (record r { read_write_grants = x.0 }, x.1))
      (remove_grants-retain (is_expired_in sandbox now) r.read_write_grants m)

find-none : {A : Type 0} (p : A → Bool) (xs : List A) → find p xs ≡ none → All (λ x. p x ≡ false) xs
unfolding find
find-none p [] h = tt
find-none p (x ∷ xs) h = elim (Bool-cases (p x)) [
  | inl e ↦ ground (arith, h, e)
  | inr e ↦ (e, find-none p xs (ground (arith, h, e)))
]

get-All :
    (P : ℕ × ReadWriteAccessGrant → Type 0) (m : List (ℕ × ReadWriteAccessGrant)) (id : ℕ)
    (g : ReadWriteAccessGrant)
    → All P m
    → Map.get id m ≡ some g
    → P (id, g)
unfolding Map.get
get-All P [] id g h f = ground (arith, f)
get-All P ((j, k) ∷ m) id g h f = elim (Bool-cases (j == id)) [
  | inl e ↦
      let same : k ≡ g = ground (arith, f, e) in
      subst (λ x. P (id, x)) same (subst (λ x. P (x, k)) ((==_iff j id).0 e) h.0)
  | inr e ↦ get-All P m id g h.1 (ground (arith, f, e))
]

-- The entry found is the one that its key has.
find-get :
    (p : ReadWriteAccessGrant → Bool) (m : List (ℕ × ReadWriteAccessGrant)) (id : ℕ)
    (g : ReadWriteAccessGrant)
    → Map.IsMap m
    → find (λ e. p e.1) m ≡ some (id, g)
    → (Map.get id m ≡ some g) × (p g ≡ true)
unfolding find Map.get
find-get p [] id g h f = ground (arith, f)
find-get p ((j, k) ∷ m) id g h f = elim (Bool-cases (p k)) [
  | inl e ↦
      let first : j ≡ id = ground (arith, f, e) in
      let same : k ≡ g = ground (arith, f, e) in
      (rw ((==_iff j id).1 first) (ap some same), ap p (sym same) ∙ e)
  | inr e ↦
      let (later, passes) = find-get p m id g h.1 (ground (arith, f, e)) in
      (rw (earlier j id (get-All (LaterThan j) m id g h.0 later)) later, passes)
]

consume_lem :
    (glob : Glob) (i : Intent) (now : SystemTime) (r : SandboxRegistry) (id : ℕ)
    (g : ReadWriteAccessGrant) (lifetime : ReadWriteGrantLifetime)
    → Map.get id r.read_write_grants ≡ some g
    → matches_intent glob g i now ≡ true
    → g.lifetime ≡ lifetime
    → Served glob i now r (consume id r)
unfolding consume
consume_lem glob i now r id g one_shot e f h = rw (e, h) (once id g e f h)
consume_lem glob i now r id g (duration t) e f h = rw (e, h) (again id t g e f h)

match_found_lem :
    (glob : Glob) (i : Intent) (now : SystemTime) (r : SandboxRegistry)
    → Map.IsMap r.read_write_grants
    → (o : Option (ℕ × ReadWriteAccessGrant))
    → find (λ e. matches_intent glob e.1 i now) r.read_write_grants ≡ o
    → Served glob i now r (match_found o r)
unfolding match_found
match_found_lem glob i now r m none e =
    nobody (find-none (λ e. matches_intent glob e.1 i now) r.read_write_grants e)
match_found_lem glob i now r m (some (id, g)) e =
    let (held, serves) = find-get (λ g. matches_intent glob g i now) r.read_write_grants id g m e in
    consume_lem glob i now r id g g.lifetime held serves refl

-- Where the grants stand in the order of their ids: if no grant is named, none matches the access
-- and nothing changes; if one is named, it is held and matches; a one-shot grant is then removed,
-- and nothing else; a duration grant stays, and nothing changes.
pub match_read_write_grant_for_intent_lem :
    (glob : Glob) (i : Intent) (now : SystemTime) (r : SandboxRegistry)
    → Map.IsMap r.read_write_grants
    → Served glob i now r (match_read_write_grant_for_intent glob i now r)
unfolding match_read_write_grant_for_intent
match_read_write_grant_for_intent_lem glob i now r m =
    match_found_lem glob i now r m (find (λ e. matches_intent glob e.1 i now) r.read_write_grants)
      refl
