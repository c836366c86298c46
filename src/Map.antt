-- ===== src/Map.antt =====
-- `BTreeMap`, which src/state.rs keeps its tables in: entries in the order of their keys. A `HashMap`
-- is read as such a map too, in some order of its keys that no statement depends on.
use gatefs.Base.{
  ==_iff, All, All-imp, Bool-cases, List, Option, Ord, Ordering, [], arith, if◌then◌else◌, inl, inr,
  map, none, refl, retain, some, subst, sym, ◌==◌, ◌∷◌, ◌≡◌, any, All-both, ==_refl, Bool, true,
  false, if_elim,
}

module _ {ℓ κ} {K : Type ℓ} {V : Type κ} ⦃o : Ord K⦄ where
  -- `get`.
  unfoldable pub get : K → List (K × V) → Option V
  get k [] = none
  get k ((j, v) ∷ m) = if j == k then some v else get k m

  -- `insert`: the entry of an equal key is replaced.
  unfoldable pub insert : K → V → List (K × V) → List (K × V)
  insert k v [] = (k, v) ∷ []
  insert k v ((j, w) ∷ m) = elim (o.cmp k j) [
    | Ordering.lt ↦ (k, v) ∷ (j, w) ∷ m
    | Ordering.eq ↦ (k, v) ∷ m
    | Ordering.gt ↦ (j, w) ∷ insert k v m
  ]

  -- `remove`.
  unfoldable pub remove : K → List (K × V) → List (K × V)
  remove k [] = []
  remove k ((j, v) ∷ m) = if j == k then remove k m else (j, v) ∷ remove k m

  pub get-insert :
      (k j : K) (v : V) (m : List (K × V))
      → get j (insert k v m) ≡ (if k == j then some v else get j m)
  unfolding get insert
  get-insert k j v [] = refl
  get-insert k j v ((i, w) ∷ m) =
      ground (arith, ==_iff k j, ==_iff i j, o.cmp_iff k i, get-insert k j v m)

  pub get-remove :
      (k j : K) (m : List (K × V)) → get j (remove k m) ≡ (if k == j then none else get j m)
  unfolding get remove
  get-remove k j [] = ground arith
  get-remove k j ((i, w) ∷ m) = ground (arith, ==_iff k j, ==_iff i j, ==_iff i k, get-remove k j m)

  -- The keys rise, as they do in every `BTreeMap`.
  abbrev pub IsMap : List (K × V) → Type (ℓ ⊔ κ)
  IsMap [] = Unit
  IsMap (e ∷ m) = All (λ f. o.cmp e.0 f.0 ≡ Ordering.lt) m × IsMap m

  insert-Above :
      (k j : K) (v : V) (m : List (K × V))
      → o.cmp j k ≡ Ordering.lt
      → All (λ f. o.cmp j f.0 ≡ Ordering.lt) m
      → All (λ f. o.cmp j f.0 ≡ Ordering.lt) (insert k v m)
  unfolding insert
  insert-Above k j v [] h a = (h, tt)
  insert-Above k j v ((i, w) ∷ m) h a = ground (arith, insert-Above k j v m h a.1)

  pub insert-IsMap : (k : K) (v : V) (m : List (K × V)) → IsMap m → IsMap (insert k v m)
  unfolding insert
  insert-IsMap k v [] h = (tt, tt)
  insert-IsMap k v ((j, w) ∷ m) h =
      elim (o.cmp k j)
          as (λ c.
            o.cmp k j ≡ c
            → IsMap (elim c [
              | Ordering.lt ↦ (k, v) ∷ (j, w) ∷ m
              | Ordering.eq ↦ (k, v) ∷ m
              | Ordering.gt ↦ (j, w) ∷ insert k v m
            ])) [
              | Ordering.lt ↦ λ e. ((e, All-imp (λ f. o.cmp_trans k j f.0 e) m h.0), h)
              | Ordering.eq ↦ λ e. (
                subst (λ i. All (λ f. o.cmp i f.0 ≡ Ordering.lt) m) (sym ((o.cmp_iff k j).0 e)) h.0,
                h.1,
              )
              | Ordering.gt ↦
                  λ e. (insert-Above k j v m (o.cmp_flip k j e) h.0, insert-IsMap k v m h.1)
            ]
        refl

  All-remove {μ} : (P : K × V → Type μ) (k : K) (m : List (K × V)) → All P m → All P (remove k m)
  unfolding remove
  All-remove P k [] h = tt
  All-remove P k ((j, v) ∷ m) h =
      if_elim (All P) (j == k) (All-remove P k m h.1) (h.0, All-remove P k m h.1)

  pub remove-IsMap : (k : K) (m : List (K × V)) → IsMap m → IsMap (remove k m)
  unfolding remove
  remove-IsMap k [] h = tt
  remove-IsMap k ((j, v) ∷ m) h =
      if_elim IsMap (j == k) (remove-IsMap k m h.1)
        (All-remove (λ f. o.cmp j f.0 ≡ Ordering.lt) k m h.0, remove-IsMap k m h.1)

  -- The entries of one key: the one that `get` finds.
  abbrev pub found : K → Option V → List (K × V)
  found k none = []
  found k (some v) = (k, v) ∷ []

  retain-Above :
      (k : K) (m : List (K × V))
      → All (λ f. o.cmp k f.0 ≡ Ordering.lt) m
      → retain (λ e. e.0 == k) m ≡ []
  unfolding retain
  retain-Above k [] h = refl
  retain-Above k ((j, v) ∷ m) h = ground (arith, o.cmp_iff k j, o.cmp_iff j k, retain-Above k m h.1)

  pub retain-found :
      (k : K) (m : List (K × V)) → IsMap m → retain (λ e. e.0 == k) m ≡ found k (get k m)
  unfolding retain get
  retain-found k [] h = refl
  retain-found k ((j, v) ∷ m) h = elim (Bool-cases (j == k)) [
    | inl e ↦
        let same : j ≡ k = (==_iff j k).0 e in
        rw
          (e, retain-Above k m (subst (λ i. All (λ f. o.cmp i f.0 ≡ Ordering.lt) m) same h.0), same)
    | inr e ↦ rw e (retain-found k m h.1)
  ]

  -- Each entry of a map is what its key finds.
  pub entries-get : (m : List (K × V)) → IsMap m → All (λ e. get e.0 m ≡ some e.1) m
  unfolding get
  entries-get [] h = tt
  entries-get ((j, v) ∷ m) h = (
    rw (==_refl j) refl,
    All-imp (λ e k. rw (above e.0 k.0) k.1) m
        (All-both (λ e. o.cmp j e.0 ≡ Ordering.lt) (λ e. get e.0 m ≡ some e.1) m h.0
          (entries-get m h.1)),
  )
    where
      above : (i : K) → o.cmp j i ≡ Ordering.lt → (j == i) ≡ false
      above i e = ground (arith, e)

  -- What a key finds is the value of an entry.
  pub get-any :
      (p : V → Bool) (k : K) (v : V) (m : List (K × V))
      → get k m ≡ some v
      → p v ≡ true
      → any (λ e. p e.1) m ≡ true
  unfolding get any
  get-any p k v [] h e = ground (arith, h)
  get-any p k v ((j, w) ∷ m) h e = ground (arith, h, e, get-any p k v m)

abbrev pub keys {ℓ κ} : {K : Type ℓ} {V : Type κ} → List (K × V) → List K
keys = map (λ e. e.0)

abbrev pub values {ℓ κ} : {K : Type ℓ} {V : Type κ} → List (K × V) → List V
values = map (λ e. e.1)
