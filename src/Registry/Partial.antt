-- ===== src/Registry/Partial.antt =====
-- src/state.rs: an index of the pending requests that leaves some of them out.
use gatefs.Registry.{SandboxRegistry, points_to, remove_found}
use gatefs.Pending.{PendingMetadataRequest, PendingOperationKey, operation_key_ord, request_keys}
use gatefs.Registry.Keys.{get-unindex_keys, has_key}
use gatefs.Base.{
  ==_iff, Bool, Bool-cases, List, Option, any, ap, arith, false, if◌then◌else◌, inl, inr, list_ord,
  nat_ord, none, refl, some, subst, sym, true, ℕ, ◌&&◌, ◌<◌, ◌==◌, ◌||◌, ◌∙◌, ◌∷◌, ◌≡◌, ◌≤◌,
}
use gatefs.Map

pub some-none-if {ℓ} :
    {A : Type ℓ} (b : Bool) (y : A) (o : Option A)
    → (if b then none else o) ≡ some y
    → (b ≡ false) × (o ≡ some y)
some-none-if true y o e = ground (arith, e)
some-none-if false y o e = (refl, e)

-- An index that is exact but for some requests, which may be left out of it.
pub record IsIndexedBut (ids : List ℕ) (r : SandboxRegistry) : Type 0 where
  pub own_id : (id : ℕ) (q : PendingMetadataRequest) → Map.get id r.pending ≡ some q → q.id ≡ id
  pub below :
      (id : ℕ) (q : PendingMetadataRequest) → Map.get id r.pending ≡ some q → id < r.next_operation
  pub sound :
      (key : PendingOperationKey) (id : ℕ)
      → Map.get key r.pending_index ≡ some id
      → (q : PendingMetadataRequest) × (Map.get id r.pending ≡ some q)
        × (has_key key (request_keys q) ≡ true)
  pub complete :
      (key : PendingOperationKey) (id : ℕ) (q : PendingMetadataRequest)
      → Map.get id r.pending ≡ some q
      → has_key key (request_keys q) ≡ true
      → any (λ i. i == id) ids ≡ false
      → Map.get key r.pending_index ≡ some id

-- A request of the list is taken out.
pub remove_found-IsIndexedBut :
    (id : ℕ) (ids : List ℕ) (r : SandboxRegistry) (x : Option PendingMetadataRequest)
    → Map.get id r.pending ≡ x
    → IsIndexedBut (id ∷ ids) r
    → IsIndexedBut ids (remove_found id x r).0
unfolding remove_found any
remove_found-IsIndexedBut id ids r none e w = record {
  own_id = w.own_id;
  below = w.below;
  sound = w.sound;
  complete = λ key j p g k out. w.complete key j p g k (apart j p g out);
}
  where
    apart :
        (j : ℕ) (p : PendingMetadataRequest)
        → Map.get j r.pending ≡ some p
        → any (λ i. i == j) ids ≡ false
        → (id == j || any (λ i. i == j) ids) ≡ false
    apart j p g out = elim (Bool-cases (id == j)) [
      | inl b ↦
          let gone : Map.get j r.pending ≡ none =
            subst (λ i. Map.get i r.pending ≡ none) ((==_iff id j).0 b) e in
          ground (arith, gone, g)
      | inr b ↦ rw b out
    ]
remove_found-IsIndexedBut id ids r (some q) e w = record {
  own_id = λ j p g. w.own_id j p (kept j p g).1;
  below = λ j p g. w.below j p (kept j p g).1;
  sound = λ key j g.
      let (out, h) =
        some-none-if (has_key key (request_keys q) && points_to (Map.get key r.pending_index) id) j
          (Map.get key r.pending_index)
          (sym (get-unindex_keys id (request_keys q) key r.pending_index) ∙ g) in
      let (p, f, k) = w.sound key j h in
      (p, Map.get-remove id j r.pending ∙ rw (other key j p out h f k) f, k);
  complete = λ key j p g k out.
      get-unindex_keys id (request_keys q) key r.pending_index
      ∙ rw (w.complete key j p (kept j p g).1 k (rw (kept j p g).0 out))
          (ground (arith, (kept j p g).0, ==_iff id j, has_key key (request_keys q)));
}
  where
    kept :
        (j : ℕ) (p : PendingMetadataRequest)
        → Map.get j (Map.remove id r.pending) ≡ some p
        → ((id == j) ≡ false) × (Map.get j r.pending ≡ some p)
    kept j p g =
        some-none-if (id == j) p (Map.get j r.pending) (sym (Map.get-remove id j r.pending) ∙ g)

    other :
        (key : PendingOperationKey) (j : ℕ) (p : PendingMetadataRequest)
        → (has_key key (request_keys q) && points_to (Map.get key r.pending_index) id) ≡ false
        → Map.get key r.pending_index ≡ some j
        → Map.get j r.pending ≡ some p
        → has_key key (request_keys p) ≡ true
        → (id == j) ≡ false
    other key j p out h f k = elim (Bool-cases (id == j)) [
      | inl b ↦
          let same : id ≡ j = (==_iff id j).0 b in
          let found : p ≡ q = ground (arith, e, f, same) in
          let waits : has_key key (request_keys q) ≡ true =
            subst (λ x. has_key key (request_keys x) ≡ true) found k in
          ground (arith, waits, out, h, same)
      | inr b ↦ b
    ]

pub same-IsIndexedBut :
    (ids : List ℕ) (r s : SandboxRegistry)
    → s.pending ≡ r.pending
    → s.pending_index ≡ r.pending_index
    → r.next_operation ≤ s.next_operation
    → IsIndexedBut ids r
    → IsIndexedBut ids s
same-IsIndexedBut ids r s e d n w = record {
  own_id = λ id q g. w.own_id id q (ap (Map.get id) (sym e) ∙ g);
  below = λ id q g. omega (arith, w.below id q (ap (Map.get id) (sym e) ∙ g), n);
  sound = λ key id g.
      let (q, f, k) = w.sound key id (ap (Map.get key) (sym d) ∙ g) in
      (q, ap (Map.get id) e ∙ f, k);
  complete = λ key id q g k out.
      ap (Map.get key) d ∙ w.complete key id q (ap (Map.get id) (sym e) ∙ g) k out;
}
