-- ===== src/Registry/Filing.antt =====
-- src/state.rs: that requests are filed under their ids, from a new registry on.
use gatefs.Registry.Index.{some-if}
use gatefs.Pending.{
  PendingMetadataRequest, PendingReadWriteRequest, PendingRequest, metadata_request,
  read_write_request, request_id,
}
use gatefs.Registry.{
  SandboxRegistry, insert_any_pending_request, insert_pending_read_write_request,
  insert_pending_request, new_registry,
}
use gatefs.Registry.Asked.{IsFiled, either_request, lookup_pending}
use gatefs.Base.{
  ==_iff, Bool-cases, List, Option, ap, arith, inl, inr, none, refl, some, subst, sym, ℕ, ◌==◌, ◌∙◌,
  ◌≡◌, ◌⊎◌, nat_ord, list_ord,
}
use gatefs.Map

pub new_registry-IsFiled : IsFiled new_registry
unfolding Map.get
new_registry-IsFiled = record {
  own_metadata = λ id q e. ground arith;
  own_read_write = λ id q e. ground arith;
  disjoint = λ id q e. ground arith;
  metadata_map = tt;
  read_write_map = tt;
}

inserted :
    {A : Type 0} (k id : ℕ) (q p : A) (m : List (ℕ × A))
    → Map.get id (Map.insert k q m) ≡ some p
    → ((k ≡ id) × (q ≡ p)) ⊎ (Map.get id m ≡ some p)
inserted k id q p m e =
    elim (some-if (k == id) q p (Map.get id m) (sym (Map.get-insert k id q m) ∙ e)) [
      | inl (b, is) ↦ inl ((==_iff k id).0 b, is)
      | inr (b, found) ↦ inr found
    ]

neither :
    (x : Option PendingMetadataRequest) (y : Option PendingReadWriteRequest)
    → either_request x y ≡ none
    → (x ≡ none) × (y ≡ none)
neither none none h = (refl, refl)
neither none (some q) h = ground (arith, h)
neither (some m) y h = ground (arith, h)

-- A request that is filed under an id that nothing is asked under.
pub insert_any-IsFiled :
    (q : PendingRequest) (r : SandboxRegistry)
    → lookup_pending (request_id q) r ≡ none
    → IsFiled r
    → IsFiled (insert_any_pending_request q r)
unfolding insert_any_pending_request insert_pending_request insert_pending_read_write_request
    request_id
insert_any-IsFiled (metadata_request q) r h f = record {
  own_metadata = λ id p e. elim (inserted q.id id q p r.pending e) [
    | inl (same, is) ↦ ap (λ x. x.id) (sym is) ∙ same
    | inr found ↦ f.own_metadata id p found
  ];
  own_read_write = f.own_read_write;
  disjoint = λ id p e. elim (inserted q.id id q p r.pending e) [
    | inl (same, is) ↦
        subst (λ i. Map.get i r.pending_read_write ≡ none) same
          (neither (Map.get q.id r.pending) (Map.get q.id r.pending_read_write) h).1
    | inr found ↦ f.disjoint id p found
  ];
  metadata_map = Map.insert-IsMap q.id q r.pending f.metadata_map;
  read_write_map = f.read_write_map;
}
insert_any-IsFiled (read_write_request q) r h f = record {
  own_metadata = f.own_metadata;
  own_read_write = λ id p e. elim (inserted q.id id q p r.pending_read_write e) [
    | inl (same, is) ↦ ap (λ x. x.id) (sym is) ∙ same
    | inr found ↦ f.own_read_write id p found
  ];
  disjoint = λ id p e. beside id p e;
  metadata_map = f.metadata_map;
  read_write_map = Map.insert-IsMap q.id q r.pending_read_write f.read_write_map;
}
  where
    beside :
        (id : ℕ) (p : PendingMetadataRequest)
        → Map.get id r.pending ≡ some p
        → Map.get id (Map.insert q.id q r.pending_read_write) ≡ none
    beside id p e = Map.get-insert q.id id q r.pending_read_write ∙ elim (Bool-cases (q.id == id)) [
      | inl b ↦
          let free : Map.get id r.pending ≡ none =
            subst (λ i. Map.get i r.pending ≡ none) ((==_iff q.id id).0 b)
              (neither (Map.get q.id r.pending) (Map.get q.id r.pending_read_write) h).0 in
          ground (arith, free, e)
      | inr b ↦ rw b (f.disjoint id p e)
    ]
