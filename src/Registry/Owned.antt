-- ===== src/Registry/Owned.antt =====
-- src/state.rs: a sandbox's list of pending requests and the two tables.
use gatefs.Registry.{SandboxRegistry, pending_requests_for_sandbox, remove_any_pending_request}
use gatefs.Sort.{All-sort, any-sort, by_key}
use gatefs.Pending.{
  PendingMetadataRequest, PendingReadWriteRequest, PendingRequest, metadata_request,
  read_write_request, request_id, request_sandbox,
}
use gatefs.Text.{Bytes}
use gatefs.Registry.Asked.{
  IsFiled, either_request, lookup_pending, remove_any-removed_by, removed_by,
}
use gatefs.Base.{
  ==_iff, All, All-append, All-imp, All-map, All-retain, Bool, List, Option, any, any-append,
  any-map, any-retain, ap, arith, false, if_elim, if◌then◌else◌, list_ord, map, nat_ord, none, refl,
  retain, some, subst, sym, true, ℕ, ◌&&◌, ◌++◌, ◌==◌, ◌||◌, ◌∙◌, ◌≡◌,
}
use gatefs.Map

-- Each request of the list is what its id finds.
pub pending_requests_for_sandbox-lookup_pending :
    (name : Bytes) (r : SandboxRegistry)
    → IsFiled r
    → All (λ q. lookup_pending (request_id q) r ≡ some q) (pending_requests_for_sandbox name r)
unfolding pending_requests_for_sandbox request_id
pending_requests_for_sandbox-lookup_pending name r f =
    All-sort Found (by_key request_id)
      (map metadata_request metadata_ones ++ map read_write_request read_write_ones)
      (All-append Found (map metadata_request metadata_ones)
        (map read_write_request read_write_ones)
        (All-map Found metadata_request metadata_ones (
          All-retain (λ m. Found (metadata_request m)) (λ q. q.sandbox == name)
            (Map.values r.pending)
            (All-map (λ m. Found (metadata_request m)) (λ e. e.1) r.pending
              (All-imp metadata_found r.pending (Map.entries-get r.pending f.metadata_map)))))
        (All-map Found read_write_request read_write_ones (
          All-retain (λ m. Found (read_write_request m)) (λ q. q.sandbox == name)
            (Map.values r.pending_read_write)
            (All-map (λ m. Found (read_write_request m)) (λ e. e.1) r.pending_read_write
              (All-imp read_write_found r.pending_read_write
                (Map.entries-get r.pending_read_write f.read_write_map))))))
  where
    metadata_ones : List PendingMetadataRequest
    metadata_ones = retain (λ q. q.sandbox == name) (Map.values r.pending)

    read_write_ones : List PendingReadWriteRequest
    read_write_ones = retain (λ q. q.sandbox == name) (Map.values r.pending_read_write)

    Found : PendingRequest → Type 0
    Found q = lookup_pending (request_id q) r ≡ some q

    metadata_found :
        (e : ℕ × PendingMetadataRequest)
        → Map.get e.0 r.pending ≡ some e.1
        → Found (metadata_request e.1)
    metadata_found e g =
        ap (λ i. lookup_pending i r) (f.own_metadata e.0 e.1 g)
        ∙ ap (λ o. either_request o (Map.get e.0 r.pending_read_write)) g

    no_metadata :
        (id : ℕ) (q : PendingReadWriteRequest) (x : Option PendingMetadataRequest)
        → Map.get id r.pending ≡ x
        → Map.get id r.pending_read_write ≡ some q
        → x ≡ none
    no_metadata id q none e g = refl
    no_metadata id q (some m) e g = ground (arith, f.disjoint id m e, g)

    read_write_found :
        (e : ℕ × PendingReadWriteRequest)
        → Map.get e.0 r.pending_read_write ≡ some e.1
        → Found (read_write_request e.1)
    read_write_found e g =
        ap (λ i. lookup_pending i r) (f.own_read_write e.0 e.1 g)
        ∙ ap (λ o. either_request o (Map.get e.0 r.pending_read_write))
            (no_metadata e.0 e.1 (Map.get e.0 r.pending) refl g)
        ∙ ap (either_request none) g

-- Each request of the sandbox has its id in the list.
pub pending_requests_for_sandbox-any :
    (name : Bytes) (id : ℕ) (q : PendingRequest) (r : SandboxRegistry)
    → IsFiled r
    → lookup_pending id r ≡ some q
    → (request_sandbox q == name) ≡ true
    → any (λ i. i == id) (map request_id (pending_requests_for_sandbox name r)) ≡ true
unfolding pending_requests_for_sandbox request_id request_sandbox
pending_requests_for_sandbox-any name id q r f h own =
    any-map (λ i. i == id) request_id (pending_requests_for_sandbox name r)
    ∙ any-sort has_id (by_key request_id)
        (map metadata_request metadata_ones ++ map read_write_request read_write_ones)
    ∙ any-append has_id (map metadata_request metadata_ones)
        (map read_write_request read_write_ones)
    ∙ by_cases (Map.get id r.pending) (Map.get id r.pending_read_write) q refl refl h own
  where
    metadata_ones : List PendingMetadataRequest
    metadata_ones = retain (λ q. q.sandbox == name) (Map.values r.pending)

    read_write_ones : List PendingReadWriteRequest
    read_write_ones = retain (λ q. q.sandbox == name) (Map.values r.pending_read_write)

    has_id : PendingRequest → Bool
    has_id q = request_id q == id

    metadata_any :
        (m : PendingMetadataRequest)
        → Map.get id r.pending ≡ some m
        → (m.sandbox == name) ≡ true
        → any has_id (map metadata_request metadata_ones) ≡ true
    metadata_any m e own =
        any-map has_id metadata_request metadata_ones
        ∙ any-retain (λ m. m.id == id) (λ m. m.sandbox == name) (Map.values r.pending)
        ∙ any-map (λ m. (m.sandbox == name) && (m.id == id)) (λ e. e.1) r.pending
        ∙ Map.get-any (λ m. (m.sandbox == name) && (m.id == id)) id m r.pending e
            (rw own ((==_iff m.id id).1 (f.own_metadata id m e)))

    read_write_any :
        (m : PendingReadWriteRequest)
        → Map.get id r.pending_read_write ≡ some m
        → (m.sandbox == name) ≡ true
        → any has_id (map read_write_request read_write_ones) ≡ true
    read_write_any m e own =
        any-map has_id read_write_request read_write_ones
        ∙ any-retain (λ m. m.id == id) (λ m. m.sandbox == name) (Map.values r.pending_read_write)
        ∙ any-map (λ m. (m.sandbox == name) && (m.id == id)) (λ e. e.1) r.pending_read_write
        ∙ Map.get-any (λ m. (m.sandbox == name) && (m.id == id)) id m r.pending_read_write e
            (rw own ((==_iff m.id id).1 (f.own_read_write id m e)))

    left_true : (a b : Bool) → a ≡ true → (a || b) ≡ true
    left_true a b h = ground arith

    right_true : (a b : Bool) → b ≡ true → (a || b) ≡ true
    right_true a b h = ground arith

    by_cases :
        (x : Option PendingMetadataRequest) (y : Option PendingReadWriteRequest)
        (q : PendingRequest)
        → Map.get id r.pending ≡ x
        → Map.get id r.pending_read_write ≡ y
        → either_request x y ≡ some q
        → (request_sandbox q == name) ≡ true
        → (any has_id (map metadata_request metadata_ones)
            || any has_id (map read_write_request read_write_ones))
          ≡ true
    by_cases (some m) y (metadata_request q) e d h own =
        left_true (any has_id (map metadata_request metadata_ones))
          (any has_id (map read_write_request read_write_ones))
          (metadata_any q (e ∙ ap some (ground arith)) own)
    by_cases (some m) y (read_write_request q) e d h own = ground arith
    by_cases none (some m) (metadata_request q) e d h own = ground arith
    by_cases none (some m) (read_write_request q) e d h own =
        right_true (any has_id (map metadata_request metadata_ones))
          (any has_id (map read_write_request read_write_ones))
          (read_write_any q (d ∙ ap some (ground arith)) own)
    by_cases none none q e d h own = ground arith

-- What stays where a request is taken out, or an id is handed out.
pub kept_request :
    {A : Type 0} (id i : ℕ) (q : A) (m : List (ℕ × A))
    → Map.get i (Map.remove id m) ≡ some q
    → Map.get i m ≡ some q
kept_request {A} id i q m h = kept (id == i) (Map.get i m) (sym (Map.get-remove id i m) ∙ h)
  where
    kept : (b : Bool) (o : Option A) → (if b then none else o) ≡ some q → o ≡ some q
    kept true o e = ground arith
    kept false o e = e

pub remove_any-IsFiled :
    (id : ℕ) (r : SandboxRegistry) → IsFiled r → IsFiled (remove_any_pending_request id r).0
unfolding removed_by
remove_any-IsFiled id r f =
    subst (λ x. IsFiled x.0) (sym (remove_any-removed_by id r)) (by_cases (Map.get id r.pending))
  where
    stays_none :
        (i : ℕ)
        → Map.get i r.pending_read_write ≡ none
        → Map.get i (Map.remove id r.pending_read_write) ≡ none
    stays_none i h =
        Map.get-remove id i r.pending_read_write
        ∙ rw h (if_elim (λ o. o ≡ none) (id == i) refl refl)

    by_cases :
        (x : Option PendingMetadataRequest)
        → IsFiled (removed_by id x (Map.get id r.pending_read_write) r).0
    by_cases (some m) = record {
      own_metadata = λ i q e. f.own_metadata i q (kept_request id i q r.pending e);
      own_read_write = f.own_read_write;
      disjoint = λ i q e. f.disjoint i q (kept_request id i q r.pending e);
      metadata_map = Map.remove-IsMap id r.pending f.metadata_map;
      read_write_map = f.read_write_map;
    }
    by_cases none = record {
      own_metadata = f.own_metadata;
      own_read_write = λ i q e. f.own_read_write i q (kept_request id i q r.pending_read_write e);
      disjoint = λ i q e. stays_none i (f.disjoint i q e);
      metadata_map = f.metadata_map;
      read_write_map = Map.remove-IsMap id r.pending_read_write f.read_write_map;
    }

-- The tables are what counts.
pub same_tables-IsFiled :
    (r s : SandboxRegistry)
    → s.pending ≡ r.pending
    → s.pending_read_write ≡ r.pending_read_write
    → IsFiled r
    → IsFiled s
same_tables-IsFiled r s e d f = record {
  own_metadata = λ i q h. f.own_metadata i q (ap (Map.get i) (sym e) ∙ h);
  own_read_write = λ i q h. f.own_read_write i q (ap (Map.get i) (sym d) ∙ h);
  disjoint = λ i q h. ap (Map.get i) d ∙ f.disjoint i q (ap (Map.get i) (sym e) ∙ h);
  metadata_map = subst Map.IsMap (sym e) f.metadata_map;
  read_write_map = subst Map.IsMap (sym d) f.read_write_map;
}
