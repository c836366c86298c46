-- ===== src/Session/Serve.antt =====
-- src/session.rs: what a grant releases when it is made.
use gatefs.Registry.Owned.{same_tables-IsFiled}
use gatefs.Registry.Index.{some-if}
use gatefs.Registry.Asked.{IsFiled}
use gatefs.Metadata.{SystemTime}
use gatefs.Text.{Bytes}
use gatefs.Policy.{Glob}
use gatefs.Session.Allow.{Machine, lifetime_of, release_each, release_found}
use gatefs.Session.Release.{
  Grounds, grant_for_subject, new_grant, put_back, put_back_unless, put_waiter, release_all,
  release_by, selected_release,
}
use gatefs.Registry.{
  SandboxRegistry, insert_pending_read_write_request, insert_read_write_grant,
  matching_pending_read_write_ids_for_grant, next_operation_id, remove_pending_read_write_request,
}
use gatefs.Grant.{
  ReadWriteAccessGrant, ReadWriteGrantLifetime, ReadWriteGrantSubject, duration_request,
  matches_request,
}
use gatefs.Pending.{PendingReadWriteRequest}
use gatefs.Base.{
  ==_iff, ==_refl, Bool, Bool-cases, List, Option, [], any, any-map, any-retain, ap, arith, false,
  if◌then◌else◌, inl, inr, list_ord, nat_ord, none, refl, retain, some, subst, sym, true, ℕ, ◌&&◌,
  ◌==◌, ◌||◌, ◌∙◌, ◌∷◌, ◌≡◌,
}
use gatefs.Map

release_found-tables :
    (id : ℕ) (s : SandboxRegistry) (x : Option PendingReadWriteRequest)
    → (release_found id (s, x)).0.pending_read_write ≡ s.pending_read_write
unfolding release_found next_operation_id
release_found-tables id s none = refl
release_found-tables id s (some q) = refl

get-release_each :
    (ids : List ℕ) (i : ℕ) (r : SandboxRegistry)
    → Map.get i (release_each ids r).0.pending_read_write
      ≡ (if any (λ j. j == i) ids then none else Map.get i r.pending_read_write)
unfolding release_each any remove_pending_read_write_request
get-release_each [] i r = refl
get-release_each (id ∷ ids) i r =
    get-release_each ids i (release_found id (remove_pending_read_write_request id r)).0
    ∙ ap (λ o. if any (λ j. j == i) ids then none else o)
        (ap (Map.get i) (
            release_found-tables id (remove_pending_read_write_request id r).0
              (Map.get id r.pending_read_write))
          ∙ Map.get-remove id i r.pending_read_write)
    ∙ either (any (λ j. j == i) ids) (id == i)
  where
    either :
        (a b : Bool)
        → (if a then none else if b then none else Map.get i r.pending_read_write)
          ≡ (if b || a then none else Map.get i r.pending_read_write)
    either a b = ground arith

-- Each pending request that a grant matches has its id in the list.
matching-any :
    (glob : Glob) (g : ReadWriteAccessGrant) (now : SystemTime) (r : SandboxRegistry) (i : ℕ)
    (q : PendingReadWriteRequest)
    → IsFiled r
    → Map.get i r.pending_read_write ≡ some q
    → matches_request glob g q now ≡ true
    → any (λ j. j == i) (matching_pending_read_write_ids_for_grant glob g now r) ≡ true
unfolding matching_pending_read_write_ids_for_grant
matching-any glob g now r i q f h m =
    any-map (λ j. j == i) (λ (p : PendingReadWriteRequest). p.id)
      (retain (λ p. matches_request glob g p now) (Map.values r.pending_read_write))
    ∙ any-retain (λ p. p.id == i) (λ p. matches_request glob g p now)
        (Map.values r.pending_read_write)
    ∙ any-map (λ p. matches_request glob g p now && (p.id == i)) (λ e. e.1) r.pending_read_write
    ∙ Map.get-any (λ p. matches_request glob g p now && (p.id == i)) i q r.pending_read_write h
        (rw m ((==_iff q.id i).1 (f.own_read_write i q h)))

unserved :
    (glob : Glob) (g : ReadWriteAccessGrant) (now : SystemTime) (r : SandboxRegistry) (i : ℕ)
    (q : PendingReadWriteRequest)
    → IsFiled r
    → Map.get i
        (release_each
          (matching_pending_read_write_ids_for_grant glob g now r)
          r).0.pending_read_write
      ≡ some q
    → matches_request glob g q now ≡ false
unserved glob g now r i q f h = elim (Bool-cases (matches_request glob g q now)) [
  | inr m ↦ m
  | inl m ↦ listed (any (λ j. j == i) ids) refl m (sym (get-release_each ids i r) ∙ h)
]
  where
    ids : List ℕ
    ids = matching_pending_read_write_ids_for_grant glob g now r

    listed :
        (b : Bool)
        → any (λ j. j == i) ids ≡ b
        → matches_request glob g q now ≡ true
        → (if b then none else Map.get i r.pending_read_write) ≡ some q
        → matches_request glob g q now ≡ false
    listed true e m k = ground (arith, k)
    listed false e m k = ground (arith, e, matching-any glob g now r i q f k m)

put_back-tables :
    (q : PendingReadWriteRequest) (id : ℕ) (waiter : Option ℕ) (r : SandboxRegistry)
    → ((put_back q id waiter r).pending_read_write ≡ Map.insert q.id q r.pending_read_write)
      × ((put_back q id waiter r).read_write_grants ≡ r.read_write_grants)
unfolding put_back put_waiter insert_pending_read_write_request
put_back-tables q id none r = (refl, refl)
put_back-tables q id (some waiter) r = (refl, refl)

-- The registry after a grant for a time, whether it served the selected request or not.
put_back_unless-unserved :
    (glob : Glob) (g : ReadWriteAccessGrant) (now : SystemTime) (r s : SandboxRegistry)
    (request : PendingReadWriteRequest) (id : ℕ) (waiter : Option ℕ) (served : Bool)
    → IsFiled r
    → s.pending_read_write
      ≡ (release_each
          (matching_pending_read_write_ids_for_grant glob g now r)
          r).0.pending_read_write
    → Map.get g.id s.read_write_grants ≡ some g
    → matches_request glob g request now ≡ served
    → (Map.get g.id (put_back_unless served request id waiter s).read_write_grants ≡ some g)
      × ((i : ℕ) (q : PendingReadWriteRequest)
          → Map.get i (put_back_unless served request id waiter s).pending_read_write ≡ some q
          → matches_request glob g q now ≡ false)
unfolding put_back_unless
put_back_unless-unserved glob g now r s request id waiter true f same kept m =
    (kept, λ i q h. unserved glob g now r i q f (ap (Map.get i) (sym same) ∙ h))
put_back_unless-unserved glob g now r s request id waiter false f same kept m = (
  ap (Map.get g.id) (put_back-tables request id waiter s).1 ∙ kept,
  λ i q h.
      elim (some-if (request.id == i) request q (Map.get i s.pending_read_write) (
        sym (Map.get-insert request.id i request s.pending_read_write)
        ∙ ap (Map.get i) (sym (put_back-tables request id waiter s).0)
        ∙ h)) [
          | inl (b, e) ↦ ap (λ p. matches_request glob g p now) (sym e) ∙ m
          | inr (b, e) ↦ unserved glob g now r i q f (ap (Map.get i) (sym same) ∙ e)
        ],
)

-- A grant for a time that `allow` makes is kept, and serves every request that waits for what it
-- grants: where each request stands under its own id, no request that the grant matches is pending
-- after it, the selected one included.
pub grant_for_subject-unserved :
    (machine : Machine) (glob : Glob) (name : Bytes) (id seconds : ℕ) (f : Grounds)
    (subject : ReadWriteGrantSubject) (r : SandboxRegistry)
    → IsFiled r
    → f.lifetime ≡ duration_request seconds
    → (Map.get r.next_operation
          (grant_for_subject machine glob name id f (some subject) r).0.read_write_grants
        ≡ some (new_grant machine name f subject r.next_operation))
      × ((i : ℕ) (q : PendingReadWriteRequest)
          → Map.get i
              (grant_for_subject machine glob name id f (some subject) r).0.pending_read_write
            ≡ some q
          → matches_request glob (new_grant machine name f subject r.next_operation) q machine.now
            ≡ false)
unfolding grant_for_subject release_by release_all lifetime_of next_operation_id
    insert_read_write_grant new_grant
grant_for_subject-unserved machine glob name id seconds f subject r filed h =
    subst Served (ap (lifetime_of machine) (sym h)) (
      put_back_unless-unserved glob g machine.now r2
        (insert_read_write_grant g (release_each ids r2).0) f.request id f.waiter
        (matches_request glob g f.request machine.now) (same_tables-IsFiled r r2 refl refl filed)
        refl
        (Map.get-insert g.id g.id g (release_each ids r2).0.read_write_grants
          ∙ rw (==_refl g.id) refl)
        refl)
  where
    g : ReadWriteAccessGrant
    g = new_grant machine name f subject r.next_operation

    r2 : SandboxRegistry
    r2 = (next_operation_id (next_operation_id r).0).0

    ids : List ℕ
    ids = matching_pending_read_write_ids_for_grant glob g machine.now r2

    after : ReadWriteGrantLifetime → SandboxRegistry
    after lifetime =
        let (r3, releases) =
          release_by lifetime g (selected_release id f.request.attach_id f.waiter)
            (matches_request glob g f.request machine.now) ids r2 in
        put_back_unless releases.selected_released f.request id f.waiter r3

    Served : ReadWriteGrantLifetime → Type 0
    Served lifetime =
        (Map.get r.next_operation (after lifetime).read_write_grants ≡ some g)
        × ((i : ℕ) (q : PendingReadWriteRequest)
            → Map.get i (after lifetime).pending_read_write ≡ some q
            → matches_request glob g q machine.now ≡ false)
