-- ===== src/Registry.antt =====
-- src/state.rs: the registry of sandboxes, pending requests, waiters, trusted operations and grants.
pub mod Partial
pub mod Index
pub mod Reinsert
pub mod Keys
pub mod Grants
pub mod Listing
pub mod Asked
pub mod Owned
pub mod Filing
use gatefs.Policy.{Glob}
use gatefs.Sort.{sort_by}
use gatefs.Path.{SandboxPath}
use gatefs.StdPath.{PathBuf}
use gatefs.Metadata.{SystemTime}
use gatefs.Sandbox.{Sandbox, u64_mod}
use gatefs.Grant.{
  GrantMatchOutcome, Intent, ReadWriteAccessGrant, ReadWriteGrantLifetime, duration, is_expired,
  matched, matches_intent, matches_request, not_matched, one_shot,
}
use gatefs.Text.{Bytes}
use gatefs.Base.{
  Bool, List, Option, [], false, find, if◌then◌else◌, leb, list_ord, map, nat_eq, nat_ord, none,
  retain, some, true, ℕ, ◌%◌, ◌&&◌, ◌++◌, ◌+◌, ◌==◌, ◌∷◌,
}
use gatefs.Pending.{
  PendingMetadataRequest, PendingOperationKey, PendingReadWriteRequest, PendingRequest,
  metadata_request, operation_key_ord, read_write_request, request_id, request_keys,
}
use gatefs.Map

pub record TrustedPathScope : Type 0 where
  pub path : SandboxPath
  pub recursive : Bool

pub record TrustedOperation : Type 0 where
  pub id : ℕ
  pub sandbox : Bytes
  pub token : Bytes
  pub pid : Option ℕ
  pub uid : Option ℕ
  pub mountpoint : PathBuf
  pub command : Bytes
  pub paths : List TrustedPathScope

-- A waiter is shared by the registry and the thread that sleeps on it: the registry holds its name.
pub record SandboxRegistry : Type 0 where
  pub sandboxes : List (Bytes × Sandbox)
  pub pending : List (ℕ × PendingMetadataRequest)
  pub pending_read_write : List (ℕ × PendingReadWriteRequest)
  pub pending_waiters : List (ℕ × ℕ)
  pub pending_index : List (PendingOperationKey × ℕ)
  pub trusted : List (Bytes × TrustedOperation)
  pub read_write_grants : List (ℕ × ReadWriteAccessGrant)
  pub next_operation : ℕ

abbrev pub new_registry : SandboxRegistry
new_registry = record {
  sandboxes = [];
  pending = [];
  pending_read_write = [];
  pending_waiters = [];
  pending_index = [];
  trusted = [];
  read_write_grants = [];
  next_operation = 1;
}

unfoldable pub next_operation_id : SandboxRegistry → SandboxRegistry × ℕ
next_operation_id r =
    (record r { next_operation = (r.next_operation + 1) % u64_mod }, r.next_operation)

unfoldable pub index_keys :
    ℕ → List PendingOperationKey → List (PendingOperationKey × ℕ) → List (PendingOperationKey × ℕ)
index_keys id [] index = index
index_keys id (k ∷ ks) index = index_keys id ks (Map.insert k id index)

unfoldable pub insert_pending_request : PendingMetadataRequest → SandboxRegistry → SandboxRegistry
unfolding index_keys
insert_pending_request q r = record r {
  pending_index = index_keys q.id (request_keys q) r.pending_index;
  pending = Map.insert q.id q r.pending;
}

unfoldable pub insert_pending_read_write_request :
    PendingReadWriteRequest → SandboxRegistry → SandboxRegistry
insert_pending_read_write_request q r = record r {
  pending_read_write = Map.insert q.id q r.pending_read_write;
}

-- `self.pending_index.get(&key) == Some(&id)`.
abbrev pub points_to : Option ℕ → ℕ → Bool
points_to none id = false
points_to (some i) id = nat_eq i id

unfoldable pub unindex_keys :
    ℕ → List PendingOperationKey → List (PendingOperationKey × ℕ) → List (PendingOperationKey × ℕ)
unindex_keys id [] index = index
unindex_keys id (k ∷ ks) index =
    unindex_keys id ks (if points_to (Map.get k index) id then Map.remove k index else index)

-- `remove_pending_request`, once the request is looked up.
unfoldable pub remove_found :
    ℕ
    → Option PendingMetadataRequest
    → SandboxRegistry
    → SandboxRegistry × Option PendingMetadataRequest
unfolding unindex_keys
remove_found id none r = (r, none)
remove_found id (some q) r = (
  record r {
    pending = Map.remove id r.pending;
    pending_index = unindex_keys id (request_keys q) r.pending_index;
  },
  some q,
)

unfoldable pub remove_pending_request :
    ℕ → SandboxRegistry → SandboxRegistry × Option PendingMetadataRequest
unfolding remove_found
remove_pending_request id r = remove_found id (Map.get id r.pending) r

unfoldable pub remove_pending_read_write_request :
    ℕ → SandboxRegistry → SandboxRegistry × Option PendingReadWriteRequest
remove_pending_read_write_request id r = (
  record r { pending_read_write = Map.remove id r.pending_read_write },
  Map.get id r.pending_read_write,
)

-- `.map(PendingRequest::ReadWrite)`.
abbrev pub as_read_write :
    SandboxRegistry × Option PendingReadWriteRequest → SandboxRegistry × Option PendingRequest
as_read_write (r, none) = (r, none)
as_read_write (r, some q) = (r, some (read_write_request q))

unfoldable pub remove_any_pending_request :
    ℕ → SandboxRegistry → SandboxRegistry × Option PendingRequest
unfolding remove_pending_request remove_pending_read_write_request
remove_any_pending_request id r =
    let (s, q) = remove_pending_request id r in
    elim q [
      | some m ↦ (s, some (metadata_request m))
      | none ↦ as_read_write (remove_pending_read_write_request id s)
    ]

unfoldable pub insert_any_pending_request : PendingRequest → SandboxRegistry → SandboxRegistry
unfolding insert_pending_request insert_pending_read_write_request
insert_any_pending_request (metadata_request q) = insert_pending_request q
insert_any_pending_request (read_write_request q) = insert_pending_read_write_request q

unfoldable pub pending_requests_for_sandbox : Bytes → SandboxRegistry → List PendingRequest
pending_requests_for_sandbox name r =
    sort_by (λ a b. leb (request_id a) (request_id b))
      (map metadata_request (retain (λ q. q.sandbox == name) (Map.values r.pending))
        ++ map read_write_request
            (retain (λ q. q.sandbox == name) (Map.values r.pending_read_write)))

unfoldable pub insert_read_write_grant : ReadWriteAccessGrant → SandboxRegistry → SandboxRegistry
insert_read_write_grant g r = record r { read_write_grants = Map.insert g.id g r.read_write_grants }

abbrev pub is_expired_in : Bytes → SystemTime → ReadWriteAccessGrant → Bool
is_expired_in sandbox now g = g.sandbox == sandbox && is_expired g.lifetime now

abbrev keep_some {ℓ} : {A : Type ℓ} → Option A → List A → List A
keep_some none rest = rest
keep_some (some a) rest = a ∷ rest

-- `ids.into_iter().filter_map(|id| self.read_write_grants.remove(&id))`.
unfoldable pub remove_grants :
    List ℕ
    → List (ℕ × ReadWriteAccessGrant)
    → List (ℕ × ReadWriteAccessGrant) × List ReadWriteAccessGrant
remove_grants [] grants = (grants, [])
remove_grants (id ∷ ids) grants =
    let (left, gone) = remove_grants ids (Map.remove id grants) in
    (left, keep_some (Map.get id grants) gone)

unfoldable pub prune_expired_read_write_grants_for_sandbox :
    Bytes → SystemTime → SandboxRegistry → SandboxRegistry × List ReadWriteAccessGrant
unfolding remove_grants
prune_expired_read_write_grants_for_sandbox sandbox now r =
    let ids = Map.keys (retain (λ e. is_expired_in sandbox now e.1) r.read_write_grants) in
    let (left, gone) = remove_grants ids r.read_write_grants in
    (record r { read_write_grants = left }, gone)

abbrev pub is_one_shot_lifetime : ReadWriteGrantLifetime → Bool
is_one_shot_lifetime one_shot = true
is_one_shot_lifetime (duration expires_at) = false

-- `matches!(self.read_write_grants.get(&grant_id).map(|grant| grant.lifetime), Some(OneShot))`.
abbrev pub is_one_shot : Option ReadWriteAccessGrant → Bool
is_one_shot none = false
is_one_shot (some g) = is_one_shot_lifetime g.lifetime

-- What follows the search: a one-shot grant is removed.
unfoldable pub consume : ℕ → SandboxRegistry → SandboxRegistry × GrantMatchOutcome
consume id r =
    if is_one_shot (Map.get id r.read_write_grants)
    then (record r { read_write_grants = Map.remove id r.read_write_grants }, matched id true)
    else (r, matched id false)

-- What the search found: no grant, or the id of one.
unfoldable pub match_found :
    Option (ℕ × ReadWriteAccessGrant) → SandboxRegistry → SandboxRegistry × GrantMatchOutcome
unfolding consume
match_found none r = (r, not_matched)
match_found (some e) r = consume e.0 r

unfoldable pub match_read_write_grant_for_intent :
    Glob → Intent → SystemTime → SandboxRegistry → SandboxRegistry × GrantMatchOutcome
unfolding match_found
match_read_write_grant_for_intent glob i now r =
    match_found (find (λ e. matches_intent glob e.1 i now) r.read_write_grants) r

unfoldable pub matching_pending_read_write_ids_for_grant :
    Glob → ReadWriteAccessGrant → SystemTime → SandboxRegistry → List ℕ
matching_pending_read_write_ids_for_grant glob g now r =
    map (λ q. q.id) (retain (λ q. matches_request glob g q now) (Map.values r.pending_read_write))
