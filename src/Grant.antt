-- ===== src/Grant.antt =====
-- src/state.rs: grants of read and write access, whom they serve and until when.
use gatefs.Metadata.{SystemTime}
use gatefs.Path.{SandboxPath}
use gatefs.Text.{Bytes, bytes}
use gatefs.Base.{
  Bool, List, Option, any, false, if◌then◌else◌, leb, length, list_ord, nat_eq, nat_ord, none, not,
  pair_ord, some, ℕ, ◌&&◌, ◌*◌, ◌+◌, ◌-◌, ◌/◌, ◌==◌, ◌^◌,
}
use gatefs.Pending.{PendingReadWriteRequest, ProcessIdentityEvidence, process_identity_ord}
use gatefs.Policy.{Glob, ProtectionKind, matches, pattern_of_path, protection_kind_ord}

-- A point of time in milliseconds of the epoch; a time before the epoch reads 0, as the model's
-- times do.
unfoldable pub epoch_millis : SystemTime → ℕ
epoch_millis time = time / 1000000

-- The last time that the host's clock type holds, in nanoseconds.
module _ (last_time : SystemTime) where
  -- `checked_add`, and the greatest `u128` where it fails.
  unfoldable pub duration_expires_at : SystemTime → ℕ → ℕ
  unfolding epoch_millis
  duration_expires_at now nanos =
      if leb (now + nanos) last_time then epoch_millis (now + nanos) else 2 ^ 128 - 1

-- `DEFAULT_READ_WRITE_GRANT_DURATION`, in nanoseconds.
abbrev default_read_write_grant_duration : ℕ
default_read_write_grant_duration = 30 * 60 * 1000000000

pub data ReadWriteGrantLifetimeRequest : Type 0 where
  one_shot_request : ReadWriteGrantLifetimeRequest
  duration_request : ℕ → ReadWriteGrantLifetimeRequest

pub record ReadWriteGrantOptions : Type 0 where
  pub path : Option SandboxPath
  pub lifetime : ReadWriteGrantLifetimeRequest
  pub tree : Bool

pub data ReadWriteGrantLifetime : Type 0 where
  one_shot : ReadWriteGrantLifetime
  duration : ℕ → ReadWriteGrantLifetime

unfoldable pub lifetime_log_name : ReadWriteGrantLifetime → Bytes
lifetime_log_name one_shot = bytes "one-shot"
lifetime_log_name (duration expires_at) = bytes "duration"

unfoldable pub is_expired : ReadWriteGrantLifetime → SystemTime → Bool
unfolding epoch_millis
is_expired one_shot now = false
is_expired (duration expires_at) now = leb expires_at (epoch_millis now)

pub data ReadWriteGrantSubject : Type 0 where
  exact : ProcessIdentityEvidence → ReadWriteGrantSubject
  process_tree : List ProcessIdentityEvidence → ReadWriteGrantSubject

unfoldable pub subject_log_name : ReadWriteGrantSubject → Bytes
subject_log_name (exact identity) = bytes "exact"
subject_log_name (process_tree identities) = bytes "process-tree"

unfoldable pub subject_matches : ReadWriteGrantSubject → Option ProcessIdentityEvidence → Bool
subject_matches subject none = false
subject_matches (exact expected) (some identity) = expected == identity
subject_matches (process_tree identities) (some identity) = any (λ i. i == identity) identities

unfoldable pub subject_len : ReadWriteGrantSubject → ℕ
subject_len (exact identity) = 1
subject_len (process_tree identities) = length identities

unfoldable subject_is_empty : ReadWriteGrantSubject → Bool
unfolding subject_len
subject_is_empty subject = nat_eq (subject_len subject) 0

pub record ReadWriteAccessGrant : Type 0 where
  pub id : ℕ
  pub sandbox : Bytes
  pub kind : ProtectionKind
  pub path_pattern : SandboxPath
  pub subject : ReadWriteGrantSubject
  pub lifetime : ReadWriteGrantLifetime
  pub created_at : ℕ

unfoldable pub grant_pattern_matches : Glob → SandboxPath → SandboxPath → Bool
grant_pattern_matches glob pattern path = matches glob (pattern_of_path pattern) path false

-- What an access is: its sandbox, its kind, its path and who asks.
pub record Intent : Type 0 where
  pub sandbox : Bytes
  pub kind : ProtectionKind
  pub path : SandboxPath
  pub identity : Option ProcessIdentityEvidence

unfoldable pub matches_intent : Glob → ReadWriteAccessGrant → Intent → SystemTime → Bool
matches_intent glob g i now =
    g.sandbox == i.sandbox
    && (g.kind == i.kind
        && (not (is_expired g.lifetime now)
            && (grant_pattern_matches glob g.path_pattern i.path
                && subject_matches g.subject i.identity)))

unfoldable pub matches_request :
    Glob → ReadWriteAccessGrant → PendingReadWriteRequest → SystemTime → Bool
matches_request glob g r now =
    g.sandbox == r.sandbox
    && (g.kind == r.kind
        && (not (is_expired g.lifetime now)
            && (grant_pattern_matches glob g.path_pattern r.path
                && subject_matches g.subject r.process_identity)))

pub data GrantMatchOutcome : Type 0 where
  matched : ℕ → Bool → GrantMatchOutcome
  not_matched : GrantMatchOutcome
