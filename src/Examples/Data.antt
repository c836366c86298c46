-- ===== src/Examples/Data.antt =====
-- The paths, sandboxes, requests and grants that the examples run on.
use gatefs.Error.{message, ok}
use gatefs.Fs.{Access}
use gatefs.World.{Outside, World}
use gatefs.Grant.{Intent, ReadWriteAccessGrant, exact, one_shot}
use gatefs.Registry.{SandboxRegistry, new_registry}
use gatefs.Base.{
  [], ap, arith, cmp_list, false, length, list_ord, nat_ord, none, refl, some, true, ◌==◌, ◌∷◌, ◌≡◌,
  ◌≢◌,
}
use gatefs.Policy.{Glob, PolicyPattern, read}
use gatefs.Operation.{read_file}
use gatefs.Metadata.{chmod, mode}
use gatefs.Pending.{PendingMetadataRequest, ProcessIdentityEvidence, apply}
use gatefs.Path.Normal.{IsName, IsNormal, rooted}
use gatefs.Sandbox.{MetadataObjectKey, Sandbox, add_layer, new_sandbox}
use gatefs.StdPath.{PathBuf, component, path_starts_with, path_text, root_path}
use gatefs.Sandbox.Invariant.{IsWell, add_layer-IsWell, new_sandbox-IsWell}
use gatefs.Path.{SandboxPath, root, starts_with}
use gatefs.Text.{bytes}

-- `/docs`, `/docs/a` and `/tmp`.
abbrev pub docs : SandboxPath
docs = record { inner = rooted (bytes "docs" ∷ []) }

abbrev pub docs_a : SandboxPath
docs_a = record { inner = rooted (bytes "docs" ∷ bytes "a" ∷ []) }

abbrev pub tmp : SandboxPath
tmp = record { inner = rooted (bytes "tmp" ∷ []) }

docs-IsName : IsName (bytes "docs")
unfolding component cmp_list
docs-IsName = (refl, (refl, (refl, (refl, (refl, tt)))))

pub a-IsName : IsName (bytes "a")
unfolding component cmp_list
a-IsName = (refl, (refl, tt))

pub docs-IsNormal : IsNormal docs.inner
docs-IsNormal = (bytes "docs" ∷ [], refl, (docs-IsName, tt))

pub docs_a-IsNormal : IsNormal docs_a.inner
docs_a-IsNormal = (bytes "docs" ∷ bytes "a" ∷ [], refl, (docs-IsName, (a-IsName, tt)))

pub docs_a-starts_with : starts_with docs_a docs ≡ true
unfolding starts_with path_starts_with cmp_list
docs_a-starts_with = refl

abbrev pub home : PathBuf
home = rooted (bytes "home" ∷ [])

-- A sandbox with `home` mounted at `/docs`.
abbrev pub empty_sandbox : Sandbox
empty_sandbox = new_sandbox (bytes "box") home

abbrev pub box : Sandbox
box = (add_layer home docs empty_sandbox).0

pub empty-IsWell : IsWell empty_sandbox
empty-IsWell = new_sandbox-IsWell (bytes "box") home

pub box-IsWell : IsWell box
box-IsWell = add_layer-IsWell empty_sandbox home docs (omega arith) docs-IsNormal empty-IsWell

pub docs_a-not_root : docs_a.inner ≢ root_path
docs_a-not_root e = ground (arith, ap length e)

pub docs_a-not_docs : docs_a ≢ docs
docs_a-not_docs e = ground (arith, ap (λ p. length p.inner) e)

pub docs-not_root : docs ≢ root
docs-not_root e = ground (arith, ap (λ p. length p.inner) e)

-- A matcher of literal patterns, for the crate `glob`.
abbrev pub literal_glob : Glob
literal_glob = record {
  compile_error = λ pattern. none;
  matches_path = λ pattern path. pattern == path_text path;
}

abbrev pub docs_pattern : PolicyPattern
docs_pattern = record { raw = bytes "/docs"; directory_only = false }

-- Process 7 asks to read `/docs`.
abbrev pub reader : ProcessIdentityEvidence
reader = record { pid = 7; start_time = 1 }

abbrev docs_grant : ReadWriteAccessGrant
docs_grant = record {
  id = 1;
  sandbox = bytes "box";
  kind = read;
  path_pattern = docs;
  subject = exact reader;
  lifetime = one_shot;
  created_at = 0;
}

abbrev pub docs_intent : Intent
docs_intent = record { sandbox = bytes "box"; kind = read; path = docs; identity = some reader }

abbrev pub granted : SandboxRegistry
granted = record new_registry {
  sandboxes = (bytes "box", box) ∷ [];
  read_write_grants = (1, docs_grant) ∷ [];
  next_operation = 2;
}

abbrev pub docs_key : MetadataObjectKey
docs_key = record { layer_id = 1; relative_path = [] }

abbrev pub docs_request : PendingMetadataRequest
docs_request = record {
  id = 1;
  sandbox = bytes "box";
  attach_id = none;
  operation = chmod docs 420;
  object = docs_key;
  kinds = mode ∷ [];
  pid = 7;
  uid = 1000;
  gid = 1000;
  description = bytes "path=/docs CHMOD mode=0644";
}

abbrev pub outside : Outside
outside = record {
  host = record { is_dir = λ p. true; read_dir = λ p. ok [] };
  glob = literal_glob;
  accepts = λ line lines. true;
  log_error = λ line. message (bytes "log writer stopped");
}

abbrev pub read_access : Access
read_access = record {
  fs = record { sandbox_name = bytes "box"; attach_id = none };
  requester = record { pid = 7; uid = 1000; gid = 1000 };
  process_identity = some reader;
  now = 5;
  operation = read_file docs;
}

abbrev pub world : World
world = record { registry = granted; log = []; decided = (0, apply) ∷ []; next_waiter = 1 }
