-- ===== src/Session.antt =====
-- src/session.rs: what a session does with its sandboxes: layers, hide rules, rules, listings.
pub mod Decide
pub mod Scope
pub mod Allow
pub mod Release
pub mod Finish
pub mod Attach
pub mod Detach
pub mod Handle
pub mod Board
pub mod Taken
pub mod Refine
pub mod Sweep
pub mod CancelAll
pub mod Serve
pub mod Stays
pub mod StaysAll
pub mod Live
pub mod Reach
use gatefs.Sandbox.Objects.{metadata_differences}
use gatefs.Path.{SandboxPath, as_str}
use gatefs.StdPath.{PathBuf, display}
use gatefs.World.{Outside, World, append_line}
use gatefs.Registry.{
  SandboxRegistry, TrustedOperation, next_operation_id, pending_requests_for_sandbox,
}
use gatefs.Error.{Error, Result, err, message, ok}
use gatefs.Ipc.{Response, bypass_rules, done, pending_items, protection_rules, text}
use gatefs.Policy.{
  Include, PolicyPattern, ProtectionKind, ProtectionRuleResult, kind_log_name, rule_result_log_name,
}
use gatefs.Sandbox.{
  Sandbox, add_bypass, add_hide, add_layer, list_bypass_rules, list_protection_rules,
  protect as sandbox_protect, remove_bypass, remove_layer, unprotect as sandbox_unprotect,
}
use gatefs.Text.{Bytes, bytes}
use gatefs.Base.{
  Bool, List, Option, [], any, if◌then◌else◌, is_empty, is_some, list_ord, map, nat_eq, nat_ord,
  none, not, some, ℕ, ◌++◌, ◌||◌, ◌∷◌,
}
use gatefs.Map

-- An operation's outcome: the world after it, and its response or error.
abbrev pub Outcome : Type 0
Outcome = World × Result Response

abbrev pub not_found : Bytes → Error
not_found name = message (bytes "sandbox not found: " ++ name)

abbrev pub with_registry : World → SandboxRegistry → World
with_registry w r = record w { registry = r }

-- `registry.sandboxes.get_mut(name)`, with the sandbox that is put back.
abbrev pub put_sandbox : Bytes → Sandbox → World → World
put_sandbox name s w = record w {
  registry = record w.registry { sandboxes = Map.insert name s w.registry.sandboxes };
}

unfoldable pub validate_name : Bytes → Result (Unit {0})
validate_name name =
    if is_empty name || (any (λ b. nat_eq b b'/') name || any (λ b. nat_eq b 0) name)
    then err (message (bytes "invalid sandbox name: " ++ name))
    else ok tt

module _ (outside : Outside) where
  -- `log_writer.append(…)?` and then `Ok(response)`.
  unfoldable pub append_or_fail : PathBuf → ℕ → Bytes → Response → World → Outcome
  unfolding append_line
  append_or_fail log id body response w =
      let (v, written) = append_line outside log id body w in
      if written
      then (v, ok response)
      else (v, err (outside.log_error (record { log_path = log; id = id; body = body })))

  -- The shape of the operations that change one sandbox: an id, the sandbox, the change, its line.
  unfoldable pub change_found :
      Bytes → ℕ → Option Sandbox → (Sandbox → Sandbox × Bytes) → World → Outcome
  unfolding append_or_fail
  change_found name id none change w = (w, err (not_found name))
  change_found name id (some s) change w =
      let (s', body) = change s in append_or_fail s.log_path id body done (put_sandbox name s' w)

  unfoldable pub change_sandbox : Bytes → (Sandbox → Sandbox × Bytes) → World → Outcome
  unfolding change_found next_operation_id
  change_sandbox name change w =
      let (r, id) = next_operation_id w.registry in
      change_found name id (Map.get name r.sandboxes) change (with_registry w r)

  -- `fs::canonicalize` and `exists` of the host, then the mount.
  unfoldable pub mount_layer :
      (PathBuf → Result PathBuf)
      → (PathBuf → Bool)
      → Bytes
      → PathBuf
      → SandboxPath
      → World
      → Outcome
  unfolding change_sandbox
  mount_layer canonicalize exists name local on_fs w = elim (canonicalize local) [
    | err e ↦ (w, err e)
    | ok real_local ↦
        if not (exists real_local)
        then (w, err (message (bytes "local path does not exist: " ++ display real_local)))
        else change_sandbox name
            (λ s. (
              (add_layer real_local on_fs s).0,
              bytes "mount local=" ++ display real_local ++ bytes " path=" ++ as_str on_fs,
            ))
            w
  ]

  -- Where no layer is mounted at the path, the id is used and the sandbox is left as it was.
  unfoldable pub umount_found : Bytes → ℕ → SandboxPath → Option Sandbox → World → Outcome
  unfolding append_or_fail
  umount_found name id on_fs none w = (w, err (not_found name))
  umount_found name id on_fs (some s) w =
      let (s', removed_one) = remove_layer on_fs s in
      if not removed_one
      then (w, err (message (bytes "no mount at " ++ as_str on_fs)))
      else append_or_fail s.log_path id (bytes "umount path=" ++ as_str on_fs) done
          (put_sandbox name s' w)

  unfoldable pub umount_layer : Bytes → SandboxPath → World → Outcome
  unfolding umount_found next_operation_id
  umount_layer name on_fs w =
      let (r, id) = next_operation_id w.registry in
      umount_found name id on_fs (Map.get name r.sandboxes) (with_registry w r)

  unfoldable pub hide_path : Bytes → SandboxPath → World → Outcome
  unfolding change_sandbox
  hide_path name on_fs =
      change_sandbox name (λ s. ((add_hide on_fs s).0, bytes "hide path=" ++ as_str on_fs))

  -- The line of a change of the rules.
  unfoldable pub rule_body : Bytes → ProtectionKind → PolicyPattern → ProtectionRuleResult → Bytes
  rule_body operation kind pattern result =
      operation
      ++ (bytes " kind="
          ++ (kind_log_name kind
              ++ (bytes " pattern="
                  ++ (pattern.raw ++ (bytes " result=" ++ rule_result_log_name result)))))

  abbrev pub rule_change :
      Bytes
      → (ProtectionKind → PolicyPattern → Sandbox → Sandbox × ProtectionRuleResult)
      → ProtectionKind
      → PolicyPattern
      → Sandbox
      → Sandbox × Bytes
  rule_change operation change kind pattern s =
      let (s', result) = change kind pattern s in (s', rule_body operation kind pattern result)

  unfoldable pub protect_path : Bytes → ProtectionKind → PolicyPattern → World → Outcome
  unfolding change_sandbox rule_body
  protect_path name kind pattern =
      change_sandbox name (rule_change (bytes "protect") sandbox_protect kind pattern)

  unfoldable pub unprotect_path : Bytes → ProtectionKind → PolicyPattern → World → Outcome
  unfolding change_sandbox rule_body
  unprotect_path name kind pattern =
      change_sandbox name (rule_change (bytes "unprotect") sandbox_unprotect kind pattern)

  unfoldable pub bypass_path : Bytes → ProtectionKind → PolicyPattern → World → Outcome
  unfolding change_sandbox rule_body
  bypass_path name kind pattern =
      change_sandbox name (rule_change (bytes "bypass") add_bypass kind pattern)

  unfoldable pub unbypass_path : Bytes → ProtectionKind → PolicyPattern → World → Outcome
  unfolding change_sandbox rule_body
  unbypass_path name kind pattern =
      change_sandbox name (rule_change (bytes "unbypass") remove_bypass kind pattern)

-- The shape of the listings of one sandbox.
unfoldable pub answer_found : Bytes → Option Sandbox → (Sandbox → Response) → Result Response
answer_found name none answer = err (not_found name)
answer_found name (some s) answer = ok (answer s)

unfoldable pub answer : Bytes → (Sandbox → Response) → World → Outcome
unfolding answer_found
answer name f w = (w, answer_found name (Map.get name w.registry.sandboxes) f)

unfoldable pub list_protection_response : Bytes → Include → World → Outcome
unfolding answer
list_protection_response name i = answer name (λ s. protection_rules (list_protection_rules i s))

unfoldable pub list_bypass_response : Bytes → Include → World → Outcome
unfolding answer
list_bypass_response name i = answer name (λ s. bypass_rules (list_bypass_rules i s))

-- Texts joined by line ends.
unfoldable pub join_lines : List Bytes → Bytes
join_lines [] = []
join_lines (s ∷ []) = s
join_lines (s ∷ t ∷ ts) = s ++ 10 ∷ join_lines (t ∷ ts)

unfoldable pub list_mounts_response : Bytes → World → Outcome
unfolding answer join_lines
list_mounts_response name = answer name (λ s. text (
    join_lines (
      map (λ l. display l.local ++ (bytes " on " ++ as_str l.on_fs)) s.layers
      ++ map (λ h. bytes "hide " ++ as_str h.path) s.hides)))

unfoldable pub metadata_response : Bytes → World → Outcome
unfolding answer join_lines
metadata_response name = answer name (λ s. text (join_lines (map as_str (metadata_differences s))))

unfoldable pub log_path_response : Bytes → World → Outcome
unfolding answer
log_path_response name = answer name (λ s. text (display s.log_path))

-- `pending`: whether the sandbox is there, and its requests.
unfoldable pub pending_response : Bytes → World → Outcome
pending_response name w =
    if is_some (Map.get name w.registry.sandboxes)
    then (w, ok (pending_items (pending_requests_for_sandbox name w.registry)))
    else (w, err (not_found name))

-- `register_trusted_pid`, once the operation is looked up.
unfoldable pub register_found : Bytes → ℕ → ℕ → Option TrustedOperation → World → Outcome
register_found token process user none w =
    (w, err (message (bytes "trusted operation not found: " ++ token)))
register_found token process user (some t) w = (
  with_registry w (record w.registry {
    trusted =
        Map.insert token (record t { pid = some process; uid = some user }) w.registry.trusted;
  }),
  ok done,
)

unfoldable pub register_trusted : Bytes → ℕ → ℕ → World → Outcome
unfolding register_found
register_trusted token process user w =
    register_found token process user (Map.get token w.registry.trusted) w
