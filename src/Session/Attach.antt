-- ===== src/Session/Attach.antt =====
-- src/session.rs: the mounts of a session: `create_initial`, `attach`, `detach`, and what rests on them.
use gatefs.Runtime.{RuntimePaths, sandbox_log_path}
use gatefs.Ipc.{Response, done}
use gatefs.Registry.{next_operation_id}
use gatefs.World.{Outside, World}
use gatefs.Session.{Outcome, append_or_fail, not_found, put_sandbox, validate_name, with_registry}
use gatefs.StdPath.{PathBuf, is_absolute, join_path, display, component_ord}
use gatefs.Sandbox.{Sandbox, new_sandbox}
use gatefs.Error.{Error, Result, err, message, ok, ◌>>=◌}
use gatefs.Base.{
  Bool, List, Option, [], if◌then◌else◌, is_some, nat_eq, none, not, retain, some, true, ℕ, ◌&&◌,
  ◌++◌, ◌==◌, ◌∷◌, list_ord, nat_ord,
}
use gatefs.Text.{Bytes, bytes, decimal}
use gatefs.Map

-- What the operating system answers to a session: its files, its mounts, its own process.
pub record Platform : Type 0 where
  pub canonicalize : PathBuf → Result PathBuf
  pub is_dir : PathBuf → Bool
  pub exists : PathBuf → Bool
  pub current_dir : Result PathBuf
  pub spawn_mount : Bytes → ℕ → PathBuf → Result (Unit {0})
  pub umount_and_join : ℕ → Result (Unit {0})
  pub create_dir_all : PathBuf → Result (Unit {0})
  pub remove_dir : PathBuf → Result (Unit {0})
  pub reset_log : PathBuf → Result (Unit {0})
  pub remove_log : PathBuf → Result (Unit {0})
  pub process_id : ℕ

-- The background session is known by its attach id.
pub record MountedSession : Type 0 where
  pub sandbox : Bytes
  pub attach_id : ℕ
  pub mountpoint : PathBuf
  pub temporary : Bool

pub record SessionState : Type 0 where
  pub world : World
  pub runtime : RuntimePaths
  pub mounts : List MountedSession

abbrev pub Answer : Type 0
Answer = SessionState × Result Response

-- An operation on the world, as one of the session.
abbrev pub in_session : SessionState → Outcome → Answer
in_session s (w, r) = (record s { world = w }, r)

-- The lines of one log are gone.
abbrev pub clear_log : PathBuf → World → World
clear_log path w = record w { log = retain (λ l. not (l.log_path == path)) w.log }

abbrev pub not_attached : Bytes → PathBuf → Error
not_attached name mountpoint =
    message (
      bytes "mountpoint is not attached to sandbox "
      ++ (name ++ (bytes ": " ++ display mountpoint)))

-- A sandbox that has the mount point already.
unfoldable pub attached_to : PathBuf → List (Bytes × Sandbox) → Option Bytes
attached_to mountpoint [] = none
attached_to mountpoint (e ∷ es) =
    if is_some (Map.get mountpoint e.1.attaches) then some e.0 else attached_to mountpoint es

unfoldable pub already_attached : Bytes → PathBuf → Bytes → Error
already_attached name mountpoint other =
    if other == name
    then message (bytes "mountpoint already attached: " ++ display mountpoint)
    else message (
        bytes "mountpoint already used by sandbox "
        ++ (other ++ (bytes ": " ++ display mountpoint)))

unfoldable pub is_session : Bytes → ℕ → PathBuf → MountedSession → Bool
is_session name attach_id mountpoint m =
    m.sandbox == name && (nat_eq m.attach_id attach_id && m.mountpoint == mountpoint)

-- `position`, and `remove` at it: the first of the sessions that pass.
unfoldable pub remove_session :
    (MountedSession → Bool) → List MountedSession → Option (MountedSession × List MountedSession)
remove_session test [] = none
remove_session test (m ∷ ms) =
    let rest = remove_session test ms in
    if test m
    then some (m, ms)
    else elim rest [ none ↦ none | some found ↦ some (found.0, m ∷ found.1) ]

module _ (platform : Platform) where
  unfoldable pub create_initial : Bytes → SessionState → SessionState × Result (Unit {0})
  unfolding validate_name sandbox_log_path
  create_initial name s = elim (validate_name name) [
    | err e ↦ (s, err e)
    | ok u ↦
        let log = sandbox_log_path s.runtime name in
        elim (platform.reset_log log) [
          | err e ↦ (s, err e)
          | ok u ↦ (
            record s { world = put_sandbox name (new_sandbox name log) (clear_log log s.world) },
            ok tt,
          )
        ]
  ]

  unfoldable pub check_dir : PathBuf → Result PathBuf
  check_dir path =
      if platform.is_dir path
      then ok path
      else err (message (bytes "mountpoint is not a directory: " ++ display path))

  unfoldable pub canonicalize_existing_dir : PathBuf → Result PathBuf
  unfolding check_dir
  canonicalize_existing_dir path = do canonical ← platform.canonicalize path; check_dir canonical

  unfoldable pub canonicalize_maybe_existing : PathBuf → Result PathBuf
  canonicalize_maybe_existing path =
      if platform.exists path
      then platform.canonicalize path
      else if is_absolute path
      then ok path
      else do dir ← platform.current_dir; ok (join_path dir path)

module _ (platform : Platform) (outside : Outside) where
  -- After the mount: the session is kept, then the sandbox's entry and the line.
  unfoldable pub attach_mounted :
      Bytes → ℕ → ℕ → PathBuf → PathBuf → Bool → Option Sandbox → World → Outcome
  unfolding append_or_fail
  attach_mounted name attach_id event_id log mountpoint temporary none w = (w, err (not_found name))
  attach_mounted name attach_id event_id log mountpoint temporary (some sb) w =
      append_or_fail outside log event_id
        (bytes "attach attach="
          ++ (decimal attach_id ++ (bytes " mountpoint=" ++ display mountpoint)))
        done
        (put_sandbox name
          (record sb {
            attaches =
                Map.insert mountpoint
                  (record {
                    id = attach_id;
                    mountpoint = mountpoint;
                    temporary = temporary;
                    active = true;
                  })
                  sb.attaches;
          })
          w)

  unfoldable pub attach_spawn :
      Bytes → ℕ → ℕ → PathBuf → Bool → Option Sandbox → SessionState → Answer
  unfolding attach_mounted
  attach_spawn name attach_id event_id mountpoint temporary none s = (s, err (not_found name))
  attach_spawn name attach_id event_id mountpoint temporary (some sb) s =
      elim (platform.spawn_mount name attach_id mountpoint) [
        | err e ↦ (s, err e)
        | ok u ↦
            in_session
              (record s {
                mounts =
                    s.mounts
                    ++ record {
                      sandbox = name;
                      attach_id = attach_id;
                      mountpoint = mountpoint;
                      temporary = temporary;
                    }
                      ∷ [];
              })
              (attach_mounted name attach_id event_id sb.log_path mountpoint temporary
                (Map.get name s.world.registry.sandboxes) s.world)
      ]

  unfoldable pub attach_canonical : Bytes → PathBuf → Bool → SessionState → Answer
  unfolding attached_to already_attached attach_spawn next_operation_id
  attach_canonical name mountpoint temporary s =
      if not (is_some (Map.get name s.world.registry.sandboxes))
      then (s, err (not_found name))
      else elim (attached_to mountpoint s.world.registry.sandboxes) [
        | some other ↦ (s, err (already_attached name mountpoint other))
        | none ↦
            let (r1, attach_id) = next_operation_id s.world.registry in
            let (r2, event_id) = next_operation_id r1 in
            attach_spawn name attach_id event_id mountpoint temporary (Map.get name r2.sandboxes)
              (record s { world = with_registry s.world r2 })
      ]

  unfoldable pub attach : Bytes → PathBuf → Bool → SessionState → Answer
  unfolding canonicalize_existing_dir attach_canonical
  attach name mountpoint temporary s = elim (canonicalize_existing_dir platform mountpoint) [
    | err e ↦ (s, err e)
    | ok canonical ↦ attach_canonical name canonical temporary s
  ]
