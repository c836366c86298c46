-- ===== src/Session/Detach.antt =====
-- src/session.rs: the ends of mounts: `detach`, `destroy`, trusted operations, `cancel_all` of a view.
use gatefs.World.{Outside, World}
use gatefs.Sandbox.{Sandbox}
use gatefs.StdPath.{PathBuf, components, display, component_ord}
use gatefs.Registry.{SandboxRegistry, TrustedOperation, TrustedPathScope, next_operation_id}
use gatefs.Session.Attach.{
  Answer, MountedSession, Platform, SessionState, attach, canonicalize_maybe_existing, clear_log,
  in_session, is_session, not_attached, remove_session,
}
use gatefs.Session.Scope.{cancel_all_requests, cancel_attached_view}
use gatefs.Ipc.{done, trusted}
use gatefs.Error.{Result, err, message, ok}
use gatefs.Session.{Outcome, append_or_fail, not_found, put_sandbox, with_registry}
use gatefs.Base.{
  List, Option, [], if◌then◌else◌, is_some, none, not, retain, some, true, ℕ, ◌++◌, ◌==◌, ◌∷◌,
  list_ord, nat_ord,
}
use gatefs.Text.{Bytes, bytes, decimal}
use gatefs.Map

-- `sandbox.attaches.remove`, where the sandbox is still there.
unfoldable pub forget_attach : Bytes → PathBuf → Option Sandbox → World → World
forget_attach name mountpoint none w = w
forget_attach name mountpoint (some sb) w =
    put_sandbox name (record sb { attaches = Map.remove mountpoint sb.attaches }) w

-- The attach of a mount point, with its sandbox.
unfoldable pub attach_entry : Bytes → PathBuf → Option Sandbox → Result (ℕ × PathBuf)
attach_entry name mountpoint none = err (not_found name)
attach_entry name mountpoint (some sb) = elim (Map.get mountpoint sb.attaches) [
  | none ↦ err (not_attached name mountpoint)
  | some a ↦ ok (a.id, sb.log_path)
]

-- The sandbox's trusted operations are forgotten.
abbrev pub forget_trusted : Bytes → World → World
forget_trusted name w =
    with_registry w
      (record w.registry { trusted = retain (λ e. not (e.1.sandbox == name)) w.registry.trusted })

module _ (platform : Platform) (outside : Outside) where
  -- After the session is taken out of the list.
  unfoldable pub detach_session :
      Bytes
      → PathBuf
      → ℕ
      → PathBuf
      → Option (MountedSession × List MountedSession)
      → SessionState
      → Answer
  unfolding forget_attach append_or_fail next_operation_id
  detach_session name mountpoint attach_id log none s =
      (s, err (message (bytes "mount session not found: " ++ display mountpoint)))
  detach_session name mountpoint attach_id log (some entry) s =
      elim (platform.umount_and_join attach_id) [
        | err e ↦ (record s { mounts = entry.1 }, err e)
        | ok u ↦
            let (r, event_id) = next_operation_id s.world.registry in
            in_session (record s { mounts = entry.1 })
              (append_or_fail outside log event_id (bytes "detach attach=" ++ decimal attach_id)
                done
                (forget_attach name mountpoint (Map.get name r.sandboxes)
                  (with_registry s.world r)))
      ]

  unfoldable pub detach_canonical : Bytes → PathBuf → SessionState → Answer
  unfolding attach_entry detach_session remove_session cancel_attached_view
  detach_canonical name mountpoint s =
      elim (attach_entry name mountpoint (Map.get name s.world.registry.sandboxes)) [
        | err e ↦ (s, err e)
        | ok entry ↦
            let w = (cancel_attached_view outside name entry.0 (bytes "detach") s.world).0 in
            detach_session name mountpoint entry.0 entry.1
              (remove_session (is_session name entry.0 mountpoint) s.mounts)
              (record s { world = w })
      ]

  unfoldable pub detach : Bytes → PathBuf → SessionState → Answer
  unfolding canonicalize_maybe_existing detach_canonical
  detach name mountpoint s = elim (canonicalize_maybe_existing platform mountpoint) [
    | err e ↦ (s, err e)
    | ok canonical ↦ detach_canonical name canonical s
  ]

  -- The loop of `destroy`, which ends at the first error.
  unfoldable pub detach_each : Bytes → List PathBuf → SessionState → Answer
  unfolding detach
  detach_each name [] s = (s, ok done)
  detach_each name (p ∷ ps) s =
      let (s1, r) = detach name p s in
      let rest = detach_each name ps s1 in elim r [ err e ↦ (s1, err e) | ok u ↦ rest ]

  -- The sandbox is taken out, and then its log.
  unfoldable pub destroy_removed : Bytes → Option Sandbox → SessionState → Answer
  destroy_removed name none s = (s, ok done)
  destroy_removed name (some sb) s =
      let w =
        with_registry s.world
          (record s.world.registry { sandboxes = Map.remove name s.world.registry.sandboxes }) in
      elim (platform.remove_log sb.log_path) [
        | err e ↦ (record s { world = w }, err e)
        | ok u ↦ (record s { world = clear_log sb.log_path w }, ok done)
      ]

  abbrev pub destroy_detached : Bytes → Answer → Answer
  unfolding destroy_removed
  destroy_detached name (s, err e) = (s, err e)
  destroy_detached name (s, ok u) = destroy_removed name (Map.get name s.world.registry.sandboxes) s

  unfoldable pub destroy_found : Bytes → Option Sandbox → SessionState → Answer
  unfolding detach_each destroy_removed cancel_all_requests
  destroy_found name none s = (s, err (not_found name))
  destroy_found name (some sb) s =
      let w = (cancel_all_requests outside name (forget_trusted name s.world)).0 in
      destroy_detached name (detach_each name (Map.keys sb.attaches) (record s { world = w }))

  unfoldable pub destroy : Bytes → SessionState → Answer
  unfolding destroy_found
  destroy name s = destroy_found name (Map.get name s.world.registry.sandboxes) s

  -- `cancel_all`: of the sandbox, or of the view at a mount point.
  unfoldable pub cancel_all : Bytes → Option Bytes → World → Outcome
  unfolding cancel_all_requests canonicalize_maybe_existing attach_entry cancel_attached_view
  cancel_all name none w = cancel_all_requests outside name w
  cancel_all name (some mountpoint) w =
      elim (canonicalize_maybe_existing platform (components mountpoint)) [
        | err e ↦ (w, err e)
        | ok canonical ↦ elim (attach_entry name canonical (Map.get name w.registry.sandboxes)) [
          | err e ↦ (w, err e)
          | ok entry ↦ cancel_attached_view outside name entry.0 (bytes "cancel-all") w
        ]
      ]

  -- After the attach of a trusted operation.
  unfoldable pub trust : Bytes → Bytes → PathBuf → List TrustedPathScope → ℕ → Answer → Answer
  trust name command mountpoint paths operation_id (s, err e) = (s, err e)
  trust name command mountpoint paths operation_id (s, ok u) =
      let token = name ++ b'-' ∷ (decimal operation_id ++ b'-' ∷ decimal platform.process_id) in
      let w = with_registry s.world (record s.world.registry {
        trusted =
            Map.insert token
              (record {
                id = operation_id;
                sandbox = name;
                token = token;
                pid = none;
                uid = none;
                mountpoint = mountpoint;
                command = command;
                paths = paths;
              })
              s.world.registry.trusted;
      }) in
      (record s { world = w }, ok (trusted token operation_id (display mountpoint)))

  unfoldable pub begin_trusted :
      Bytes → Bytes → PathBuf → List TrustedPathScope → SessionState → Answer
  unfolding attach trust next_operation_id
  begin_trusted name command mountpoint paths s =
      if not (is_some (Map.get name s.world.registry.sandboxes))
      then (s, err (not_found name))
      else (let (r, operation_id) = next_operation_id s.world.registry in
          let s1 : SessionState = record s { world = with_registry s.world r } in
          elim (platform.create_dir_all mountpoint) [
            | err e ↦ (s1, err e)
            | ok u ↦
                trust name command mountpoint paths operation_id
                  (attach platform outside name mountpoint true s1)
          ])

  abbrev pub remove_mountpoint : PathBuf → Answer → Answer
  remove_mountpoint mountpoint (s, err e) = (s, err e)
  remove_mountpoint mountpoint (s, ok u) = elim (platform.remove_dir mountpoint) [
    | err e ↦ (s, err e)
    | ok u ↦ (s, ok done)
  ]

  unfoldable pub end_found : Bytes → Option TrustedOperation → SessionState → Answer
  unfolding detach
  end_found token none s = (s, err (message (bytes "trusted operation not found: " ++ token)))
  end_found token (some t) s =
      let r : SandboxRegistry = record s.world.registry {
        trusted = Map.remove token s.world.registry.trusted;
      } in
      remove_mountpoint t.mountpoint
        (detach t.sandbox t.mountpoint (record s { world = with_registry s.world r }))

  unfoldable pub end_trusted : Bytes → SessionState → Answer
  unfolding end_found
  end_trusted token s = end_found token (Map.get token s.world.registry.trusted) s
