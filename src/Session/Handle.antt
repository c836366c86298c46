-- ===== src/Session/Handle.antt =====
-- src/session.rs: `handle`, which answers each request of src/ipc.rs.
use gatefs.Session.Finish.{allow}
use gatefs.World.{Outside}
use gatefs.Session.Decide.{cancel_request, deny_request}
use gatefs.Session.Allow.{Machine}
use gatefs.Session.Detach.{begin_trusted, cancel_all, destroy, detach, end_trusted}
use gatefs.Session.{
  bypass_path, hide_path, list_bypass_response, list_mounts_response, list_protection_response,
  log_path_response, metadata_response, mount_layer, pending_response, protect_path,
  register_trusted, umount_layer, unbypass_path, unprotect_path,
}
use gatefs.Session.Attach.{Answer, Platform, SessionState, attach, in_session}
use gatefs.StdPath.{components}
use gatefs.Error.{Error, err, io, message, ok, serde}
use gatefs.Ipc.{
  Request, Response, begin_trusted_operation, bypass, done, end_trusted_operation, failure,
  list_bypass, list_mounts, list_protection, mount, pending, ping, register_trusted_pid, shutdown,
  umount, unbypass,
}
use gatefs.Base.{ℕ}
use gatefs.Text.{Bytes, bytes}

-- The error of a response: a message shows as it is, an I/O error by the standard library's text.
unfoldable pub error_text : (ℕ → Bytes) → Error → Bytes
error_text io_text (message m) = m
error_text io_text (io n) = io_text n
error_text io_text (serde m) = m

module _ (platform : Platform) (machine : Machine) (outside : Outside) where
  unfoldable pub handle_result : Request → SessionState → Answer
  unfolding attach detach destroy cancel_all begin_trusted end_trusted allow deny_request
      cancel_request mount_layer umount_layer hide_path protect_path unprotect_path bypass_path
      unbypass_path list_protection_response list_bypass_response list_mounts_response
      metadata_response log_path_response pending_response register_trusted
  handle_result ping s = (s, ok done)
  handle_result (shutdown name) s = destroy platform outside name s
  handle_result (Request.attach name mountpoint temporary) s =
      attach platform outside name (components mountpoint) temporary s
  handle_result (Request.detach name mountpoint) s =
      detach platform outside name (components mountpoint) s
  handle_result (mount name local on_fs) s = in_session s (
      mount_layer outside platform.canonicalize platform.exists name (components local) on_fs
        s.world)
  handle_result (umount name on_fs) s = in_session s (umount_layer outside name on_fs s.world)
  handle_result (Request.hide name on_fs) s = in_session s (hide_path outside name on_fs s.world)
  handle_result (Request.protect name kind pattern) s =
      in_session s (protect_path outside name kind pattern s.world)
  handle_result (Request.unprotect name kind pattern) s =
      in_session s (unprotect_path outside name kind pattern s.world)
  handle_result (bypass name kind pattern) s =
      in_session s (bypass_path outside name kind pattern s.world)
  handle_result (unbypass name kind pattern) s =
      in_session s (unbypass_path outside name kind pattern s.world)
  handle_result (list_protection name kinds) s =
      in_session s (list_protection_response name kinds s.world)
  handle_result (list_bypass name kinds) s = in_session s (list_bypass_response name kinds s.world)
  handle_result (list_mounts name) s = in_session s (list_mounts_response name s.world)
  handle_result (Request.metadata name) s = in_session s (metadata_response name s.world)
  handle_result (begin_trusted_operation name command mountpoint paths) s =
      begin_trusted platform outside name command (components mountpoint) paths s
  handle_result (register_trusted_pid token process user) s =
      in_session s (register_trusted token process user s.world)
  handle_result (end_trusted_operation token) s = end_trusted platform outside token s
  handle_result (pending name) s = in_session s (pending_response name s.world)
  handle_result (Request.allow name id only_release grant) s =
      in_session s (allow machine outside name id only_release grant s.world)
  handle_result (Request.deny name id) s = in_session s (deny_request outside name id s.world)
  handle_result (Request.cancel name id) s =
      in_session s (cancel_request outside name id (bytes "explicit") s.world)
  handle_result (Request.cancel_all name mountpoint) s =
      in_session s (cancel_all platform outside name mountpoint s.world)
  handle_result (Request.log_path name) s = in_session s (log_path_response name s.world)

  abbrev pub response_of_answer : (ℕ → Bytes) → Answer → SessionState × Response
  unfolding error_text
  response_of_answer io_text (s, ok response) = (s, response)
  response_of_answer io_text (s, err e) = (s, failure (error_text io_text e))

  unfoldable pub handle : (ℕ → Bytes) → Request → SessionState → SessionState × Response
  unfolding handle_result
  handle io_text request s = response_of_answer io_text (handle_result request s)
