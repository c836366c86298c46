-- ===== src/Runtime.antt =====
-- src/runtime.rs: where a sandbox's socket, log and temporary mounts lie.
use gatefs.StdPath.{PathBuf, components, join_path}
use gatefs.Base.{Option, unwrap_or, ℕ, ◌++◌, ◌∷◌}
use gatefs.Text.{Bytes, bytes, decimal}

pub record RuntimePaths : Type 0 where
  pub runtime_dir : PathBuf
  pub log_dir : PathBuf
  pub socket_override : Option PathBuf

unfoldable pub for_tests : PathBuf → Option PathBuf → RuntimePaths
for_tests runtime_dir socket_override = record {
  runtime_dir = runtime_dir;
  log_dir = runtime_dir;
  socket_override = socket_override;
}

unfoldable pub socket_path : RuntimePaths → Bytes → PathBuf
socket_path runtime name =
    unwrap_or runtime.socket_override
      (join_path runtime.runtime_dir (components (name ++ bytes ".sock")))

unfoldable pub sandbox_log_path : RuntimePaths → Bytes → PathBuf
sandbox_log_path runtime name = join_path runtime.log_dir (components (name ++ bytes ".log"))

unfoldable pub tmp_mount_dir : RuntimePaths → Bytes → ℕ → PathBuf
tmp_mount_dir runtime name operation_id =
    join_path (join_path runtime.runtime_dir (components (bytes "tmp")))
      (components (name ++ b'-' ∷ decimal operation_id))
