-- ===== src/World.antt =====
-- What the threads of src/session.rs and src/fs.rs share, and what lies outside of the process.
use gatefs.Sandbox.Objects.{Host}
use gatefs.Pending.{PendingDecision}
use gatefs.StdPath.{PathBuf}
use gatefs.Error.{Error}
use gatefs.Policy.{Glob}
use gatefs.Text.{Bytes, bytes, decimal}
use gatefs.Registry.{SandboxRegistry}
use gatefs.Base.{
  Bool, List, Option, [], false, if◌then◌else◌, nat_ord, none, some, true, ℕ, ◌++◌, ◌∷◌,
}
use gatefs.Map

-- A line that was appended to a log: its file, the id and the body.
pub record LogLine : Type 0 where
  pub log_path : PathBuf
  pub id : ℕ
  pub body : Bytes

-- What the threads share: the registry, the logs, and the decisions that waiters were given.
pub record World : Type 0 where
  pub registry : SandboxRegistry
  pub log : List LogLine
  pub decided : List (ℕ × PendingDecision)
  pub next_waiter : ℕ

-- What lies outside of the process: the host's files, the crate `glob`, and the writer of the logs,
-- which may refuse a line with an error.
pub record Outside : Type 0 where
  pub host : Host
  pub glob : Glob
  pub accepts : LogLine → List LogLine → Bool
  pub log_error : LogLine → Error

unfoldable pub format_attach_field : Option ℕ → Bytes
format_attach_field none = []
format_attach_field (some id) = bytes " attach=" ++ decimal id

unfoldable pub notify_waiter : Option ℕ → PendingDecision → World → World
notify_waiter none decision w = w
notify_waiter (some waiter) decision w = record w { decided = Map.insert waiter decision w.decided }

module _ (outside : Outside) where
  -- `log_writer.append`.
  unfoldable pub append_line : PathBuf → ℕ → Bytes → World → World × Bool
  append_line log_path id body w =
      let line : LogLine = record { log_path = log_path; id = id; body = body } in
      if outside.accepts line w.log
      then (record w { log = w.log ++ line ∷ [] }, true)
      else (w, false)
