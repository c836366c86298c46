-- ===== src/Lib.antt =====
-- gatefs, a FUSE file system that shows mounted host directories under sandbox paths, lets rules
-- protect paths, and holds an access to a protected path until a user decides on it.
--
-- Parts of the program and their models:
-- * src/path.rs, sandbox paths: Path (`normalize_sandbox_path`, `SandboxPath`,
--   `rewrite_sandbox_path_arg`), on StdPath, which reads `std::path` on Unix as lists of components.
-- * src/overlay.rs, the folding of numbered entries: Overlay (`collapse`, `collapse_latest`).
-- * src/state.rs, the state of a session:
--   Policy (`ProtectionKind`, `PolicyPattern`, the rules), Operation (`ReadWriteOperation` and its
--   effects), Metadata (`MetadataOperation`, `MetadataOverride`), Sandbox (`Sandbox`: mounts, hide
--   rules, `resolve_overlay`) with Sandbox/Objects (`children`, metadata objects and their overrides),
--   Pending (requests that wait), Grant (`ReadWriteAccessGrant`), Registry (`SandboxRegistry`).
-- * src/fs.rs, leave for reads and writes: Fs (the loop over the effects in `authorize_read_write`,
--   `is_trusted_operation`), Fs/Leave (`authorize_read_write` as a whole and
--   `cancel_unresolved_read_write_effects`), Fs/Attr (`attr_for_path`) and Fs/Change
--   (`begin_metadata_request`, `finish_pending_attr`) on Attr (`FileAttr`, `stable_ino`,
--   `apply_override`), with Fs/Keys, Supersede, Indexed, Applied and Exact on what they leave of the
--   registry's index, and Fs/Superseding and Asking on its requests; Fs/Flags (`flags_to_xflags`,
--   `xflags_to_flags`, `encode_fsxattr`, `decode_fsxattr_flags`). What its threads and the session's share is a World.
-- * src/session.rs, the session (`SessionState`): Session (layers, hide rules, rules, listings),
--   Session/Decide (`deny`, `cancel`, and `allow` without a grant), Session/Scope (`cancel_all` and
--   `cancel_attached_view`), Session/Allow, Release and Finish (`allow_read_write_grant` and
--   `finish_read_write_grant_allow`), Session/Attach and Detach (`attach`, `detach`, `destroy`, trusted
--   operations), Session/Handle (`handle_result`, `handle`). Session/Board is the abstract view of its
--   decisions: what is asked, who waits, what was answered; Session/Refine and Session/CancelAll relate
--   the two. Session/Reach has the steps that asks and decisions take; allowances with a
--   grant, attached mounts and their ends are none of them.
-- * src/ipc.rs, the requests and responses: Ipc. src/runtime.rs, `RuntimePaths`: Runtime.
-- * src/log.rs, `civil_from_days`, `format_timestamp` and `format_log_line`: Log on the signed integers of
--   Int, with the calendar that it is compared with in Log/Calendar.
-- * src/lib.rs, the error type: Error. src/process_info.rs: `ProcessIdentityEvidence` in Pending.
-- Base, Map, Sort and Text hold what these share: lists, orders, `BTreeMap`, the stable sorts of the
-- standard library, and bytes of texts.
--
-- How they interact: an access of the file system looks its sandbox up in the registry, asks the
-- sandbox's rules whether an effect is protected or bypassed, asks the registry for a grant, and
-- otherwise files a pending request with a waiter. Rules match by patterns; a sandbox resolves paths by
-- its newest covering mount or hide rule, which the collapse of the overlay finds.
--
-- A session answers a request by a change of the registry under its lock, then the lines of the log,
-- then the words to the waiters. The critical sections of one request are composed in the order of the
-- code; that another thread runs between two of them is not modelled.
--
-- State is passed explicitly: an operation takes the sandbox, the registry or the world (the registry,
-- the logs and the decisions that waiters were given) and returns the next one. A waiter, which two
-- threads share, is a number into the store of decisions. Counters of 64 bits wrap around, and a
-- year is cast to 32 bits; the days of a `SystemTime` are far too few to leave 64 bits. A theorem
-- that needs room says so. Loops are recursion on lists, so no fuel is needed.
--
-- Given from outside, as parameters: the crate `glob` (`Glob`), the host's answers on directories
-- (`Host`), whether the log takes a line (`Outside`), the system calls of the session (`Platform`), the
-- processes and the clock (`Machine`), the host's attributes of a file (`Kernel`),
-- the byte order of the machine (`Endian`). Texts are lists of
-- bytes, times nanoseconds of the epoch; a line of the log keeps its id and its body, to which
-- `format_log_line` puts the time.
--
-- Not modelled: the handlers that reply to the kernel, with `check_access`, in src/fs.rs; the writer
-- thread and the files of src/log.rs; the sockets and signals of src/session.rs and src/ipc.rs; the
-- environment in src/runtime.rs; src/hostfs.rs, src/cli.rs and src/tui.rs, which are system calls,
-- arguments and terminals.
pub mod Base
pub mod Map
pub mod Sort
pub mod Text
pub mod Error
pub mod StdPath
pub mod Path
pub mod Overlay
pub mod Policy
pub mod Operation
pub mod Metadata
pub mod Sandbox
pub mod Pending
pub mod Grant
pub mod Registry
pub mod World
pub mod Fs
pub mod Attr
pub mod Ipc
pub mod Session
pub mod Runtime
pub mod Int
pub mod Log
pub mod Examples
