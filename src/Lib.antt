-- ===== src/Lib.antt =====
-- holdfast keeps terminal shells alive on a server while clients come and go.
--
-- A client and the daemon exchange length-prefixed protobuf frames (crates/protocol/src/framing.rs), over a
-- WebSocket as messages of a channel number and one frame (crates/daemon/src/wire.rs). The connection handler
-- (crates/daemon/src/conn.rs) dispatches each message by its channel: on the control channel the client agrees
-- on a version and on capabilities (negotiate.rs), logs in under a per-address limiter (crates/daemon/src/auth.rs)
-- by a signed connection grant (crates/auth/src/grant.rs), an SSH challenge or a password, and then opens,
-- attaches to, resizes and ends shells that the shell manager owns (crates/session-core/src/lib.rs), under a
-- policy that says which accounts a user may use (policy.rs). Each attachment, upload and TCP forward
-- has a channel of its own. A shell's output is pumped into a terminal model, whose scrollback ring and input
-- modes (crates/terminal-model/src/history.rs, modes.rs) a reattaching client is shown, and into the bounded
-- queues of the attachments. Files are uploaded in validated chunks (crates/protocol/src/upload.rs)
-- to a private directory and committed by a hard link (crates/upload-store/src/lib.rs); the daemon bounds how
-- many run at once (crates/daemon/src/uploads.rs), and does the same for forwards
-- (crates/daemon/src/forward.rs). What happens is recorded in a bounded audit trail
-- (crates/daemon/src/observability.rs).
--
-- Which file models which code:
--   Base/                 tests, lists, Result and the association lists that stand for maps
--   Protocol/Constants    crates/protocol/src/lib.rs: the limits
--   Protocol/Framing      framing.rs: encode_delimited, FrameDecoder; Framing/Stream is the receive loop of
--                         crates/native-client/src/socks.rs
--   Protocol/Negotiate    negotiate.rs: negotiate_server, server_hello
--   Protocol/Upload       upload.rs: validate_begin, validate_chunk
--   Protocol/Ids          ids.rs: from_wire, Display and FromStr of the opaque ids
--   Messages              protocol/messages.proto: the messages that the connection handler reads and sends
--   Wire                  daemon/src/wire.rs: encode_varint, decode_varint, encode_message, decode_message
--   UploadStore/Names     upload-store: sanitize_basename, hex_id, is_hex_id
--   UploadStore/Files     what the system calls of the upload store do to the upload root
--   UploadStore/Writer    upload-store: begin_with_chunk_limit, begin_with_id, open_new_writer, write_chunk
--   UploadStore/Finish    upload-store: finish, finish_as, abort and Drop
--   Grant                 auth/src/grant.rs: issue, verify
--   Permits/Upload        daemon/src/uploads.rs: try_acquire and the permit's Drop
--   RateLimiter           daemon/src/auth.rs: RateLimiter
--   Authenticators        daemon/src/auth.rs: AuthState
--   Observability         daemon/src/observability.rs: the audit events; below it Sanitizing is
--                         sanitize_event, and Recorder is Observability with its ring and counters
--   Forwarding            daemon/src/forward.rs: ForwardService and its permits; protocol/src/forward.rs:
--                         valid_destination
--   Forwarding/Binding    daemon/src/forward.rs: ForwardBinding
--   Forwarding/Task       daemon/src/forward.rs: the two loops of a forward as a step relation
--   Conn/State            daemon/src/conn.rs: Conn, and the daemon that its handlers act on
--   Conn/Replies          the envelopes that the handlers answer with
--   Conn/Authenticate     handle_authenticate and what it calls
--   Conn/Shells           the arms of dispatch for the hello, the lists, opening and terminating
--   Conn/Attachments      attach, the arms for an attached channel, and the thread that forwards its events
--                         and session-core/src/token.rs: ResumeToken::from_wire
--   Conn/Upload           begin_upload and the arms for an upload; Conn/Upload/Actor is run_upload
--   Conn/Forwards         open_forward and the arms for a forward
--   Conn/Dispatch         dispatch
--   Session/Policy        session-core/src/policy.rs
--   Session/Types         session-core/src/lib.rs: the data of the shell manager
--   Session/Manager       open_shell, rotate_token
--   Session/Attaching     attach, attach_authorized, attach_runtime
--   Session/Operations    detach, write_input, resize, terminate, reap_idle, remove_exited
--   Session/Listing       shell_info, list_shells, history, history_bounds
--   Session/Pump          pump, a chunk at a time, and its end
--   Session/Steps         the methods and the pump as one step relation
--   Terminal/History      terminal-model/src/history.rs: HistoryRing
--   Terminal/Modes        terminal-model/src/modes.rs: ModeTracker
-- The files below these hold what is shown of them.
--
-- State is passed explicitly: a method takes the state and returns it with the result. A mutex held for a
-- whole method makes the method one step; the wait in `terminate` lets other steps on the shell in between.
-- Numbers are natural numbers; where a fixed-width sum can wrap, the wrap is written out (`% 2 ^ 64`), and a theorem that
-- needs it away says so. A byte string is a list of numbers, a character its code point, a path component its
-- bytes. Maps are association lists; a theorem that needs distinct keys says so.
--
-- A handler of a connection is one step on the connection and on the daemon that it shares with the others
-- (Conn/State: the record World). Other connections act between two handlers, and while a shell is being
-- terminated: `meanwhile` is any change of that shell's runtime then. What a handler draws from outside, such as
-- the clock, random values and the answers of back ends, is its argument.
--
-- What the code takes from elsewhere is a parameter: protobuf encoding with the law that decoding undoes
-- encoding, SHA-256 as any function, random tokens and ids, the clock, the answers of the PTY and of each
-- system call, the terminal emulator, the signature scheme, the authentication back ends, the parser of IP
-- addresses, the test of UTF-8, and the texts that thiserror generates. Loops are structural: the retry loop
-- of `begin_with_chunk_limit` counts its eight attempts, the eviction loops recurse on the list they shorten,
-- and the upload actor on what its queue delivers. Only `encode_varint` has fuel: ten rounds, one for each
-- group of seven bits of a 64-bit number.
--
-- Not modelled: the transports, the gateway and the agent (asynchronous I/O), the PTY, launcher and spawner
-- (processes), the authentication back ends behind Authenticators (third-party verification), the native, web
-- and desktop clients, the terminal emulator itself, UploadStore::open and reap_expired, the spawner as a
-- backend of an upload, ModeTracker::restore_sequence.
pub mod Base
pub mod Protocol
pub mod Grant
pub mod UploadStore
pub mod RateLimiter
pub mod Session
pub mod Terminal
pub mod Permits
pub mod Messages
pub mod Forwarding
pub mod Observability
pub mod Authenticators
pub mod Conn
pub mod Wire
