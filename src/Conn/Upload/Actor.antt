-- ===== src/Conn/Upload/Actor.antt =====
-- crates/daemon/src/conn.rs: `run_upload`, the actor of one upload. Its backend (`ActiveUpload` of
-- crates/daemon/src/uploads.rs: the upload store or the spawner) is an interface; a worker that panics
-- answers `worker`. What the queue delivers is a list, whose end is the closed queue.
use holdfast.Base.{Bytes, Result, text, ok, err, ℕ, true, Option, none, some, List, [], ◌∷◌}
use holdfast.Protocol.Upload.{UploadChunk}
use holdfast.Permits.Upload.{release}
use holdfast.Session.Types.{ShellId}
use holdfast.Messages.{ErrorCode, Msg}
use holdfast.Observability.{UploadOutcome, AuditEvent}
use holdfast.Conn.State.{UploadCommand, UploadError, App, World}
use holdfast.Conn.Replies.{error_envelope, audited, send, upload_error_envelope}

pub record FinishedUpload : Type 0 where
  pub upload_id : Bytes
  pub remote_path : Bytes
  pub bytes_written : ℕ
  pub sha256 : Bytes

-- `file_name` is `Path::file_name` of the standard library, where it is UTF-8.
pub record UploadBackend : Type 1 where
  pub Active : Type 0
  pub write_chunk : Active → UploadChunk → Active × Result (Unit {0}) UploadError
  pub finish : Active → Bytes → Result FinishedUpload UploadError
  pub file_name : Bytes → Option Bytes

pub data Received : Type 0 where
  command : UploadCommand → Received
  nothing_for_30_seconds : Received

pub record UploadJob : Type 0 where
  pub channel : ℕ
  pub request_id : ℕ
  pub user : Bytes
  pub shell_id : ShellId
  pub duration_ms : ℕ

unfoldable pub ended : {S : Type 0} → World S → UploadJob → UploadOutcome → World S
ended w job outcome = audited w (AuditEvent.upload_ended job.user job.shell_id outcome)

unfoldable pub timed_out : {S : Type 0} → World S → UploadJob → World S
timed_out w job =
    (send (ended w job UploadOutcome.timed_out) job.channel
      (error_envelope job.request_id ErrorCode.too_slow "upload timed out waiting for data" true)).0

-- `UploadPermit::drop`
unfoldable pub dropped_permit : {S : Type 0} → World S → Bytes → World S
dropped_permit w user = elim w.uploads [
  | none ↦ w
  | some service ↦ record w {
    uploads = some (record service { counts = release service.counts user });
  }
]

module _ (app : App) (backend : UploadBackend) where
  open app use {terminal}
  open terminal use {Screen}
  open backend use {Active, write_chunk, finish, file_name}

  unfoldable pub fail_active_upload : World Screen → UploadJob → UploadError → World Screen
  fail_active_upload w job e =
      (send (ended w job UploadOutcome.failed) job.channel
        (upload_error_envelope app job.request_id e)).0

  unfoldable pub stored_basename : Bytes → Bytes
  stored_basename path = elim (file_name path) [ none ↦ text "upload" | some name ↦ name ]

  unfoldable pub completed : World Screen → UploadJob → FinishedUpload → World Screen
  completed w job finished =
      (send
        (audited w (
          AuditEvent.upload_completed job.user job.shell_id (stored_basename finished.remote_path)
            finished.bytes_written job.duration_ms))
        job.channel
        (record {
          request_id = job.request_id;
          server_id = app.server_id;
          shell_id = job.shell_id;
          message = some (
              Msg.upload_finished (record {
                upload_id = finished.upload_id;
                remote_path = finished.remote_path;
                bytes_written = finished.bytes_written;
                sha256 = finished.sha256;
              }));
        })).0

  unfoldable pub finish_job : World Screen → UploadJob → Active → Bytes → World Screen
  finish_job w job active upload_id = elim (finish active upload_id) [
    | ok finished ↦ completed w job finished
    | err e ↦ fail_active_upload w job e
  ]

  unfoldable pub command_loop : World Screen → UploadJob → Active → List Received → World Screen
  command_loop w job active [] = ended w job UploadOutcome.cancelled
  command_loop w job active (nothing_for_30_seconds ∷ rest) = timed_out w job
  command_loop w job active (command UploadCommand.abort ∷ rest) =
      ended w job UploadOutcome.cancelled
  command_loop w job active (command (UploadCommand.finish upload_id) ∷ rest) =
      finish_job w job active upload_id
  command_loop w job active (command (UploadCommand.chunk c) ∷ rest) =
      let (next, written) = write_chunk active c in
      let continued = command_loop w job next rest in
      elim written [ ok _ ↦ continued | err e ↦ fail_active_upload w job e ]

  -- The permit lives as long as the actor.
  unfoldable pub run_upload : World Screen → UploadJob → Active → List Received → World Screen
  run_upload w job active received = dropped_permit (command_loop w job active received) job.user
