-- ===== src/Conn/Upload/Ending.antt =====
-- crates/daemon/src/conn.rs: how the actor of an upload ends.
use holdfast.Base.{
  Bytes, Result-cases, ok, ◌≡◌, refl, ◌∙◌, inl, inr, some, List, [], ◌∷◌, ◌++◌, map, arith,
}
use holdfast.Protocol.Upload.{UploadChunk}
use holdfast.Permits.Upload.{release}
use holdfast.Observability.{UploadOutcome, AuditEvent}
use holdfast.Conn.State.{UploadCommand, UploadError, UploadService, App, World}
use holdfast.Conn.Replies.{send}
use holdfast.Conn.Upload.Actor.{
  FinishedUpload, UploadBackend, Received, command, nothing_for_30_seconds, UploadJob, ended,
  timed_out, dropped_permit, fail_active_upload, stored_basename, completed, finish_job,
  command_loop, run_upload,
}

module _ (app : App) (backend : UploadBackend) where
  open app use {terminal}
  open terminal use {Screen}
  open backend use {Active, write_chunk, finish, file_name}

  -- A run of chunks that the backend takes, from one state to another.
  pub data Written : Active → List UploadChunk → Active → Type 0 where
    no_chunk : (active : Active) → Written active [] active
    next_chunk :
        (active after : Active) (c : UploadChunk) (chunks : List UploadChunk)
        → (write_chunk active c).1 ≡ ok tt
        → Written (write_chunk active c).0 chunks after
        → Written active (c ∷ chunks) after

  abbrev pub chunk_commands : List UploadChunk → List Received
  chunk_commands chunks = map (λ c. command (UploadCommand.chunk c)) chunks

  pub data Ending (active : Active) (received : List Received) (job : UploadJob)
      : AuditEvent → Type 0 where
    stored :
        (chunks : List UploadChunk) (after : Active) (upload_id : Bytes) (rest : List Received)
        (finished : FinishedUpload)
        → received ≡ chunk_commands chunks ++ command (UploadCommand.finish upload_id) ∷ rest
        → Written active chunks after
        → finish after upload_id ≡ ok finished
        → Ending active received job (
            AuditEvent.upload_completed job.user job.shell_id
              (stored_basename app backend finished.remote_path)
              finished.bytes_written
              job.duration_ms)
    abandoned :
        (outcome : UploadOutcome)
        → Ending active received job (AuditEvent.upload_ended job.user job.shell_id outcome)

  -- The loop's effect: one event, and the permits as they were.
  record Ended (w w' : World Screen) (active : Active) (received : List Received) (job : UploadJob)
      : Type 0 where
    event : AuditEvent
    why : Ending active received job event
    once : w'.audit ≡ w.audit ++ event ∷ []
    permits : w'.uploads ≡ w.uploads

  Ending-chunk :
      (active : Active) (c : UploadChunk) (rest : List Received) (job : UploadJob)
      (event : AuditEvent)
      → (write_chunk active c).1 ≡ ok tt
      → Ending (write_chunk active c).0 rest job event
      → Ending active (command (UploadCommand.chunk c) ∷ rest) job event
  Ending-chunk active c rest job _ taken
        (stored chunks after upload_id later finished e written f) =
      stored (c ∷ chunks) after upload_id later finished (ground (arith, e))
        (next_chunk active after c chunks taken written) f
  Ending-chunk active c rest job _ taken (abandoned outcome) = abandoned outcome

  failed-Ended :
      (w : World Screen) (job : UploadJob) (active : Active) (received : List Received)
      (e : UploadError)
      → Ended w (fail_active_upload app backend w job e) active received job
  unfolding fail_active_upload ended send
  failed-Ended w job active received e = record {
    event = AuditEvent.upload_ended job.user job.shell_id UploadOutcome.failed;
    why = abandoned UploadOutcome.failed;
    once = ground arith;
    permits = ground arith;
  }

  finish_job-Ended :
      (w : World Screen) (job : UploadJob) (active : Active) (upload_id : Bytes)
      (rest : List Received)
      → Ended w
          (finish_job app backend w job active upload_id)
          active
          (command (UploadCommand.finish upload_id) ∷ rest)
          job
  unfolding finish_job completed send
  finish_job-Ended w job active upload_id rest = elim (Result-cases (finish active upload_id)) [
    | inr (e, failed) ↦
        (let at : finish_job app backend w job active upload_id
              ≡ fail_active_upload app backend w job e =
            ground (arith, failed) in
          rw at (failed-Ended w job active _ e))
    | inl (finished, found) ↦ record {
      event =
          AuditEvent.upload_completed job.user job.shell_id
            (stored_basename app backend finished.remote_path) finished.bytes_written
            job.duration_ms;
      why = stored [] active upload_id rest finished refl (no_chunk active) found;
      once = ground (arith, found);
      permits = ground (arith, found);
    }
  ]

  abandoned-Ended :
      (w : World Screen) (job : UploadJob) (active : Active) (received : List Received)
      (outcome : UploadOutcome)
      → Ended w (ended w job outcome) active received job
  unfolding ended
  abandoned-Ended w job active received outcome = record {
    event = AuditEvent.upload_ended job.user job.shell_id outcome;
    why = abandoned outcome;
    once = refl;
    permits = refl;
  }

  command_loop-Ended :
      (w : World Screen) (job : UploadJob) (active : Active) (received : List Received)
      → Ended w (command_loop app backend w job active received) active received job
  unfolding command_loop timed_out ended send
  command_loop-Ended w job active [] = abandoned-Ended w job active [] UploadOutcome.cancelled
  command_loop-Ended w job active (nothing_for_30_seconds ∷ rest) = record {
    event = AuditEvent.upload_ended job.user job.shell_id UploadOutcome.timed_out;
    why = abandoned UploadOutcome.timed_out;
    once = ground arith;
    permits = ground arith;
  }
  command_loop-Ended w job active (command UploadCommand.abort ∷ rest) =
      abandoned-Ended w job active _ UploadOutcome.cancelled
  command_loop-Ended w job active (command (UploadCommand.finish upload_id) ∷ rest) =
      finish_job-Ended w job active upload_id rest
  command_loop-Ended w job active (command (UploadCommand.chunk c) ∷ rest) =
      elim (Result-cases (write_chunk active c).1) [
        | inr (e, failed) ↦
            (let at : command_loop app backend w job active (command (UploadCommand.chunk c) ∷ rest)
                  ≡ fail_active_upload app backend w job e =
                ground (arith, failed) in
              rw at (failed-Ended w job active _ e))
        | inl (done, taken) ↦
            (let next = (write_chunk active c).0 in
              let v = command_loop-Ended w job next rest in
              let at : command_loop app backend w job active
                    (command (UploadCommand.chunk c) ∷ rest)
                  ≡ command_loop app backend w job next rest =
                ground (arith, taken) in
              rw at (record {
                event = v.event;
                why = Ending-chunk active c rest job v.event taken v.why;
                once = v.once;
                permits = v.permits;
              }))
      ]

  -- Whatever its queue delivers, the actor of an upload ends with exactly one audit event and gives its permit
  -- back. The event says that the upload was completed only if the backend took every chunk that came before a
  -- finish and then committed the file.
  pub run_upload_ends :
      (w : World Screen) (job : UploadJob) (active : Active) (received : List Received)
      (service : UploadService)
      → w.uploads ≡ some service
      → (event : AuditEvent) × Ending active received job event
        × ((run_upload app backend w job active received).audit ≡ w.audit ++ event ∷ [])
        × ((run_upload app backend w job active received).uploads
            ≡ some (record service { counts = release service.counts job.user }))
  unfolding run_upload dropped_permit
  run_upload_ends w job active received service running =
      let v = command_loop-Ended w job active received in
      let there : (command_loop app backend w job active received).uploads ≡ some service =
        v.permits ∙ running in
      (v.event, v.why, rw there v.once, rw there refl)
