-- ===== src/Conn/Upload/Examples.antt =====
-- An upload of two chunks to a backend that keeps the bytes.
use holdfast.Base.{Bytes, length, text, ok, ◌≡◌, refl, false, some, List, [], ◌∷◌, ◌++◌}
use holdfast.Base.Map.{bytes_key}
use holdfast.Session.Examples.{shell, toy as toy_terminal}
use holdfast.Permits.Upload.{release}
use holdfast.Observability.{AuditEvent}
use holdfast.Conn.Examples.{daemon, fresh}
use holdfast.Conn.State.{UploadCommand, UploadService, World}
use holdfast.Conn.Upload.Actor.{UploadBackend, Received, command, UploadJob, run_upload}
use holdfast.Conn.Upload.Ending.{Ending, run_upload_ends}

abbrev keeping : UploadBackend
keeping = record {
  Active = Bytes;
  write_chunk = λ active c. (active ++ c.payload, ok tt);
  finish = λ active id. ok (record {
    upload_id = id;
    remote_path = text "/up/f";
    bytes_written = length active;
    sha256 = [];
  });
  file_name = λ path. some (text "f");
}

abbrev service : UploadService
service = record {
  through_spawner = false;
  max_file_bytes = 100;
  counts = record { global = 1; by_user = (text "bob", 1) ∷ [] };
}

abbrev uploading : World toy_terminal.Screen
uploading = record fresh { uploads = some service }

abbrev job : UploadJob
job = record { channel = 3; request_id = 9; user = text "bob"; shell_id = shell; duration_ms = 12 }

abbrev upload_commands : List Received
upload_commands =
    command (UploadCommand.chunk (record { upload_id = 1 ∷ []; offset = 0; payload = text "ab" }))
    ∷ command (UploadCommand.finish (1 ∷ []))
    ∷ []

run_upload_ends_example :
    (event : AuditEvent) × Ending daemon keeping [] upload_commands job event
    × ((run_upload daemon keeping uploading job [] upload_commands).audit ≡ event ∷ [])
    × ((run_upload daemon keeping uploading job [] upload_commands).uploads
        ≡ some (record service { counts = release service.counts (text "bob") }))
run_upload_ends_example =
    run_upload_ends daemon keeping uploading job [] upload_commands service refl
