-- ===== src/UploadStore/Finish/Examples.antt =====
-- A two-chunk upload named "../a b" with a toy digest.
use holdfast.Base.{
  Bytes, bytes_eq, length, replicate, text, ok, ◌≡◌, refl, ◌≢◌, none, some, [], ◌∷◌, arith,
}
use holdfast.Base.Map
use holdfast.Base.Map.{bytes_key}
use holdfast.Protocol.Upload.{fits_declared, BeginUpload, UploadChunk, validate_chunk}
use holdfast.UploadStore.Names.{
  sanitize_loop, sanitize_char, is_kept, partial_name, sanitize_basename,
}
use holdfast.UploadStore.Names.Safety.{sanitize_basename-IsSafeName}
use holdfast.UploadStore.Files.{holds_name, add_name, unlink_name, Root, Faults, sync}
use holdfast.UploadStore.Writer.{call_then, UploadWriter, new_writer, write_chunk}
use holdfast.UploadStore.Finish.{
  finish, committed_upload, finish_inner, commit_file, link_and_own, link_stored, unlink_and_own,
  give_away, dropped, drop_writer,
}
use holdfast.UploadStore.Finish.Cleanup.{CleanOutcome, finish-CleanOutcome}
use holdfast.UploadStore.Finish.Content.{write_chunks, IsFaithful, finish-IsFaithful}

abbrev some_id : Bytes
some_id = replicate 16 0x5a

abbrev toy_digest : Bytes → Bytes
toy_digest bytes = replicate 32 (length bytes)

abbrev declared : BeginUpload
declared = record { original_name = text "../a b"; total_bytes = 3; sha256 = replicate 32 3 }

abbrev first_chunk : UploadChunk
first_chunk = record { upload_id = some_id; offset = 0; payload = 7 ∷ 8 ∷ [] }

abbrev second_chunk : UploadChunk
second_chunk = record { upload_id = some_id; offset = 2; payload = 9 ∷ [] }

abbrev directory : Bytes
directory = text "d"

abbrev writer : UploadWriter
writer = new_writer declared some_id directory 4

abbrev begun : Root
begun = (directory, partial_name ∷ []) ∷ []

abbrev sync_fails : Faults
sync_fails sync = some 5
sync_fails _ = none

abbrev no_faults : Faults
no_faults _ = none

writer-name : writer.stored_basename ≢ partial_name
unfolding new_writer
writer-name = (sanitize_basename-IsSafeName (text "../a b")).not_partial

begun-writer : Map.get begun writer.directory_name ≡ some (partial_name ∷ [])
unfolding Map.get new_writer bytes_eq
begun-writer = refl

finish-CleanOutcome_example :
    CleanOutcome toy_digest writer begun sync_fails begun-writer writer-name
      (finish toy_digest writer some_id sync_fails begun)
unfolding new_writer
finish-CleanOutcome_example =
    finish-CleanOutcome toy_digest writer begun sync_fails begun-writer writer-name refl refl refl
      refl some_id

abbrev written : UploadWriter
written = record writer { file = 7 ∷ 8 ∷ 9 ∷ []; hashed = 7 ∷ 8 ∷ 9 ∷ []; written = 3 }

chunks_written : write_chunks writer (first_chunk ∷ second_chunk ∷ []) ≡ ok written
unfolding write_chunk write_chunks new_writer validate_chunk fits_declared bytes_eq
chunks_written = refl

committed_toy :
    (finish toy_digest written some_id no_faults begun).1 ≡ ok (committed_upload toy_digest written)
unfolding finish finish_inner commit_file link_and_own link_stored unlink_and_own give_away
    call_then new_writer dropped drop_writer holds_name add_name unlink_name Map.get Map.insert
    bytes_eq sanitize_basename sanitize_loop sanitize_char is_kept committed_upload
committed_toy = refl

finish-IsFaithful_example :
    IsFaithful toy_digest declared
      (first_chunk ∷ second_chunk ∷ [])
      written
      (committed_upload toy_digest written)
finish-IsFaithful_example =
    finish-IsFaithful toy_digest declared some_id directory 4 (first_chunk ∷ second_chunk ∷ [])
      no_faults begun written (committed_upload toy_digest written) (omega arith) chunks_written
      committed_toy
