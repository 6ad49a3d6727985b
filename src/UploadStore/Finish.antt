-- ===== src/UploadStore/Finish.antt =====
-- crates/upload-store/src/lib.rs: `finish`, `finish_as`, `abort` and `Drop` of `UploadWriter`. Each
-- of them consumes the writer, so it is dropped at their end.
pub mod Examples
pub mod Cleanup
pub mod Content
use holdfast.Base.{
  ◌==◌, if◌then◌else◌, Bytes, bytes_eq, length, drop, all, Result, refuse, ok, err, ℕ, suc, ◌-◌,
  ◌*◌, ◌/◌, true, not, Option, none, some,
}
use holdfast.Protocol.Upload.{invalid_upload_id}
use holdfast.UploadStore.Names.{partial_name}
use holdfast.UploadStore.Files.{
  Root, Faults, flush, sync, link, unlink_partial, sync_dir, chown_file, chown_dir, drop_partial,
  drop_stored, drop_dir, add_name, unlink_name, remove_dir, ignoring, holds_name,
}
use holdfast.UploadStore.Writer.{
  UploadWriter, CommittedUpload, StoreError, invalid_upload, length_mismatch, checksum_mismatch, io,
  call_then,
}

abbrev pub eexist : ℕ
eexist = 17

-- The hard link refuses to replace a name that exists.
link_stored :
    UploadWriter
    → Faults
    → Root
    → (Root → Root × Result CommittedUpload StoreError)
    → Root × Result CommittedUpload StoreError
link_stored w faults root next =
    if holds_name w.directory_name w.stored_basename root
    then (root, err (io eexist))
    else call_then faults link (add_name w.directory_name w.stored_basename) root next

-- The file's owner changes before the directory's.
give_away :
    Option (ℕ × ℕ)
    → Faults
    → Root
    → (Root → Root × Result CommittedUpload StoreError)
    → Root × Result CommittedUpload StoreError
give_away none faults root next = next root
give_away (some owner) faults root next =
    call_then faults chown_file (λ r. r) root λ r1. call_then faults chown_dir (λ r. r) r1 next

pub drop_writer : UploadWriter → Faults → Root → Root
drop_writer w faults root =
    if w.committed
    then root
    else (let r1 = ignoring faults drop_partial (unlink_name w.directory_name partial_name) root in
        let r2 = ignoring faults drop_stored (unlink_name w.directory_name w.stored_basename) r1 in
        ignoring faults drop_dir (remove_dir w.directory_name) r2)

-- `self.committed = true` stands right before the successful return.
dropped :
    UploadWriter
    → Faults
    → Root × Result CommittedUpload StoreError
    → Root × Result CommittedUpload StoreError
dropped w faults (root, ok c) = (drop_writer (record w { committed = true }) faults root, ok c)
dropped w faults (root, err e) = (drop_writer w faults root, err e)

pub abort : UploadWriter → Faults → Root → Root
abort w faults root = drop_writer w faults root

module _ (digest : Bytes → Bytes) where
  pub committed_upload : UploadWriter → CommittedUpload
  committed_upload w = record {
    upload_id = w.upload_id;
    directory_name = w.directory_name;
    stored_basename = w.stored_basename;
    bytes_written = w.written;
    sha256 = digest w.hashed;
  }

  -- The steps of the commit behind the link, from the link on, and all.
  unlink_and_own :
      UploadWriter → Option (ℕ × ℕ) → Faults → Root → Root × Result CommittedUpload StoreError
  unlink_and_own w owner faults root =
      call_then faults unlink_partial (unlink_name w.directory_name partial_name) root λ r4.
        call_then faults sync_dir (λ r. r) r4
          λ r5. give_away owner faults r5 λ r6. (r6, ok (committed_upload w))

  link_and_own :
      UploadWriter → Option (ℕ × ℕ) → Faults → Root → Root × Result CommittedUpload StoreError
  link_and_own w owner faults root = link_stored w faults root (unlink_and_own w owner faults)

  commit_file :
      UploadWriter → Option (ℕ × ℕ) → Faults → Root → Root × Result CommittedUpload StoreError
  commit_file w owner faults root =
      call_then faults flush (λ r. r) root
        λ r1. call_then faults sync (λ r. r) r1 (link_and_own w owner faults)

  pub finish_inner :
      UploadWriter
      → Bytes
      → Option (ℕ × ℕ)
      → Faults
      → Root
      → Root × Result CommittedUpload StoreError
  finish_inner w upload_id owner faults root =
      if not (bytes_eq upload_id w.upload_id)
      then (root, err (invalid_upload invalid_upload_id))
      else if not (w.written == w.expected_bytes)
      then (root, err (length_mismatch w.written w.expected_bytes))
      else if not (bytes_eq (digest w.hashed) w.expected_sha256)
      then (root, err checksum_mismatch)
      else commit_file w owner faults root

  pub finish : UploadWriter → Bytes → Faults → Root → Root × Result CommittedUpload StoreError
  finish w upload_id faults root = dropped w faults (finish_inner w upload_id none faults root)

  pub finish_as :
      UploadWriter → Bytes → ℕ → ℕ → Faults → Root → Root × Result CommittedUpload StoreError
  finish_as w upload_id uid gid faults root =
      dropped w faults (finish_inner w upload_id (some (uid, gid)) faults root)
