-- ===== src/UploadStore/Writer.antt =====
-- crates/upload-store/src/lib.rs: `UploadStore::begin…` and `UploadWriter`. The random ids, the
-- answers of the operating system and SHA-256 are arguments. `root` is what the upload root holds.
use holdfast.Base.{
  ◌==◌, if◌then◌else◌, Bytes, length, take, Result, ok, err, ℕ, zero, suc, ◌+◌, ◌%◌, ◌^◌, min, Bool,
  false, none, some, [], ◌++◌,
}
use holdfast.Base.Map
use holdfast.Base.Map.{bytes_key}
use holdfast.Protocol.Constants.{upload_chunk_bytes_max}
use holdfast.Protocol.Upload.{
  BeginUpload, UploadChunk, UploadValidationError, validate_begin, validate_chunk,
}
use holdfast.UploadStore.Names.{partial_name, sanitize_basename, hex_id}
use holdfast.UploadStore.Files.{
  Root, Call, Faults, mkdir, open_dir, chmod_dir, create_partial, chmod_file, undo_create,
  undo_mkdir, add_name, unlink_name, remove_dir, ignoring,
}

abbrev pub random_id_attempts : ℕ
random_id_attempts = 8

pub data StoreError : Type 0 where
  invalid_root id_collision invalid_chunk_limit checksum_mismatch : StoreError
  invalid_upload : UploadValidationError → StoreError
  length_mismatch : ℕ → ℕ → StoreError
  io : ℕ → StoreError

pub record StoreConfig : Type 0 where
  pub root : Bytes
  pub max_file_bytes : ℕ

-- `hashed` is what the hasher has consumed and `file` what the partial file holds.
pub record UploadWriter : Type 0 where
  pub directory_name : Bytes
  pub stored_basename : Bytes
  pub upload_id : Bytes
  pub expected_bytes : ℕ
  pub expected_sha256 : Bytes
  pub maximum_chunk_bytes : ℕ
  pub written : ℕ
  pub hashed : Bytes
  pub file : Bytes
  pub committed : Bool

pub record CommittedUpload : Type 0 where
  pub upload_id : Bytes
  pub directory_name : Bytes
  pub stored_basename : Bytes
  pub bytes_written : ℕ
  pub sha256 : Bytes

-- A call that can fail, with what follows it.
unfoldable pub call_then :
    {A : Type 0}
    → Faults
    → Call
    → (Root → Root)
    → Root
    → (Root → Root × Result A StoreError)
    → Root × Result A StoreError
call_then faults call effect root next = elim (faults call) [
  | some errno ↦ (root, err (io errno))
  | none ↦ next (effect root)
]

-- `original_name` is read as its code points.
unfoldable pub new_writer : BeginUpload → Bytes → Bytes → ℕ → UploadWriter
new_writer metadata upload_id directory_name maximum_chunk_bytes = record {
  directory_name = directory_name;
  stored_basename = sanitize_basename metadata.original_name;
  upload_id = upload_id;
  expected_bytes = metadata.total_bytes;
  expected_sha256 = metadata.sha256;
  maximum_chunk_bytes = maximum_chunk_bytes;
  written = 0;
  hashed = [];
  file = [];
  committed = false;
}

-- When the mode of the new file cannot be set, the file is unlinked again.
created_file : UploadWriter → Faults → Root → Root × Result UploadWriter StoreError
created_file writer faults root = elim (faults chmod_file) [
  | none ↦ (root, ok writer)
  | some errno ↦ (
    ignoring faults undo_create (unlink_name writer.directory_name partial_name) root,
    err (io errno),
  )
]

open_new_writer : UploadWriter → Faults → Root → Root × Result UploadWriter StoreError
open_new_writer writer faults root =
    call_then faults open_dir (λ r. r) root
      λ r1.
        call_then faults chmod_dir (λ r. r) r1
          λ r2.
            call_then faults create_partial (add_name writer.directory_name partial_name) r2
              λ r3. created_file writer faults r3

-- `if result.is_err() { let _ = unlinkat(root, directory, RemoveDir); }`
undo_directory :
    Faults → Bytes → Root × Result UploadWriter StoreError → Root × Result UploadWriter StoreError
undo_directory faults directory_name (root, ok writer) = (root, ok writer)
undo_directory faults directory_name (root, err e) =
    (ignoring faults undo_mkdir (remove_dir directory_name) root, err e)

-- `mkdirat` answers EEXIST for any entry of that name.
make_directory : BeginUpload → Bytes → ℕ → Faults → Root → Root × Result UploadWriter StoreError
make_directory metadata upload_id maximum_chunk_bytes faults root =
    let directory_name = hex_id upload_id in
    if Map.has_key root directory_name
    then (root, err id_collision)
    else (call_then faults mkdir (λ r. Map.insert r directory_name []) root
        λ made. undo_directory faults directory_name (
          open_new_writer (new_writer metadata upload_id directory_name maximum_chunk_bytes) faults
            made))

pub begin_with_id :
    StoreConfig → BeginUpload → Bytes → ℕ → Faults → Root → Root × Result UploadWriter StoreError
begin_with_id config metadata upload_id maximum_chunk_bytes faults root =
    elim (validate_begin metadata config.max_file_bytes) [
      | err e ↦ (root, err (invalid_upload e))
      | ok _ ↦ make_directory metadata upload_id maximum_chunk_bytes faults root
    ]

-- The retry loop: `ids` and `faults` give the random id and the system's answers of each attempt.
attempt_ids :
    StoreConfig
    → BeginUpload
    → ℕ
    → (ℕ → Bytes)
    → (ℕ → Faults)
    → ℕ
    → Root
    → Root × Result UploadWriter StoreError
attempt_ids config metadata limit ids faults zero root = (root, err id_collision)
attempt_ids config metadata limit ids faults (suc left) root =
    let (root', result) = begin_with_id config metadata (ids left) limit (faults left) root in
    let retry = attempt_ids config metadata limit ids faults left root' in
    elim result [ err id_collision ↦ retry | other ↦ (root', other) ]

pub begin_with_chunk_limit :
    StoreConfig
    → BeginUpload
    → ℕ
    → (ℕ → Bytes)
    → (ℕ → Faults)
    → Root
    → Root × Result UploadWriter StoreError
begin_with_chunk_limit config metadata maximum_chunk_bytes ids faults root =
    elim (validate_begin metadata config.max_file_bytes) [
      | err e ↦ (root, err (invalid_upload e))
      | ok _ ↦
          if maximum_chunk_bytes == 0
          then (root, err invalid_chunk_limit)
          else attempt_ids config metadata (min maximum_chunk_bytes upload_chunk_bytes_max) ids
              faults random_id_attempts root
    ]

-- What `write_all` did: everything, or some bytes and then an error.
pub data WriteAnswer : Type 0 where
  wrote_all : WriteAnswer
  failed_after : ℕ → ℕ → WriteAnswer

unfoldable pub write_chunk :
    UploadWriter → UploadChunk → WriteAnswer → UploadWriter × Result (Unit {0}) StoreError
write_chunk w chunk answer =
    elim (validate_chunk chunk w.upload_id w.written w.maximum_chunk_bytes w.expected_bytes) [
      | err e ↦ (w, err (invalid_upload e))
      | ok _ ↦ elim answer [
        | failed_after n errno ↦
            (record w { file = w.file ++ take n chunk.payload }, err (io errno))
        | wrote_all ↦ (
          record w {
            file = w.file ++ chunk.payload;
            hashed = w.hashed ++ chunk.payload;
            written = (w.written + length chunk.payload) % 2 ^ 64;
          },
          ok tt,
        )
      ]
    ]
