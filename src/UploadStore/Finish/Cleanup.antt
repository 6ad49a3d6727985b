-- ===== src/UploadStore/Finish/Cleanup.antt =====
-- What an upload leaves in the upload root, whichever call of the operating system fails.
use holdfast.Base.{
  ◌==◌, if◌then◌else◌, Bool-cases, Option-cases, Bytes, bytes_eq, bytes_eq_iff, retain, Result, ok,
  err, ℕ, ◌≡◌, refl, ◌≢◌, inl, inr, true, false, not, Option, none, some, List, [], ◌∷◌, arith,
}
use holdfast.Base.Map
use holdfast.Base.Map.{bytes_key}
use holdfast.UploadStore.Names.{partial_name}
use holdfast.UploadStore.Files.{
  Root, Call, Faults, flush, sync, link, unlink_partial, sync_dir, chown_file, chown_dir,
  drop_partial, drop_stored, drop_dir, add_name, unlink_name, remove_dir, ignoring, holds_name,
}
use holdfast.UploadStore.Writer.{UploadWriter, CommittedUpload, StoreError, call_then}
use holdfast.UploadStore.Finish.{
  link_stored, give_away, committed_upload, commit_file, unlink_and_own, link_and_own, finish_inner,
  drop_writer, dropped, finish,
}

-- `r` is `root` but for one directory, which holds these names.
pub record HasDirectory (root r : Root) (directory : Bytes) (names : List Bytes) : Type 0 where
  pub at : (d : Bytes) → Map.get r d ≡ (if bytes_eq directory d then some names else Map.get root d)

-- `r` is `root` without that directory.
pub record LacksDirectory (root r : Root) (directory : Bytes) : Type 0 where
  pub at : (d : Bytes) → Map.get r d ≡ (if bytes_eq directory d then none else Map.get root d)

self_eq : (b : Bytes) → bytes_eq b b ≡ true
self_eq b = (bytes_eq_iff b b).1 refl

module _ {root : Root} {directory : Bytes} where
  HasDirectory-get :
      (r : Root) (names : List Bytes)
      → HasDirectory root r directory names
      → Map.get r directory ≡ some names
  HasDirectory-get r names h = ground (arith, h.at directory, self_eq directory)

  HasDirectory-add_name :
      (r : Root) (names : List Bytes) (n : Bytes)
      → HasDirectory root r directory names
      → HasDirectory root (add_name directory n r) directory (n ∷ names)
  unfolding add_name
  HasDirectory-add_name r names n h = record {
    at = λ d.
        ground
          (arith, HasDirectory-get r names h, h.at d, Map.get-insert r directory (n ∷ names) d);
  }

  HasDirectory-unlink_name :
      (r : Root) (names : List Bytes) (n : Bytes)
      → HasDirectory root r directory names
      → HasDirectory root
          (unlink_name directory n r)
          directory
          (retain (λ m. not (bytes_eq m n)) names)
  unfolding unlink_name
  HasDirectory-unlink_name r names n h =
      let kept = retain (λ m. not (bytes_eq m n)) names in
      record {
        at = λ d.
            rw (HasDirectory-get r names h, unlink_name)
              (ground (arith, h.at d, Map.get-insert r directory kept d));
      }

  LacksDirectory-remove_dir :
      (r : Root)
      → HasDirectory root r directory []
      → LacksDirectory root (remove_dir directory r) directory
  unfolding remove_dir
  LacksDirectory-remove_dir r h = record {
    at = λ d. ground (arith, HasDirectory-get r [] h, h.at d, Map.get-remove r directory d);
  }

module _ (digest : Bytes → Bytes) (w : UploadWriter) (root : Root) (faults : Faults)
    (fresh : Map.get root w.directory_name ≡ some (partial_name ∷ []))
    (not_partial : w.stored_basename ≢ partial_name) where
  open w use {directory_name as directory, stored_basename as stored}

  -- Unlinking the two names of the upload leaves the directory empty.
  abbrev IsOurs : List Bytes → Type 0
  IsOurs names =
      retain (λ m. not (bytes_eq m stored)) (retain (λ m. not (bytes_eq m partial_name)) names) ≡ []

  -- Before the writer is dropped.
  abbrev Undropped : Root × Result CommittedUpload StoreError → Type 0
  Undropped (r, ok c) =
      HasDirectory root r directory (stored ∷ []) × (c ≡ committed_upload digest w)
  Undropped (r, err e) = (names : List Bytes) × HasDirectory root r directory names × IsOurs names

  -- Success leaves the complete file under its stored name and nothing else in the directory; on any
  -- error the directory is gone. Nothing else under the root changes.
  abbrev pub CleanOutcome : Root × Result CommittedUpload StoreError → Type 0
  CleanOutcome (r, ok c) =
      HasDirectory root r directory (stored ∷ []) × (c ≡ committed_upload digest w)
  CleanOutcome (r, err e) = LacksDirectory root r directory

  start : HasDirectory root root directory (partial_name ∷ [])
  start = record { at = λ d. ground (arith, fresh, bytes_eq_iff directory d) }

  partial-IsOurs : IsOurs (partial_name ∷ [])
  partial-IsOurs = ground (arith, self_eq partial_name)

  both-IsOurs : IsOurs (stored ∷ partial_name ∷ [])
  both-IsOurs = ground (arith, self_eq partial_name, self_eq stored)

  stored-IsOurs : IsOurs (stored ∷ [])
  stored-IsOurs = ground (arith, self_eq stored)

  only_stored :
      retain (λ m. not (bytes_eq m partial_name)) (stored ∷ partial_name ∷ []) ≡ stored ∷ []
  only_stored = ground (arith, self_eq partial_name, bytes_eq_iff stored partial_name)

  call_then-Undropped :
      (call : Call) (effect : Root → Root) (r : Root)
      (next : Root → Root × Result CommittedUpload StoreError) (names : List Bytes)
      → HasDirectory root r directory names
      → IsOurs names
      → Undropped (next (effect r))
      → Undropped (call_then faults call effect r next)
  unfolding call_then
  call_then-Undropped call effect r next names h ours p = elim (Option-cases (faults call)) [
    | inl e ↦ rw (e, call_then) p
    | inr (errno, e) ↦ rw (e, call_then) (names, h, ours)
  ]

  give_away-Undropped :
      (owner : Option (ℕ × ℕ)) (r : Root) (next : Root → Root × Result CommittedUpload StoreError)
      → HasDirectory root r directory (stored ∷ [])
      → Undropped (next r)
      → Undropped (give_away owner faults r next)
  unfolding give_away
  give_away-Undropped none r next h p = p
  give_away-Undropped (some owner) r next h p =
      call_then-Undropped chown_file (λ r. r) r (λ r1. call_then faults chown_dir (λ r. r) r1 next)
        (stored ∷ []) h stored-IsOurs
        (call_then-Undropped chown_dir (λ r. r) r next (stored ∷ []) h stored-IsOurs p)

  unlink_and_own-Undropped :
      (owner : Option (ℕ × ℕ)) (r : Root)
      → HasDirectory root r directory (stored ∷ partial_name ∷ [])
      → Undropped (unlink_and_own digest w owner faults r)
  unfolding unlink_and_own
  unlink_and_own-Undropped owner r h =
      let gone : HasDirectory root (unlink_name directory partial_name r) directory (stored ∷ []) =
        rw only_stored at
          (HasDirectory-unlink_name r (stored ∷ partial_name ∷ []) partial_name h) in
      let last : Root → Root × Result CommittedUpload StoreError =
        λ r6. (r6, ok (committed_upload digest w)) in
      let owned = λ (r5 : Root). give_away owner faults r5 last in
      call_then-Undropped unlink_partial (unlink_name directory partial_name) r
        (λ r4. call_then faults sync_dir (λ r. r) r4 owned) (stored ∷ partial_name ∷ []) h
        both-IsOurs
        (call_then-Undropped sync_dir (λ r. r) _ owned (stored ∷ []) gone stored-IsOurs
          (give_away-Undropped owner _ last gone (gone, refl)))

  link_stored-Undropped :
      (r : Root) (next : Root → Root × Result CommittedUpload StoreError)
      → HasDirectory root r directory (partial_name ∷ [])
      → ((r' : Root)
          → HasDirectory root r' directory (stored ∷ partial_name ∷ [])
          → Undropped (next r'))
      → Undropped (link_stored w faults r next)
  unfolding link_stored
  link_stored-Undropped r next h p = elim (Bool-cases (holds_name directory stored r)) [
    | inl taken ↦ rw taken (partial_name ∷ [], h, partial-IsOurs)
    | inr free ↦ rw free (
        call_then-Undropped link (add_name directory stored) r next (partial_name ∷ []) h
          partial-IsOurs (p _ (HasDirectory-add_name r (partial_name ∷ []) stored h)))
  ]

  link_and_own-Undropped :
      (owner : Option (ℕ × ℕ)) → Undropped (link_and_own digest w owner faults root)
  unfolding link_and_own
  link_and_own-Undropped owner =
      link_stored-Undropped root (unlink_and_own digest w owner faults) start
        (unlink_and_own-Undropped owner)

  commit_file-Undropped :
      (owner : Option (ℕ × ℕ)) → Undropped (commit_file digest w owner faults root)
  unfolding commit_file
  commit_file-Undropped owner =
      let rest = link_and_own digest w owner faults in
      call_then-Undropped flush (λ r. r) root (λ r1. call_then faults sync (λ r. r) r1 rest)
        (partial_name ∷ []) start partial-IsOurs
        (call_then-Undropped sync (λ r. r) root rest (partial_name ∷ []) start partial-IsOurs
          (link_and_own-Undropped owner))

  finish_inner-Undropped :
      (upload_id : Bytes) (owner : Option (ℕ × ℕ))
      → Undropped (finish_inner digest w upload_id owner faults root)
  unfolding finish_inner
  finish_inner-Undropped upload_id owner =
      let untouched : (names : List Bytes) × HasDirectory root root directory names × IsOurs names =
        (partial_name ∷ [], start, partial-IsOurs) in
      elim (Bool-cases (bytes_eq upload_id w.upload_id)) [
        | inr e ↦ rw e untouched
        | inl e ↦ rw e (elim (Bool-cases (w.written == w.expected_bytes)) [
          | inr f ↦ rw f untouched
          | inl f ↦ rw f (elim (Bool-cases (bytes_eq (digest w.hashed) w.expected_sha256)) [
            | inr g ↦ rw g untouched
            | inl g ↦ rw g (commit_file-Undropped owner)
          ])
        ])
      ]

  ignoring-none :
      (call : Call) (effect : Root → Root) (r : Root)
      → faults call ≡ none
      → ignoring faults call effect r ≡ effect r
  unfolding ignoring
  ignoring-none call effect r e = rw (e, ignoring) refl

  module _ (uncommitted : w.committed ≡ false) (unlinks_partial : faults drop_partial ≡ none)
      (unlinks_stored : faults drop_stored ≡ none) (removes : faults drop_dir ≡ none) where
    dropped-CleanOutcome :
        (out : Root × Result CommittedUpload StoreError)
        → Undropped out
        → CleanOutcome (dropped w faults out)
    unfolding dropped drop_writer
    dropped-CleanOutcome (r, ok c) p = p
    dropped-CleanOutcome (r, err e) (names, h, ours) =
        let h1 = HasDirectory-unlink_name r names partial_name h in
        let h2 = HasDirectory-unlink_name _ _ stored h1 in
        let gone = LacksDirectory-remove_dir _ (rw ours at h2) in
        rw
          (
            uncommitted,
            ignoring-none drop_partial (unlink_name directory partial_name) r unlinks_partial,
            ignoring-none drop_stored (unlink_name directory stored) _ unlinks_stored,
            ignoring-none drop_dir (remove_dir directory) _ removes,
          )
          gone

    -- Whichever system calls fail during `finish`, the upload root ends in one of two states. On
    -- success the upload's directory holds the file under its stored name and no partial file. On an
    -- error the upload's directory is gone. Either way the rest of the root is as it was. The
    -- writer is the one that `begin` left, with only the partial file in its directory, and the
    -- three calls of `Drop` itself succeed.
    pub finish-CleanOutcome :
        (upload_id : Bytes) → CleanOutcome (finish digest w upload_id faults root)
    unfolding finish
    finish-CleanOutcome upload_id = dropped-CleanOutcome _ (finish_inner-Undropped upload_id none)
