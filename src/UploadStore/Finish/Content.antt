-- ===== src/UploadStore/Finish/Content.antt =====
-- What a committed upload contains.
use holdfast.Base.{
  Bytes, bytes_eq_iff, length, length-append, Result, ok, err, ℕ, ◌+◌, ◌%◌, ◌^◌, ◌≤◌, ◌<◌, ◌≡◌,
  refl, sym, ap, ◌∙◌, ◌⊎◌, inl, inr, Option, none, some, List, [], ◌∷◌, ◌++◌, append-nil,
  append_assoc, arith,
}
use holdfast.Protocol.Upload.{BeginUpload, UploadChunk}
use holdfast.Protocol.Upload.Acceptance.{IsNextChunk, validate_chunk_iff}
use holdfast.UploadStore.Files.{Root, Faults, Call}
use holdfast.UploadStore.Writer.{
  UploadWriter, CommittedUpload, StoreError, wrote_all, invalid_upload, new_writer, write_chunk,
  call_then,
}
use holdfast.UploadStore.Names.{sanitize_basename}
use holdfast.Protocol.Upload.{validate_chunk, UploadValidationError}
use mathlib.Core.Path.{subst}
use holdfast.UploadStore.Finish.{
  committed_upload, commit_file, unlink_and_own, link_and_own, link_stored, give_away, finish_inner,
  dropped, finish,
}

-- The chunks are written one after another; the run ends at the first error.
unfoldable pub write_chunks : UploadWriter → List UploadChunk → Result UploadWriter StoreError
write_chunks w [] = ok w
write_chunks w (c ∷ cs) =
    let (w', written) = write_chunk w c wrote_all in
    let rest = write_chunks w' cs in elim written [ ok _ ↦ rest | err e ↦ err e ]

abbrev pub payloads : List UploadChunk → Bytes
payloads [] = []
payloads (c ∷ cs) = c.payload ++ payloads cs

-- `written` counts the bytes of the file, which are those hashed, and stays within the declaration.
pub record IsConsistent (w : UploadWriter) : Type 0 where
  pub hashed_file : w.hashed ≡ w.file
  pub counted : w.written ≡ length w.file
  pub within : w.written ≤ w.expected_bytes
  pub is_u64 : w.expected_bytes < 2 ^ 64

unit_cases {κ} : {E : Type κ} (r : Result (Unit {0}) E) → (r ≡ ok tt) ⊎ ((e : E) × (r ≡ err e))
unit_cases (ok _) = inl refl
unit_cases (err e) = inr (e, refl)

module _ (w : UploadWriter) (c : UploadChunk) where
  verdict : Result (Unit {0}) UploadValidationError
  verdict = validate_chunk c w.upload_id w.written w.maximum_chunk_bytes w.expected_bytes

  grown : UploadWriter
  grown = record w {
    file = w.file ++ c.payload;
    hashed = w.hashed ++ c.payload;
    written = (w.written + length c.payload) % 2 ^ 64;
  }

  write_chunk_rejected :
      (e : UploadValidationError)
      → verdict ≡ err e
      → write_chunk w c wrote_all ≡ (w, err (invalid_upload e))
  unfolding write_chunk verdict
  write_chunk_rejected e h = rw (h, write_chunk) refl

  write_chunk_accepted : verdict ≡ ok tt → write_chunk w c wrote_all ≡ (grown, ok tt)
  unfolding write_chunk verdict grown
  write_chunk_accepted h = rw (h, write_chunk) refl

  -- A chunk that is accepted and written extends the file by its payload, and changes no other
  -- field but the hash and the count.
  grown-IsConsistent : IsConsistent w → verdict ≡ ok tt → IsConsistent grown
  unfolding grown verdict
  grown-IsConsistent v h =
      let next : IsNextChunk c w.upload_id w.written w.maximum_chunk_bytes w.expected_bytes =
        (validate_chunk_iff c w.upload_id w.written w.maximum_chunk_bytes w.expected_bytes
            v.is_u64).0
          h in
      let fits = next.within in
      let total = length-append w.file c.payload in
      record {
        hashed_file = cc (v.hashed_file);
        counted = omega (arith, v.counted, v.within, v.is_u64);
        within = omega (arith, v.within, v.is_u64);
        is_u64 = v.is_u64;
      }

ok_injective {ℓ κ} :
    {A : Type ℓ} {E : Type κ} {a b : A} → ◌≡◌ {A = Result A E} (ok a) (ok b) → a ≡ b
ok_injective {a = a} e = ap (λ r. elim r [ ok x ↦ x | err _ ↦ a ]) e

-- `w'` is `w` after these bytes were written; the fields of the declaration are as they were.
pub record Grew (w w' : UploadWriter) (bytes : Bytes) : Type 0 where
  pub consistent : IsConsistent w'
  pub appended : w'.file ≡ w.file ++ bytes
  pub same_id : w'.upload_id ≡ w.upload_id
  pub same_total : w'.expected_bytes ≡ w.expected_bytes
  pub same_digest : w'.expected_sha256 ≡ w.expected_sha256
  pub same_name : w'.stored_basename ≡ w.stored_basename

Grew-trans :
    (w c w' : UploadWriter) (xs ys : Bytes) → Grew w c xs → Grew c w' ys → Grew w w' (xs ++ ys)
Grew-trans w c w' xs ys g h = record {
  consistent = h.consistent;
  appended = h.appended ∙ ap (λ f. f ++ ys) g.appended ∙ append_assoc w.file xs ys;
  same_id = h.same_id ∙ g.same_id;
  same_total = h.same_total ∙ g.same_total;
  same_digest = h.same_digest ∙ g.same_digest;
  same_name = h.same_name ∙ g.same_name;
}

grown-Grew :
    (w : UploadWriter) (c : UploadChunk)
    → IsConsistent w
    → verdict w c ≡ ok tt
    → Grew w (grown w c) c.payload
grown-Grew w c v h = record {
  consistent = grown-IsConsistent w c v h;
  appended = unfold grown in refl;
  same_id = unfold grown in refl;
  same_total = unfold grown in refl;
  same_digest = unfold grown in refl;
  same_name = unfold grown in refl;
}

write_chunks-Grew :
    (cs : List UploadChunk) (w w' : UploadWriter)
    → IsConsistent w
    → write_chunks w cs ≡ ok w'
    → Grew w w' (payloads cs)
unfolding write_chunks
write_chunks-Grew [] w w' v e =
    subst (λ u. Grew w u []) (ok_injective e)
      (record {
        consistent = v;
        appended = sym (append-nil w.file);
        same_id = refl;
        same_total = refl;
        same_digest = refl;
        same_name = refl;
      })
write_chunks-Grew (c ∷ cs) w w' v e = elim (unit_cases (verdict w c)) [
  | inl h ↦
      let later : write_chunks (grown w c) cs ≡ ok w' =
        ground (arith, write_chunk_accepted w c h) in
      let one = grown-Grew w c v h in
      Grew-trans w (grown w c) w' c.payload (payloads cs) one
        (write_chunks-Grew cs (grown w c) w' one.consistent later)
  | inr (x, h) ↦ absurd (cc (write_chunk_rejected w c x h))
]

new_writer-IsConsistent :
    (metadata : BeginUpload) (id directory : Bytes) (limit : ℕ)
    → metadata.total_bytes < 2 ^ 64
    → IsConsistent (new_writer metadata id directory limit)
unfolding new_writer
new_writer-IsConsistent metadata id directory limit h = record {
  hashed_file = refl;
  counted = refl;
  within = omega arith;
  is_u64 = h;
}

module _ (digest : Bytes → Bytes) (w : UploadWriter) (id : Bytes) (faults : Faults)
    (root : Root) where
  call_then-ok :
      (call : Call) (effect : Root → Root) (r : Root)
      (next : Root → Root × Result CommittedUpload StoreError) {c : CommittedUpload}
      → (call_then faults call effect r next).1 ≡ ok c
      → (next (effect r)).1 ≡ ok c
  unfolding call_then
  call_then-ok call effect r next e = ground arith

  commit_file-ok :
      (owner : Option (ℕ × ℕ)) (c : CommittedUpload)
      → (commit_file digest w owner faults root).1 ≡ ok c
      → c ≡ committed_upload digest w
  unfolding commit_file unlink_and_own link_and_own link_stored give_away call_then
  commit_file-ok none c e = ground arith
  commit_file-ok (some o) c e = ground arith

  -- What a successful `finish` has checked.
  pub record Checked (c : CommittedUpload) : Type 0 where
    pub same_id : id ≡ w.upload_id
    pub complete : w.written ≡ w.expected_bytes
    pub intact : digest w.hashed ≡ w.expected_sha256
    pub result : c ≡ committed_upload digest w

  dropped_result :
      (out : Root × Result CommittedUpload StoreError) → (dropped w faults out).1 ≡ out.1
  unfolding dropped
  dropped_result (r, ok c) = refl
  dropped_result (r, err e) = refl

  finish_inner-Checked :
      (c : CommittedUpload) → (finish_inner digest w id none faults root).1 ≡ ok c → Checked c
  unfolding finish_inner
  finish_inner-Checked c e = record {
    same_id = (bytes_eq_iff id w.upload_id).0 (ground arith);
    complete = ground arith;
    intact = (bytes_eq_iff (digest w.hashed) w.expected_sha256).0 (ground arith);
    result = commit_file-ok none c (ground arith);
  }

  pub finish-Checked : (c : CommittedUpload) → (finish digest w id faults root).1 ≡ ok c → Checked c
  unfolding finish
  finish-Checked c e =
      finish_inner-Checked c (sym (dropped_result (finish_inner digest w id none faults root)) ∙ e)

-- What a client may rely on about a committed upload.
pub record IsFaithful (digest : Bytes → Bytes) (metadata : BeginUpload) (cs : List UploadChunk)
    (w : UploadWriter) (c : CommittedUpload) : Type 0 where
  pub file : w.file ≡ payloads cs
  pub declared_length : length w.file ≡ metadata.total_bytes
  pub declared_digest : digest w.file ≡ metadata.sha256
  pub reported_length : c.bytes_written ≡ metadata.total_bytes
  pub reported_digest : c.sha256 ≡ metadata.sha256
  pub reported_name : c.stored_basename ≡ sanitize_basename metadata.original_name

module _ (digest : Bytes → Bytes) (metadata : BeginUpload) (id directory : Bytes) (limit : ℕ)
    (cs : List UploadChunk) (faults : Faults) (root : Root) where
  -- When a new upload's chunks are written without an error and `finish` then succeeds, the
  -- committed file is the concatenation of the chunks, its length and its digest are the ones
  -- declared, and these are reported with the sanitized name. Any system call may have failed or not.
  pub finish-IsFaithful :
      (w : UploadWriter) (c : CommittedUpload)
      → metadata.total_bytes < 2 ^ 64
      → write_chunks (new_writer metadata id directory limit) cs ≡ ok w
      → (finish digest w id faults root).1 ≡ ok c
      → IsFaithful digest metadata cs w c
  unfolding new_writer committed_upload
  finish-IsFaithful w c is_u64 written finished =
      let start = new_writer-IsConsistent metadata id directory limit is_u64 in
      let g = write_chunks-Grew cs (new_writer metadata id directory limit) w start written in
      let k = finish-Checked digest w id faults root c finished in faithful g k
    where
      faithful :
          Grew (new_writer metadata id directory limit) w (payloads cs)
          → Checked digest w id faults root c
          → IsFaithful digest metadata cs w c
      faithful g k = record {
        file = g.appended;
        declared_length = sym g.consistent.counted ∙ k.complete ∙ g.same_total;
        declared_digest = ap digest (sym g.consistent.hashed_file) ∙ k.intact ∙ g.same_digest;
        reported_length = ap (λ x. x.bytes_written) k.result ∙ k.complete ∙ g.same_total;
        reported_digest = ap (λ x. x.sha256) k.result ∙ k.intact ∙ g.same_digest;
        reported_name = ap (λ x. x.stored_basename) k.result ∙ g.same_name;
      }
