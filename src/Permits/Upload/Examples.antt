-- ===== src/Permits/Upload/Examples.antt =====
-- One user starts an upload.
use holdfast.Base.{Bytes, length, text, ◌≤◌, ◌≡◌, refl, some, [], ◌∷◌}
use holdfast.Base.Map
use holdfast.Base.Map.{bytes_key}
use holdfast.Permits.Upload.{
  Counts, no_uploads, user_count, try_acquire, max_uploads_global, max_uploads_per_user,
}
use holdfast.Permits.Upload.Accounting.{idle, acquired, held_by, counts_accurate}

abbrev alice : Bytes
alice = text "alice"

granted : (try_acquire no_uploads alice).1 ≡ some alice
unfolding try_acquire no_uploads user_count Map.get
granted = refl

abbrev one_upload : Counts
one_upload = (try_acquire no_uploads alice).0

counts_accurate_example :
    (one_upload.global ≡ length (alice ∷ []))
    × (user_count one_upload alice ≡ held_by alice (alice ∷ []))
    × (length (alice ∷ []) ≤ max_uploads_global)
    × (held_by alice (alice ∷ []) ≤ max_uploads_per_user)
counts_accurate_example =
    counts_accurate one_upload (alice ∷ []) alice (acquired no_uploads [] alice idle granted)
