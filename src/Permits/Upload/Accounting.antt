-- ===== src/Permits/Upload/Accounting.antt =====
-- The counts are those of the permits that are held, and within the limits.
use holdfast.Base.{
  if◌then◌else◌, Bytes, bytes_eq, bytes_eq_iff, length, length-append, ℕ, ◌+◌, ◌-◌, ◌≤◌, ◌≡◌, refl,
  none, some, List, [], ◌∷◌, ◌++◌, arith,
}
use holdfast.Base.Map
use holdfast.Base.Map.{Map, bytes_key, get-insert, get-remove}
use holdfast.Permits.Upload.{
  Counts, max_uploads_per_user, max_uploads_global, no_uploads, user_count, try_acquire, less_one,
  release,
}

-- The permits of one user among those held.
unfoldable pub held_by : Bytes → List Bytes → ℕ
held_by user [] = 0
held_by user (holder ∷ rest) = (if bytes_eq holder user then 1 else 0) + held_by user rest

pub held_by-append :
    (user : Bytes) (before after : List Bytes)
    → held_by user (before ++ after) ≡ held_by user before + held_by user after
unfolding held_by
held_by-append user [] after = omega arith
held_by-append user (holder ∷ before) after = omega (arith, held_by-append user before after)

-- Permits are acquired and dropped in any order.
pub data Reachable : Counts → List Bytes → Type 0 where
  idle : Reachable no_uploads []
  acquired :
      (counts : Counts) (held : List Bytes) (user : Bytes)
      → Reachable counts held
      → (try_acquire counts user).1 ≡ some user
      → Reachable (try_acquire counts user).0 (user ∷ held)
  refused :
      (counts : Counts) (held : List Bytes) (user : Bytes)
      → Reachable counts held
      → (try_acquire counts user).1 ≡ none
      → Reachable (try_acquire counts user).0 held
  released :
      (counts : Counts) (before : List Bytes) (user : Bytes) (after : List Bytes)
      → Reachable counts (before ++ user ∷ after)
      → Reachable (release counts user) (before ++ after)

record IsAccurate (counts : Counts) (held : List Bytes) : Type 0 where
  total : counts.global ≡ length held
  each : (user : Bytes) → user_count counts user ≡ held_by user held
  few : counts.global ≤ max_uploads_global
  fair : (user : Bytes) → held_by user held ≤ max_uploads_per_user

acquired-IsAccurate :
    (counts : Counts) (held : List Bytes) (user : Bytes)
    → IsAccurate counts held
    → (try_acquire counts user).1 ≡ some user
    → IsAccurate (try_acquire counts user).0 (user ∷ held)
unfolding try_acquire user_count held_by
acquired-IsAccurate counts held user v e = record {
  total = ground (arith, e, v.total);
  each = λ u. ground (
    arith,
    e,
    v.each u,
    v.each user,
    bytes_eq_iff user u,
    get-insert counts.by_user user (user_count counts user + 1) u,
  );
  few = ground (arith, e, v.few);
  fair = λ u. ground (arith, e, v.fair u, v.each user, bytes_eq_iff user u);
}

released-IsAccurate :
    (counts : Counts) (before : List Bytes) (user : Bytes) (after : List Bytes)
    → IsAccurate counts (before ++ user ∷ after)
    → IsAccurate (release counts user) (before ++ after)
unfolding release less_one user_count held_by
released-IsAccurate counts before user after v = record {
  total = ground (arith, v.total, length-append before (user ∷ after), length-append before after);
  each = λ u. ground (
    arith,
    v.each u,
    v.each user,
    bytes_eq_iff user u,
    bytes_eq_iff user user,
    held_by-append u before (user ∷ after),
    held_by-append u before after,
    held_by-append user before (user ∷ after),
    get-insert counts.by_user user (user_count counts user - 1) u,
    get-remove counts.by_user user u,
  );
  few = ground (arith, v.few);
  fair = λ u.
      ground
        (arith, v.fair u, held_by-append u before (user ∷ after), held_by-append u before after);
}

Reachable-IsAccurate :
    (counts : Counts) (held : List Bytes) → Reachable counts held → IsAccurate counts held
unfolding no_uploads user_count held_by try_acquire Map.get
Reachable-IsAccurate _ _ idle = record {
  total = refl;
  each = λ u. refl;
  few = omega arith;
  fair = λ u. omega arith;
}
Reachable-IsAccurate _ _ (acquired counts held user r e) =
    acquired-IsAccurate counts held user (Reachable-IsAccurate counts held r) e
Reachable-IsAccurate _ _ (refused counts held user r e) =
    let v = Reachable-IsAccurate counts held r in
    let same : (try_acquire counts user).0 ≡ counts = ground (arith, e) in rw same v
Reachable-IsAccurate _ _ (released counts before user after r) =
    released-IsAccurate counts before user after
      (Reachable-IsAccurate counts (before ++ user ∷ after) r)

-- However permits are acquired and dropped, the global count is the number of permits held and a user's
-- count the number that this user holds, at most 16 and at most 4: none is lost and none leaks.
pub counts_accurate :
    (counts : Counts) (held : List Bytes) (user : Bytes)
    → Reachable counts held
    → (counts.global ≡ length held)
      × (user_count counts user ≡ held_by user held)
      × (length held ≤ max_uploads_global)
      × (held_by user held ≤ max_uploads_per_user)
counts_accurate counts held user r =
    let v = Reachable-IsAccurate counts held r in
    (v.total, v.each user, omega (arith, v.total, v.few), v.fair user)
