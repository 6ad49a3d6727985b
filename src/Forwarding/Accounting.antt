-- ===== src/Forwarding/Accounting.antt =====
-- crates/daemon/src/forward.rs: the counts are those of the permits that are held, and within the limits.
use holdfast.Base.{
  ◌==◌, Bool-cases, Option-cases, Bytes, bytes_eq, bytes_eq_iff, length, length-append, ℕ, ◌+◌, ◌-◌,
  ◌≤◌, ◌≡◌, refl, inl, inr, none, some, List, [], ◌∷◌, ◌++◌, arith,
}
use holdfast.Base.Map
use holdfast.Base.Map.{Map, bytes_key, get-insert, get-remove}
use holdfast.Base.Map.Unique.{Lacks, IsUnique, IsUnique-insert, IsUnique-remove}
use holdfast.Permits.Upload.Accounting.{held_by, held_by-append}
use holdfast.Forwarding.{ForwardService, total, active_of, acquire, drop_permit}

total-insert :
    (active : Map Bytes ℕ) (user : Bytes) (n : ℕ)
    → total (Map.insert active user n) + active_of active user ≡ total active + n
unfolding total active_of Map.insert Map.get
total-insert [] user n = omega arith
total-insert ((u, k) ∷ rest) user n = ground (arith, total-insert rest user n)

total-remove_lacking :
    (active : Map Bytes ℕ) (user : Bytes)
    → Lacks user active
    → total (Map.remove active user) ≡ total active
unfolding total Map.remove
total-remove_lacking [] user l = refl
total-remove_lacking ((u, k) ∷ rest) user l =
    ground (arith, l.0, total-remove_lacking rest user l.1)

total-remove :
    (active : Map Bytes ℕ) (user : Bytes)
    → IsUnique active
    → total (Map.remove active user) + active_of active user ≡ total active
unfolding total active_of Map.remove Map.get
total-remove [] user u = refl
total-remove ((v, k) ∷ rest) user u = elim (Bool-cases (bytes_eq v user)) [
  | inr other ↦ ground (arith, other, total-remove rest user u.1)
  | inl same ↦
      let at : v ≡ user = (bytes_eq_iff v user).0 same in
      ground (arith, same, total-remove_lacking rest user (rw at at u.0))
]

-- Permits are acquired and dropped in any order.
pub data Reachable (users : List Bytes) : ForwardService → List Bytes → Type 0 where
  idle : Reachable users (record { users = users; active = [] }) []
  acquired :
      (s : ForwardService) (held : List Bytes) (user : Bytes)
      → Reachable users s held
      → (acquire s user).1 ≡ some user
      → Reachable users (acquire s user).0 (user ∷ held)
  refused :
      (s : ForwardService) (held : List Bytes) (user : Bytes)
      → Reachable users s held
      → (acquire s user).1 ≡ none
      → Reachable users (acquire s user).0 held
  dropped :
      (s : ForwardService) (before : List Bytes) (user : Bytes) (after : List Bytes)
      → Reachable users s (before ++ user ∷ after)
      → Reachable users (drop_permit s user) (before ++ after)

record IsAccurate (s : ForwardService) (held : List Bytes) : Type 0 where
  unique : IsUnique s.active
  all_counted : total s.active ≡ length held
  each : (user : Bytes) → active_of s.active user ≡ held_by user held
  few : length held ≤ 128
  fair : (user : Bytes) → held_by user held ≤ 32

acquired-IsAccurate :
    (s : ForwardService) (held : List Bytes) (user : Bytes)
    → IsAccurate s held
    → (acquire s user).1 ≡ some user
    → IsAccurate (acquire s user).0 (user ∷ held)
unfolding acquire active_of held_by
acquired-IsAccurate s held user v e =
    let granted : (acquire s user).0
        ≡ record s { active = Map.insert s.active user (active_of s.active user + 1) } =
      ground (arith, e) in
    rw granted (record {
      unique = IsUnique-insert s.active user (active_of s.active user + 1) v.unique;
      all_counted =
          ground (arith, v.all_counted, total-insert s.active user (active_of s.active user + 1));
      each = λ u. ground (
        arith,
        v.each u,
        v.each user,
        bytes_eq_iff user u,
        get-insert s.active user (active_of s.active user + 1) u,
      );
      few = ground (arith, e, v.all_counted, v.few);
      fair = λ u. ground (arith, e, v.fair u, v.each user, bytes_eq_iff user u);
    })

-- What the permits that remain have in common, whichever way the count is written down.
remaining_fair :
    (s : ForwardService) (before : List Bytes) (user : Bytes) (after : List Bytes) (u : Bytes)
    → IsAccurate s (before ++ user ∷ after)
    → (length (before ++ user ∷ after) ≡ length (before ++ after) + 1)
      × (held_by u (before ++ after) ≤ 32)
unfolding held_by
remaining_fair s before user after u v = (
  ground (arith, length-append before (user ∷ after), length-append before after),
  ground (arith, v.fair u, held_by-append u before (user ∷ after), held_by-append u before after),
)

dropped-IsAccurate :
    (s : ForwardService) (before : List Bytes) (user : Bytes) (after : List Bytes)
    → IsAccurate s (before ++ user ∷ after)
    → IsAccurate (drop_permit s user) (before ++ after)
unfolding drop_permit active_of held_by
dropped-IsAccurate s before user after v =
    let shorter = (remaining_fair s before user after user v).0 in
    elim (Option-cases (Map.get s.active user)) [
      | inl none_held ↦ absurd (
          ground (
            arith,
            none_held,
            v.each user,
            bytes_eq_iff user user,
            held_by-append user before (user ∷ after),
          ))
      | inr (n, held) ↦ elim (Bool-cases (n - 1 == 0)) [
        | inl last ↦
            let at : drop_permit s user ≡ record s { active = Map.remove s.active user } =
              ground (arith, held, last) in
            rw at (record {
              unique = IsUnique-remove s.active user v.unique;
              all_counted = ground (
                arith,
                held,
                last,
                shorter,
                v.all_counted,
                v.each user,
                bytes_eq_iff user user,
                held_by-append user before (user ∷ after),
                total-remove s.active user v.unique,
              );
              each = λ u. ground (
                arith,
                held,
                last,
                v.each u,
                v.each user,
                bytes_eq_iff user u,
                bytes_eq_iff user user,
                held_by-append u before (user ∷ after),
                held_by-append u before after,
                held_by-append user before (user ∷ after),
                get-remove s.active user u,
              );
              few = omega (arith, shorter, v.few);
              fair = λ u. (remaining_fair s before user after u v).1;
            })
        | inr more ↦
            let at : drop_permit s user ≡ record s { active = Map.insert s.active user (n - 1) } =
              ground (arith, held, more) in
            rw at (record {
              unique = IsUnique-insert s.active user (n - 1) v.unique;
              all_counted =
                  ground
                    (arith, held, more, shorter, v.all_counted, total-insert s.active user (n - 1));
              each = λ u. ground (
                arith,
                held,
                more,
                v.each u,
                v.each user,
                bytes_eq_iff user u,
                bytes_eq_iff user user,
                held_by-append u before (user ∷ after),
                held_by-append u before after,
                held_by-append user before (user ∷ after),
                get-insert s.active user (n - 1) u,
              );
              few = omega (arith, shorter, v.few);
              fair = λ u. (remaining_fair s before user after u v).1;
            })
      ]
    ]

Reachable-IsAccurate :
    (users : List Bytes) (s : ForwardService) (held : List Bytes)
    → Reachable users s held
    → IsAccurate s held
unfolding active_of held_by total Map.get acquire
Reachable-IsAccurate users _ _ idle = record {
  unique = tt;
  all_counted = refl;
  each = λ u. refl;
  few = omega arith;
  fair = λ u. omega arith;
}
Reachable-IsAccurate users _ _ (acquired s held user r e) =
    acquired-IsAccurate s held user (Reachable-IsAccurate users s held r) e
Reachable-IsAccurate users _ _ (refused s held user r e) =
    let same : (acquire s user).0 ≡ s = ground (arith, e) in
    rw same (Reachable-IsAccurate users s held r)
Reachable-IsAccurate users _ _ (dropped s before user after r) =
    dropped-IsAccurate s before user after (Reachable-IsAccurate users s (before ++ user ∷ after) r)

-- However forwarding permits are acquired and dropped, a user's count is the number of permits that this user
-- holds and the sum of all counts the number of all permits, at most 32 and at most 128.
pub forwards_accurate :
    (users : List Bytes) (s : ForwardService) (held : List Bytes) (user : Bytes)
    → Reachable users s held
    → (total s.active ≡ length held)
      × (active_of s.active user ≡ held_by user held)
      × (length held ≤ 128)
      × (held_by user held ≤ 32)
forwards_accurate users s held user r =
    let v = Reachable-IsAccurate users s held r in (v.all_counted, v.each user, v.few, v.fair user)
