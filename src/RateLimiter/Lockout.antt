-- ===== src/RateLimiter/Lockout.antt =====
-- Who is locked out, and for how long.
use holdfast.Base.{
  ltb, le→ltb, length, take, retain, length-append, length-retain-le, ℕ, ◌+◌, ◌-◌, ◌^◌, ◌≤◌, ◌<◌,
  ◌≡◌, refl, ap, ◌∙◌, ◌≢◌, ◌⊎◌, inl, Bool, true, false, not, Option, none, some, List, [], ◌∷◌,
  arith,
}
use holdfast.Base.Map
use holdfast.Base.Map.{Map, nat_key, get-insert, get-remove}
use holdfast.Base.Map.Unique.{IsUnique, IsUnique-insert, get-retain}
use holdfast.RateLimiter.{
  Bucket, RateLimiter, is_locked, is_dead, check, check_bucket, remove_all, sweep, evict, prune,
  failed_bucket, record_failure, expiries, sort_by_expiry,
}

-- The verdict of `check`, from the entry of the address.
pub allowed : Option Bucket → ℕ → Bool
allowed none now = true
allowed (some b) now = not (is_locked b.locked_until now)

pub check-allowed :
    (l : RateLimiter) (ip now : ℕ) → (check l ip now).1 ≡ allowed (Map.get l.map ip) now
unfolding check check_bucket allowed is_locked
check-allowed l ip now = ground arith

-- Pruning never changes an entry that it keeps.
remove_all-get :
    (ks : List (ℕ × ℕ)) (m : Map ℕ Bucket) (j : ℕ)
    → (Map.get (remove_all ks m) j ≡ Map.get m j) ⊎ (Map.get (remove_all ks m) j ≡ none)
unfolding remove_all
remove_all-get [] m j = inl refl
remove_all-get ((k, x) ∷ ks) m j =
    ground (arith, remove_all-get ks (Map.remove m k) j, get-remove m k j)

sweep-get :
    (l : RateLimiter) (now j : ℕ)
    → IsUnique l.map
    → (Map.get (sweep l now).map j ≡ Map.get l.map j) ⊎ (Map.get (sweep l now).map j ≡ none)
unfolding sweep
sweep-get l now j u =
    let alive = λ (entry : ℕ × Bucket). not (is_dead entry.1 now l.policy.window) in
    ground (arith, get-retain alive l.map j u)

evict-get :
    (l : RateLimiter) (now j : ℕ)
    → (Map.get (evict l now).map j ≡ Map.get l.map j) ⊎ (Map.get (evict l now).map j ≡ none)
unfolding evict
evict-get l now j =
    let victims =
      take (length l.map - l.policy.max_tracked)
        (sort_by_expiry (expiries l.map now l.policy.window)) in
    ground (arith, remove_all-get victims l.map j)

record_failure-get_ne :
    (l : RateLimiter) (ip now j : ℕ)
    → IsUnique l.map
    → ip ≢ j
    → (Map.get (record_failure l ip now).map j ≡ Map.get l.map j)
      ⊎ (Map.get (record_failure l ip now).map j ≡ none)
unfolding record_failure prune
record_failure-get_ne l ip now j u ne =
    let bucket = failed_bucket l.policy (Map.get l.map ip) now in
    let added = record l { map = Map.insert l.map ip bucket } in
    ground (
      arith,
      get-insert l.map ip bucket j,
      sweep-get added now j (IsUnique-insert l.map ip bucket u),
      evict-get (sweep added now) now j,
    )

-- A failed login from one address never locks out another: whoever may try before may try after.
pub record_failure_isolated :
    (l : RateLimiter) (ip now j later : ℕ)
    → IsUnique l.map
    → ip ≢ j
    → (check l j later).1 ≡ true
    → (check (record_failure l ip now) j later).1 ≡ true
unfolding allowed
record_failure_isolated l ip now j later u ne h = ground (
  arith,
  check-allowed l j later,
  check-allowed (record_failure l ip now) j later,
  record_failure-get_ne l ip now j u ne,
)

module _ (l : RateLimiter) (ip now : ℕ) where
  -- The failures of the address that still count.
  abbrev pub recent : Option Bucket → List ℕ
  recent none = []
  recent (some b) = retain (λ t. ltb (now - t) l.policy.window) b.failures

  pub failed : Bucket
  failed = failed_bucket l.policy (Map.get l.map ip) now

  module _ (unique : IsUnique l.map) (lockout : 0 < l.policy.lockout)
      (enough : l.policy.max_failures ≤ length (recent (Map.get l.map ip)) + 1)
      (few : length (recent (Map.get l.map ip)) + 1 < 2 ^ 32)
      (room : length (Map.insert l.map ip failed) ≤ l.policy.max_tracked) where
    failed_locked : failed.locked_until ≡ some (now + l.policy.lockout)
    unfolding failed failed_bucket
    failed_locked = ground (
      arith,
      length-append (recent (Map.get l.map ip)) (now ∷ []),
      length-append (retain (λ t. ltb (now - t) l.policy.window) []) (now ∷ []),
    )

    -- A locked bucket is not dead.
    alive_failed : is_dead failed now l.policy.window ≡ false
    unfolding is_dead is_locked
    alive_failed = ground (arith, failed_locked)

    added : RateLimiter
    added = record l { map = Map.insert l.map ip failed }

    swept_failed : Map.get (sweep added now).map ip ≡ some failed
    unfolding sweep added
    swept_failed =
        let alive = λ (entry : ℕ × Bucket). not (is_dead entry.1 now l.policy.window) in
        ground (
          arith,
          alive_failed,
          get-insert l.map ip failed ip,
          get-retain alive (Map.insert l.map ip failed) ip (IsUnique-insert l.map ip failed unique),
        )

    length-swept : length (sweep added now).map ≤ l.policy.max_tracked
    unfolding sweep added
    length-swept =
        let alive = λ (entry : ℕ × Bucket). not (is_dead entry.1 now l.policy.window) in
        ground (arith, length-retain-le alive (Map.insert l.map ip failed))

    policy-swept : (sweep added now).policy ≡ l.policy
    unfolding sweep added
    policy-swept = ground arith

    not_evicted : evict (sweep added now) now ≡ sweep added now
    unfolding evict
    not_evicted =
        rw
          (le→ltb (sweep added now).policy.max_tracked (length (sweep added now).map)
            (rw policy-swept length-swept))
          refl

    kept_failed : Map.get (record_failure l ip now).map ip ≡ some failed
    unfolding record_failure prune added failed
    kept_failed = ap (λ x. Map.get x.map ip) not_evicted ∙ swept_failed

    -- The failure that completes `max_failures` inside the window locks the address out for exactly
    -- the lockout time, if the map has room for it.
    pub record_failure_locks :
        (later : ℕ)
        → (check (record_failure l ip now) ip later).1 ≡ not (ltb later (now + l.policy.lockout))
    unfolding allowed is_locked
    record_failure_locks later =
        ground (arith, check-allowed (record_failure l ip now) ip later, kept_failed, failed_locked)
