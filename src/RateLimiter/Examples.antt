-- ===== src/RateLimiter/Examples.antt =====
-- Three failures within ten units lock an address out for twenty, on a map of at most two addresses.
use holdfast.Base.{ltb, length, ◌+◌, ◌≡◌, refl, true, not, none, [], ◌∷◌, arith}
use holdfast.Base.Map
use holdfast.Base.Map.{nat_key}
use holdfast.RateLimiter.{
  RateLimitPolicy, RateLimiter, check_bucket, is_locked, check, record_failure, sweep, sweep_due,
  is_dead, failed_bucket,
}
use holdfast.RateLimiter.Capacity.{IsBounded, record_failure-IsBounded}
use holdfast.RateLimiter.Lockout.{record_failure_isolated, record_failure_locks}

abbrev strict : RateLimitPolicy
strict = record { max_failures = 3; window = 10; lockout = 20; max_tracked = 2 }

abbrev twice_failed : RateLimiter
twice_failed = record {
  policy = strict;
  map =
      (5, record { failures = 100 ∷ 101 ∷ []; locked_until = none })
      ∷ (6, record { failures = 101 ∷ []; locked_until = none })
      ∷ [];
  last_sweep = none;
}

-- Nothing is dead, so that one of three addresses is evicted.
record_failure-IsBounded_example :
    IsBounded (record_failure twice_failed 7 102)
    × (length (record_failure twice_failed 7 102).map ≡ 2)
unfolding sweep sweep_due is_dead is_locked Map.insert Map.get failed_bucket
record_failure-IsBounded_example =
    record_failure-IsBounded twice_failed 7 102
      (record { unique = ground arith; bounded = omega arith })

allowed_before : (check twice_failed 6 103).1 ≡ true
unfolding check check_bucket is_locked Map.get
allowed_before = refl

record_failure_isolated_example : (check (record_failure twice_failed 5 102) 6 103).1 ≡ true
record_failure_isolated_example =
    record_failure_isolated twice_failed 5 102 6 103 (ground arith) (λ e. omega (arith, e))
      allowed_before

record_failure_locks_example :
    (check (record_failure twice_failed 5 102) 5 103).1 ≡ not (ltb 103 (102 + 20))
unfolding Map.get Map.insert
record_failure_locks_example =
    record_failure_locks twice_failed 5 102 (ground arith) (omega arith) (omega arith) (omega arith)
      (omega arith) 103
