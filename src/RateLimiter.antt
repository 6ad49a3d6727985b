-- ===== src/RateLimiter.antt =====
-- crates/daemon/src/auth.rs: the per-address limiter of failed logins. Instants and durations are
-- numbers of one unit; `duration_since` is 0 for a later instant, as in Rust. The mutex serializes
-- the methods, so each is one step. An address is a number.
pub mod Eviction
pub mod Capacity
pub mod Lockout
pub mod Examples
use holdfast.Base.{
  ltb, leb, if◌then◌else◌, length, take, any, all, retain, ◌>>=◌, ◌>>◌, ℕ, suc, ◌+◌, ◌-◌, ◌*◌, ◌/◌,
  ◌%◌, ◌^◌, ◌<◌, max, ap, Bool, true, false, not, ◌&&◌, ◌||◌, Option, none, some, List, [], ◌∷◌,
  ◌++◌,
}
use holdfast.Base.Map
use holdfast.Base.Map.{Map, nat_key}

pub record RateLimitPolicy : Type 0 where
  pub max_failures : ℕ
  pub window : ℕ
  pub lockout : ℕ
  pub max_tracked : ℕ

abbrev pub default_policy : RateLimitPolicy
default_policy = record { max_failures = 5; window = 60; lockout = 60; max_tracked = 100000 }

pub record Bucket : Type 0 where
  pub failures : List ℕ
  pub locked_until : Option ℕ

-- `locked_until.map_or(false, |until| now < until)`
pub is_locked : Option ℕ → ℕ → Bool
is_locked none now = false
is_locked (some until) now = ltb now until

pub is_dead : Bucket → ℕ → ℕ → Bool
is_dead bucket now window =
    let locked = is_locked bucket.locked_until now in
    let has_recent_failure = any (λ t. ltb (now - t) window) bucket.failures in
    not locked && not has_recent_failure

-- `failures.iter().max()`
pub latest : List ℕ → Option ℕ
latest [] = none
latest (t ∷ ts) = elim (latest ts) [ none ↦ some t | some u ↦ some (max t u) ]

pub later_of : Option ℕ → Option ℕ → ℕ → ℕ
later_of (some a) (some b) now = max a b
later_of (some a) none now = a
later_of none (some b) now = b
later_of none none now = now

pub expires_at : Bucket → ℕ → ℕ → ℕ
expires_at bucket now window =
    let failure_deadline : Option ℕ = elim (latest bucket.failures) [
      | none ↦ none
      | some t ↦ some (t + window)
    ] in
    later_of bucket.locked_until failure_deadline now

pub record RateLimiter : Type 0 where
  pub policy : RateLimitPolicy
  pub map : Map ℕ Bucket
  pub last_sweep : Option ℕ

unfoldable pub new : RateLimitPolicy → RateLimiter
new policy = record { policy = policy; map = []; last_sweep = none }

pub check_bucket : RateLimiter → ℕ → ℕ → Bucket → Option ℕ → RateLimiter × Bool
check_bucket l ip now bucket none = (l, true)
check_bucket l ip now bucket (some until) = if ltb now until then (l, false) else (
  record l { map = Map.insert l.map ip (record { failures = []; locked_until = none }) },
  true,
)

unfoldable pub check : RateLimiter → ℕ → ℕ → RateLimiter × Bool
check l ip now = elim (Map.get l.map ip) [
  | none ↦ (l, true)
  | some bucket ↦ check_bucket l ip now bucket bucket.locked_until
]

-- `sort_by_key(|(_, exp)| *exp)`, which is stable.
pub insert_by_expiry : ℕ × ℕ → List (ℕ × ℕ) → List (ℕ × ℕ)
insert_by_expiry a [] = a ∷ []
insert_by_expiry (ip, exp) ((ip', exp') ∷ rest) =
    if leb exp exp'
    then (ip, exp) ∷ (ip', exp') ∷ rest
    else (ip', exp') ∷ insert_by_expiry (ip, exp) rest

pub sort_by_expiry : List (ℕ × ℕ) → List (ℕ × ℕ)
sort_by_expiry [] = []
sort_by_expiry (a ∷ rest) = insert_by_expiry a (sort_by_expiry rest)

pub expiries : Map ℕ Bucket → ℕ → ℕ → List (ℕ × ℕ)
expiries [] now window = []
expiries ((ip, b) ∷ m) now window = (ip, expires_at b now window) ∷ expiries m now window

pub remove_all : List (ℕ × ℕ) → Map ℕ Bucket → Map ℕ Bucket
remove_all [] m = m
remove_all ((ip, exp) ∷ rest) m = remove_all rest (Map.remove m ip)

-- `last_sweep.map_or(true, |t| now.duration_since(t) >= window)`
pub sweep_due : Option ℕ → ℕ → ℕ → Bool
sweep_due none now window = true
sweep_due (some t) now window = leb window (now - t)

pub sweep : RateLimiter → ℕ → RateLimiter
sweep l now =
    if sweep_due l.last_sweep now l.policy.window || ltb l.policy.max_tracked (length l.map)
    then record l {
      map = retain (λ entry. not (is_dead entry.1 now l.policy.window)) l.map;
      last_sweep = some now;
    }
    else l

pub evict : RateLimiter → ℕ → RateLimiter
evict l now =
    if ltb l.policy.max_tracked (length l.map)
    then (let overflow = length l.map - l.policy.max_tracked in
        let by_expiry = sort_by_expiry (expiries l.map now l.policy.window) in
        record l { map = remove_all (take overflow by_expiry) l.map })
    else l

pub prune : RateLimiter → ℕ → RateLimiter
prune l now = evict (sweep l now) now

-- The bucket of the address after the failure.
pub failed_bucket : RateLimitPolicy → Option Bucket → ℕ → Bucket
failed_bucket policy found now =
    let bucket : Bucket = elim found [
      | some b ↦ b
      | none ↦ record { failures = []; locked_until = none }
    ] in
    let failures = retain (λ t. ltb (now - t) policy.window) bucket.failures ++ now ∷ [] in
    record {
      failures = failures;
      locked_until =
          if leb policy.max_failures (length failures % 2 ^ 32)
          then some (now + policy.lockout)
          else bucket.locked_until;
    }

pub record_failure : RateLimiter → ℕ → ℕ → RateLimiter
record_failure l ip now =
    prune (record l { map = Map.insert l.map ip (failed_bucket l.policy (Map.get l.map ip) now) })
      now

pub record_success : RateLimiter → ℕ → RateLimiter
record_success l ip = record l { map = Map.remove l.map ip }
