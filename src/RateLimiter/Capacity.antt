-- ===== src/RateLimiter/Capacity.antt =====
-- The map of addresses never grows past the policy's cap.
use holdfast.Base.{
  ltb, Bool-cases, length, take, length-take, ℕ, suc, ◌-◌, ◌≤◌, min, ◌≡◌, refl, ap, ◌∙◌, inl, inr,
  not, ◌||◌, [], ◌∷◌, arith,
}
use holdfast.Base.Map
use holdfast.Base.Map.{Map, nat_key}
use holdfast.Base.Map.Unique.{Lacks, IsUnique, IsUnique-insert, IsUnique-retain}
use holdfast.RateLimiter.{
  Bucket, RateLimiter, sort_by_expiry, expiries, sweep, evict, prune, failed_bucket, record_failure,
  is_dead, sweep_due, remove_all,
}
use holdfast.RateLimiter.Eviction.{
  Tracked, length-remove_all, IsUnique-remove_all, IsUnique-sort, Tracked-sort, length-sort,
  IsUnique-take, Tracked-take,
}

Lacks-expiries :
    (k : ℕ) (m : Map ℕ Bucket) (now window : ℕ) → Lacks k m → Lacks k (expiries m now window)
unfolding expiries
Lacks-expiries k [] now window h = tt
Lacks-expiries k ((i, b) ∷ m) now window h = (h.0, Lacks-expiries k m now window h.1)

IsUnique-expiries :
    (m : Map ℕ Bucket) (now window : ℕ) → IsUnique m → IsUnique (expiries m now window)
unfolding expiries
IsUnique-expiries [] now window u = tt
IsUnique-expiries ((i, b) ∷ m) now window u =
    (Lacks-expiries i m now window u.0, IsUnique-expiries m now window u.1)

Tracked-cons :
    (m : Map ℕ Bucket) (i : ℕ) (b : Bucket) (l : Map ℕ ℕ) → Tracked m l → Tracked ((i, b) ∷ m) l
unfolding Map.get
Tracked-cons m i b [] t = tt
Tracked-cons m i b ((k, x) ∷ l) t = (λ gone. t.0 (ground (arith, gone)), Tracked-cons m i b l t.1)

Tracked-expiries : (m : Map ℕ Bucket) (now window : ℕ) → Tracked m (expiries m now window)
unfolding expiries Map.get
Tracked-expiries [] now window = tt
Tracked-expiries ((i, b) ∷ m) now window = (
  λ gone. ground (arith, gone),
  Tracked-cons m i b (expiries m now window) (Tracked-expiries m now window),
)

length-expiries : (m : Map ℕ Bucket) (now window : ℕ) → length (expiries m now window) ≡ length m
unfolding expiries
length-expiries [] now window = refl
length-expiries ((i, b) ∷ m) now window = ap suc (length-expiries m now window)

-- The addresses are distinct and at most `max_tracked`.
pub record IsBounded (l : RateLimiter) : Type 0 where
  pub unique : IsUnique l.map
  pub bounded : length l.map ≤ l.policy.max_tracked

-- Eviction removes the addresses that are over the cap, and no more of them.
evict-IsBounded :
    (l : RateLimiter) (now : ℕ)
    → IsUnique l.map
    → IsBounded (evict l now) × (length (evict l now).map ≡ min l.policy.max_tracked (length l.map))
unfolding evict
evict-IsBounded l now u = elim (Bool-cases (ltb l.policy.max_tracked (length l.map))) [
  | inr fits ↦ rw fits (record { unique = u; bounded = ground arith }, ground arith)
  | inl over ↦
      let all = expiries l.map now l.policy.window in
      let overflow = length l.map - l.policy.max_tracked in
      let victims = take overflow (sort_by_expiry all) in
      let unique =
        IsUnique-take overflow (sort_by_expiry all)
          (IsUnique-sort all (IsUnique-expiries l.map now l.policy.window u)) in
      let tracked =
        Tracked-take l.map overflow (sort_by_expiry all)
          (Tracked-sort l.map all (Tracked-expiries l.map now l.policy.window)) in
      let left : length (remove_all victims l.map) ≡ l.policy.max_tracked = ground (
        arith,
        length-remove_all victims l.map u unique tracked,
        length-take overflow (sort_by_expiry all),
        length-sort all,
        length-expiries l.map now l.policy.window,
      ) in
      rw over (
        record { unique = IsUnique-remove_all victims l.map u; bounded = omega (arith, left) },
        ground (arith, left),
      )
]

sweep-IsUnique : (l : RateLimiter) (now : ℕ) → IsUnique l.map → IsUnique (sweep l now).map
unfolding sweep
sweep-IsUnique l now u =
    elim (Bool-cases
      (sweep_due l.last_sweep now l.policy.window || ltb l.policy.max_tracked (length l.map))) [
        | inl due ↦
            rw due (IsUnique-retain (λ entry. not (is_dead entry.1 now l.policy.window)) l.map u)
        | inr early ↦ rw early u
      ]

sweep-policy : (l : RateLimiter) (now : ℕ) → (sweep l now).policy ≡ l.policy
unfolding sweep
sweep-policy l now = ground arith

-- A recorded failure keeps the addresses distinct and within the cap: of the addresses that the sweep leaves
-- once the failed one is added, exactly as many are evicted as are over the cap.
pub record_failure-IsBounded :
    (l : RateLimiter) (ip now : ℕ)
    → IsBounded l
    → (let bucket = failed_bucket l.policy (Map.get l.map ip) now in
        let swept = sweep (record l { map = Map.insert l.map ip bucket }) now in
        IsBounded (record_failure l ip now)
        × (length (record_failure l ip now).map ≡ min l.policy.max_tracked (length swept.map)))
unfolding record_failure prune
record_failure-IsBounded l ip now v =
    let bucket = failed_bucket l.policy (Map.get l.map ip) now in
    let added = record l { map = Map.insert l.map ip bucket } in
    let swept = sweep added now in
    let (bounded, count) =
      evict-IsBounded swept now
        (sweep-IsUnique added now (IsUnique-insert l.map ip bucket v.unique)) in
    (bounded, count ∙ ap (λ p. min p.max_tracked (length swept.map)) (sweep-policy added now))
