-- ===== src/RateLimiter/Eviction.antt =====
-- Sorting and removing the entries that are evicted.
use holdfast.Base.{
  leb, ◌==◌, Bool-cases, length, take, All, ℕ, zero, suc, ◌+◌, ◌≡◌, refl, ◌≢◌, inl, inr, false,
  none, List, [], ◌∷◌, arith,
}
use holdfast.Base.Map
use holdfast.Base.Map.{Map, nat_key}
use holdfast.Base.Map.Unique.{Lacks, IsUnique, IsUnique-remove, length-remove}
use holdfast.RateLimiter.{Bucket, insert_by_expiry, sort_by_expiry, remove_all}

-- The addresses of the list are all tracked.
abbrev pub Tracked : Map ℕ Bucket → Map ℕ ℕ → Type 0
Tracked m = All (λ p. Map.get m p.0 ≢ none)

Tracked-remove :
    (m : Map ℕ Bucket) (ip : ℕ) (ks : Map ℕ ℕ)
    → Lacks ip ks
    → Tracked m ks
    → Tracked (Map.remove m ip) ks
Tracked-remove m ip [] h t = tt
Tracked-remove m ip ((k, x) ∷ ks) h t =
    (λ gone. t.0 (ground (arith, h.0, gone, Map.get-remove m ip k)), Tracked-remove m ip ks h.1 t.1)

pub length-remove_all :
    (ks : Map ℕ ℕ) (m : Map ℕ Bucket)
    → IsUnique m
    → IsUnique ks
    → Tracked m ks
    → length (remove_all ks m) + length ks ≡ length m
unfolding remove_all
length-remove_all [] m um u t = omega arith
length-remove_all ((ip, x) ∷ ks) m um u t = omega (
  arith,
  length-remove m ip um t.0,
  length-remove_all ks (Map.remove m ip) (IsUnique-remove m ip um) u.1
      (Tracked-remove m ip ks u.0 t.1),
)

pub IsUnique-remove_all :
    (ks : List (ℕ × ℕ)) (m : Map ℕ Bucket) → IsUnique m → IsUnique (remove_all ks m)
unfolding remove_all
IsUnique-remove_all [] m u = u
IsUnique-remove_all ((ip, x) ∷ ks) m u =
    IsUnique-remove_all ks (Map.remove m ip) (IsUnique-remove m ip u)

-- Sorting keeps the addresses distinct and tracked.
Lacks-insert_by_expiry :
    (ip exp k : ℕ) (l : Map ℕ ℕ)
    → (ip == k) ≡ false
    → Lacks k l
    → Lacks k (insert_by_expiry (ip, exp) l)
unfolding insert_by_expiry
Lacks-insert_by_expiry ip exp k [] ne h = (ne, tt)
Lacks-insert_by_expiry ip exp k ((i, x) ∷ l) ne h = elim (Bool-cases (leb exp x)) [
  | inl first ↦ rw first (ne, h)
  | inr later ↦ rw later (h.0, Lacks-insert_by_expiry ip exp k l ne h.1)
]

IsUnique-insert_by_expiry :
    (ip exp : ℕ) (l : Map ℕ ℕ) → Lacks ip l → IsUnique l → IsUnique (insert_by_expiry (ip, exp) l)
unfolding insert_by_expiry
IsUnique-insert_by_expiry ip exp [] h u = (tt, tt)
IsUnique-insert_by_expiry ip exp ((i, x) ∷ l) h u = elim (Bool-cases (leb exp x)) [
  | inl first ↦ rw first (h, u)
  | inr later ↦ rw later (
    Lacks-insert_by_expiry ip exp i l (ground (arith, h.0)) u.0,
    IsUnique-insert_by_expiry ip exp l h.1 u.1,
  )
]

Tracked-insert_by_expiry :
    (m : Map ℕ Bucket) (ip exp : ℕ) (l : Map ℕ ℕ)
    → Map.get m ip ≢ none
    → Tracked m l
    → Tracked m (insert_by_expiry (ip, exp) l)
unfolding insert_by_expiry
Tracked-insert_by_expiry m ip exp [] h t = (h, tt)
Tracked-insert_by_expiry m ip exp ((i, x) ∷ l) h t = elim (Bool-cases (leb exp x)) [
  | inl first ↦ rw first (h, t)
  | inr later ↦ rw later (t.0, Tracked-insert_by_expiry m ip exp l h t.1)
]

length-insert_by_expiry :
    (ip exp : ℕ) (l : Map ℕ ℕ) → length (insert_by_expiry (ip, exp) l) ≡ suc (length l)
unfolding insert_by_expiry
length-insert_by_expiry ip exp [] = refl
length-insert_by_expiry ip exp ((i, x) ∷ l) = ground (arith, length-insert_by_expiry ip exp l)

Lacks-sort : (k : ℕ) (l : Map ℕ ℕ) → Lacks k l → Lacks k (sort_by_expiry l)
unfolding sort_by_expiry
Lacks-sort k [] h = tt
Lacks-sort k ((i, x) ∷ l) h =
    Lacks-insert_by_expiry i x k (sort_by_expiry l) h.0 (Lacks-sort k l h.1)

pub IsUnique-sort : (l : Map ℕ ℕ) → IsUnique l → IsUnique (sort_by_expiry l)
unfolding sort_by_expiry
IsUnique-sort [] u = tt
IsUnique-sort ((i, x) ∷ l) u =
    IsUnique-insert_by_expiry i x (sort_by_expiry l) (Lacks-sort i l u.0) (IsUnique-sort l u.1)

pub Tracked-sort : (m : Map ℕ Bucket) (l : Map ℕ ℕ) → Tracked m l → Tracked m (sort_by_expiry l)
unfolding sort_by_expiry
Tracked-sort m [] t = tt
Tracked-sort m ((i, x) ∷ l) t =
    Tracked-insert_by_expiry m i x (sort_by_expiry l) t.0 (Tracked-sort m l t.1)

pub length-sort : (l : Map ℕ ℕ) → length (sort_by_expiry l) ≡ length l
unfolding sort_by_expiry
length-sort [] = refl
length-sort ((i, x) ∷ l) =
    omega (arith, length-insert_by_expiry i x (sort_by_expiry l), length-sort l)

Lacks-take : (n k : ℕ) (l : Map ℕ ℕ) → Lacks k l → Lacks k (take n l)
Lacks-take zero k l h = tt
Lacks-take (suc n) k [] h = tt
Lacks-take (suc n) k (p ∷ l) h = (h.0, Lacks-take n k l h.1)

pub IsUnique-take : (n : ℕ) (l : Map ℕ ℕ) → IsUnique l → IsUnique (take n l)
IsUnique-take zero l u = tt
IsUnique-take (suc n) [] u = tt
IsUnique-take (suc n) ((i, x) ∷ l) u = (Lacks-take n i l u.0, IsUnique-take n l u.1)

pub Tracked-take : (m : Map ℕ Bucket) (n : ℕ) (l : Map ℕ ℕ) → Tracked m l → Tracked m (take n l)
Tracked-take m zero l t = tt
Tracked-take m (suc n) [] t = tt
Tracked-take m (suc n) (p ∷ l) t = (t.0, Tracked-take m n l t.1)
