-- ===== src/Session/Policy.antt =====
-- crates/session-core/src/policy.rs: which Unix account a user may run a shell under.
use holdfast.Base.{
  if◌then◌else◌, Option-cases, Bytes, bytes_eq, bytes_eq_iff, any, Result, ok, err, ◌≡◌, inl, inr,
  true, Option, none, some, List, [], ◌∷◌, arith,
}
use holdfast.Base.Map
use holdfast.Base.Map.{Map, bytes_key}

pub data Denied : Type 0 where
  denied : Denied

-- The trait `AccessPolicy`: `none` as an account is the daemon's own.
abbrev pub AccessPolicy : Type 0
AccessPolicy = Bytes → Option Bytes → Result (Option Bytes) Denied

-- `requested.filter(|s| !s.is_empty())`
abbrev pub non_empty : Option Bytes → Option Bytes
non_empty none = none
non_empty (some []) = none
non_empty (some (c ∷ s)) = some (c ∷ s)

unfoldable pub allow_all : AccessPolicy
allow_all user requested = ok (non_empty requested)

abbrev first : List Bytes → Option Bytes
first [] = none
first (a ∷ rest) = some a

unfoldable pub resolve_in : List Bytes → Option Bytes → Result (Option Bytes) Denied
resolve_in accounts none = ok (first accounts)
resolve_in accounts (some req) =
    if any (λ a. bytes_eq a req) accounts then ok (some req) else err denied

unfoldable pub static_policy : Map Bytes (List Bytes) → AccessPolicy
static_policy allowed user requested = elim (Map.get allowed user) [
  | none ↦ err denied
  | some accounts ↦ resolve_in accounts (non_empty requested)
]

any-eq :
    (accounts : List Bytes) (req : Bytes)
    → any (λ a. bytes_eq a req) accounts ≡ true
    → any (λ a. bytes_eq req a) accounts ≡ true
any-eq [] req h = cc
any-eq (a ∷ rest) req h = ground (arith, any-eq rest req, bytes_eq_iff a req, bytes_eq_iff req a)

resolve_in-listed :
    (accounts : List Bytes) (req : Option Bytes) (account : Bytes)
    → resolve_in accounts req ≡ ok (some account)
    → any (λ a. bytes_eq account a) accounts ≡ true
unfolding resolve_in
resolve_in-listed [] none account e = cc
resolve_in-listed (a ∷ rest) none account e = ground (arith, bytes_eq_iff account a)
resolve_in-listed accounts (some req) account e = ground (arith, any-eq accounts req)

-- Whatever account the static policy resolves to is listed for that user, also the default.
pub static_policy_sound :
    (allowed : Map Bytes (List Bytes)) (user : Bytes) (requested : Option Bytes) (account : Bytes)
    → static_policy allowed user requested ≡ ok (some account)
    → (accounts : List Bytes) × (Map.get allowed user ≡ some accounts)
      × (any (λ a. bytes_eq account a) accounts ≡ true)
unfolding static_policy
static_policy_sound allowed user requested account e = elim (Option-cases (Map.get allowed user)) [
  | inl none_listed ↦ absurd (ground (arith, none_listed))
  | inr (accounts, found) ↦ (
    accounts,
    found,
    resolve_in-listed accounts (non_empty requested) account (ground (arith, found)),
  )
]
