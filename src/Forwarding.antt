-- ===== src/Forwarding.antt =====
-- crates/daemon/src/forward.rs: who may forward TCP connections and how many run at once, and
-- crates/protocol/src/forward.rs: which destinations are valid.
pub mod Accounting
pub mod Binding
pub mod Task
mod Examples
use holdfast.Base.{
  ltb, leb, ◌==◌, if◌then◌else◌, Bytes, bytes_eq, length, drop, any, all, Result, ◌>>=◌, ◌>>◌, ok,
  err, ℕ, ◌+◌, ◌-◌, ◌*◌, ◌/◌, max, ap, Bool, true, false, not, ◌&&◌, ◌||◌, Option, none, some, List,
  [], ◌∷◌,
}
use holdfast.Base.Map
use holdfast.Base.Map.{Map, bytes_key}
use holdfast.UploadStore.Names.{is_ascii_alphanumeric}

abbrev pub max_per_connection : ℕ
max_per_connection = 16

-- `users` in their order; `active` counts the permits that a user holds.
pub record ForwardService : Type 0 where
  pub users : List Bytes
  pub active : Map Bytes ℕ

pub data UsersRejected : Type 0 where
  users_rejected : UsersRejected

unfoldable pub new : List Bytes → Result ForwardService UsersRejected
new users =
    if ltb 256 (length users) || any (λ u. length u == 0 || ltb 128 (length u)) users
    then err users_rejected
    else ok (record { users = users; active = [] })

unfoldable pub enabled : ForwardService → Bool
enabled s = not (length s.users == 0)

unfoldable pub permits : ForwardService → Bytes → Bool
permits s user = any (λ u. bytes_eq u user) s.users

-- `active.values().sum()`
unfoldable pub total : Map Bytes ℕ → ℕ
total [] = 0
total ((user, n) ∷ rest) = n + total rest

-- `active.get(user).copied().unwrap_or(0)`
unfoldable pub active_of : Map Bytes ℕ → Bytes → ℕ
active_of active user = elim (Map.get active user) [ none ↦ 0 | some n ↦ n ]

-- A permit is its user.
unfoldable pub acquire : ForwardService → Bytes → ForwardService × Option Bytes
acquire s user =
    if leb 128 (total s.active) || leb 32 (active_of s.active user)
    then (s, none)
    else (record s { active = Map.insert s.active user (active_of s.active user + 1) }, some user)

-- `Permit::drop`. A count that is there is not 0, so that the subtraction does not panic.
unfoldable pub drop_permit : ForwardService → Bytes → ForwardService
drop_permit s user = elim (Map.get s.active user) [
  | none ↦ s
  | some n ↦
      if n - 1 == 0
      then record s { active = Map.remove s.active user }
      else record s { active = Map.insert s.active user (n - 1) }
]

-- `strip_suffix('.').unwrap_or(host)`
unfoldable pub strip_dot : Bytes → Bytes
strip_dot [] = []
strip_dot (b ∷ []) = if b == 46 then [] else b ∷ []
strip_dot (b ∷ c ∷ rest) = b ∷ strip_dot (c ∷ rest)

unfoldable pub on_head : ℕ → List Bytes → List Bytes
on_head b [] = (b ∷ []) ∷ []
on_head b (label ∷ labels) = (b ∷ label) ∷ labels

-- `split('.')`
unfoldable pub split_dots : Bytes → List Bytes
split_dots [] = [] ∷ []
split_dots (b ∷ rest) =
    let labels = split_dots rest in if b == 46 then [] ∷ labels else on_head b labels

unfoldable pub ends_well : Bytes → Bool
ends_well [] = false
ends_well (b ∷ []) = is_ascii_alphanumeric b
ends_well (b ∷ c ∷ rest) = ends_well (c ∷ rest)

unfoldable pub starts_well : Bytes → Bool
starts_well [] = false
starts_well (b ∷ rest) = is_ascii_alphanumeric b

unfoldable pub valid_label : Bytes → Bool
valid_label label =
    not (length label == 0)
    && leb (length label) 63
    && starts_well label
    && ends_well label
    && all (λ b. is_ascii_alphanumeric b || b == 45) label

-- `is_ip` is the standard library's parser of IP addresses.
unfoldable pub valid_destination : (is_ip : Bytes → Bool) → Bytes → ℕ → Bool
valid_destination is_ip host port =
    if length host == 0 || ltb 255 (length host) || not (leb 1 port && leb port 65535)
    then false
    else if is_ip host
    then true
    else all valid_label (split_dots (strip_dot host))
