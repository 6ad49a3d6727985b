-- ===== src/Permits/Upload.antt =====
-- crates/daemon/src/uploads.rs: the counts of running uploads and their permits. Counts are small, so the
-- sums do not wrap.
pub mod Accounting
pub mod Examples
use holdfast.Base.{
  leb, ◌==◌, if◌then◌else◌, Bytes, drop, all, ◌>>=◌, ◌>>◌, ℕ, ◌+◌, ◌-◌, ◌*◌, ◌/◌, max, ap, not,
  ◌||◌, Option, none, some, [],
}
use holdfast.Base.Map
use holdfast.Base.Map.{Map, bytes_key}

abbrev pub max_uploads_per_user : ℕ
max_uploads_per_user = 4

abbrev pub max_uploads_global : ℕ
max_uploads_global = 16

pub record Counts : Type 0 where
  pub global : ℕ
  pub by_user : Map Bytes ℕ

pub no_uploads : Counts
no_uploads = record { global = 0; by_user = [] }

-- `by_user.get(user).copied().unwrap_or(0)`
pub user_count : Counts → Bytes → ℕ
user_count counts user = elim (Map.get counts.by_user user) [ none ↦ 0 | some n ↦ n ]

-- `none` is `LimitExceeded`; a permit is its user.
pub try_acquire : Counts → Bytes → Counts × Option Bytes
try_acquire counts user =
    if leb max_uploads_global counts.global || leb max_uploads_per_user (user_count counts user)
    then (counts, none)
    else (
      record {
        global = counts.global + 1;
        by_user = Map.insert counts.by_user user (user_count counts user + 1);
      },
      some user,
    )

-- A user whose last permit is released is forgotten.
pub less_one : Map Bytes ℕ → Bytes → Map Bytes ℕ
less_one by_user user = elim (Map.get by_user user) [
  | none ↦ by_user
  | some count ↦
      if count - 1 == 0 then Map.remove by_user user else Map.insert by_user user (count - 1)
]

-- `UploadPermit::drop`
pub release : Counts → Bytes → Counts
release counts user = record { global = counts.global - 1; by_user = less_one counts.by_user user }
