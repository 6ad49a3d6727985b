-- ===== src/Session/Invariant.antt =====
-- What holds of a shell manager between its steps, and how a step on one shell's runtime keeps it.
use holdfast.Base.{
  Bool-cases, Bytes, bytes_eq, bytes_eq_iff, length, retain, ℕ, ◌+◌, ◌≤◌, ◌≡◌, ◌≢◌, inl, inr, Bool,
  true, none, some, [], ◌∷◌, arith,
}
use holdfast.Base.Map
use holdfast.Base.Map.{Eq, Map, nat_key, bytes_key, pair_key, get-insert, beq_self}
use holdfast.Base.Map.Unique.{IsUnique}
use holdfast.Session.Types.{
  ShellId, Runtime, ShellEntry, ShellManager, superseded_token_history, is_exited,
}
use holdfast.Session.Manager.{put_runtime, is_live, live_shells}

-- A runtime remembers at most 64 superseded tokens and has at most `limit` attachments, and a shell
-- that exited has its exit recorded.
pub record IsSound {S : Type 0} (limit : ℕ) (rt : Runtime S) : Type 0 where
  pub remembered : length rt.superseded_token_hashes ≤ superseded_token_history
  pub attached : length rt.attachments ≤ limit
  pub recorded : is_exited rt.state ≡ true → rt.exit ≢ none

-- A step on a runtime keeps it sound and does not bring an exited shell back.
pub record Keeps {S : Type 0} (limit : ℕ) (rt rt' : Runtime S) : Type 0 where
  pub sound : IsSound limit rt → IsSound limit rt'
  pub stays_exited : IsSound limit rt → is_exited rt.state ≡ true → is_exited rt'.state ≡ true

pub Keeps-self : {S : Type 0} (limit : ℕ) (rt : Runtime S) → Keeps limit rt rt
Keeps-self limit rt = record { sound = λ s. s; stays_exited = λ s e. e }

-- The shells are sound and at most `max_shells` of them live. An idempotency key leads to a shell of the
-- user it belongs to.
pub record IsConsistent {S : Type 0} (m : ShellManager S) : Type 0 where
  pub sound :
      (id : ShellId) (entry : ShellEntry S)
      → Map.get m.shells id ≡ some entry
      → IsSound m.config.max_attachments_per_shell entry.runtime
  pub few : length (live_shells m) ≤ m.config.max_shells
  pub scoped :
      (user key : Bytes) (id : ShellId)
      → Map.get m.idempotency (user, key) ≡ some id
      → (entry : ShellEntry S) × (Map.get m.shells id ≡ some entry) × (entry.owner ≡ user)
  pub unique : IsUnique m.idempotency

module _ {K V : Type 0} ⦃e : Eq K⦄ (p : K × V → Bool) where
  pub length-retain-insert :
      (m : Map K V) (k : K) (v : V) → length (retain p (Map.insert m k v)) ≤ length (retain p m) + 1
  unfolding Map.insert
  length-retain-insert [] k v = ground arith
  length-retain-insert ((j, w) ∷ m) k v = ground (arith, length-retain-insert m k v)

  pub length-retain-remove :
      (m : Map K V) (k : K) → length (retain p (Map.remove m k)) ≤ length (retain p m)
  unfolding Map.remove
  length-retain-remove [] k = ground arith
  length-retain-remove ((j, w) ∷ m) k = ground (arith, length-retain-remove m k)

  length-retain-replace :
      (m : Map K V) (k : K) (v w : V)
      → Map.get m k ≡ some w
      → (p (k, v) ≡ true → p (k, w) ≡ true)
      → length (retain p (Map.insert m k v)) ≤ length (retain p m)
  unfolding Map.insert Map.get
  length-retain-replace [] k v w h better = ground arith
  length-retain-replace ((j, x) ∷ m) k v w h better = elim (Bool-cases (e.beq j k)) [
    | inl same ↦ let at : j ≡ k = (e.beq_iff j k).0 same in ground (arith, same, at, h, better)
    | inr other ↦ ground (arith, other, length-retain-replace m k v w (rw other at h) better)
  ]

scoped_after :
    {S : Type 0} (m : ShellManager S) (id : ShellId) (entry : ShellEntry S) (rt : Runtime S)
    (id' : ShellId) (user : Bytes)
    → Map.get m.shells id ≡ some entry
    → ((e : ShellEntry S) × (Map.get m.shells id' ≡ some e) × (e.owner ≡ user))
    → ((e : ShellEntry S) × (Map.get (put_runtime m id entry rt).shells id' ≡ some e)
        × (e.owner ≡ user))
unfolding put_runtime
scoped_after {S} m id entry rt id' user found (e, h, o) =
    let entry' : ShellEntry S = record entry { runtime = rt } in
    elim (Bool-cases (bytes_eq id id')) [
      | inl same ↦ (
        entry',
        ground (arith, same, get-insert m.shells id entry' id'),
        ground (arith, o, h, found, (bytes_eq_iff id id').0 same),
      )
      | inr other ↦ (e, ground (arith, other, h, get-insert m.shells id entry' id'), o)
    ]

-- Replacing the runtime of a shell by one that keeps it.
pub put_runtime-IsConsistent :
    {S : Type 0} (m : ShellManager S) (id : ShellId) (entry : ShellEntry S) (rt : Runtime S)
    → IsConsistent m
    → Map.get m.shells id ≡ some entry
    → Keeps m.config.max_attachments_per_shell entry.runtime rt
    → IsConsistent (put_runtime m id entry rt)
unfolding put_runtime live_shells is_live
put_runtime-IsConsistent {S} m id entry rt v found keeps =
    let entry' : ShellEntry S = record entry { runtime = rt } in
    let sound_before = v.sound id entry found in
    let better : is_live (id, entry') ≡ true → is_live (id, entry) ≡ true =
      ground (arith, keeps.stays_exited sound_before) in
    record {
      sound = λ id' seen h. elim (Bool-cases (bytes_eq id id')) [
        | inl same ↦
            let at : seen ≡ entry' = ground (arith, same, h, get-insert m.shells id entry' id') in
            rw at (keeps.sound sound_before)
        | inr other ↦ v.sound id' seen (ground (arith, other, h, get-insert m.shells id entry' id'))
      ];
      few =
          omega (arith, length-retain-replace is_live m.shells id entry' entry found better, v.few);
      scoped =
          λ user key id' h. scoped_after m id entry rt id' user found (v.scoped user key id' h);
      unique = v.unique;
    }
