-- ===== src/Grant.antt =====
-- crates/auth/src/grant.rs: signed connection grants. The signature scheme, base64url and the JSON form of
-- the claims are parameters. Times are milliseconds since the epoch, not before it.
pub mod Verification
pub mod Examples
use holdfast.Base.{
  ltb, leb, ◌==◌, if◌then◌else◌, Bytes, bytes_eq, length, All, any, Result, ◌>>=◌, ◌>>◌, refuse, ok,
  err, ℕ, ◌+◌, ◌-◌, ◌*◌, ◌/◌, ◌^◌, min, max, ◌≡◌, Bool, true, false, not, ◌||◌, Option, none, some,
  List, [], ◌∷◌, ◌++◌,
}

pub data GrantError : Type 0 where
  malformed bad_signature : GrantError
  wrong_audience : Bytes → Bytes → GrantError
  grant_expired : ℕ → ℕ → GrantError
  not_yet_valid : ℕ → ℕ → GrantError

pub record GrantClaims : Type 0 where
  pub sub : Bytes
  pub aud : Bytes
  pub servers : List Bytes
  pub ops : List Bytes
  pub iat_ms : ℕ
  pub exp_ms : ℕ
  pub jti : Bytes

pub permits : GrantClaims → Bytes → Bool
permits claims op = length claims.ops == 0 || any (λ o. bytes_eq o op) claims.ops

-- ed25519, base64url and serde_json, with what their documentation promises.
pub record Scheme : Type 1 where
  pub SigningKey : Type 0
  pub VerifyingKey : Type 0
  pub verifying_key : SigningKey → VerifyingKey
  pub sign : SigningKey → Bytes → Bytes
  pub verify_signature : VerifyingKey → Bytes → Bytes → Bool
  pub b64_encode : Bytes → Bytes
  pub b64_decode : Bytes → Option Bytes
  pub to_vec : GrantClaims → Bytes
  pub from_slice : Bytes → Option GrantClaims
  pub length-sign : (key : SigningKey) (payload : Bytes) → length (sign key payload) ≡ 64
  pub verify-sign :
      (key : SigningKey) (payload : Bytes)
      → verify_signature (verifying_key key) payload (sign key payload) ≡ true
  pub decode-encode : (bytes : Bytes) → b64_decode (b64_encode bytes) ≡ some bytes
  pub encode_no_dot : (bytes : Bytes) → All (λ b. (b == 46) ≡ false) (b64_encode bytes)

-- `split_once('.')`
pub split_once : Bytes → Option (Bytes × Bytes)
split_once [] = none
split_once (b ∷ rest) =
    let split = split_once rest in
    if b == 46
    then some ([], rest)
    else elim split [ none ↦ none | some (head, tail) ↦ some (b ∷ head, tail) ]

-- `option.ok_or(error)?`
pub ok_or : {A : Type 0} → Option A → GrantError → Result A GrantError
ok_or none e = err e
ok_or (some a) e = ok a

abbrev pub i64_max : ℕ
i64_max = 2 ^ 63 - 1

pub check_claims : GrantClaims → Bytes → ℕ → Result GrantClaims GrantError
check_claims claims expected_audience now_ms =
    if not (bytes_eq claims.aud expected_audience)
    then err (wrong_audience claims.aud expected_audience)
    else if leb claims.exp_ms now_ms
    then err (grant_expired claims.exp_ms now_ms)
    else if ltb (min (now_ms + 60000) i64_max) claims.iat_ms
    then err (not_yet_valid claims.iat_ms now_ms)
    else ok claims

module _ (scheme : Scheme) where
  open scheme use {
    SigningKey, VerifyingKey, sign, verify_signature, b64_encode, b64_decode, to_vec, from_slice,
  }

  pub issue : SigningKey → GrantClaims → Bytes
  issue key claims =
      let payload = to_vec claims in b64_encode payload ++ 46 ∷ b64_encode (sign key payload)

  pub verify : VerifyingKey → Bytes → Bytes → ℕ → Result GrantClaims GrantError
  verify key grant expected_audience now_ms = do
    (payload_b64, sig_b64) ← ok_or (split_once grant) malformed
    payload ← ok_or (b64_decode payload_b64) malformed
    sig_bytes ← ok_or (b64_decode sig_b64) malformed
    refuse (not (length sig_bytes == 64)) malformed
    refuse (not (verify_signature key payload sig_bytes)) bad_signature
    claims ← ok_or (from_slice payload) malformed
    check_claims claims expected_audience now_ms
