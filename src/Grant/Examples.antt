-- ===== src/Grant/Examples.antt =====
-- A toy scheme, whose signature is the key 64 times over and whose claims are those of one user.
use holdfast.Base.{
  ◌==◌, Bytes, bytes_eq, bytes_eq_iff, length, replicate, All, text, ok, ℕ, ◌+◌, ◌-◌, ◌≡◌, refl,
  true, false, some, [], ◌∷◌, arith,
}
use holdfast.Grant.{GrantClaims, Scheme, issue, verify}
use holdfast.Grant.Verification.{IsTimely, HasHalves, verify-issue, verify_sound}

abbrev pub alice_claims : GrantClaims
alice_claims = record {
  sub = text "alice";
  aud = text "srv";
  servers = [];
  ops = text "open" ∷ [];
  iat_ms = 1000;
  exp_ms = 61000;
  jti = text "1";
}

abbrev pub shift_up : Bytes → Bytes
shift_up [] = []
shift_up (b ∷ bytes) = (b + 100) ∷ shift_up bytes

abbrev pub shift_down : Bytes → Bytes
shift_down [] = []
shift_down (b ∷ bytes) = (b - 100) ∷ shift_down bytes

pub shift_down-shift_up : (bytes : Bytes) → some (shift_down (shift_up bytes)) ≡ some bytes
shift_down-shift_up [] = refl
shift_down-shift_up (b ∷ bytes) = ground (arith, shift_down-shift_up bytes)

pub shift_up_no_dot : (bytes : Bytes) → All (λ b. (b == 46) ≡ false) (shift_up bytes)
shift_up_no_dot [] = tt
shift_up_no_dot (b ∷ bytes) = (ground arith, shift_up_no_dot bytes)

abbrev pub toy : Scheme
toy = record {
  SigningKey = ℕ;
  VerifyingKey = ℕ;
  verifying_key = λ k. k;
  sign = λ k payload. replicate 64 k;
  verify_signature = λ k payload signature. bytes_eq signature (replicate 64 k);
  b64_encode = shift_up;
  b64_decode = λ bytes. some (shift_down bytes);
  to_vec = λ claims. claims.sub;
  from_slice = λ bytes. some alice_claims;
  length-sign = λ k payload. refl;
  verify-sign = λ k payload. (bytes_eq_iff (replicate 64 k) (replicate 64 k)).1 refl;
  decode-encode = shift_down-shift_up;
  encode_no_dot = shift_up_no_dot;
}

alice-IsTimely : IsTimely alice_claims (text "srv") 2000
alice-IsTimely = record { audience_same = refl; not_expired = omega arith; issued = omega arith }

verify-issue_example : verify toy 7 (issue toy 7 alice_claims) (text "srv") 2000 ≡ ok alice_claims
verify-issue_example = verify-issue toy 7 alice_claims 2000 refl alice-IsTimely (omega arith)

verify_sound_example :
    (payload : Bytes) × (signature : Bytes) × HasHalves toy
      (issue toy 7 alice_claims)
      payload
      signature
    × (bytes_eq signature (replicate 64 7) ≡ true)
    × (length signature ≡ 64)
    × (some alice_claims ≡ some alice_claims)
    × IsTimely alice_claims (text "srv") 2000
verify_sound_example =
    verify_sound toy 7 (issue toy 7 alice_claims) (text "srv") 2000 alice_claims
      (verify-issue toy 7 alice_claims 2000 refl alice-IsTimely (omega arith))
