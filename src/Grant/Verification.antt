-- ===== src/Grant/Verification.antt =====
-- What verification accepts.
use holdfast.Base.{
  ◌==◌, Option-cases, Bytes, bytes_eq_iff, length, All, ok, ℕ, ◌+◌, ◌≤◌, ◌<◌, ◌≡◌, refl, inl, inr,
  true, false, some, [], ◌∷◌, ◌++◌, arith,
}
use holdfast.Grant.{GrantClaims, Scheme, split_once, ok_or, i64_max, check_claims, issue, verify}

split_once-append :
    (head tail : Bytes)
    → All (λ b. (b == 46) ≡ false) head
    → split_once (head ++ 46 ∷ tail) ≡ some (head, tail)
unfolding split_once
split_once-append [] tail h = refl
split_once-append (b ∷ head) tail h = ground (arith, h.0, split_once-append head tail h.1)

-- The halves of a grant are what stands before and after its first dot.
split_once-halves :
    (grant head tail : Bytes)
    → split_once grant ≡ some (head, tail)
    → (grant ≡ head ++ 46 ∷ tail) × All (λ b. (b == 46) ≡ false) head
unfolding split_once
split_once-halves [] head tail e = absurd (ground (arith, e))
split_once-halves (b ∷ rest) [] tail e = (ground (arith, e), tt)
split_once-halves (b ∷ rest) (h ∷ head) tail e =
    let tail_split : split_once rest ≡ some (head, tail) = ground (arith, e) in
    let (whole, first_dot) = split_once-halves rest head tail tail_split in
    (ground (arith, e, whole), (ground (arith, e), first_dot))

-- The claims are for this audience and valid now, with a minute's tolerance for the issuer's clock.
pub record IsTimely (claims : GrantClaims) (audience : Bytes) (now_ms : ℕ) : Type 0 where
  pub audience_same : claims.aud ≡ audience
  pub not_expired : now_ms < claims.exp_ms
  pub issued : claims.iat_ms ≤ now_ms + 60000

check_claims-ok :
    (claims result : GrantClaims) (audience : Bytes) (now_ms : ℕ)
    → check_claims claims audience now_ms ≡ ok result
    → (claims ≡ result) × IsTimely claims audience now_ms
unfolding check_claims
check_claims-ok claims result audience now_ms e = (
  ground (arith, e),
  record {
    audience_same = (bytes_eq_iff claims.aud audience).0 (ground (arith, e));
    not_expired = ground (arith, e);
    issued = ground (arith, e);
  },
)

timely-ok :
    (claims : GrantClaims) (audience : Bytes) (now_ms : ℕ)
    → IsTimely claims audience now_ms
    → now_ms + 60000 ≤ i64_max
    → check_claims claims audience now_ms ≡ ok claims
unfolding check_claims
timely-ok claims audience now_ms t small =
    ground
      (arith, bytes_eq_iff claims.aud audience, t.audience_same, t.not_expired, t.issued, small)

module _ (scheme : Scheme) where
  open scheme use {
    SigningKey, VerifyingKey, verifying_key, sign, verify_signature, b64_encode, b64_decode, to_vec,
    from_slice,
  }

  -- A grant that was issued verifies under the issuer's public key, for its audience and inside its time
  -- window, and gives back the claims that were signed. The claims survive their JSON form, and the clock is
  -- not within a minute of the largest time.
  pub verify-issue :
      (key : SigningKey) (claims : GrantClaims) (now_ms : ℕ)
      → from_slice (to_vec claims) ≡ some claims
      → IsTimely claims claims.aud now_ms
      → now_ms + 60000 ≤ i64_max
      → verify scheme (verifying_key key) (issue scheme key claims) claims.aud now_ms ≡ ok claims
  unfolding verify issue ok_or
  verify-issue key claims now_ms survives t small =
      let payload = to_vec claims in
      ground (
        arith,
        split_once-append (b64_encode payload) (b64_encode (sign key payload))
            (scheme.encode_no_dot payload),
        scheme.decode-encode payload,
        scheme.decode-encode (sign key payload),
        scheme.length-sign key payload,
        scheme.verify-sign key payload,
        survives,
        timely-ok claims claims.aud now_ms t small,
      )

  -- What stands before and after the first dot of a grant, and what the two decode to.
  pub record HasHalves (grant payload signature : Bytes) : Type 0 where
    pub payload_b64 : Bytes
    pub sig_b64 : Bytes
    pub whole : grant ≡ payload_b64 ++ 46 ∷ sig_b64
    pub first_dot : All (λ b. (b == 46) ≡ false) payload_b64
    pub payload_decoded : b64_decode payload_b64 ≡ some payload
    pub signature_decoded : b64_decode sig_b64 ≡ some signature

  -- Whatever grant verifies, the two halves at its first dot decode to a payload and a signature of that payload
  -- under the key, the claims returned are that payload's, and they are for the expected audience and valid now.
  pub verify_sound :
      (key : VerifyingKey) (grant audience : Bytes) (now_ms : ℕ) (claims : GrantClaims)
      → verify scheme key grant audience now_ms ≡ ok claims
      → (payload : Bytes) × (signature : Bytes) × HasHalves grant payload signature
        × (verify_signature key payload signature ≡ true)
        × (length signature ≡ 64)
        × (from_slice payload ≡ some claims)
        × IsTimely claims audience now_ms
  unfolding verify ok_or
  verify_sound key grant audience now_ms claims e = elim (Option-cases (split_once grant)) [
    | inl whole ↦ absurd (ground (arith, whole, e))
    | inr ((payload_b64, sig_b64), halves) ↦ elim (Option-cases (b64_decode payload_b64)) [
      | inl bad ↦ absurd (ground (arith, halves, bad, e))
      | inr (payload, p) ↦ elim (Option-cases (b64_decode sig_b64)) [
        | inl bad ↦ absurd (ground (arith, halves, p, bad, e))
        | inr (signature, s) ↦ elim (Option-cases (from_slice payload)) [
          | inl bad ↦ absurd (ground (arith, halves, p, s, bad, e))
          | inr (found, f) ↦
              let checked : check_claims found audience now_ms ≡ ok claims =
                ground (arith, halves, p, s, f, e) in
              let (same, timely) = check_claims-ok found claims audience now_ms checked in
              (
                payload,
                signature,
                (let (whole, first_dot) = split_once-halves grant payload_b64 sig_b64 halves in
                    record {
                      payload_b64 = payload_b64;
                      sig_b64 = sig_b64;
                      whole = whole;
                      first_dot = first_dot;
                      payload_decoded = p;
                      signature_decoded = s;
                    }),
                ground (arith, halves, p, s, e),
                ground (arith, halves, p, s, e),
                ground (arith, f, same),
                rw same at timely,
              )
        ]
      ]
    ]
  ]
