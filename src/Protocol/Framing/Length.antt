-- ===== src/Protocol/Framing/Length.antt =====
-- The length prefix, and the bytes of a frame inside a longer stream.
use holdfast.Base.{
  Bytes, length, take, drop, ℕ, ◌^◌, ◌≤◌, ◌<◌, ◌≡◌, refl, ap, List, [], ◌∷◌, ◌++◌, arith,
}
use holdfast.Protocol.Framing.{u32_from_be_bytes, put_u32}

pub length-put_u32 : (n : ℕ) → length (put_u32 n) ≡ 4
unfolding put_u32
length-put_u32 n = refl

pub drop-put_u32 : (n : ℕ) (w : Bytes) → drop 4 (put_u32 n ++ w) ≡ w
unfolding put_u32
drop-put_u32 n w = refl

-- `u32::from_be_bytes` reads back what `put_u32` wrote, from any buffer that starts with it.
pub u32_from_be_bytes-put_u32 :
    (n : ℕ) (w : Bytes) → n < 2 ^ 32 → u32_from_be_bytes (put_u32 n ++ w) ≡ n
unfolding u32_from_be_bytes put_u32
u32_from_be_bytes-put_u32 n w h = omega arith

-- Bytes behind the first four do not change the length that is read.
pub u32_from_be_bytes-append :
    (xs : Bytes) → 4 ≤ length xs → (t : Bytes) → u32_from_be_bytes (xs ++ t) ≡ u32_from_be_bytes xs
unfolding u32_from_be_bytes
u32_from_be_bytes-append [] h t = absurd (omega arith)
u32_from_be_bytes-append (a ∷ []) h t = absurd (omega arith)
u32_from_be_bytes-append (a ∷ b ∷ []) h t = absurd (omega arith)
u32_from_be_bytes-append (a ∷ b ∷ c ∷ []) h t = absurd (omega arith)
u32_from_be_bytes-append (a ∷ b ∷ c ∷ d ∷ xs) h t = refl

-- Four buffered bytes determine the length, whatever follows.
pub header_of_prefix :
    (buf t w : Bytes) (n : ℕ)
    → buf ++ t ≡ put_u32 n ++ w
    → 4 ≤ length buf
    → n < 2 ^ 32
    → u32_from_be_bytes buf ≡ n
header_of_prefix buf t w n e h lt =
    cc (u32_from_be_bytes-append buf h t, ap u32_from_be_bytes e, u32_from_be_bytes-put_u32 n w lt)

module _ {ℓ} {A : Type ℓ} where
  head_of : A → List A → A
  head_of d [] = d
  head_of d (x ∷ xs) = x

  tail_of : List A → List A
  tail_of [] = []
  tail_of (x ∷ xs) = xs

  -- Two ways to split one list: the longer front starts with the shorter one.
  pub take_of_append :
      (p xs t r : List A) → xs ++ t ≡ p ++ r → length p ≤ length xs → take (length p) xs ≡ p
  take_of_append [] xs t r e h = refl
  take_of_append (a ∷ p) [] t r e h = absurd (omega arith)
  take_of_append (a ∷ p) (x ∷ xs) t r e h =
      let e' : xs ++ t ≡ p ++ r = unfold tail_of in ap tail_of e in
      let e'' : x ≡ a = unfold head_of in ap (head_of a) e in
      cc (e'', take_of_append p xs t r e' (omega arith))

  pub drop_of_append :
      (p xs t r : List A) → xs ++ t ≡ p ++ r → length p ≤ length xs → drop (length p) xs ++ t ≡ r
  drop_of_append [] xs t r e h = e
  drop_of_append (a ∷ p) [] t r e h = absurd (omega arith)
  drop_of_append (a ∷ p) (x ∷ xs) t r e h =
      drop_of_append p xs t r (unfold tail_of in ap tail_of e) (omega arith)
