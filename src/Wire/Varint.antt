-- ===== src/Wire/Varint.antt =====
-- crates/daemon/src/wire.rs: the varint of a channel.
use holdfast.Base.{
  leb, ◌==◌, if◌then◌else◌, leb→le, Bool-cases, Bytes, length, ℕ, zero, suc, ◌+◌, ◌-◌, ◌*◌, ◌/◌,
  ◌%◌, ◌^◌, ◌≤◌, ◌<◌, ◌≡◌, refl, ap, ◌∙◌, inl, inr, true, false, some, [], ◌∷◌, ◌++◌, arith,
}
use native.Mathlib.Numerals.{unary_clauses}
use native.Mathlib.Nat.{pow-suc, pow-le-pow_right}
use holdfast.Wire.{encode_loop, encode_varint, decode_loop, decode_varint}

two_pow_seven : (s : ℕ) → 2 ^ (s + 7) ≡ 128 * 2 ^ s
two_pow_seven s = simp unary_clauses (omega arith)

shift_small : (s : ℕ) → 2 ^ s < 2 ^ 64 → s < 64
shift_small s h = elim (Bool-cases (leb 64 s)) [
  | inr small ↦ ground (arith, small)
  | inl large ↦
      let wide : 2 ^ 64 ≤ 2 ^ s = pow-le-pow_right (omega arith) (leb→le 64 s large) in
      absurd (omega (arith, wide, h))
]

-- One round: the low group now, the others seven bits further.
record Groups (v s : ℕ) : Type 0 where
  split : v * 2 ^ s ≡ v % 128 * 2 ^ s + v / 128 * 2 ^ (s + 7)
  low : v % 128 * 2 ^ s ≤ v * 2 ^ s

v-Groups : (v s : ℕ) → Groups v s
v-Groups v s =
    let parts : v ≡ 128 * (v / 128) + v % 128 = omega arith in
    let q = v / 128 in
    let r = v % 128 in
    let product : (128 * q + r) * 2 ^ s ≡ 128 * (q * 2 ^ s) + r * 2 ^ s = ground arith in
    let higher : q * (128 * 2 ^ s) ≡ 128 * (q * 2 ^ s) = ground arith in
    let whole : v * 2 ^ s ≡ r * 2 ^ s + q * 2 ^ (s + 7) =
      ap (λ x. x * 2 ^ s) parts ∙ product ∙ rw (two_pow_seven s) (omega (arith, higher)) in
    record { split = whole; low = omega (arith, whole) }

-- A group that is followed by another leaves room for seven bits more.
next_shift : (v s : ℕ) → v * 2 ^ s < 2 ^ 64 → (v / 128 == 0) ≡ false → s + 7 < 64
next_shift v s small more =
    let g = v-Groups v s in
    let q = v / 128 - 1 in
    let positive : v / 128 ≡ 1 + q = ground (arith, more) in
    let product : (1 + q) * 2 ^ (s + 7) ≡ 2 ^ (s + 7) + q * 2 ^ (s + 7) = ground arith in
    let higher : v / 128 * 2 ^ (s + 7) ≡ 2 ^ (s + 7) + q * 2 ^ (s + 7) =
      ap (λ x. x * 2 ^ (s + 7)) positive ∙ product in
    shift_small (s + 7) (omega (arith, g.split, higher, small))

-- What one byte adds, with or without the bit that says that more follow.
group_value :
    (v s : ℕ)
    → v * 2 ^ s < 2 ^ 64
    → (v % 128 % 128 * 2 ^ s % 2 ^ 64 ≡ v % 128 * 2 ^ s)
      × ((v % 128 + 128) % 128 * 2 ^ s % 2 ^ 64 ≡ v % 128 * 2 ^ s)
group_value v s small =
    let g = v-Groups v s in
    let kept : v % 128 * 2 ^ s % 2 ^ 64 ≡ v % 128 * 2 ^ s = omega (arith, g.low, small) in
    let plain : v % 128 % 128 ≡ v % 128 = omega arith in
    let marked : (v % 128 + 128) % 128 ≡ v % 128 = omega arith in
    (ap (λ x. x * 2 ^ s % 2 ^ 64) plain ∙ kept, ap (λ x. x * 2 ^ s % 2 ^ 64) marked ∙ kept)

decode_last :
    (v acc s i : ℕ) (rest : Bytes)
    → v * 2 ^ s < 2 ^ 64
    → s < 64
    → (v / 128 == 0) ≡ true
    → decode_loop ((v % 128) ∷ rest) acc s i ≡ some (acc + v * 2 ^ s, i + 1)
unfolding decode_loop
decode_last v acc s i rest small early last =
    let all_low : v % 128 ≡ v = ground (arith, last) in
    let value : v % 128 * 2 ^ s ≡ v * 2 ^ s = ap (λ x. x * 2 ^ s) all_low in
    ground (arith, early, last, value, (group_value v s small).0)

decode_more :
    (v acc s i : ℕ) (rest : Bytes)
    → v * 2 ^ s < 2 ^ 64
    → s < 64
    → decode_loop ((v % 128 + 128) ∷ rest) acc s i
      ≡ decode_loop rest (acc + v % 128 * 2 ^ s) (s + 7) (i + 1)
unfolding decode_loop
decode_more v acc s i rest small early =
    let value = (group_value v s small).1 in rw value (ground (arith, early))

-- Ten groups are enough for what is below `128 ^ 10`.
decode_loop-encode_loop :
    (m v acc s i : ℕ) (rest : Bytes)
    → v < 128 ^ suc m
    → v * 2 ^ s < 2 ^ 64
    → s < 64
    → decode_loop (encode_loop (suc m) v ++ rest) acc s i
      ≡ some (acc + v * 2 ^ s, i + length (encode_loop (suc m) v))
unfolding encode_loop
decode_loop-encode_loop zero v acc s i rest fits small early =
    let last : (v / 128 == 0) ≡ true = ground (arith, fits) in
    rw last (decode_last v acc s i rest small early last)
decode_loop-encode_loop (suc m) v acc s i rest fits small early = elim (Bool-cases (v / 128 == 0)) [
  | inl last ↦ rw last (decode_last v acc s i rest small early last)
  | inr more ↦
      let g = v-Groups v s in
      let bound : 128 ^ suc (suc m) ≡ 128 ^ suc m * 128 = pow-suc 128 (suc m) in
      let again =
        decode_loop-encode_loop m (v / 128) (acc + v % 128 * 2 ^ s) (s + 7) (i + 1) rest
          (omega (arith, bound, fits)) (omega (arith, g.split, small))
          (next_shift v s small more) in
      rw more (decode_more v acc s i _ small early ∙ again ∙ ground (arith, g.split))
]

-- A varint that is followed by anything is read back as the channel and its own length.
pub decode_varint-encode_varint :
    (v : ℕ) (rest : Bytes)
    → v < 2 ^ 64
    → decode_varint (encode_varint v ++ rest) ≡ some (v, length (encode_varint v))
unfolding decode_varint encode_varint
decode_varint-encode_varint v rest is_u64 =
    decode_loop-encode_loop 9 v 0 0 0 rest (omega (arith, is_u64)) (omega (arith, is_u64))
      (omega arith)
    ∙ ground arith

encode_loop_enough :
    (m n v : ℕ) → m ≤ n → v < 128 ^ suc m → encode_loop (suc n) v ≡ encode_loop (suc m) v
unfolding encode_loop
encode_loop_enough zero n v more_fuel fits =
    let last : (v / 128 == 0) ≡ true = ground (arith, fits) in rw last refl
encode_loop_enough (suc m) zero v more_fuel fits = absurd (omega (arith, more_fuel))
encode_loop_enough (suc m) (suc n) v more_fuel fits =
    let bound : 128 ^ suc (suc m) ≡ 128 ^ suc m * 128 = pow-suc 128 (suc m) in
    let same =
      encode_loop_enough m n (v / 128) (omega (arith, more_fuel)) (omega (arith, bound, fits)) in
    ap (λ rest. if v / 128 == 0 then (v % 128) ∷ [] else (v % 128 + 128) ∷ rest) same

length-encode_loop : (n v : ℕ) → length (encode_loop n v) ≤ n
unfolding encode_loop
length-encode_loop zero v = omega arith
length-encode_loop (suc n) v = ground (arith, length-encode_loop n (v / 128))

-- The loop that writes a `u64` ends after at most ten rounds: more fuel than ten changes nothing, and there
-- are at most ten bytes.
pub encode_varint_ends :
    (n v : ℕ)
    → 10 ≤ n
    → v < 2 ^ 64
    → (encode_loop n v ≡ encode_varint v) × (length (encode_varint v) ≤ 10)
unfolding encode_varint
encode_varint_ends zero v enough is_u64 = absurd (omega (arith, enough))
encode_varint_ends (suc n) v enough is_u64 = (
  encode_loop_enough 9 n v (omega (arith, enough)) (omega (arith, is_u64)),
  length-encode_loop 10 v,
)
