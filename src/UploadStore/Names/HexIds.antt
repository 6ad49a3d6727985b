-- ===== src/UploadStore/Names/HexIds.antt =====
-- Upload ids as directory names.
use holdfast.Base.{
  leb, Bytes, length, All, all, ℕ, ◌*◌, ◌/◌, ◌%◌, ◌<◌, ◌≡◌, refl, ap, true, ◌&&◌, ◌||◌, [], ◌∷◌,
  arith,
}
use holdfast.UploadStore.Names.{hex_digit, hex_id, is_hex_id}

abbrev pub IsByte : ℕ → Type 0
IsByte b = b < 256

abbrev pub IsId : Bytes → Type 0
IsId id = (length id ≡ 16) × All IsByte id

pub length-hex_id : (id : Bytes) → length (hex_id id) ≡ length id * 2
unfolding hex_id
length-hex_id [] = refl
length-hex_id (b ∷ id) = omega (arith, length-hex_id id)

hex_digit-is_hex :
    (n : ℕ)
    → n < 16
    → (leb b'0' (hex_digit n) && leb (hex_digit n) b'9'
        || leb b'a' (hex_digit n) && leb (hex_digit n) b'f')
      ≡ true
hex_digit-is_hex n h = ground arith

hex_id-all :
    (id : Bytes)
    → All IsByte id
    → all (λ b. leb b'0' b && leb b b'9' || leb b'a' b && leb b b'f') (hex_id id) ≡ true
unfolding hex_id
hex_id-all [] h = refl
hex_id-all (b ∷ id) h =
    ground (arith, hex_digit-is_hex (b / 16), hex_digit-is_hex (b % 16), hex_id-all id h.1)

hex_digit-injective : (m n : ℕ) → m < 16 → n < 16 → hex_digit m ≡ hex_digit n → m ≡ n
hex_digit-injective m n hm hn e = ground arith

-- The reaper recognises every directory that an upload creates.
pub is_hex_id-hex_id : (id : Bytes) → IsId id → is_hex_id (hex_id id) ≡ true
unfolding is_hex_id
is_hex_id-hex_id id (n, bytes) = ground (arith, length-hex_id id, hex_id-all id bytes)

head_or : Bytes → ℕ
head_or [] = 0
head_or (x ∷ xs) = x

rest_of : Bytes → Bytes
rest_of [] = []
rest_of (x ∷ xs) = xs

-- Different ids have different directories.
hex_id-injective : (a b : Bytes) → All IsByte a → All IsByte b → hex_id a ≡ hex_id b → a ≡ b
unfolding hex_id head_or rest_of
hex_id-injective [] [] ha hb e = refl
hex_id-injective [] (y ∷ b) ha hb e = cc
hex_id-injective (x ∷ a) [] ha hb e = cc
hex_id-injective (x ∷ a) (y ∷ b) ha hb e =
    let high = hex_digit-injective (x / 16) (y / 16) (omega arith) (omega arith) (ap head_or e) in
    let low =
      hex_digit-injective (x % 16) (y % 16) (omega arith) (omega arith)
        (ap (λ s. head_or (rest_of s)) e) in
    let rest = hex_id-injective a b ha.1 hb.1 (ap (λ s. rest_of (rest_of s)) e) in
    let same : x ≡ y = omega arith in cc (same, rest)
