-- ===== src/Protocol/Ids/Printing.antt =====
-- The printed form of an id is read back.
use holdfast.Base.{
  Bytes, All, ℕ, ◌/◌, ◌%◌, ◌<◌, ◌≡◌, refl, sym, ap, ◌∙◌, false, some, [], ◌∷◌, ◌++◌, append_assoc,
  arith,
}
use holdfast.UploadStore.Names.{hex_digit, hex_id}
use holdfast.UploadStore.Names.HexIds.{IsByte, IsId, length-hex_id}
use holdfast.Protocol.Ids.{
  display, strip_prefix, digit_value, two_digits, from_str_radix, parsed, then_byte, cuts_char,
  parse_pairs, without_prefix, from_str,
}

digit_value-hex_digit : (n : ℕ) → n < 16 → digit_value (hex_digit n) ≡ some n
unfolding digit_value
digit_value-hex_digit n small = ground (arith, small)

from_str_radix-digits :
    (b : ℕ) → b < 256 → from_str_radix (hex_digit (b / 16)) (hex_digit (b % 16)) ≡ some b
unfolding from_str_radix two_digits
from_str_radix-digits b small =
    let high = digit_value-hex_digit (b / 16) (omega (arith, small)) in
    let low = digit_value-hex_digit (b % 16) (omega arith) in ground (arith, small, high, low)

cuts_char-hex_id : (id : Bytes) → All IsByte id → cuts_char (hex_id id) ≡ false
unfolding cuts_char hex_id
cuts_char-hex_id [] h = refl
cuts_char-hex_id (b ∷ id) h = ground (arith, h.0)

parse_pairs-hex_id : (id : Bytes) → All IsByte id → parse_pairs (hex_id id) ≡ parsed id
unfolding parse_pairs hex_id then_byte
parse_pairs-hex_id [] h = refl
parse_pairs-hex_id (b ∷ id) h =
    ground (arith, from_str_radix-digits b h.0, cuts_char-hex_id id h.1, parse_pairs-hex_id id h.1)

strip_prefix-append : (prefix value : Bytes) → strip_prefix prefix (prefix ++ value) ≡ some value
unfolding strip_prefix
strip_prefix-append [] value = refl
strip_prefix-append (p ∷ prefix) value = ground (arith, strip_prefix-append prefix value)

-- An id of 16 bytes that is printed with any prefix is read back when that prefix is expected.
pub from_str-display :
    (prefix id : Bytes) → IsId id → from_str prefix (display prefix id) ≡ parsed id
unfolding from_str display without_prefix
from_str-display prefix id (sixteen, bytes) =
    let whole : prefix ++ b'_' ∷ hex_id id ≡ (prefix ++ b'_' ∷ []) ++ hex_id id =
      sym (append_assoc prefix (b'_' ∷ []) (hex_id id)) in
    let stripped =
      ap (strip_prefix (prefix ++ b'_' ∷ [])) whole
      ∙ strip_prefix-append (prefix ++ b'_' ∷ []) (hex_id id) in
    ground (arith, stripped, length-hex_id id, sixteen, parse_pairs-hex_id id bytes)
