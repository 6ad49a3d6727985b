-- ===== src/Protocol/Ids/Examples.antt =====
-- A shell id, and two texts that are not ids.
use holdfast.Base.{Bytes, replicate, text, ◌≡◌, refl, ◌∷◌, arith}
use holdfast.Protocol.Ids.{
  display, parsed, panics, from_str, strip_prefix, digit_value, from_str_radix, then_byte,
  cuts_char, parse_pairs, without_prefix,
}
use holdfast.Protocol.Ids.Printing.{from_str-display}

abbrev some_id : Bytes
some_id = replicate 16 0xab

from_str-display_example : from_str (text "sh") (display (text "sh") some_id) ≡ parsed some_id
from_str-display_example = from_str-display (text "sh") some_id (refl, ground arith)

-- `+a` sixteen times has 32 bytes and reads as sixteen bytes of 10.
abbrev pluses : Bytes
pluses = text "+a+a+a+a+a+a+a+a+a+a+a+a+a+a+a+a"

plus_signs_accepted : from_str (text "sh") pluses ≡ parsed (replicate 16 10)
unfolding from_str without_prefix strip_prefix parse_pairs then_byte from_str_radix digit_value
    cuts_char
plus_signs_accepted = refl

-- A text of 32 bytes whose second character is the two bytes of an e with an acute accent.
abbrev accented : Bytes
accented = b'a' ∷ 195 ∷ 169 ∷ replicate 29 b'0'

cut_inside_character : from_str (text "sh") accented ≡ panics
unfolding from_str without_prefix strip_prefix parse_pairs cuts_char
cut_inside_character = refl
