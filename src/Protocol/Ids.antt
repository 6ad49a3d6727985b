-- ===== src/Protocol/Ids.antt =====
-- crates/protocol/src/ids.rs: opaque ids of 16 bytes and their printed form. The prefix of the type of id is
-- an argument. A text is its UTF-8 bytes.
pub mod Printing
mod Examples
use holdfast.Base.{
  ltb, leb, ◌==◌, if◌then◌else◌, Bytes, length, take, Result, refuse, text, ok, err, ℕ, ◌+◌, ◌-◌,
  ◌*◌, ◌/◌, Bool, false, not, ◌&&◌, Option, none, some, [], ◌∷◌, ◌++◌,
}
use holdfast.UploadStore.Names.{is_ascii_digit, hex_id}

pub data IdError : Type 0 where
  bad_length : ℕ → IdError
  bad_encoding : IdError

unfoldable pub from_wire : Bytes → Result Bytes IdError
from_wire bytes = if length bytes == 16 then ok bytes else err (bad_length (length bytes))

-- `write!(f, "{}_", prefix)?` and two digits for each byte.
unfoldable pub display : Bytes → Bytes → Bytes
display prefix id = prefix ++ b'_' ∷ hex_id id

-- `strip_prefix`
unfoldable pub strip_prefix : Bytes → Bytes → Option Bytes
strip_prefix [] value = some value
strip_prefix (p ∷ prefix) [] = none
strip_prefix (p ∷ prefix) (b ∷ value) = if p == b then strip_prefix prefix value else none

unfoldable pub digit_value : ℕ → Option ℕ
digit_value ch =
    if is_ascii_digit ch
    then some (ch - b'0')
    else if leb b'a' ch && leb ch b'f'
    then some (ch - b'a' + 10)
    else if leb b'A' ch && leb ch b'F'
    then some (ch - b'A' + 10)
    else none

unfoldable pub two_digits : Option ℕ → Option ℕ → Option ℕ
two_digits (some high) (some low) = some (high * 16 + low)
two_digits _ _ = none

-- `u8::from_str_radix(_, 16)` of two bytes, which takes a plus sign before a digit.
unfoldable pub from_str_radix : ℕ → ℕ → Option ℕ
from_str_radix a b = if a == b'+' then digit_value b else two_digits (digit_value a) (digit_value b)

-- A slice that ends inside a character panics.
pub data Parsed : Type 0 where
  parsed : Bytes → Parsed
  refused : IdError → Parsed
  panics : Parsed

unfoldable pub then_byte : Option ℕ → Parsed → Parsed
then_byte none rest = refused bad_encoding
then_byte (some b) (parsed id) = parsed (b ∷ id)
then_byte (some b) (refused e) = refused e
then_byte (some b) panics = panics

-- Whether a text is cut inside a character in front of these bytes.
unfoldable pub cuts_char : Bytes → Bool
cuts_char [] = false
cuts_char (b ∷ rest) = leb 128 b && ltb b 192

-- The loop over the pairs; the length is even.
unfoldable pub parse_pairs : Bytes → Parsed
parse_pairs [] = parsed []
parse_pairs (a ∷ []) = refused bad_encoding
parse_pairs (a ∷ b ∷ rest) =
    let others = parse_pairs rest in
    if cuts_char rest then panics else then_byte (from_str_radix a b) others

unfoldable pub without_prefix : Bytes → Bytes → Bytes
without_prefix prefix value = elim (strip_prefix (prefix ++ b'_' ∷ []) value) [
  | none ↦ value
  | some hex ↦ hex
]

-- `FromStr::from_str`
unfoldable pub from_str : Bytes → Bytes → Parsed
from_str prefix value =
    let hex = without_prefix prefix value in
    if not (length hex == 32) then refused bad_encoding else parse_pairs hex
