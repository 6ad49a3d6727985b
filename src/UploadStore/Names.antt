-- ===== src/UploadStore/Names.antt =====
-- crates/upload-store/src/lib.rs: the names that the store derives from untrusted input. A text is
-- the list of its code points; what the store keeps of one is ASCII, so it is also its bytes.
pub mod Examples
pub mod Safety
pub mod HexIds
use holdfast.Base.{
  ltb, leb, ◌==◌, if◌then◌else◌, Bytes, bytes_eq, length, all, text, ℕ, ◌+◌, ◌-◌, ◌*◌, ◌/◌, ◌%◌,
  max, Bool, true, false, not, ◌&&◌, ◌||◌, List, [], ◌∷◌, ◌++◌,
}

abbrev pub stored_basename_bytes_max : ℕ
stored_basename_bytes_max = 200

abbrev pub partial_name : Bytes
partial_name = text ".partial"

abbrev pub is_ascii_digit : ℕ → Bool
is_ascii_digit c = leb b'0' c && leb c b'9'

abbrev pub is_ascii_alphanumeric : ℕ → Bool
is_ascii_alphanumeric c = is_ascii_digit c || leb b'a' c && leb c b'z' || leb b'A' c && leb c b'Z'

unfoldable pub is_kept : ℕ → Bool
is_kept c = is_ascii_alphanumeric c || c == b'.' || c == b'_' || c == b'-'

-- The body of the loop: the result and `in_replacement`.
unfoldable pub sanitize_char : Bytes → Bool → ℕ → Bytes × Bool
sanitize_char result in_replacement c =
    if is_kept c
    then (result ++ c ∷ [], false)
    else if not in_replacement
    then (result ++ b'_' ∷ [], true)
    else (result, in_replacement)

unfoldable pub sanitize_loop : Bytes → Bool → List ℕ → Bytes
sanitize_loop result in_replacement [] = result
sanitize_loop result in_replacement (c ∷ cs) =
    let (result', in_replacement') = sanitize_char result in_replacement c in
    let rest = sanitize_loop result' in_replacement' cs in
    if leb stored_basename_bytes_max (length result) then result else rest

unfoldable pub sanitize_basename : List ℕ → Bytes
unfolding sanitize_loop
sanitize_basename original =
    let result = sanitize_loop [] false original in
    if bytes_eq result []
      || bytes_eq result (text ".")
      || bytes_eq result (text "..")
      || bytes_eq result partial_name
    then text "upload"
    else result

-- `{byte:02x}`
abbrev pub hex_digit : ℕ → ℕ
hex_digit n = if ltb n 10 then b'0' + n else b'a' + (n - 10)

unfoldable pub hex_id : Bytes → Bytes
hex_id [] = []
hex_id (b ∷ id) = hex_digit (b / 16) ∷ hex_digit (b % 16) ∷ hex_id id

pub is_hex_id : Bytes → Bool
is_hex_id name =
    length name == 16 * 2 && all (λ b. is_ascii_digit b || leb b'a' b && leb b b'f') name
