-- ===== src/Wire/Examples.antt =====
-- A ping on channel 300, whose varint has two bytes.
use holdfast.Base.{Bytes, length, ok, ◌≤◌, ◌≡◌, refl, [], ◌∷◌, arith}
use holdfast.Protocol.Framing.{encode_delimited, put_u32}
use holdfast.Protocol.Framing.Examples.{toy}
use holdfast.Wire.{encode_loop, encode_varint, encode_message, decode_message}
use holdfast.Wire.Varint.{encode_varint_ends}
use holdfast.Wire.Message.{decode_message-encode_message}

three_hundred : encode_varint 300 ≡ 172 ∷ 2 ∷ []
unfolding encode_varint encode_loop
three_hundred = refl

encode_varint_ends_example :
    (encode_loop 12 300 ≡ encode_varint 300) × (length (encode_varint 300) ≤ 10)
encode_varint_ends_example = encode_varint_ends 12 300 (omega arith) (omega arith)

abbrev ping_bytes : Bytes
ping_bytes = 172 ∷ 2 ∷ 0 ∷ 0 ∷ 0 ∷ 1 ∷ 7 ∷ []

encoded : encode_message toy 300 7 1024 ≡ ok ping_bytes
unfolding encode_message encode_varint encode_loop encode_delimited put_u32
encoded = refl

decode_message-encode_message_example : decode_message toy ping_bytes 1024 ≡ ok (300, 7)
decode_message-encode_message_example =
    decode_message-encode_message toy 300 7 1024 ping_bytes (omega arith) (omega arith) encoded
