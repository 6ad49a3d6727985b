-- ===== src/Protocol/Framing.antt =====
-- crates/protocol/src/framing.rs: length-prefixed frames and the incremental decoder. A method that
-- takes `&mut self` returns the decoder as it leaves it beside its result, also on an error.
pub mod Length
pub mod Bounds
pub mod Stream
pub mod Examples
use holdfast.Base.{
  ltb, if◌then◌else◌, Bytes, length, take, drop, all, Result, ◌>>=◌, ◌>>◌, ok, err, ℕ, ◌+◌, ◌-◌,
  ◌*◌, ◌/◌, ◌%◌, ◌^◌, min, max, ◌≡◌, ap, Option, none, some, [], ◌∷◌, ◌++◌,
}

-- The generated protobuf code of one message type, with the documented behaviour of prost that
-- the framing relies on.
pub record Codec : Type 1 where
  pub Message : Type 0
  pub DecodeError : Type 0
  pub encode : Message → Bytes
  pub encoded_len : Message → ℕ
  pub decode : Bytes → Result Message DecodeError
  pub encoded_len_lem : (m : Message) → encoded_len m ≡ length (encode m)
  pub decode-encode : (m : Message) → decode (encode m) ≡ ok m

abbrev pub length_prefix_bytes : ℕ
length_prefix_bytes = 4

pub data FrameError (D : Type 0) : Type 0 where
  too_large : ℕ → ℕ → FrameError D
  decode_failed : D → FrameError D
  encode_too_large : ℕ → FrameError D

-- `u32::from_be_bytes(buf[..4])` and `put_u32`. A shorter slice panics in the source; each call is
-- guarded by a length test.
pub u32_from_be_bytes : Bytes → ℕ
u32_from_be_bytes (a ∷ b ∷ c ∷ d ∷ _) = a * 2 ^ 24 + b * 2 ^ 16 + c * 2 ^ 8 + d
u32_from_be_bytes _ = 0

unfoldable pub put_u32 : ℕ → Bytes
put_u32 v = (v / 2 ^ 24 % 256) ∷ (v / 2 ^ 16 % 256) ∷ (v / 2 ^ 8 % 256) ∷ (v % 256) ∷ []

pub record FrameDecoder : Type 0 where
  pub max_frame_bytes : ℕ
  pub buf : Bytes

unfoldable pub new : ℕ → FrameDecoder
new max_frame_bytes = record { max_frame_bytes = max_frame_bytes; buf = [] }

unfoldable pub buffered : FrameDecoder → ℕ
buffered d = length d.buf

pub checked_payload_len : {D : Type 0} → Bytes → ℕ → Result ℕ (FrameError D)
checked_payload_len header maximum =
    let len = u32_from_be_bytes header in
    if ltb maximum len then err (too_large len maximum) else ok len

module _ (codec : Codec) where
  open codec use {Message, DecodeError, encode, encoded_len, decode}

  unfoldable pub encode_delimited : Message → ℕ → Result Bytes (FrameError DecodeError)
  encode_delimited message max_frame_bytes =
      let len = encoded_len message in
      if ltb max_frame_bytes len
      then err (encode_too_large max_frame_bytes)
      else ok (put_u32 (len % 2 ^ 32) ++ encode message)

  pub check_header : FrameDecoder → Result (Unit {0}) (FrameError DecodeError)
  check_header d =
      if ltb (length d.buf) length_prefix_bytes
      then ok tt
      else (let len = u32_from_be_bytes d.buf in
          if ltb d.max_frame_bytes len then err (too_large len d.max_frame_bytes) else ok tt)

  abbrev append_bytes : FrameDecoder → Bytes → FrameDecoder
  append_bytes d bytes = record d { buf = d.buf ++ bytes }

  -- `self.check_header()?; self.buf.extend_from_slice(bytes); … self.check_header()`
  check_then_append :
      FrameDecoder → Bytes → FrameDecoder × Result (Unit {0}) (FrameError DecodeError)
  check_then_append d bytes = elim (check_header d) [
    | ok _ ↦ (append_bytes d bytes, check_header (append_bytes d bytes))
    | err e ↦ (d, err e)
  ]

  pub extend : FrameDecoder → Bytes → FrameDecoder × Result (Unit {0}) (FrameError DecodeError)
  extend d bytes =
      if ltb (length d.buf) length_prefix_bytes
      then (let header_bytes = min (length_prefix_bytes - length d.buf) (length bytes) in
          check_then_append (append_bytes d (take header_bytes bytes)) (drop header_bytes bytes))
      else check_then_append d bytes

  -- The envelope of a complete payload: `Ok(Some(Envelope::decode(payload)?))`.
  decoded : Result Message DecodeError → Result (Option Message) (FrameError DecodeError)
  decoded (ok m) = ok (some m)
  decoded (err e) = err (decode_failed e)

  pop_frame : FrameDecoder → FrameDecoder × Result (Option Message) (FrameError DecodeError)
  pop_frame d =
      let len = u32_from_be_bytes d.buf in
      if ltb (length d.buf) (length_prefix_bytes + len)
      then (d, ok none)
      else (let rest = drop length_prefix_bytes d.buf in
          (record d { buf = drop len rest }, decoded (decode (take len rest))))

  pub next_frame : FrameDecoder → FrameDecoder × Result (Option Message) (FrameError DecodeError)
  next_frame d = elim (check_header d) [
    | err e ↦ (d, err e)
    | ok _ ↦ if ltb (length d.buf) length_prefix_bytes then (d, ok none) else pop_frame d
  ]
