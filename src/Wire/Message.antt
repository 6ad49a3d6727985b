-- ===== src/Wire/Message.antt =====
-- crates/daemon/src/wire.rs: a message is read back as its channel and its envelope.
use holdfast.Base.{
  Bytes, length, drop, length-append, drop-append_length, Result-cases, ok, ℕ, ◌+◌, ◌^◌, ◌≤◌, ◌<◌,
  max, ◌≡◌, refl, sym, ap, ◌∙◌, inl, inr, [], ◌++◌, append_assoc, arith,
}
use holdfast.Protocol.Framing
use holdfast.Protocol.Framing.{
  Codec, FrameError, FrameDecoder, encode_delimited, extend, next_frame, buffered, put_u32,
}
use holdfast.Protocol.Framing.Length.{length-put_u32}
use holdfast.Protocol.Framing.Stream.OneFrame.{Holds, Holds-extend, payload_split, next_frame_whole}
use holdfast.Protocol.Framing.Stream.RoundTrip.{encode_delimited-eq-ok}
use holdfast.Wire.{encode_varint, encode_message, one_frame, decode_frame, decode_message}
use holdfast.Wire.Varint.{decode_varint-encode_varint}

module _ (codec : Codec) where
  open codec use {Message, encode}

  one_frame_whole :
      (m : Message) (max : ℕ) (fits : length (encode m) ≤ max) (is_u32 : max < 2 ^ 32)
      (d : FrameDecoder)
      → Holds codec m max fits is_u32 d [] []
      → one_frame codec d ≡ ok m
  unfolding one_frame buffered
  one_frame_whole m max fits is_u32 d h =
      let long : 4 + length (encode m) ≤ length d.buf = omega (
        arith,
        ap length h.splits,
        length-append d.buf [],
        length-append (put_u32 (length (encode m))) (encode m ++ []),
        length-append (encode m) [],
        length-put_u32 (length (encode m)),
      ) in
      let popped = next_frame_whole codec m max fits is_u32 d [] [] h long in
      let nothing = (payload_split codec m max fits is_u32 d [] [] h long).1 in
      let empty : length (drop (length (encode m)) (drop 4 d.buf)) ≡ 0 =
        omega
          (arith, ap length nothing, length-append (drop (length (encode m)) (drop 4 d.buf)) []) in
      ground (arith, popped, empty)

  decode_frame-encoded :
      (m : Message) (max : ℕ) (framed : Bytes)
      → max < 2 ^ 32
      → encode_delimited codec m max ≡ ok framed
      → decode_frame codec framed max ≡ ok m
  unfolding decode_frame Framing.new
  decode_frame-encoded m max framed is_u32 e =
      let (fits, at) = encode_delimited-eq-ok codec m max framed is_u32 e in
      let h : Holds codec m max fits is_u32 (Framing.new max) (framed ++ []) [] = record {
        limit = refl;
        splits =
            ap (λ f. f ++ []) (sym at) ∙ append_assoc (put_u32 (length (encode m))) (encode m) [];
      } in
      let (held, rest) = Holds-extend codec m max fits is_u32 (Framing.new max) framed [] [] h in
      ground (
        arith,
        held,
        one_frame_whole m max fits is_u32 (extend codec (Framing.new max) framed).0 rest,
      )

  -- A message that can be encoded for a channel is decoded, under the same frame limit, to that channel and
  -- that envelope.
  pub decode_message-encode_message :
      (channel : ℕ) (envelope : Message) (max : ℕ) (bytes : Bytes)
      → channel < 2 ^ 64
      → max < 2 ^ 32
      → encode_message codec channel envelope max ≡ ok bytes
      → decode_message codec bytes max ≡ ok (channel, envelope)
  unfolding encode_message decode_message
  decode_message-encode_message channel envelope max bytes is_u64 is_u32 e =
      elim (Result-cases (encode_delimited codec envelope max)) [
        | inr (wrong, failed) ↦ absurd (ground (arith, e, failed))
        | inl (framed, fine) ↦
            let whole : bytes ≡ encode_varint channel ++ framed = ground (arith, e, fine) in
            let used = decode_varint-encode_varint channel framed is_u64 in
            let behind = drop-append_length (encode_varint channel) framed in
            rw whole
              (ground (arith, used, behind, decode_frame-encoded envelope max framed is_u32 fine))
      ]
