-- ===== src/Protocol/Framing/Stream/RoundTrip.antt =====
-- A whole stream of frames through the receiving loop.
use holdfast.Base.{
  Bytes, length, ok, err, ℕ, ◌^◌, ◌≤◌, ◌<◌, max, ◌≡◌, refl, sym, ap, ◌∙◌, List, [], ◌∷◌, ◌++◌,
  append_assoc, arith,
}
use holdfast.Protocol.Framing.{
  Codec, FrameDecoder, put_u32, encode_delimited, check_header, check_then_append, extend, new,
  next_frame,
}
use holdfast.Protocol.Framing.Stream.OneFrame.{Holds, receive-Returns}
use holdfast.Protocol.Framing.Stream.{flatten, receive, closed}

module _ (codec : Codec) where
  open codec use {Message, DecodeError, encode, encoded_len}

  -- Calling `receive` until the stream ends returns these messages, with no frame error.
  pub data Delivers : FrameDecoder → List Bytes → List Message → Type 0 where
    ended :
        {d : FrameDecoder} {cs : List Bytes} → receive codec d cs ≡ err closed → Delivers d cs []
    returned :
        {d d' : FrameDecoder} {cs cs' : List Bytes} {m : Message} {ms : List Message}
        → receive codec d cs ≡ ok (m, d', cs')
        → Delivers d' cs' ms
        → Delivers d cs (m ∷ ms)

  -- The sender's side: every message framed under one limit.
  pub data Frames (max : ℕ) : List Message → Bytes → Type 0 where
    no_frames : Frames max [] []
    one_more :
        {m : Message} {ms : List Message} {frame wire : Bytes}
        → encode_delimited codec m max ≡ ok frame
        → Frames max ms wire
        → Frames max (m ∷ ms) (frame ++ wire)

  pub encode_delimited-eq-ok :
      (m : Message) (max : ℕ) (frame : Bytes)
      → max < 2 ^ 32
      → encode_delimited codec m max ≡ ok frame
      → (length (encode m) ≤ max) × (put_u32 (length (encode m)) ++ encode m ≡ frame)
  unfolding encode_delimited
  encode_delimited-eq-ok m max frame is_u32 e =
      (ground (arith, codec.encoded_len_lem m), ground (arith, codec.encoded_len_lem m))

  append-eq-nil : (xs ys : Bytes) → xs ++ ys ≡ [] → (xs ≡ []) × (ys ≡ [])
  append-eq-nil [] ys e = (refl, e)
  append-eq-nil (x ∷ xs) ys e = absurd (cc)

  extend_nothing : (d : FrameDecoder) → d.buf ≡ [] → extend codec d [] ≡ (d, ok tt)
  unfolding extend check_then_append check_header
  extend_nothing d e = ground arith

  receive_end :
      (d : FrameDecoder) (cs : List Bytes)
      → d.buf ≡ []
      → flatten cs ≡ []
      → receive codec d cs ≡ err closed
  unfolding receive next_frame check_header
  receive_end d [] e f = ground arith
  receive_end d (c ∷ cs) e f =
      let (none_here, none_later) = append-eq-nil c (flatten cs) f in
      ground (arith, extend_nothing d e, receive_end d cs e none_later, none_here)

  Delivers-from :
      (max : ℕ) {ms : List Message} {wire : Bytes} (d : FrameDecoder) (cs : List Bytes)
      → Frames max ms wire
      → max < 2 ^ 32
      → d.max_frame_bytes ≡ max
      → d.buf ++ flatten cs ≡ wire
      → Delivers d cs ms
  Delivers-from max d cs no_frames is_u32 limit splits =
      let (drained, nothing) = append-eq-nil d.buf (flatten cs) splits in
      ended (receive_end d cs drained nothing)
  Delivers-from max d cs (one_more {m} {frame = frame} {wire = wire} e rest) is_u32 limit splits =
      let (fits, framed) = encode_delimited-eq-ok m max frame is_u32 e in
      let holds : Holds codec m max fits is_u32 d (flatten cs) wire = record {
        limit = limit;
        splits =
            splits
            ∙ ap (λ f. f ++ wire) (sym framed)
            ∙ append_assoc (put_u32 (length (encode m))) (encode m) wire;
      } in
      let r = receive-Returns codec m max fits is_u32 d cs wire holds in
      returned r.returned (Delivers-from max r.left r.reads rest is_u32 r.limit r.splits)

  -- However the transport splits a stream of frames into reads, a fresh decoder with the sender's
  -- limit delivers exactly the messages sent, in order, and then the end of the stream.
  pub stream_round_trip :
      (max : ℕ) {ms : List Message} {wire : Bytes} (cs : List Bytes)
      → Frames max ms wire
      → max < 2 ^ 32
      → flatten cs ≡ wire
      → Delivers (new max) cs ms
  unfolding new
  stream_round_trip max cs frames is_u32 e = Delivers-from max (new max) cs frames is_u32 refl e
