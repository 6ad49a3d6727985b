-- ===== src/Protocol/Framing/Stream.antt =====
-- The receiving loop of crates/native-client/src/socks.rs.
pub mod OneFrame
pub mod RoundTrip
use holdfast.Base.{
  Bytes, all, Result, ok, err, ◌+◌, ◌-◌, ◌*◌, ◌/◌, min, none, some, List, [], ◌∷◌, ◌++◌,
}
use holdfast.Protocol.Framing.{Codec, FrameDecoder, FrameError, extend, next_frame}

abbrev pub flatten : List Bytes → Bytes
flatten [] = []
flatten (c ∷ cs) = c ++ flatten cs

-- Why `receive` fails: a frame error, or the end of the stream.
pub data ReceiveError (D : Type 0) : Type 0 where
  frame : FrameError D → ReceiveError D
  closed : ReceiveError D

module _ (codec : Codec) where
  open codec use {Message, DecodeError, encode, encoded_len}

  -- What a call leaves: the envelope, the decoder and the reads still to come.
  abbrev pub Received : Type 0
  Received = Result (Message × FrameDecoder × List Bytes) (ReceiveError DecodeError)

  -- One iteration finds a frame or extends the decoder by the next read; the list is what the
  -- transport delivers.
  pub receive : FrameDecoder → List Bytes → Received
  receive d [] =
      let (d', next) = next_frame codec d in
      elim next [ ok (some m) ↦ ok (m, d', []) | ok none ↦ err closed | err e ↦ err (frame e) ]
  receive d (c ∷ cs) =
      let (d', next) = next_frame codec d in
      let (d'', extended) = extend codec d' c in
      let rest = receive d'' cs in
      elim next [
        | ok (some m) ↦ ok (m, d', c ∷ cs)
        | ok none ↦ elim extended [ ok _ ↦ rest | err e ↦ err (frame e) ]
        | err e ↦ err (frame e)
      ]
