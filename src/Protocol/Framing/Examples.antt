-- ===== src/Protocol/Framing/Examples.antt =====
-- A toy message type (one byte, or the empty payload for 0) and the framing theorems at it.
use holdfast.Base.{
  Bytes, length, Result, ok, err, ℕ, zero, suc, ◌+◌, ◌≤◌, ◌≡◌, refl, List, [], ◌∷◌, ◌++◌, arith,
}
use holdfast.Protocol.Framing.{
  Codec, too_large, u32_from_be_bytes, put_u32, encode_delimited, check_header, extend, next_frame,
  new, buffered,
}
use holdfast.Protocol.Framing.Bounds.{IsDrained, extend_bounded, extend_oversized}
use holdfast.Protocol.Framing.Stream.{flatten}
use holdfast.Protocol.Framing.Stream.RoundTrip.{
  Frames, no_frames, one_more, Delivers, stream_round_trip,
}

abbrev pub toy_encode : ℕ → Bytes
toy_encode zero = []
toy_encode (suc n) = suc n ∷ []

abbrev pub toy_decode : Bytes → Result ℕ (Unit {0})
toy_decode [] = ok 0
toy_decode (zero ∷ []) = err tt
toy_decode (suc n ∷ []) = ok (suc n)
toy_decode _ = err tt

pub toy_decode-toy_encode : (m : ℕ) → toy_decode (toy_encode m) ≡ ok m
toy_decode-toy_encode zero = refl
toy_decode-toy_encode (suc n) = refl

abbrev pub toy : Codec
toy = record {
  Message = ℕ;
  DecodeError = Unit {0};
  encode = toy_encode;
  encoded_len = λ m. length (toy_encode m);
  decode = toy_decode;
  encoded_len_lem = λ m. refl;
  decode-encode = toy_decode-toy_encode;
}

-- Two frames, split inside the header of the second.
abbrev reads : List Bytes
reads = (0 ∷ 0 ∷ 0 ∷ 1 ∷ []) ∷ (7 ∷ 0 ∷ 0 ∷ []) ∷ [] ∷ (0 ∷ 0 ∷ []) ∷ []

frames : Frames toy 1024 (7 ∷ 0 ∷ []) (flatten reads)
unfolding encode_delimited put_u32
frames = one_more refl (one_more refl no_frames)

stream_round_trip_example : Delivers toy (new 1024) reads (7 ∷ 0 ∷ [])
stream_round_trip_example = stream_round_trip toy 1024 reads frames (omega arith) refl

next_frame-new : IsDrained toy (new 1024)
unfolding new next_frame check_header
next_frame-new = refl

extend_bounded_example :
    buffered (extend toy (new 1024) (0 ∷ 0 ∷ 0 ∷ [])).0 ≤ (new 1024).max_frame_bytes + 3 + 3
extend_bounded_example = extend_bounded toy (new 1024) (0 ∷ 0 ∷ 0 ∷ []) next_frame-new

abbrev hostile : Bytes
hostile = 0 ∷ 16 ∷ 0 ∷ 0 ∷ 0xaa ∷ 0xaa ∷ []

extend_oversized_example :
    ((extend toy (new 1024) hostile).1
      ≡ err (too_large (u32_from_be_bytes ((new 1024).buf ++ hostile)) (new 1024).max_frame_bytes))
    × (buffered (extend toy (new 1024) hostile).0 ≡ 4)
unfolding new u32_from_be_bytes
extend_oversized_example =
    extend_oversized toy (new 1024) hostile (omega arith) (omega arith) (omega arith)
