-- ===== src/Protocol/Framing/Bounds.antt =====
-- What the decoder can hold: no payload behind an oversized header, and at most one frame besides
-- the last read.
use holdfast.Base.{
  Bytes, length, take, drop, length-append, take-append-drop, length-take, length-drop, Result, ok,
  err, ℕ, ◌+◌, ◌-◌, ◌≤◌, ◌<◌, min, ◌≡◌, sym, ap, ◌∙◌, ◌≢◌, none, ◌++◌, append_assoc, arith,
}
use holdfast.Protocol.Framing.Length.{u32_from_be_bytes-append}
use holdfast.Protocol.Framing.{
  Codec, FrameDecoder, too_large, u32_from_be_bytes, check_header, check_then_append, extend,
  next_frame, pop_frame, decoded, buffered,
}

module _ (codec : Codec) where
  open codec use {Message, DecodeError}

  -- No complete frame is waiting, as after the caller's loop over `next_frame`.
  abbrev pub IsDrained : FrameDecoder → Type 0
  IsDrained d = (next_frame codec d).1 ≡ ok none

  decoded-ne-none : (r : Result Message DecodeError) → decoded codec r ≢ ok none
  unfolding decoded
  decoded-ne-none (ok m) e = cc
  decoded-ne-none (err x) e = cc

  drained-buffered : (d : FrameDecoder) → IsDrained d → buffered d ≤ d.max_frame_bytes + 3
  unfolding next_frame pop_frame check_header buffered
  drained-buffered d h =
      let len = u32_from_be_bytes d.buf in
      ground (arith, decoded-ne-none (codec.decode (take len (drop 4 d.buf))))

  -- `extend` leaves the limit alone and adds at most the bytes of the read.
  buffered-check_then_append :
      (d : FrameDecoder) (bytes : Bytes)
      → buffered (check_then_append codec d bytes).0 ≤ buffered d + length bytes
  unfolding check_then_append check_header buffered
  buffered-check_then_append d bytes = ground (arith, length-append d.buf bytes)

  pub buffered-extend :
      (d : FrameDecoder) (bytes : Bytes)
      → buffered (extend codec d bytes).0 ≤ buffered d + length bytes
  unfolding extend buffered
  buffered-extend d bytes =
      let n = min (4 - length d.buf) (length bytes) in
      ground (
        arith,
        buffered-check_then_append (record d { buf = d.buf ++ take n bytes }) (drop n bytes),
        buffered-check_then_append d bytes,
        length-append d.buf (take n bytes),
        length-take n bytes,
        length-drop n bytes,
      )

  -- Between two reads a drained decoder holds less than one frame of the negotiated size, so its
  -- buffer never exceeds that frame and the last read.
  pub extend_bounded :
      (d : FrameDecoder) (bytes : Bytes)
      → IsDrained d
      → buffered (extend codec d bytes).0 ≤ d.max_frame_bytes + 3 + length bytes
  extend_bounded d bytes h = omega (arith, drained-buffered d h, buffered-extend d bytes)

  -- The header that a read completes is that of everything received so far.
  completed_header :
      (buf bytes : Bytes) (n : ℕ)
      → 4 ≤ length (buf ++ take n bytes)
      → u32_from_be_bytes (buf ++ take n bytes) ≡ u32_from_be_bytes (buf ++ bytes)
  completed_header buf bytes n h =
      sym (u32_from_be_bytes-append (buf ++ take n bytes) h (drop n bytes))
      ∙ ap u32_from_be_bytes (append_assoc buf (take n bytes) (drop n bytes))
      ∙ ap (λ xs. u32_from_be_bytes (buf ++ xs)) (take-append-drop n bytes)

  -- When a read completes a header that announces more than the limit, `extend` fails with that
  -- length and has buffered the four header bytes and nothing of the payload.
  pub extend_oversized :
      (d : FrameDecoder) (bytes : Bytes)
      → length d.buf < 4
      → 4 ≤ length d.buf + length bytes
      → d.max_frame_bytes < u32_from_be_bytes (d.buf ++ bytes)
      → ((extend codec d bytes).1
          ≡ err (too_large (u32_from_be_bytes (d.buf ++ bytes)) d.max_frame_bytes))
        × (buffered (extend codec d bytes).0 ≡ 4)
  unfolding extend check_then_append check_header buffered
  extend_oversized d bytes short enough big =
      let n = min (4 - length d.buf) (length bytes) in
      let total = length-append d.buf (take n bytes) in
      let some_bytes = length-take n bytes in
      let header = completed_header d.buf bytes n (omega (arith, total, some_bytes)) in
      ground (arith, total, some_bytes, header)
