-- ===== src/Protocol/Framing/Stream/OneFrame.antt =====
-- One frame through the receiving loop, however the transport splits the bytes.
use holdfast.Base.{
  ltb, ltb→lt, Bool-cases, Bytes, length, take, drop, length-append, take-append-drop, length-drop,
  ok, ℕ, ◌+◌, ◌-◌, ◌^◌, ◌≤◌, ◌<◌, min, ◌≡◌, refl, sym, ap, ◌∙◌, inl, inr, none, some, List, [], ◌∷◌,
  ◌++◌, append_assoc, arith,
}
use holdfast.Protocol.Framing.Length.{
  length-put_u32, header_of_prefix, take_of_append, drop_of_append,
}
use holdfast.Protocol.Framing.{
  Codec, FrameDecoder, put_u32, check_header, check_then_append, extend, next_frame, pop_frame,
  decoded,
}
use holdfast.Protocol.Framing.Stream.{flatten, receive}

module _ (codec : Codec) (m : codec.Message) (max : ℕ) (fits : length (codec.encode m) ≤ max)
    (is_u32 : max < 2 ^ 32) where
  open codec use {encode}

  -- The decoder holds a front of the frame of `m` and of what follows it.
  pub record Holds (d : FrameDecoder) (unread after : Bytes) : Type 0 where
    pub limit : d.max_frame_bytes ≡ max
    pub splits : d.buf ++ unread ≡ put_u32 (length (encode m)) ++ (encode m ++ after)

  Holds-check_header :
      (d : FrameDecoder) (unread after : Bytes)
      → Holds d unread after
      → check_header codec d ≡ ok tt
  unfolding check_header
  Holds-check_header d unread after h = elim (Bool-cases (ltb (length d.buf) 4)) [
    | inl short ↦ rw short refl
    | inr long ↦ ground (
      arith,
      header_of_prefix d.buf unread (encode m ++ after) (length (encode m)) h.splits,
      h.limit,
    )
  ]

  Holds-append :
      (d : FrameDecoder) (c unread after : Bytes)
      → Holds d (c ++ unread) after
      → Holds (record d { buf = d.buf ++ c }) unread after
  Holds-append d c unread after h = record {
    limit = h.limit;
    splits = append_assoc d.buf c unread ∙ h.splits;
  }

  Holds-check_then_append :
      (d : FrameDecoder) (c unread after : Bytes)
      → Holds d (c ++ unread) after
      → ((check_then_append codec d c).1 ≡ ok tt)
        × Holds (check_then_append codec d c).0 unread after
  unfolding check_then_append
  Holds-check_then_append d c unread after h =
      let h' = Holds-append d c unread after h in
      rw (Holds-check_header d (c ++ unread) after h, check_then_append)
        (Holds-check_header (record d { buf = d.buf ++ c }) unread after h', h')

  pub Holds-extend :
      (d : FrameDecoder) (c unread after : Bytes)
      → Holds d (c ++ unread) after
      → ((extend codec d c).1 ≡ ok tt) × Holds (extend codec d c).0 unread after
  unfolding extend
  Holds-extend d c unread after h = elim (Bool-cases (ltb (length d.buf) 4)) [
    | inl short ↦
        let n = min (4 - length d.buf) (length c) in
        let split : take n c ++ (drop n c ++ unread) ≡ c ++ unread =
          sym (append_assoc (take n c) (drop n c) unread)
          ∙ ap (λ xs. xs ++ unread) (take-append-drop n c) in
        let h' : Holds d (take n c ++ (drop n c ++ unread)) after = rw split h in
        rw short (
          Holds-check_then_append (record d { buf = d.buf ++ take n c }) (drop n c) unread after
            (Holds-append d (take n c) (drop n c ++ unread) after h'))
    | inr long ↦ rw long (Holds-check_then_append d c unread after h)
  ]

  -- A drained decoder yields nothing; one that holds the whole frame yields its message.
  next_frame_short :
      (d : FrameDecoder) (unread after : Bytes)
      → Holds d unread after
      → length d.buf < 4 + length (encode m)
      → next_frame codec d ≡ (d, ok none)
  unfolding next_frame pop_frame
  next_frame_short d unread after h short = ground (
    arith,
    Holds-check_header d unread after h,
    header_of_prefix d.buf unread (encode m ++ after) (length (encode m)) h.splits,
  )

  pub payload_split :
      (d : FrameDecoder) (unread after : Bytes)
      → Holds d unread after
      → 4 + length (encode m) ≤ length d.buf
      → (take (length (encode m)) (drop 4 d.buf) ≡ encode m)
        × (drop (length (encode m)) (drop 4 d.buf) ++ unread ≡ after)
  unfolding put_u32
  payload_split d unread after h long =
      let len = length (encode m) in
      let enough = length-put_u32 len in
      let behind : drop 4 d.buf ++ unread ≡ encode m ++ after =
        drop_of_append (put_u32 len) d.buf unread (encode m ++ after) h.splits
          (omega (arith, enough)) in
      let room = length-drop 4 d.buf in
      (
        take_of_append (encode m) (drop 4 d.buf) unread after behind (omega (arith, room)),
        drop_of_append (encode m) (drop 4 d.buf) unread after behind (omega (arith, room)),
      )

  pub next_frame_whole :
      (d : FrameDecoder) (unread after : Bytes)
      → Holds d unread after
      → 4 + length (encode m) ≤ length d.buf
      → next_frame codec d
        ≡ (record d { buf = drop (length (encode m)) (drop 4 d.buf) }, ok (some m))
  unfolding next_frame pop_frame decoded
  next_frame_whole d unread after h long = ground (
    arith,
    Holds-check_header d unread after h,
    header_of_prefix d.buf unread (encode m ++ after) (length (encode m)) h.splits,
    payload_split d unread after h long,
    codec.decode-encode m,
  )

  -- One call of `receive` returns the message, wherever the reads split the stream, and leaves the
  -- bytes behind the frame to the next call.
  pub record Returns (d : FrameDecoder) (cs : List Bytes) (after : Bytes) : Type 0 where
    pub left : FrameDecoder
    pub reads : List Bytes
    pub returned : receive codec d cs ≡ ok (m, left, reads)
    pub limit : left.max_frame_bytes ≡ max
    pub splits : left.buf ++ flatten reads ≡ after

  Returns-now :
      (d : FrameDecoder) (cs : List Bytes) (after : Bytes)
      → Holds d (flatten cs) after
      → 4 + length (encode m) ≤ length d.buf
      → Returns d cs after
  unfolding receive
  Returns-now d [] after h long = record {
    left = record d { buf = drop (length (encode m)) (drop 4 d.buf) };
    reads = [];
    returned = ground (arith, next_frame_whole d [] after h long);
    limit = h.limit;
    splits = (payload_split d [] after h long).1;
  }
  Returns-now d (c ∷ cs) after h long = record {
    left = record d { buf = drop (length (encode m)) (drop 4 d.buf) };
    reads = c ∷ cs;
    returned = ground (arith, next_frame_whole d (c ++ flatten cs) after h long);
    limit = h.limit;
    splits = (payload_split d (c ++ flatten cs) after h long).1;
  }

  Returns-later :
      (d : FrameDecoder) (c : Bytes) (cs : List Bytes) (after : Bytes)
      → Holds d (c ++ flatten cs) after
      → length d.buf < 4 + length (encode m)
      → Returns (extend codec d c).0 cs after
      → Returns d (c ∷ cs) after
  unfolding receive
  Returns-later d c cs after h short r = record {
    left = r.left;
    reads = r.reads;
    returned = ground (
      arith,
      next_frame_short d (c ++ flatten cs) after h short,
      (Holds-extend d c (flatten cs) after h).0,
      r.returned,
    );
    limit = r.limit;
    splits = r.splits;
  }

  pub receive-Returns :
      (d : FrameDecoder) (cs : List Bytes) (after : Bytes)
      → Holds d (flatten cs) after
      → Returns d cs after
  receive-Returns d [] after h = Returns-now d [] after h (
      omega (
        arith,
        ap length h.splits,
        length-append d.buf [],
        length-append (put_u32 (length (encode m))) (encode m ++ after),
        length-append (encode m) after,
        length-put_u32 (length (encode m)),
      ))
  receive-Returns d (c ∷ cs) after h =
      elim (Bool-cases (ltb (length d.buf) (4 + length (encode m)))) [
        | inl short ↦ Returns-later d c cs after h (ltb→lt _ _ short) (
            receive-Returns (extend codec d c).0 cs after (Holds-extend d c (flatten cs) after h).1)
        | inr long ↦ Returns-now d (c ∷ cs) after h (ground arith)
      ]
