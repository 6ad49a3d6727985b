-- ===== src/Terminal/History/Refinement.antt =====
-- The scrollback ring implements its specification: the longest end of everything that was pushed that the
-- bounds allow.
use holdfast.Base.{
  ltb, if◌then◌else◌, Bool-cases, Bytes, length, length-append, ℕ, ◌+◌, ◌-◌, ◌%◌, ◌^◌, ◌<◌, max,
  ◌≡◌, refl, ap, ◌∙◌, inl, inr, Bool, true, ◌||◌, List, [], ◌∷◌, ◌++◌, append-nil, append_assoc,
  arith,
}
use holdfast.Terminal.History.{HistoryRing, new, is_over, evict_lines, push, newest_id}
use holdfast.Terminal.History.Ring.{
  total, total-append, new-IsWellFormed, IsWellFormed, push-IsWellFormed,
}

unfoldable pub exceeds : ℕ → ℕ → List Bytes → Bool
exceeds max_lines max_bytes lines = ltb max_lines (length lines) || ltb max_bytes (total lines)

-- The specification: the longest end of the log within the bounds, and at least its last line.
unfoldable pub kept_lines : ℕ → ℕ → List Bytes → List Bytes
kept_lines max_lines max_bytes [] = []
kept_lines max_lines max_bytes (line ∷ []) = line ∷ []
kept_lines max_lines max_bytes (line ∷ next ∷ rest) =
    let shorter = kept_lines max_lines max_bytes (next ∷ rest) in
    if exceeds max_lines max_bytes (line ∷ next ∷ rest) then shorter else line ∷ next ∷ rest

pub push_all : HistoryRing → List Bytes → HistoryRing
push_all r [] = r
push_all r (line ∷ rest) = push_all (push r line) rest

-- A log that exceeds the bounds still does with one more line, so that nothing comes back.
kept_lines-append :
    (max_lines max_bytes : ℕ) (log : List Bytes) (line : Bytes)
    → kept_lines max_lines max_bytes (kept_lines max_lines max_bytes log ++ line ∷ [])
      ≡ kept_lines max_lines max_bytes (log ++ line ∷ [])
unfolding kept_lines exceeds
kept_lines-append ml mb [] line = refl
kept_lines-append ml mb (x ∷ []) line = refl
kept_lines-append ml mb (x ∷ y ∷ rest) line = elim (Bool-cases (exceeds ml mb (x ∷ y ∷ rest))) [
  | inr fits ↦ rw fits refl
  | inl over ↦
      let still : exceeds ml mb (x ∷ y ∷ (rest ++ line ∷ [])) ≡ true =
        ground (arith, over, length-append rest (line ∷ []), total-append rest line) in
      rw (over, still) (kept_lines-append ml mb (y ∷ rest) line)
]

-- The eviction loop computes the specification of the lines that it is given.
record Evicted (before after : HistoryRing) (lines : List Bytes) : Type 0 where
  kept : after.lines ≡ kept_lines before.max_lines before.max_bytes lines
  next_id : after.next_id ≡ before.next_id
  max_lines : after.max_lines ≡ before.max_lines
  max_bytes : after.max_bytes ≡ before.max_bytes

evict_lines-Evicted :
    (lines : List Bytes) (r : HistoryRing)
    → r.lines ≡ lines
    → r.bytes ≡ total lines
    → Evicted r (evict_lines lines r) lines
unfolding evict_lines is_over kept_lines exceeds
evict_lines-Evicted [] r e b = record {
  kept = e;
  next_id = refl;
  max_lines = refl;
  max_bytes = refl;
}
evict_lines-Evicted (line ∷ []) r e b = record {
  kept = e;
  next_id = refl;
  max_lines = refl;
  max_bytes = refl;
}
evict_lines-Evicted (line ∷ next ∷ rest) r e b =
    let evicted : HistoryRing = record r {
      lines = next ∷ rest;
      bytes = r.bytes - length line;
      first_id = (r.first_id + 1) % 2 ^ 64;
    } in
    let v = evict_lines-Evicted (next ∷ rest) evicted refl (ground (arith, b)) in
    record {
      kept = ground (arith, e, b, ap length e, v.kept);
      next_id = ground (arith, v.next_id);
      max_lines = ground (arith, v.max_lines);
      max_bytes = ground (arith, v.max_bytes);
    }

-- A ring holds what the specification keeps of the log, and its ids count the log.
record Refines (max_lines max_bytes : ℕ) (r : HistoryRing) (log : List Bytes) : Type 0 where
  kept : r.lines ≡ kept_lines max_lines max_bytes log
  counts : r.next_id ≡ length log + 1
  same_lines : r.max_lines ≡ max_lines
  same_bytes : r.max_bytes ≡ max_bytes
  formed : IsWellFormed r

push-Refines :
    (ml mb : ℕ) (r : HistoryRing) (log : List Bytes) (line : Bytes)
    → Refines ml mb r log
    → length log + 2 < 2 ^ 64
    → Refines ml mb (push r line) (log ++ line ∷ [])
unfolding push
push-Refines ml mb r log line v room =
    let formed = (push-IsWellFormed r line v.formed (omega (arith, v.counts, room))).0 in
    let added : HistoryRing = record r {
      lines = r.lines ++ line ∷ [];
      bytes = r.bytes + length line;
      next_id = (r.next_id + 1) % 2 ^ 64;
    } in
    let e =
      evict_lines-Evicted added.lines added refl
        (ground (arith, v.formed.counted.bytes_eq_total, total-append r.lines line)) in
    record {
      kept = e.kept ∙ rw (v.same_lines, v.same_bytes, v.kept) (kept_lines-append ml mb log line);
      counts = ground (arith, e.next_id, v.counts, room, length-append log (line ∷ []));
      same_lines = e.max_lines ∙ v.same_lines;
      same_bytes = e.max_bytes ∙ v.same_bytes;
      formed = formed;
    }

push_all-Refines :
    (ml mb : ℕ) (r : HistoryRing) (log more : List Bytes)
    → Refines ml mb r log
    → length log + length more + 1 < 2 ^ 64
    → Refines ml mb (push_all r more) (log ++ more)
unfolding push_all
push_all-Refines ml mb r log [] v room = rw (append-nil log) v
push_all-Refines ml mb r log (line ∷ rest) v room =
    let next = push-Refines ml mb r log line v (omega (arith, room)) in
    rw⁻¹ (append_assoc log (line ∷ []) rest) (
      push_all-Refines ml mb (push r line) (log ++ line ∷ []) rest next
        (omega (arith, room, length-append log (line ∷ []))))

-- After any sequence of lines, a new ring holds exactly the longest end of that sequence that its bounds
-- allow (at least the last line), its newest id is the number of lines ever pushed, and its oldest one is
-- that of the first line it holds. The condition is that the ids do not wrap.
pub ring_refines_log :
    (max_lines max_bytes : ℕ) (log : List Bytes)
    → length log + 1 < 2 ^ 64
    → ((push_all (new max_lines max_bytes) log).lines
        ≡ kept_lines (max max_lines 1) (max max_bytes 1) log)
      × (newest_id (push_all (new max_lines max_bytes) log) ≡ length log)
      × ((push_all (new max_lines max_bytes) log).first_id
            + length (push_all (new max_lines max_bytes) log).lines
          ≡ length log + 1)
unfolding newest_id new kept_lines
ring_refines_log max_lines max_bytes log room =
    let start : Refines (max max_lines 1) (max max_bytes 1) (new max_lines max_bytes) [] = record {
      kept = refl;
      counts = refl;
      same_lines = refl;
      same_bytes = refl;
      formed = new-IsWellFormed max_lines max_bytes;
    } in
    let v = push_all-Refines _ _ (new max_lines max_bytes) [] log start (omega (arith, room)) in
    (v.kept, omega (arith, v.counts), omega (arith, v.counts, v.formed.counted.ids))
