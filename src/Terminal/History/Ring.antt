-- ===== src/Terminal/History/Ring.antt =====
-- The scrollback ring keeps its bounds and its line ids.
use holdfast.Base.{
  Bool-cases, Bytes, length, drop, length-append, ℕ, suc, ◌+◌, ◌-◌, ◌%◌, ◌^◌, ◌≤◌, ◌<◌, ◌≡◌, refl,
  ap, ◌⊎◌, inl, inr, List, [], ◌∷◌, ◌++◌, arith,
}
use holdfast.Terminal.History.{HistoryRing, new, is_over, evict_lines, push, newest_id}

abbrev pub total : List Bytes → ℕ
total [] = 0
total (line ∷ rest) = length line + total rest

pub total-append :
    (xs : List Bytes) (line : Bytes) → total (xs ++ line ∷ []) ≡ total xs + length line
total-append [] line = omega arith
total-append (x ∷ xs) line = omega (arith, total-append xs line)

-- The ids of the retained lines are `first_id … next_id - 1` and the byte count is theirs.
pub record IsCounted (r : HistoryRing) : Type 0 where
  pub bytes_eq_total : r.bytes ≡ total r.lines
  pub ids : r.next_id ≡ r.first_id + length r.lines
  pub one_based : 1 ≤ r.first_id
  pub no_wrap : r.next_id < 2 ^ 64

-- Within both bounds, but for a single line that is longer than the byte bound.
pub record IsWellFormed (r : HistoryRing) : Type 0 where
  pub counted : IsCounted r
  pub some_line : 1 ≤ r.max_lines
  pub few : length r.lines ≤ r.max_lines
  pub small : (r.bytes ≤ r.max_bytes) ⊎ (length r.lines ≤ 1)

-- The ring after the first of several lines is evicted.
abbrev shorter : HistoryRing → Bytes → List Bytes → HistoryRing
shorter r line rest = record r {
  lines = rest;
  bytes = r.bytes - length line;
  first_id = (r.first_id + 1) % 2 ^ 64;
}

shorter-IsCounted :
    (r : HistoryRing) (line : Bytes) (rest : List Bytes)
    → r.lines ≡ line ∷ rest
    → IsCounted r
    → IsCounted (shorter r line rest)
shorter-IsCounted r line rest e c = record {
  bytes_eq_total = ground (arith, c.bytes_eq_total, ap total e);
  ids = ground (arith, c.ids, ap length e, c.no_wrap);
  one_based = ground (arith, c.ids, ap length e, c.no_wrap);
  no_wrap = c.no_wrap;
}

evict_lines-IsWellFormed :
    (lines : List Bytes) (r : HistoryRing)
    → r.lines ≡ lines
    → IsCounted r
    → 1 ≤ r.max_lines
    → IsWellFormed (evict_lines lines r)
unfolding evict_lines is_over
evict_lines-IsWellFormed [] r e c p = record {
  counted = c;
  some_line = p;
  few = ground (arith, ap length e);
  small = inr (ground (arith, ap length e));
}
evict_lines-IsWellFormed (line ∷ []) r e c p = record {
  counted = c;
  some_line = p;
  few = ground (arith, ap length e);
  small = inr (ground (arith, ap length e));
}
evict_lines-IsWellFormed (line ∷ next ∷ rest) r e c p = elim (Bool-cases (is_over r)) [
  | inl over ↦
      rw (over, is_over)
        (evict_lines-IsWellFormed (next ∷ rest) (shorter r line (next ∷ rest)) refl
          (shorter-IsCounted r line (next ∷ rest) e c) p)
  | inr fits ↦
      rw (fits, is_over)
        (record {
          counted = c;
          some_line = p;
          few = ground (arith, fits);
          small = inl (ground (arith, fits));
        })
]

evict_lines-next_id :
    (lines : List Bytes) (r : HistoryRing) → (evict_lines lines r).next_id ≡ r.next_id
unfolding evict_lines
evict_lines-next_id [] r = refl
evict_lines-next_id (line ∷ []) r = refl
evict_lines-next_id (line ∷ next ∷ rest) r =
    ground (arith, evict_lines-next_id (next ∷ rest) (shorter r line (next ∷ rest)))

-- The loop drops lines from the front, and its first id counts them.
evict_lines-drop :
    (lines : List Bytes) (r : HistoryRing)
    → r.lines ≡ lines
    → IsCounted r
    → (r.first_id ≤ (evict_lines lines r).first_id)
      × ((evict_lines lines r).lines ≡ drop ((evict_lines lines r).first_id - r.first_id) lines)
      × (1 ≤ length lines → 1 ≤ length (evict_lines lines r).lines)
unfolding evict_lines
evict_lines-drop [] r e c = ground (arith, e)
evict_lines-drop (line ∷ []) r e c = ground (arith, e)
evict_lines-drop (line ∷ next ∷ rest) r e c = elim (Bool-cases (is_over r)) [
  | inl over ↦
      let evicted = shorter r line (next ∷ rest) in
      let later = evict_lines (next ∷ rest) evicted in
      let (grown, dropped, kept) =
        evict_lines-drop (next ∷ rest) evicted refl (shorter-IsCounted r line (next ∷ rest) e c) in
      let next_first : evicted.first_id ≡ r.first_id + 1 =
        ground (arith, c.ids, ap length e, c.no_wrap) in
      let one_more : later.first_id - r.first_id ≡ suc (later.first_id - evicted.first_id) =
        omega (arith, grown, next_first) in
      rw (over, one_more) (omega (arith, grown, next_first), dropped, λ some. kept (omega arith))
  | inr fits ↦
      let same : r.first_id - r.first_id ≡ 0 = omega arith in
      rw (fits, same) (omega arith, e, λ some. ground (arith, ap length e))
]

pub push-IsWellFormed :
    (r : HistoryRing) (line : Bytes)
    → IsWellFormed r
    → r.next_id + 1 < 2 ^ 64
    → IsWellFormed (push r line)
      × (newest_id (push r line) ≡ newest_id r + 1)
      × (r.first_id ≤ (push r line).first_id)
      × ((push r line).lines ≡ drop ((push r line).first_id - r.first_id) (r.lines ++ line ∷ []))
      × (1 ≤ length (push r line).lines)
unfolding push newest_id
push-IsWellFormed r line v small_id =
    let added = record r {
      lines = r.lines ++ line ∷ [];
      bytes = r.bytes + length line;
      next_id = (r.next_id + 1) % 2 ^ 64;
    } in
    let counted : IsCounted added = record {
      bytes_eq_total = ground (arith, v.counted.bytes_eq_total, total-append r.lines line);
      ids = ground (arith, v.counted.ids, length-append r.lines (line ∷ []), small_id);
      one_based = v.counted.one_based;
      no_wrap = ground (arith, small_id);
    } in
    let (grown, dropped, kept) = evict_lines-drop added.lines added refl counted in
    (
      evict_lines-IsWellFormed added.lines added refl counted v.some_line,
      ground (
        arith,
        evict_lines-next_id added.lines added,
        v.counted.ids,
        v.counted.one_based,
        small_id,
      ),
      grown,
      dropped,
      kept (omega (arith, length-append r.lines (line ∷ []))),
    )

pub new-IsWellFormed : (max_lines max_bytes : ℕ) → IsWellFormed (new max_lines max_bytes)
unfolding new
new-IsWellFormed max_lines max_bytes = record {
  counted = record {
    bytes_eq_total = refl;
    ids = refl;
    one_based = omega arith;
    no_wrap = omega arith;
  };
  some_line = omega arith;
  few = omega arith;
  small = inr (omega arith);
}
