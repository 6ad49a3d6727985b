-- ===== src/Terminal/History.antt =====
-- crates/terminal-model/src/history.rs: the bounded scrollback ring. A line is its bytes.
use holdfast.Base.{
  ltb, leb, ◌==◌, if◌then◌else◌, Bytes, length, get_elem?, ℕ, zero, suc, ◌+◌, ◌-◌, ◌*◌, ◌/◌, ◌%◌,
  ◌^◌, min, max, Bool, not, ◌&&◌, ◌||◌, none, some, List, [], ◌∷◌, ◌++◌,
}
pub mod Ring
pub mod Range
pub mod Refinement

pub record HistoryRing : Type 0 where
  pub lines : List Bytes
  pub first_id : ℕ
  pub next_id : ℕ
  pub bytes : ℕ
  pub max_lines : ℕ
  pub max_bytes : ℕ

pub record HistoryRange : Type 0 where
  pub first_line_id : ℕ
  pub lines : List Bytes
  pub truncated_by_eviction : Bool

pub new : ℕ → ℕ → HistoryRing
new max_lines max_bytes = record {
  lines = [];
  first_id = 1;
  next_id = 1;
  bytes = 0;
  max_lines = max max_lines 1;
  max_bytes = max max_bytes 1;
}

pub is_over : HistoryRing → Bool
is_over r = ltb r.max_lines (length r.lines) || ltb r.max_bytes r.bytes

-- The eviction loop, on the lines that are left.
pub evict_lines : List Bytes → HistoryRing → HistoryRing
evict_lines [] r = r
evict_lines (line ∷ []) r = r
evict_lines (line ∷ next ∷ rest) r =
    let evicted = evict_lines (next ∷ rest) (record r {
      lines = next ∷ rest;
      bytes = r.bytes - length line;
      first_id = (r.first_id + 1) % 2 ^ 64;
    }) in
    if is_over r then evicted else r

pub push : HistoryRing → Bytes → HistoryRing
push r line =
    let added = record r {
      lines = r.lines ++ line ∷ [];
      bytes = r.bytes + length line;
      next_id = (r.next_id + 1) % 2 ^ 64;
    } in
    evict_lines added.lines added

pub oldest_id : HistoryRing → ℕ
oldest_id r = if length r.lines == 0 then 0 else r.first_id

unfoldable pub newest_id : HistoryRing → ℕ
newest_id r = r.next_id - 1

-- The limits stop the loop before this line.
pub is_full : ℕ → ℕ → List Bytes → ℕ → Bytes → Bool
is_full maximum_lines maximum_bytes collected bytes line =
    not (length collected == 0)
    && (leb maximum_lines (length collected) || ltb maximum_bytes (bytes + length line))

-- The loop of `range` at the line with index `i`. `collected` is in the order of the result, and is
-- at most `maximum_lines` long, so that its `as u32` is exact. An index out of range, where the source
-- would panic, stops the loop.
pub collect : List Bytes → ℕ → ℕ → ℕ → List Bytes → ℕ → List Bytes
collect lines maximum_lines maximum_bytes zero collected bytes = elim (get_elem? lines 0) [
  | none ↦ collected
  | some line ↦
      if is_full maximum_lines maximum_bytes collected bytes line
      then collected
      else line ∷ collected
]
collect lines maximum_lines maximum_bytes (suc i) collected bytes = elim (get_elem? lines (suc i)) [
  | none ↦ collected
  | some line ↦
      (let further =
          collect lines maximum_lines maximum_bytes i (line ∷ collected) (bytes + length line) in
        if is_full maximum_lines maximum_bytes collected bytes line
        then collected
        else if leb maximum_lines (length (line ∷ collected))
        then line ∷ collected
        else further)
]

unfoldable pub upper_id : HistoryRing → ℕ → ℕ
upper_id r before_line_id =
    if before_line_id == 0 then newest_id r else min (before_line_id - 1) (newest_id r)

pub range : HistoryRing → ℕ → ℕ → ℕ → HistoryRange
range r before_line_id maximum_lines maximum_bytes =
    let upper = upper_id r before_line_id in
    if length r.lines == 0 || upper == 0 || ltb upper r.first_id
    then record {
      first_line_id = 0;
      lines = [];
      truncated_by_eviction = not (upper == 0) && not (newest_id r == 0) && ltb upper r.first_id;
    }
    else (let collected = collect r.lines maximum_lines maximum_bytes (upper - r.first_id) [] 0 in
        let first_line_id = upper + 1 - length collected in
        record {
          first_line_id = first_line_id;
          lines = collected;
          truncated_by_eviction = first_line_id == r.first_id && ltb 1 r.first_id;
        })
