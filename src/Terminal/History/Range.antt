-- ===== src/Terminal/History/Range.antt =====
-- A range read is a slice of the scrollback ring.
use holdfast.Base.{Bytes, length, drop, ℕ, ◌-◌, ◌≤◌, ◌≡◌, List, ◌++◌}

-- `c` is the part of `lines` that ends before `newer`, where `newer` starts at index `upper`.
record IsSlice (lines newer : List Bytes) (upper : ℕ) (c : List Bytes) : Type 0 where
  slice : c ++ newer ≡ drop (upper - length c) lines
  short : length c ≤ upper
