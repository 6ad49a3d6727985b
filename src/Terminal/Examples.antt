-- ===== src/Terminal/Examples.antt =====
-- A ring of two lines that has evicted one, and a program that turns on two mouse protocols.
use holdfast.Base.{Bytes, length, text, ℕ, ◌+◌, ◌≡◌, refl, true, List, [], ◌∷◌, arith}
use holdfast.Terminal.History.{HistoryRing, newest_id}
use holdfast.Terminal.History
use holdfast.Terminal.History.Refinement.{exceeds, kept_lines, push_all, ring_refines_log}
use holdfast.Terminal.Modes.{
  new, scan, step, step_csi, push_param, finish_csi, apply_each, apply, split_params, parse_u16,
  parse_digits, position, later, assign, disable_others, starts_string,
}
use holdfast.Terminal.Modes.Mouse.{scan_calls, scan_exclusive}

abbrev ring : HistoryRing
ring = record {
  lines = text "bb" ∷ text "cc" ∷ [];
  first_id = 2;
  next_id = 4;
  bytes = 4;
  max_lines = 2;
  max_bytes = 100;
}

-- `CSI ? 1000 ; 1003 h`, cut inside the first number
abbrev program_output : List (List ℕ)
program_output = (27 ∷ text "[?10") ∷ text "00;1003h" ∷ []

any_event_on : (scan_calls new program_output).active 4 ≡ true
unfolding new scan_calls scan step step_csi push_param finish_csi apply_each apply split_params
    parse_u16 parse_digits position later assign disable_others starts_string
any_event_on = refl

-- The index of any-event tracking.
abbrev any_event : ℕ
any_event = 4

scan_exclusive_example : any_event ≡ any_event
scan_exclusive_example =
    scan_exclusive program_output any_event any_event (omega arith) (omega arith) (omega arith)
      (omega arith) any_event_on any_event_on

abbrev three_lines : List Bytes
three_lines = text "aa" ∷ text "bb" ∷ text "cc" ∷ []

abbrev two_kept : HistoryRing
two_kept = push_all (History.new 2 100) three_lines

ring_refines_log_example :
    (two_kept.lines ≡ text "bb" ∷ text "cc" ∷ [])
    × (newest_id two_kept ≡ 3)
    × (two_kept.first_id + length two_kept.lines ≡ 4)
unfolding kept_lines exceeds
ring_refines_log_example = ring_refines_log 2 100 three_lines (omega arith)
