-- ===== src/Terminal/Modes.antt =====
-- crates/terminal-model/src/modes.rs: the input modes a snapshot restores. A character is its code
-- point, the array of active modes a function on its indices.
use holdfast.Base.{
  ltb, leb, ◌==◌, if◌then◌else◌, Bytes, length, set, any, err, ℕ, suc, ◌+◌, ◌-◌, ◌*◌, ◌/◌, ◌^◌, ◌<◌,
  min, max, ap, Bool, true, false, not, ◌&&◌, ◌||◌, Option, none, some, List, [], ◌∷◌, ◌++◌,
}
pub mod Mouse

abbrev pub tracked : List ℕ
tracked = 1 ∷ 9 ∷ 1000 ∷ 1002 ∷ 1003 ∷ 1004 ∷ 1005 ∷ 1006 ∷ 1007 ∷ 1015 ∷ 2004 ∷ []

abbrev pub mouse_protocols : List ℕ
mouse_protocols = 9 ∷ 1000 ∷ 1002 ∷ 1003 ∷ []

abbrev pub max_params : ℕ
max_params = 32

-- `params` holds the first `params_len` bytes of the tracker's parameter buffer.
pub record CsiFrame : Type 0 where
  pub private_mode : Bool
  pub bang : Bool
  pub invalid : Bool
  pub params : Bytes

pub data State : Type 0 where
  ground_state escape string_body string_escape : State
  csi : CsiFrame → State

abbrev pub Active : Type 0
Active = ℕ → Bool

pub record ModeTracker : Type 0 where
  pub state : State
  pub active : Active

abbrev pub none_active : Active
none_active i = false

abbrev pub default_frame : CsiFrame
default_frame = record { private_mode = false; bang = false; invalid = false; params = [] }

unfoldable pub new : ModeTracker
new = record { state = ground_state; active = none_active }

unfoldable pub later : Option ℕ → Option ℕ
later none = none
later (some i) = some (suc i)

-- `iter().position(|&c| c == code)`
unfoldable pub position : List ℕ → ℕ → Option ℕ
position [] code = none
position (c ∷ rest) code = if c == code then some 0 else later (position rest code)

unfoldable pub assign : Active → Option ℕ → Bool → Active
assign active none b i = active i
assign active (some k) b i = if k == i then b else active i

-- The loop that disables the other mouse protocols.
unfoldable pub disable_others : List ℕ → ℕ → Active → Active
disable_others [] code active = active
disable_others (other ∷ rest) code active =
    disable_others rest code
      (if other == code then active else assign active (position tracked other) false)

unfoldable pub apply : Active → ℕ → Bool → Active
apply active code set = elim (position tracked code) [
  | none ↦ active
  | some index ↦
      if set && any (λ c. c == code) mouse_protocols
      then assign (disable_others mouse_protocols code active) (some index) set
      else assign active (some index) set
]

-- `part.parse::<u16>()` of digits: empty parts and values over 65535 are errors.
unfoldable pub parse_digits : ℕ → Bytes → Option ℕ
parse_digits n [] = some n
parse_digits n (b ∷ rest) =
    let n' = n * 10 + (b - 48) in
    let parsed = parse_digits n' rest in if leb (2 ^ 16) n' then none else parsed

unfoldable pub parse_u16 : Bytes → Option ℕ
parse_u16 [] = none
parse_u16 (b ∷ rest) = parse_digits 0 (b ∷ rest)

-- `split(';')`, with the part read so far.
unfoldable pub split_params : Bytes → Bytes → List Bytes
split_params part [] = part ∷ []
split_params part (b ∷ rest) =
    if b == 59 then part ∷ split_params [] rest else split_params (part ++ b ∷ []) rest

unfoldable pub apply_each : Active → List Bytes → Bool → Active
apply_each active [] set = active
apply_each active (part ∷ rest) set = elim (parse_u16 part) [
  | none ↦ apply_each active rest set
  | some code ↦ apply_each (apply active code set) rest set
]

unfoldable pub finish_csi : Active → CsiFrame → ℕ → Active
finish_csi active frame final =
    if frame.invalid
    then active
    else if frame.bang && final == 112
    then none_active
    else if not frame.private_mode || (not (final == 104) && not (final == 108))
    then active
    else apply_each active (split_params [] frame.params) (final == 104)

abbrev pub within : ℕ → ℕ → ℕ → Bool
within low high ch = leb low ch && leb ch high

unfoldable pub push_param : CsiFrame → ℕ → CsiFrame
push_param frame ch =
    if ltb (length frame.params) max_params
    then record frame { params = frame.params ++ ch ∷ [] }
    else record frame { invalid = true }

unfoldable pub step_csi : Active → CsiFrame → ℕ → ModeTracker
step_csi active frame ch =
    if ch == 63 && length frame.params == 0 && not frame.private_mode
    then record { state = csi (record frame { private_mode = true }); active = active }
    else if within 48 57 ch || ch == 59
    then record { state = csi (push_param frame ch); active = active }
    else if ch == 58 || within 60 63 ch
    then record { state = csi (record frame { invalid = true }); active = active }
    else if ch == 33
    then record { state = csi (record frame { bang = true }); active = active }
    else if within 32 47 ch
    then record { state = csi (record frame { invalid = true }); active = active }
    else if within 64 126 ch
    then record { state = ground_state; active = finish_csi active frame ch }
    else if ch == 27
    then record { state = escape; active = active }
    else if ch == 24 || ch == 26
    then record { state = ground_state; active = active }
    else if leb ch 31
    then record { state = csi frame; active = active }
    else record { state = ground_state; active = active }

unfoldable pub starts_string : ℕ → Bool
starts_string ch = ch == 93 || ch == 80 || ch == 88 || ch == 94 || ch == 95

unfoldable pub step : ModeTracker → ℕ → ModeTracker
step t ch = elim t.state [
  | ground_state ↦
      if ch == 27
      then record t { state = escape }
      else if ch == 155
      then record t { state = csi default_frame }
      else record t { state = ground_state }
  | escape ↦
      if ch == 91
      then record t { state = csi default_frame }
      else if starts_string ch
      then record t { state = string_body }
      else if ch == 99
      then new
      else if ch == 27
      then record t { state = escape }
      else record t { state = ground_state }
  | csi frame ↦ step_csi t.active frame ch
  | string_body ↦
      if ch == 7 || ch == 156
      then record t { state = ground_state }
      else if ch == 24 || ch == 26
      then record t { state = ground_state }
      else if ch == 27
      then record t { state = string_escape }
      else record t { state = string_body }
  | string_escape ↦
      if ch == 92
      then record t { state = ground_state }
      else if ch == 27
      then record t { state = string_escape }
      else record t { state = string_body }
]

unfoldable pub scan : ModeTracker → List ℕ → ModeTracker
scan t [] = t
scan t (ch ∷ rest) = scan (step t ch) rest
