-- ===== src/Terminal/Modes/Mouse.antt =====
-- Whatever a program prints, at most one mouse protocol is active.
use holdfast.Base.{
  ◌==◌, Option-cases, Bytes, any, text, ℕ, ◌≤◌, ◌≡◌, refl, inl, inr, Bool, true, some, List, [],
  ◌∷◌, arith,
}
use holdfast.Terminal.Modes.{
  later, none_active, ground_state, escape, csi, string_body, string_escape, tracked,
  mouse_protocols, CsiFrame, Active, ModeTracker, new, position, assign, disable_others, apply,
  apply_each, finish_csi, step_csi, step, scan, split_params, parse_u16,
}

-- Indices 1 to 4 of `TRACKED` are the mouse protocols.
pub record IsExclusive (active : Active) : Type 0 where
  pub only : (i j : ℕ) → 1 ≤ i → i ≤ 4 → 1 ≤ j → j ≤ 4 → active i ≡ true → active j ≡ true → i ≡ j

position-mouse :
    (code k : ℕ)
    → position tracked code ≡ some k
    → 1 ≤ k
    → k ≤ 4
    → any (λ c. c == code) mouse_protocols ≡ true
unfolding position later
position-mouse code k e low high = ground arith

disabled :
    (active : Active) (code k i : ℕ)
    → position tracked code ≡ some k
    → any (λ c. c == code) mouse_protocols ≡ true
    → 1 ≤ i
    → i ≤ 4
    → disable_others mouse_protocols code active i ≡ true
    → i ≡ k
unfolding position later disable_others assign
disabled active code k i e mouse low high on = ground arith

apply-IsExclusive :
    (active : Active) (code : ℕ) (b : Bool) → IsExclusive active → IsExclusive (apply active code b)
unfolding apply assign
apply-IsExclusive active code b v = elim (Option-cases (position tracked code)) [
  | inl e ↦ rw (e, apply) v
  | inr (k, e) ↦
      rw (e, apply)
        (record {
          only = λ i j low_i high_i low_j high_j on_i on_j. ground (
            arith,
            v.only i j,
            position-mouse code k e,
            disabled active code k i e,
            disabled active code k j e,
          );
        })
]

apply_each-IsExclusive :
    (active : Active) (parts : List Bytes) (b : Bool)
    → IsExclusive active
    → IsExclusive (apply_each active parts b)
unfolding apply_each
apply_each-IsExclusive active [] b v = v
apply_each-IsExclusive active (part ∷ rest) b v = elim (Option-cases (parse_u16 part)) [
  | inl e ↦ rw (e, apply_each) (apply_each-IsExclusive active rest b v)
  | inr (code, e) ↦
      rw (e, apply_each)
        (apply_each-IsExclusive (apply active code b) rest b (apply-IsExclusive active code b v))
]

none-IsExclusive : IsExclusive none_active
none-IsExclusive = record { only = λ i j low_i high_i low_j high_j on_i on_j. ground (arith, on_i) }

finish_csi-IsExclusive :
    (active : Active) (frame : CsiFrame) (final : ℕ)
    → IsExclusive active
    → IsExclusive (finish_csi active frame final)
unfolding finish_csi
finish_csi-IsExclusive active frame final v = ground (
  arith,
  v,
  none-IsExclusive,
  apply_each-IsExclusive active (split_params [] frame.params) (final == 104) v,
)

step-IsExclusive :
    (t : ModeTracker) (ch : ℕ) → IsExclusive t.active → IsExclusive (step t ch).active
unfolding step step_csi new
step-IsExclusive t ch v =
    elim t.state as (λ x. t.state ≡ x → IsExclusive (step t ch).active) [
      | ground_state ↦ λ e. ground (arith, e, v)
      | escape ↦ λ e. ground (arith, e, v, none-IsExclusive)
      | csi frame ↦ λ e. ground (arith, e, v, finish_csi-IsExclusive t.active frame ch v)
      | string_body ↦ λ e. ground (arith, e, v)
      | string_escape ↦ λ e. ground (arith, e, v)
    ]
      refl

scan-IsExclusive :
    (t : ModeTracker) (text : List ℕ) → IsExclusive t.active → IsExclusive (scan t text).active
unfolding scan
scan-IsExclusive t [] v = v
scan-IsExclusive t (ch ∷ rest) v = scan-IsExclusive (step t ch) rest (step-IsExclusive t ch v)

-- Any number of calls of `scan`, one after the other.
unfoldable pub scan_calls : ModeTracker → List (List ℕ) → ModeTracker
scan_calls t [] = t
scan_calls t (text ∷ rest) = scan_calls (scan t text) rest

scan_calls-IsExclusive :
    (t : ModeTracker) (texts : List (List ℕ))
    → IsExclusive t.active
    → IsExclusive (scan_calls t texts).active
unfolding scan_calls
scan_calls-IsExclusive t [] v = v
scan_calls-IsExclusive t (text ∷ rest) v =
    scan_calls-IsExclusive (scan t text) rest (scan-IsExclusive t text v)

-- Whatever texts a new tracker scans, in any number of calls, at most one of the four mouse protocols is
-- active afterwards.
pub scan_exclusive :
    (texts : List (List ℕ)) (i j : ℕ)
    → 1 ≤ i
    → i ≤ 4
    → 1 ≤ j
    → j ≤ 4
    → (scan_calls new texts).active i ≡ true
    → (scan_calls new texts).active j ≡ true
    → i ≡ j
unfolding new
scan_exclusive texts i j = (scan_calls-IsExclusive new texts none-IsExclusive).only i j
