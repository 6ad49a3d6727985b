-- ===== src/Session/Pump/Consistency.antt =====
-- The pump keeps a runtime sound.
use holdfast.Base.{Bytes, length, ℕ, ◌≤◌, refl, Option, [], ◌∷◌, arith}
use holdfast.Base.Map.{Map, nat_key}
use holdfast.Session.Types.{
  ExitSummary, TerminalModel, AttachmentEvent, Sender, Runtime, is_exited, output,
}
use holdfast.Session.Pump.{fan_out, pump_chunk, pump_eof}
use holdfast.Session.Invariant.{Keeps}

length-fan_out-le :
    (capacity : ℕ) (event : AttachmentEvent) (m : Map ℕ Sender)
    → length (fan_out capacity event m) ≤ length m
unfolding fan_out
length-fan_out-le capacity event [] = omega arith
length-fan_out-le capacity event ((id, s) ∷ rest) =
    ground (arith, length-fan_out-le capacity event rest)

pub pump_chunk-Keeps :
    (limit : ℕ) (tm : TerminalModel) (capacity : ℕ) (rt : Runtime tm.Screen) (chunk : Bytes)
    → Keeps limit rt (pump_chunk tm capacity rt chunk)
unfolding pump_chunk
pump_chunk-Keeps limit tm capacity rt chunk = record {
  sound = λ s. record {
    remembered = s.remembered;
    attached = omega (arith, s.attached, length-fan_out-le capacity (output chunk) rt.attachments);
    recorded = s.recorded;
  };
  stays_exited = λ s e. e;
}

pub pump_eof-Keeps :
    {S : Type 0} (limit : ℕ) (capacity : ℕ) (rt : Runtime S) (waited : Option ExitSummary)
    → Keeps limit rt (pump_eof capacity rt waited).0
unfolding pump_eof is_exited
pump_eof-Keeps limit capacity rt waited = record {
  sound = λ s. record {
    remembered = s.remembered;
    attached = omega arith;
    recorded = λ e. ground arith;
  };
  stays_exited = λ s e. refl;
}
