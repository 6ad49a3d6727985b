-- ===== src/Session/Pump/Delivery.antt =====
-- What the pump delivers, and to whom.
use holdfast.Base.{
  ltb, ==_iff, Bool-cases, Option-cases, Bytes, length, length-append, ℕ, ◌≤◌, ◌<◌, ◌≡◌, refl, ◌⊎◌,
  inl, inr, true, false, ◌&&◌, Option, none, some, [], ◌∷◌, ◌++◌, arith,
}
use holdfast.Base.Map
use holdfast.Base.Map.{Map, nat_key}
use holdfast.Base.Map.Unique.{IsUnique, Lacks, Lacks-get}
use holdfast.Session.Types.{TerminalModel, AttachmentEvent, Sender, Runtime, output}
use holdfast.Session.Pump.{try_send, fan_out, pump_chunk}

Lacks-fan_out :
    (capacity : ℕ) (event : AttachmentEvent) (m : Map ℕ Sender) (id : ℕ)
    → Lacks id m
    → Lacks id (fan_out capacity event m)
unfolding fan_out
Lacks-fan_out capacity event [] id h = tt
Lacks-fan_out capacity event ((j, s) ∷ rest) id h =
    elim (Option-cases (try_send capacity s event)) [
      | inl full ↦ rw (full, fan_out) (Lacks-fan_out capacity event rest id h.1)
      | inr (s', room) ↦ rw (room, fan_out) (h.0, Lacks-fan_out capacity event rest id h.1)
    ]

-- What becomes of an attachment.
abbrev sent : ℕ → AttachmentEvent → Option Sender → Option Sender
sent capacity event none = none
sent capacity event (some s) = try_send capacity s event

get-fan_out :
    (capacity : ℕ) (event : AttachmentEvent) (m : Map ℕ Sender) (id : ℕ)
    → IsUnique m
    → Map.get (fan_out capacity event m) id ≡ sent capacity event (Map.get m id)
unfolding fan_out Map.get
get-fan_out capacity event [] id u = refl
get-fan_out capacity event ((j, s) ∷ rest) id u = ground (
  arith,
  get-fan_out capacity event rest id u.1,
  ==_iff j id,
  Lacks-get (fan_out capacity event rest) j (Lacks-fan_out capacity event rest j u.0),
)

-- A chunk reaches every attachment whose client is there and whose queue has room, behind what is queued,
-- and the queue stays within its capacity. An attachment that is disconnected or too slow is detached,
-- and nothing is ever queued to another.
pub pump_chunk_delivers :
    (tm : TerminalModel) (capacity : ℕ) (rt : Runtime tm.Screen) (chunk : Bytes) (id : ℕ)
    (s : Sender)
    → IsUnique rt.attachments
    → Map.get rt.attachments id ≡ some s
    → ((s.connected ≡ true)
        × (length s.queued < capacity)
        × (Map.get (pump_chunk tm capacity rt chunk).attachments id
            ≡ some (record { queued = s.queued ++ output chunk ∷ []; connected = true }))
        × (length (s.queued ++ output chunk ∷ []) ≤ capacity))
      ⊎ (((s.connected ≡ false) ⊎ (capacity ≤ length s.queued))
          × (Map.get (pump_chunk tm capacity rt chunk).attachments id ≡ none))
unfolding pump_chunk try_send
pump_chunk_delivers tm capacity rt chunk id s u found =
    let at = get-fan_out capacity (output chunk) rt.attachments id u in
    elim (Bool-cases (s.connected && ltb (length s.queued) capacity)) [
      | inl room ↦ inl (
        ground (arith, room),
        ground (arith, room),
        ground (arith, room, at, found),
        ground (arith, room, length-append s.queued (output chunk ∷ [])),
      )
      | inr full ↦ inr (
        elim (Bool-cases s.connected) [ inl a ↦ inr (ground (arith, a, full)) | inr b ↦ inl b ],
        ground (arith, full, at, found),
      )
    ]
