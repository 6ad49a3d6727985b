-- ===== src/Forwarding/Examples.antt =====
-- One user's forward, and a forward that has just connected.
use holdfast.Base.{Bytes, text, ℕ, ◌≤◌, ◌≡◌, refl, Bool, true, false, some, [], ◌∷◌}
use holdfast.Base.Map
use holdfast.Base.Map.{bytes_key}
use holdfast.Permits.Upload.Accounting.{held_by}
use holdfast.Forwarding.{
  ForwardService, total, active_of, acquire, valid_destination, strip_dot, split_dots, on_head,
  ends_well, starts_well, valid_label,
}
use holdfast.Forwarding.Accounting
use holdfast.Forwarding.Accounting.{forwards_accurate}
use holdfast.Forwarding.Binding.{spawn, offer_input, offer_ack}
use holdfast.Forwarding.Task
use holdfast.Forwarding.Task.{Forward, spawned, connected, input_fits, acks_fit, forward_flow}

abbrev idle : ForwardService
idle = record { users = text "bob" ∷ []; active = [] }

granted : (acquire idle (text "bob")).1 ≡ some (text "bob")
unfolding acquire total active_of Map.get
granted = refl

abbrev one_forward : ForwardService
one_forward = (acquire idle (text "bob")).0

forwards_accurate_example :
    (total one_forward.active ≡ 1)
    × (active_of one_forward.active (text "bob") ≡ held_by (text "bob") (text "bob" ∷ []))
    × (1 ≤ 128)
    × (held_by (text "bob") (text "bob" ∷ []) ≤ 32)
forwards_accurate_example =
    forwards_accurate (text "bob" ∷ []) one_forward (text "bob" ∷ []) (text "bob")
      (Accounting.acquired idle [] (text "bob") Accounting.idle granted)

abbrev running : Forward
running = record {
  binding = record spawned.binding { input_ready = true };
  upstream = Task.awaiting_input;
  downstream = Task.reading;
}

reached : Task.Reachable running
unfolding spawned
reached = Task.further spawned running Task.initial (connected refl refl)

forward_flow_example :
    ((offer_input running.binding (some (text "x"))).1 ≡ true)
    × ((offer_ack running.binding).1 ≡ false)
    × (input_fits running.binding running.upstream ≡ true)
    × (acks_fit running.binding running.downstream ≡ true)
unfolding spawned spawn
forward_flow_example = forward_flow running (some (text "x")) reached

abbrev to_host : Bytes → ℕ → Bool
to_host host port = valid_destination (λ h. false) host port

-- A name with a final dot, an empty label, a label that ends in a hyphen, and port 0.
destinations :
    (to_host (text "a-1.net.") 80 ≡ true)
    × (to_host (text "a..net") 80 ≡ false)
    × (to_host (text "a-.net") 80 ≡ false)
    × (to_host (text "a.net") 0 ≡ false)
unfolding valid_destination valid_label strip_dot split_dots on_head ends_well starts_well
destinations = (refl, refl, refl, refl)
