-- ===== src/Examples/Messages.antt =====
-- The link at concrete messages, with a codec that writes the fields one after the other.
use ti_am62x_evse_sdk.Prelude.{
  ℕ, ◌≡◌, refl, Bool, true, false, Option, none, some, List, [], ◌∷◌, zero, suc, sym,
}
use ti_am62x_evse_sdk.Hal.{Event}
use ti_am62x_evse_sdk.Fsm.Defs.{set_pwm_on}
use ti_am62x_evse_sdk.Link.Messages.{HighToLow, LowToHigh}
use ti_am62x_evse_sdk.Link.Codec.{Agrees, Codec, IsFaithful}
use ti_am62x_evse_sdk.Link.Firmware.{to_wire, event_message, handle_incoming_message}
use ti_am62x_evse_sdk.Link.Host.{BoardEvent, packet, receive, handle_pwm_on}
use ti_am62x_evse_sdk.Link.Names.{quiet, sent, corrupt, receive-Feed}
use ti_am62x_evse_sdk.Link.Commands.{Request, handle-message}
use ti_am62x_evse_sdk.Examples.Bench.{fixed, bench, asking}

abbrev pub bit : Bool → ℕ
bit true = 1
bit false = 0

abbrev pub plain_command : List ℕ → Option (HighToLow ℕ)
plain_command (t ∷ s ∷ d ∷ zero ∷ []) = some (record {
  which_message = t;
  set_pwm = record { state = s; duty_cycle = d };
  allow_power_on = false;
})
plain_command (t ∷ s ∷ d ∷ suc k ∷ []) = some (record {
  which_message = t;
  set_pwm = record { state = s; duty_cycle = d };
  allow_power_on = true;
})
plain_command _ = none

abbrev pub plain_event : List ℕ → Option LowToHigh
plain_event (t ∷ e ∷ []) = some (record { which_message = t; event = e })
plain_event _ = none

abbrev pub plain : Codec ℕ
plain = record {
  encode_command =
      λ m. m.which_message ∷ m.set_pwm.state ∷ m.set_pwm.duty_cycle ∷ bit m.allow_power_on ∷ [];
  decode_command = plain_command;
  encode_event = λ m. m.which_message ∷ m.event ∷ [];
  decode_event = plain_event;
}

plain_back :
    (m : HighToLow ℕ) (b : Bool)
    → m.allow_power_on ≡ b
    → (n : HighToLow ℕ) × (plain_command
          (m.which_message ∷ m.set_pwm.state ∷ m.set_pwm.duty_cycle ∷ bit b ∷ [])
        ≡ some n)
      × Agrees m n
plain_back m true e = (_, refl, record { tag = refl; pwm = λ _. refl; allow = λ _. sym e })
plain_back m false e = (_, refl, record { tag = refl; pwm = λ _. refl; allow = λ _. sym e })

pub plain-IsFaithful : IsFaithful plain
plain-IsFaithful = record {
  command_back = λ m i. plain_back m m.allow_power_on refl;
  event_back = λ m t. refl;
  event_nonempty = λ m i e. cc;
}

-- A plug-in, a spoilt packet, and an error.
receive-Feed_example :
    receive plain_event (packet (1 ∷ 0 ∷ []) ∷ packet (9 ∷ []) ∷ packet (1 ∷ 6 ∷ []) ∷ [])
    ≡ BoardEvent.car_plugged_in ∷ BoardEvent.error_e ∷ []
unfolding event_message to_wire
receive-Feed_example =
    receive-Feed plain plain-IsFaithful
      (sent Event.car_plugged_in (corrupt (9 ∷ []) (λ e. cc) refl (sent Event.error_e quiet)))

handle-message_example :
    (n : HighToLow ℕ) × (plain_command (1 ∷ 0 ∷ 1002 ∷ 0 ∷ []) ≡ some n)
    × (handle_incoming_message fixed bench n asking ≡ set_pwm_on fixed bench 1002 asking)
unfolding handle_pwm_on
handle-message_example =
    handle-message fixed bench plain plain-IsFaithful (Request.pwm_on 1002) asking
