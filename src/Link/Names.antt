-- ===== src/Link/Names.antt =====
-- firmware/main.cpp `push_event` and board_support_ACImpl.cpp `handle_low_to_high_message`: an event
-- of the state machine arrives under its own name.
use ti_am62x_evse_sdk.Prelude.{ℕ, ◌≡◌, refl, ◌≢◌, ap, ◌∙◌, none, some, List, [], ◌∷◌, map, arith}
use ti_am62x_evse_sdk.Hal.{Event}
use ti_am62x_evse_sdk.Link.Messages.{LowToHigh, mcu_heartbeat_tag}
use ti_am62x_evse_sdk.Link.Codec.{Codec, IsEvent, IsFaithful}
use ti_am62x_evse_sdk.Link.Firmware.{to_wire, event_message}
use ti_am62x_evse_sdk.Link.Host.{
  BoardEvent, of_wire, handle_low_to_high_message, Read, packet, publish, handle_decoded, receive,
}

-- The constant of EVerest with the same name.
abbrev pub board_name : Event → BoardEvent
board_name Event.car_plugged_in = BoardEvent.car_plugged_in
board_name Event.car_requested_power = BoardEvent.car_requested_power
board_name Event.power_on = BoardEvent.power_on
board_name Event.power_off = BoardEvent.power_off
board_name Event.car_requested_stop_power = BoardEvent.car_requested_stop_power
board_name Event.car_unplugged = BoardEvent.car_unplugged
board_name Event.error_e = BoardEvent.error_e
board_name Event.error_df = BoardEvent.error_df
board_name Event.error_relais = BoardEvent.error_relais
board_name Event.error_rcd = BoardEvent.error_rcd
board_name Event.error_ventilation_not_available = BoardEvent.error_ventilation_not_available
board_name Event.error_over_current = BoardEvent.error_over_current
board_name Event.ef_to_bcd = BoardEvent.ef_to_bcd
board_name Event.bcd_to_ef = BoardEvent.bcd_to_ef
board_name Event.permanent_fault = BoardEvent.permanent_fault
board_name Event.evse_replug_started = BoardEvent.evse_replug_started
board_name Event.evse_replug_finished = BoardEvent.evse_replug_finished

of_wire-to_wire : (e : Event) → of_wire (to_wire e) ≡ board_name e
unfolding of_wire to_wire
of_wire-to_wire Event.car_plugged_in = refl
of_wire-to_wire _ = refl

event_message-IsEvent : (e : Event) → IsEvent (event_message e)
unfolding event_message to_wire
event_message-IsEvent Event.car_plugged_in = record { tag = refl; event = omega arith }
event_message-IsEvent _ = record { tag = refl; event = omega arith }

module _ {A : Type 0} (c : Codec A) (f : IsFaithful c) where
  -- What the device returns where it has a packet for each event of `es`, in order, and between them
  -- only heartbeats and packets that cannot be decoded.
  pub data Feed : List Read → List Event → Type 0 where
    quiet : Feed [] []
    sent :
        {rs : List Read} {es : List Event} (e : Event)
        → Feed rs es
        → Feed (packet (c.encode_event (event_message e)) ∷ rs) (e ∷ es)
    corrupt :
        {rs : List Read} {es : List Event} (bytes : List ℕ)
        → bytes ≢ []
        → c.decode_event bytes ≡ none
        → Feed rs es
        → Feed (packet bytes ∷ rs) es
    heartbeat :
        {rs : List Read} {es : List Event} (bytes : List ℕ) (msg : LowToHigh)
        → bytes ≢ []
        → c.decode_event bytes ≡ some msg
        → msg.which_message ≡ mcu_heartbeat_tag
        → Feed rs es
        → Feed (packet bytes ∷ rs) es

  receive-packet :
      (bytes : List ℕ) (rs : List Read)
      → bytes ≢ []
      → receive c.decode_event (packet bytes ∷ rs)
        ≡ publish (handle_decoded (c.decode_event bytes)) (receive c.decode_event rs)
  unfolding receive
  receive-packet [] rs h = absurd (h refl)
  receive-packet (x ∷ bytes) rs h = refl

  packet-event :
      (e : Event)
      → handle_decoded (c.decode_event (c.encode_event (event_message e))) ≡ some (board_name e)
  unfolding handle_decoded handle_low_to_high_message event_message
  packet-event e =
      ap handle_decoded (f.event_back (event_message e) (event_message-IsEvent e))
      ∙ ap some (of_wire-to_wire e)

  packet-heartbeat :
      (msg : LowToHigh) → msg.which_message ≡ mcu_heartbeat_tag → handle_decoded (some msg) ≡ none
  unfolding handle_decoded handle_low_to_high_message
  packet-heartbeat msg tag = ground arith

  packet_none : handle_decoded none ≡ none
  unfolding handle_decoded
  packet_none = refl

  skip :
      (bytes : List ℕ) (rs : List Read)
      → bytes ≢ []
      → handle_decoded (c.decode_event bytes) ≡ none
      → receive c.decode_event (packet bytes ∷ rs) ≡ receive c.decode_event rs
  skip bytes rs ne e =
      receive-packet bytes rs ne ∙ ap (λ o. publish o (receive c.decode_event rs)) e

  -- Where the device returns a packet for each event of a sequence, in order, with only heartbeats and
  -- packets that cannot be decoded between them, the module publishes exactly the events of the
  -- sequence, in order and each under the name that the state machine has for it. The codec must give
  -- back what was encoded, and encode no event as the empty packet.
  pub receive-Feed :
      {rs : List Read} {es : List Event}
      → Feed rs es
      → receive c.decode_event rs ≡ map board_name es
  receive-Feed quiet = unfold receive in refl
  receive-Feed (sent {rs} e d) =
      receive-packet _ rs (f.event_nonempty (event_message e) (event_message-IsEvent e))
      ∙ ap (λ o. publish o (receive c.decode_event rs)) (packet-event e)
      ∙ ap (λ l. board_name e ∷ l) (receive-Feed d)
  receive-Feed (corrupt {rs} bytes ne bad d) =
      skip bytes rs ne (ap handle_decoded bad ∙ packet_none) ∙ receive-Feed d
  receive-Feed (heartbeat {rs} bytes msg ne good tag d) =
      skip bytes rs ne (ap handle_decoded good ∙ packet-heartbeat msg tag) ∙ receive-Feed d
