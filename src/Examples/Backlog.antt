-- ===== src/Examples/Backlog.antt =====
-- The endpoint at concrete arrivals and polls.
use ti_am62x_evse_sdk.Prelude.{
  ◌≡◌, refl, false, Option, none, some, List, [], ◌∷◌, ◌++◌, length, ◌+◌, ◌≤◌, ℕ,
}
use ti_am62x_evse_sdk.Link.Messages.{HighToLow, heartbeat_tag}
use ti_am62x_evse_sdk.Link.Endpoint.{
  Packet, ok, timeout, corrupt_message, construct, receive_notify_cb, get_msg, recv, read_packet,
  detect,
}
use ti_am62x_evse_sdk.Link.Backlog.{
  Action, arrive, poll, arrivals, delivered, read_all, serve, overflows, serve-construct,
}

abbrev beat : HighToLow ℕ
beat = record {
  which_message = heartbeat_tag;
  set_pwm = record { state = 0; duty_cycle = 0 };
  allow_power_on = false;
}

-- One byte is a heartbeat.
abbrev pub decode_beat : List ℕ → Option (HighToLow ℕ)
decode_beat (b ∷ []) = some beat
decode_beat _ = none

abbrev pub from_linux : List ℕ → Packet
from_linux bytes = record { bytes = bytes; core_id = 0; end_point = 1024 }

abbrev actions : List Action
actions =
    poll
    ∷ arrive (from_linux (5 ∷ []))
    ∷ arrive (from_linux (1 ∷ 2 ∷ []))
    ∷ poll
    ∷ poll
    ∷ arrive (from_linux (7 ∷ []))
    ∷ []

actions_served :
    (serve decode_beat 9 actions (construct 3 4)).0 ≡ timeout ∷ ok beat ∷ corrupt_message ∷ []
unfolding serve construct receive_notify_cb get_msg recv read_packet detect
actions_served = refl

actions_peer : (serve decode_beat 9 actions (construct 3 4)).1.remote_end_point ≡ 1024
unfolding serve construct receive_notify_cb get_msg recv read_packet detect
actions_peer = refl

serve-construct_example :
    (read_all decode_beat 9 (arrivals actions)
      ≡ delivered (serve decode_beat 9 actions (construct 3 4)).0
        ++ read_all decode_beat 9 (serve decode_beat 9 actions (construct 3 4)).1.queue)
    × (length (serve decode_beat 9 actions (construct 3 4)).1.queue
        ≡ (serve decode_beat 9 actions (construct 3 4)).1.pending_msgs
          + overflows decode_beat 9 actions (construct 3 4))
    × ((serve decode_beat 9 actions (construct 3 4)).1.pending_msgs ≤ 16)
serve-construct_example = serve-construct decode_beat 9 3 4 actions
