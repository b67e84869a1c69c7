-- ===== src/Examples/Peer.antt =====
-- The endpoint that sends an event too early, and to its first peer after a second one wrote.
use ti_am62x_evse_sdk.Prelude.{◌≡◌, refl, true, ℕ, List, [], ◌∷◌}
use ti_am62x_evse_sdk.Link.Messages.{LowToHigh, event_tag}
use ti_am62x_evse_sdk.Link.Endpoint.{construct}
use ti_am62x_evse_sdk.Link.Peer.{
  Action, arrive, poll, send, act_all, follow_all, follow, nobody, outgoing-follow,
}
use ti_am62x_evse_sdk.Examples.Backlog.{decode_beat, from_linux}

abbrev event : ℕ → LowToHigh
event n = record { which_message = event_tag; event = n }

abbrev encode_event : LowToHigh → List ℕ
encode_event m = m.event ∷ []

abbrev actions : List Action
actions =
    arrive (from_linux (5 ∷ []))
    ∷ send true (event 1)
    ∷ poll
    ∷ arrive (record { bytes = 7 ∷ []; core_id = 2; end_point = 9 })
    ∷ poll
    ∷ send true (event 2)
    ∷ []

actions_out : (follow_all decode_beat 9 encode_event actions nobody).out ≡ (1024, 2 ∷ []) ∷ []
unfolding follow_all follow
actions_out = refl

outgoing-follow_example :
    (act_all decode_beat 9 encode_event actions (construct 3 4)).outgoing
    ≡ (follow_all decode_beat 9 encode_event actions nobody).out
outgoing-follow_example = outgoing-follow decode_beat 9 encode_event actions 3 4
