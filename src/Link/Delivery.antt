-- ===== src/Link/Delivery.antt =====
-- board_support_ACImpl.cpp, firmware/bsp_drivers/rpmsg.cpp and firmware/main.cpp: the commands of the
-- module, through both ends of the link, at the state machine.
use ti_am62x_evse_sdk.Prelude.{
  ◌≡◌, refl, sym, ap, ◌∙◌, ◌≤◌, ℕ, arith, Option, none, some, List, [], ◌∷◌, ◌++◌, map, length,
  take, take_long,
}
use mathlib.Core.List.{map-map}
use ti_am62x_evse_sdk.Prelude.State.{pure}
use ti_am62x_evse_sdk.Prelude.Floats.{Floats}
use ti_am62x_evse_sdk.Hal.{Hal}
use ti_am62x_evse_sdk.Fsm.Types.{Machine}
use ti_am62x_evse_sdk.Fsm.Defs.{Method}
use ti_am62x_evse_sdk.Link.Messages.{HighToLow}
use ti_am62x_evse_sdk.Link.Fields.{high_to_low_size}
use ti_am62x_evse_sdk.Link.Codec.{Codec, IsCommand, IsFaithful, Agrees}
use ti_am62x_evse_sdk.Link.Firmware.{handle_incoming_message}
use ti_am62x_evse_sdk.Link.Host.{heartbeat}
use ti_am62x_evse_sdk.Link.Loop.{Received, received, Loop, handle, iteration}
use ti_am62x_evse_sdk.Link.Commands.{Request, message, message-IsCommand, direct, handled}
use ti_am62x_evse_sdk.Link.Endpoint.{Packet, Outcome, outcome, timeout, read_packet, construct}
use ti_am62x_evse_sdk.Link.Backlog.{Action, arrivals, delivered, serve, serve-construct}

-- No encoding is longer than the generated bound.
pub record IsBounded {A : Type 0} (c : Codec A) : Type 0 where
  pub command_size :
      (m : HighToLow A) → IsCommand m → length (c.encode_command m) ≤ high_to_low_size

module _ (F : Floats) (h : Hal F.Float) where
  -- A round of the main loop in which `get_msg` returns this; `wait` is what it does to the hardware.
  unfoldable pub round : (h.World → h.World) → Received F.Float → Loop F h → Loop F h
  round wait r = iteration F h (λ w. (r, wait w))

  -- The rounds of the main loop over the outcomes of `get_msg`.
  unfoldable pub rounds : (h.World → h.World) → List (Outcome F.Float) → Loop F h → Loop F h
  rounds wait [] l = l
  rounds wait (o ∷ os) l = rounds wait os (round wait (received o) l)

  -- What a message of the module asks for: `none` is the heartbeat.
  abbrev pub work : Option (Request F.Float) → Method F h (Unit {0})
  work none = pure tt
  work (some r) = direct F h r

  -- A round without a message, in which the work is done where the message would be handled.
  unfoldable pub serving : (h.World → h.World) → Option (Request F.Float) → Loop F h → Loop F h
  serving wait q l =
      let m = (work q (record (l.machine) { hal = wait l.machine.hal })).1 in
      iteration F h (λ w. (Received.timeout, w)) (record l { machine = m })

  -- The same rounds where a round that finds a message does the next piece of work.
  unfoldable pub follow :
      (h.World → h.World)
      → List (Outcome F.Float)
      → List (Option (Request F.Float))
      → Loop F h
      → Loop F h
  follow wait [] ws l = l
  follow wait (timeout ∷ os) ws l = follow wait os ws (round wait Received.timeout l)
  follow wait (o ∷ os) [] l = l
  follow wait (o ∷ os) (w ∷ ws) l = follow wait os ws (serving wait w l)

  abbrev pub message_of : Option (Request F.Float) → HighToLow F.Float
  message_of none = heartbeat (F.tenths 0)
  message_of (some r) = message F r

  module _ (c : Codec F.Float) (f : IsFaithful c) (b : IsBounded c) where
    -- The packet of a piece of work, and what the firmware reads of it.
    abbrev pub bytes_of : Option (Request F.Float) → List ℕ
    bytes_of w = c.encode_command (message_of w)

    abbrev pub read : List ℕ → Outcome F.Float
    read bytes = outcome (c.decode_command (take high_to_low_size bytes))

    handled-work :
        (w : Option (Request F.Float)) (n : HighToLow F.Float) (m : Machine F.Float h)
        → Agrees (message_of w) n
        → handle_incoming_message F h n m ≡ work w m
    unfolding handle_incoming_message heartbeat
    handled-work none n m g = rw g.tag refl
    handled-work (some r) n m g = handled F h r n m g

    message_of-IsCommand : (w : Option (Request F.Float)) → IsCommand (message_of w)
    unfolding heartbeat
    message_of-IsCommand none = record {
      tag_first = omega arith;
      tag_last = omega arith;
      state = omega arith;
    }
    message_of-IsCommand (some r) = message-IsCommand F r

    round-handled :
        (wait : h.World → h.World) (w : Option (Request F.Float)) (n : HighToLow F.Float)
        (l : Loop F h)
        → Agrees (message_of w) n
        → round wait (Received.ok n) l ≡ serving wait w l
    unfolding round serving iteration handle
    round-handled wait w n l g =
        ap (λ x. iteration F h (λ v. (Received.timeout, v)) (record l { machine = x.1 }))
          (handled-work w n (record (l.machine) { hal = wait l.machine.hal }) g)

    round-read :
        (wait : h.World → h.World) (w : Option (Request F.Float)) (l : Loop F h)
        → round wait (received (read (bytes_of w))) l ≡ serving wait w l
    round-read wait w l =
        let (n, back, agrees) = f.command_back (message_of w) (message_of-IsCommand w) in
        rw
          (
            take_long high_to_low_size (bytes_of w)
                (b.command_size (message_of w) (message_of-IsCommand w)),
            back,
          )
          (round-handled wait w n l agrees)

    rounds-follow :
        (wait : h.World → h.World) (os : List (Outcome F.Float))
        (ws : List (Option (Request F.Float))) (rest : List (Outcome F.Float)) (l : Loop F h)
        → map read (map bytes_of ws) ≡ delivered os ++ rest
        → rounds wait os l ≡ follow wait os ws l
    unfolding rounds follow
    rounds-follow wait [] ws rest l e = refl
    rounds-follow wait (timeout ∷ os) ws rest l e = rounds-follow wait os ws rest _ e
    rounds-follow wait (o ∷ os) [] rest l e = absurd (cc)
    rounds-follow wait (o ∷ os) (w ∷ ws) rest l e =
        let same : read (bytes_of w) ≡ o = cc in
        let left : map read (map bytes_of ws) ≡ delivered os ++ rest = cc in
        ap (λ x. rounds wait os (round wait (received x) l)) (sym same)
        ∙ ap (rounds wait os) (round-read wait w l)
        ∙ rounds-follow wait os ws rest _ left

    -- The packets of a sequence of work arrive at a new endpoint in that order, and the endpoint is
    -- polled between the arrivals in any way, once in each round of the main loop: then the rounds do
    -- that work in that order, a round with a message the next piece of it in place of handling the
    -- message, and are otherwise as without one. Waiting for a message may do anything to the hardware.
    -- The codec gives back what was encoded and keeps the generated bound.
    pub rounds-serve :
        (wait : h.World → h.World) (core end_point : ℕ) (acts : List Action)
        (ws : List (Option (Request F.Float))) (l : Loop F h)
        → map (λ p. p.bytes) (arrivals acts) ≡ map bytes_of ws
        → rounds wait (serve c.decode_command high_to_low_size acts (construct core end_point)).0 l
          ≡ follow wait
              (serve c.decode_command high_to_low_size acts (construct core end_point)).0
              ws
              l
    unfolding read_packet
    rounds-serve wait core end_point acts ws l e =
        rounds-follow wait
          (serve c.decode_command high_to_low_size acts (construct core end_point)).0 ws _ l
          (ap (map read) (sym e)
            ∙ map-map read (λ (p : Packet). p.bytes) (arrivals acts)
            ∙ (serve-construct c.decode_command high_to_low_size core end_point acts).0)
