-- ===== src/Firmware/Reporting.antt =====
-- firmware and everest-module: the events of the state machine from the main loop to what the module
-- publishes.
use ti_am62x_evse_sdk.Prelude.{◌≡◌, ◌++◌, ℕ, true, List, [], ◌∷◌, map}
use mathlib.Core.List.{reverse, reverse_aux}
use ti_am62x_evse_sdk.Prelude.Floats.{Floats}
use ti_am62x_evse_sdk.Hal.{Event, CpSignal}
use ti_am62x_evse_sdk.Link.Codec.{Codec, IsFaithful}
use ti_am62x_evse_sdk.Link.Host.{Read, packet, receive}
use ti_am62x_evse_sdk.Link.Names.{board_name, Feed, quiet, sent, receive-Feed}
use ti_am62x_evse_sdk.Link.Loop.{Loop, iterate}
use ti_am62x_evse_sdk.Drivers.{Gpio, hal}
use ti_am62x_evse_sdk.Firmware.{parts, wait_msg}
use ti_am62x_evse_sdk.Firmware.Sending.{hand, rounds-Relays}

-- What the device returns where it delivers packets unharmed.
abbrev pub as_read : ℕ × List ℕ → Read
as_read p = packet p.1

module _ {A : Type 0} (c : Codec A) (f : IsFaithful c) (remote : ℕ) where
  delivered-Feed :
      (es : List Event) (rs : List Read) (later : List Event)
      → Feed c f rs later
      → Feed c f
          (reverse_aux (map as_read (map (hand c.encode_event remote) es)) rs)
          (reverse_aux es later)
  delivered-Feed [] rs later d = d
  delivered-Feed (e ∷ es) rs later d = delivered-Feed es _ (e ∷ later) (sent e d)

module _ (F : Floats) (period ticks_per_ms : ℕ) (c : Codec F.Float) (f : IsFaithful c)
    (junk : CpSignal F.Float) (size : ℕ) (g : Gpio) where
  -- The main loop after a number of rounds.
  abbrev pub later_loop :
      ℕ
      → Loop F (hal F g (parts F period ticks_per_ms c junk size))
      → Loop F (hal F g (parts F period ticks_per_ms c junk size))
  later_loop =
      iterate F (hal F g (parts F period ticks_per_ms c junk size))
        (wait_msg F period ticks_per_ms c junk size g)

  -- From any state of the main loop on in which the endpoint knows its peer, and with a codec that gives
  -- back what was encoded: where the packets that the firmware hands to its driver over any number of
  -- rounds are what the module reads, in order, the module publishes exactly the events that the state
  -- machine reports in these rounds, in order and under the same names.
  pub rounds-receive :
      (l : Loop F (hal F g (parts F period ticks_per_ms c junk size))) (n : ℕ)
      → l.machine.hal.rest.endpoint.remote_peer_detected ≡ true
      → (es : List Event) × (packets : List (ℕ × List ℕ)) × ((later_loop n l).machine.hal.told.sent
          ≡ es ++ l.machine.hal.told.sent)
        × ((later_loop n l).machine.hal.rest.endpoint.outgoing
            ≡ packets ++ l.machine.hal.rest.endpoint.outgoing)
        × (receive c.decode_event (reverse (map as_read packets)) ≡ map board_name (reverse es))
  rounds-receive l n d =
      let r = rounds-Relays F period ticks_per_ms c junk size g l n d in
      let remote = l.machine.hal.rest.endpoint.remote_end_point in
      (
        r.0,
        map (hand c.encode_event remote) r.0,
        r.1,
        r.2,
        receive-Feed c f (delivered-Feed c f remote r.0 [] [] quiet),
      )
