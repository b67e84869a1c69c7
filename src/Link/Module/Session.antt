-- ===== src/Link/Module/Session.antt =====
-- The whole way of a command: board_support_ACImpl.cpp, firmware/bsp_drivers/rpmsg.cpp, firmware/main.cpp
-- and firmware/lib/iec61851_fsm.cpp.
use ti_am62x_evse_sdk.Prelude.{◌≡◌, sym, ap, ◌∙◌, ℕ, true, none, some, List, [], ◌∷◌, ◌++◌, map}
use mathlib.Core.List.{map-map}
use ti_am62x_evse_sdk.Prelude.Floats.{Floats}
use ti_am62x_evse_sdk.Hal.{Hal}
use ti_am62x_evse_sdk.Link.Codec.{Codec, IsFaithful}
use ti_am62x_evse_sdk.Link.Endpoint.{construct}
use ti_am62x_evse_sdk.Link.Backlog.{Action, arrivals, serve}
use ti_am62x_evse_sdk.Link.Fields.{high_to_low_size}
use ti_am62x_evse_sdk.Link.Loop.{Loop}
use ti_am62x_evse_sdk.Link.Delivery.{IsBounded, rounds, follow, bytes_of, rounds-serve}
use ti_am62x_evse_sdk.Link.Module.{
  CharDevice, Module, BoardCommand, is_written, init, handle_commands,
}
use ti_am62x_evse_sdk.Link.Module.Startup.{IsDevice, opened, init-takes}
use ti_am62x_evse_sdk.Link.Module.Sending.{requests, packets_of, sent-handle_commands}

module _ (F : Floats) (h : Hal F.Float) (c : Codec F.Float) (f : IsFaithful c) (b : IsBounded c)
    (d : CharDevice) (l : IsDevice d) where
  open l use {sent}

  -- The module after `init` and the commands.
  abbrev pub session : List (BoardCommand F.Float) → Module d → Module d
  session cs m =
      handle_commands d (F.tenths 0) c.encode_command cs (init d (F.tenths 0) c.encode_command m).1

  -- Where the library opens a device that takes every packet, and the packets that the module has
  -- sent arrive at the firmware's endpoint in their order: in rounds of the main loop that poll the
  -- endpoint in any way, where waiting for a message may do anything to the hardware, the round with
  -- the first message does what a round without a message does (it is the heartbeat), and each further
  -- round with a message makes the call that the next command of the module asks for in place of
  -- handling the message; the state machine runs and the chore is done in each round. The codec gives
  -- back what was encoded and keeps the generated bound.
  pub rounds-session :
      (m : Module d) (fd : ℕ) (cs : List (BoardCommand F.Float)) (core end_point : ℕ)
      (acts : List Action) (wait : h.World → h.World) (x : Loop F h)
      → ((bytes : List ℕ) (w : d.World) → is_written bytes (d.write fd bytes w).0 ≡ true)
      → opened d m.device ≡ some fd
      → sent m.device ≡ []
      → map (λ p. p.bytes) (arrivals acts) ≡ sent (session cs m).device
      → rounds F h wait
          (serve c.decode_command high_to_low_size acts (construct core end_point)).0
          x
        ≡ follow F h wait
            (serve c.decode_command high_to_low_size acts (construct core end_point)).0
            (none ∷ map some (requests cs))
            x
  rounds-session m fd cs core end_point acts wait x takes e clean arrived =
      rounds-serve F h c f b wait core end_point acts (none ∷ map some (requests cs)) x
        (arrived ∙ sent-session)
    where
      linked :
          ((init d (F.tenths 0) c.encode_command m).1.rpmsg_ep ≡ some fd)
          × (sent (init d (F.tenths 0) c.encode_command m).1.device
              ≡ sent m.device ++ (bytes_of F h c f b none ∷ []))
      linked = init-takes d (F.tenths 0) c.encode_command l m fd takes e

      sent-session :
          sent (session cs m).device ≡ map (bytes_of F h c f b) (none ∷ map some (requests cs))
      sent-session =
          sent-handle_commands F d c.encode_command l fd takes cs
            (init d (F.tenths 0) c.encode_command m).1 linked.0
          ∙ ap (λ s. s ++ packets_of F d c.encode_command l (requests cs)) linked.1
          ∙ rw clean (
              ap (λ s. bytes_of F h c f b none ∷ s)
                (sym (map-map (bytes_of F h c f b) some (requests cs))))
