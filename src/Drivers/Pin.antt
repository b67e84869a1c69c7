-- ===== src/Drivers/Pin.antt =====
-- firmware/main.cpp: the pin of the contact over the rounds of the main loop, with the drivers of
-- firmware/bsp_drivers.
use ti_am62x_evse_sdk.Prelude.{◌≡◌, refl, ap, ℕ, Bool, false, not, arith}
use ti_am62x_evse_sdk.Prelude.State.{State}
use ti_am62x_evse_sdk.Prelude.Floats.{Floats}
use ti_am62x_evse_sdk.Hal.{Command, Board, IsLawful, effect}
use ti_am62x_evse_sdk.Link.Loop.{Received, Loop, iterate, start_loop}
use ti_am62x_evse_sdk.Drivers.{
  Gpio, is_on, on, off, reset_emergency_switch, construct, Rest, Hardware, hal,
}

module _ (F : Floats) (g : Gpio) (r : Rest F.Float) where
  -- The contact is the pin.
  abbrev pub observe : Hardware F g r → Board F.Float
  observe w = record (w.told) { relay = is_on g (w.gpio) }

  pub observe-effect :
      (c : Command F.Float) (b : Board F.Float) (x : Bool)
      → record (effect c b) { relay = x } ≡ effect c (record b { relay = x })
  observe-effect (Command.push_event e) b x = refl
  observe-effect _ b x = refl

  pub not-not : (b : Bool) → b ≡ not (not b)
  not-not b = ground arith

  unfoldable pub hal-IsLawful : IsLawful (hal F g r)
  unfolding on off reset_emergency_switch
  hal-IsLawful = record {
    observe = observe;
    observe-exec = λ c w. observe-effect c w.told _;
    observe-fired = λ w. refl;
    observe-is_on = λ w. refl;
    observe-reset = λ w. refl;
    observe-signal = λ w. refl;
    observe-ticks = λ w. refl;
    is_on-relay = λ w. refl;
    observe-on = λ b w. refl;
    observe-off = λ w. ap (λ x. record (w.told) { relay = x }) (not-not _);
  }

  -- The pin is read back as it was written.
  pub record ReadsLow : Type 0 where
    pub low-read : (w : g.World) → g.out_value_read (g.write_low w) ≡ 0

  pub construct-is_on : ReadsLow → (w : g.World) → is_on g (construct g w) ≡ false
  unfolding construct off is_on
  construct-is_on f w = rw (f.low-read (g.set_dir_mode w)) refl

  -- The hardware after the constructor of the switch.
  abbrev pub boot : g.World → r.World → Board F.Float → Hardware F g r
  boot w v told = record { gpio = construct g w; rest = v; told = told }

  module _ (get_msg : State (Hardware F g r) (Received F.Float)) where
    -- The main loop after a number of rounds.
    abbrev pub rounds : ℕ → Bool → g.World → r.World → Board F.Float → ℕ → Loop F (hal F g r)
    rounds interval junk w v told n =
        iterate F (hal F g r) get_msg n (start_loop F (hal F g r) interval junk (boot w v told))
