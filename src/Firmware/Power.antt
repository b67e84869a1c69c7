-- ===== src/Firmware/Power.antt =====
-- firmware: the pin of the contact over the rounds of the main loop, from the start of the main task to the
-- samples behind it.
use ti_am62x_evse_sdk.Prelude.{
  ◌⊎◌, ◌<◌, ◌≡◌, refl, sym, ap, ◌∙◌, ℕ, Bool, true, false, ltb, Bool-cases, inl, inr,
}
use ti_am62x_evse_sdk.Prelude.Word.{sub32}
use ti_am62x_evse_sdk.Prelude.Floats.{Floats}
use ti_am62x_evse_sdk.Hal.{CpSignal}
use ti_am62x_evse_sdk.Fsm.Types.{Machine}
use ti_am62x_evse_sdk.Fsm.Run.{run}
use ti_am62x_evse_sdk.Sampler.Steps.{IsU16Burst}
use ti_am62x_evse_sdk.Link.Codec.{Codec}
use ti_am62x_evse_sdk.Link.Loop.{Loop, handle, chore, iteration}
use ti_am62x_evse_sdk.Link.Access.{handle-kept}
use ti_am62x_evse_sdk.Drivers.{Gpio, Rest, Hardware, hal, is_on}
use ti_am62x_evse_sdk.Drivers.Pin.{ReadsLow, observe}
use ti_am62x_evse_sdk.Boot.Rounds.{iterate-main_task}
use ti_am62x_evse_sdk.Fsm.Opening.{failures}
use ti_am62x_evse_sdk.Fsm.Safety.{is_charging}
use ti_am62x_evse_sdk.Boot.{looping, main_task}
use ti_am62x_evse_sdk.Firmware.{parts, wait_msg, Startup, boot_calls}
use ti_am62x_evse_sdk.Firmware.Reach.{Sound}
use ti_am62x_evse_sdk.Firmware.Whole.{rounds, rounds-Sound, wait_msg-Sound, Sound-IsKept}
use ti_am62x_evse_sdk.Firmware.Closing.{IsUnwritten, Justified, closing-Justified}

module _ (F : Floats) (period ticks_per_ms : ℕ) (c : Codec F.Float) (junk : CpSignal F.Float)
    (size : ℕ) (u : Startup) (g : Gpio) where
  abbrev drivers : Rest F.Float
  drivers = parts F period ticks_per_ms c junk size

  -- The log message of the main loop does not touch the pin.
  chore-gpio :
      (interval t : ℕ) (w : Hardware F g drivers)
      → (chore F (hal F g drivers) interval t w).1.gpio ≡ w.gpio
  unfolding chore
  chore-gpio interval t w =
      elim (Bool-cases (ltb interval (sub32 ((hal F g drivers).get_current_ticks w).0 t))) [
        | inl e ↦ simp e refl
        | inr e ↦ simp e refl
      ]

  -- The next round, and the machine in it after the message: the run of the state machine comes next.
  abbrev pub next : Loop F (hal F g drivers) → Loop F (hal F g drivers)
  next = iteration F (hal F g drivers) (wait_msg F period ticks_per_ms c junk size g)

  abbrev pub asked : Loop F (hal F g drivers) → Machine F.Float (hal F g drivers)
  asked l =
      let received = wait_msg F period ticks_per_ms c junk size g l.machine.hal in
      handle F (hal F g drivers) received.0 (record (l.machine) { hal = received.1 })

  asked-Sound :
      (l : Loop F (hal F g drivers)) → Sound u l.machine.hal.rest → Sound u (asked l).hal.rest
  asked-Sound l s =
      let received = wait_msg F period ticks_per_ms c junk size g l.machine.hal in
      handle-kept F (hal F g drivers) (Sound-IsKept F period ticks_per_ms c junk size u g)
        received.0 (record (l.machine) { hal = received.1 })
        (wait_msg-Sound F period ticks_per_ms c junk size u g l.machine.hal s)

  next-gpio :
      (l : Loop F (hal F g drivers))
      → (next l).machine.hal.gpio ≡ (run F (hal F g drivers) (asked l)).1.hal.gpio
  unfolding iteration
  next-gpio l =
      chore-gpio l.chore_interval_ticks l.last_chore_ts (run F (hal F g drivers) (asked l)).1.hal

  -- From the start of the main task on, and however packets, interrupts, transfers and the sampling task
  -- come between the accesses of the main task: if after any number of rounds the next one turns the pin
  -- of the contact from low to high, then one of two things holds when its run reads the signal. Either
  -- the raw signal of the sampler is still the one that its memory held before the constructor, and that
  -- one is marked as valid. Or both parts of the pilot signal are steady (ten samples have come, and at
  -- most one of the last ten is off their mean by more than 400); the voltages of the two means are
  -- decoded as the state that the round leaves; and that is C, or D with ventilation, while the PWM runs
  -- and power is allowed. The memory of the ADC buffers holds words of 16 bits, and the firmware has not
  -- halted before the start.
  pub rounds-closing :
      (b : Bool) (w : Hardware F g drivers) (l : Loop F (hal F g drivers)) (n : ℕ)
      → w.rest.halted ≡ false
      → main_task F g drivers (boot_calls F period ticks_per_ms c junk size u) b w ≡ looping l
      → IsU16Burst u.high_junk
      → IsU16Burst u.low_junk
      → is_on g (asked (rounds F period ticks_per_ms c junk size u g n l)).hal.gpio ≡ false
      → is_on g (next (rounds F period ticks_per_ms c junk size u g n l)).machine.hal.gpio ≡ true
      → IsUnwritten F period ticks_per_ms c junk size u g
          (asked (rounds F period ticks_per_ms c junk size u g n l))
        ⊎ Justified F period ticks_per_ms c junk size u g
            (asked (rounds F period ticks_per_ms c junk size u g n l))
  rounds-closing b w l n h started hh hl off on =
      let k = rounds F period ticks_per_ms c junk size u g n l in
      closing-Justified F period ticks_per_ms c junk size u g (asked k) hh hl
        (asked-Sound k (rounds-Sound F period ticks_per_ms c junk size u g b w l n h started)) off
        (ap (is_on g) (sym (next-gpio k)) ∙ on)

  wait_msg-observe :
      (w : Hardware F g drivers)
      → observe F g drivers (wait_msg F period ticks_per_ms c junk size g w).1
        ≡ observe F g drivers w
  unfolding wait_msg
  wait_msg-observe w = refl

  -- From the start of the main task on, with all the drivers of the firmware, on a pin that reads as low once
  -- it was written low, and whatever happens between the accesses of the main task: after any number of
  -- rounds, if the pin of the contact reads as high, the last state that the state machine went through is C
  -- or D, or a failure of the relay was reported; however the pin stood at first.
  pub rounds-guarded :
      (f : ReadsLow F g drivers) (b : Bool) (w : Hardware F g drivers)
      (l : Loop F (hal F g drivers)) (n : ℕ)
      → main_task F g drivers (boot_calls F period ticks_per_ms c junk size u) b w ≡ looping l
      → is_on g (rounds F period ticks_per_ms c junk size u g n l).machine.hal.gpio ≡ true
      → (is_charging (rounds F period ticks_per_ms c junk size u g n l).machine.fsm.prev_state
          ≡ true)
        ⊎ (0 < failures (rounds F period ticks_per_ms c junk size u g n l).machine.hal.told.sent)
  rounds-guarded =
      iterate-main_task F g drivers (boot_calls F period ticks_per_ms c junk size u)
        (wait_msg F period ticks_per_ms c junk size g) wait_msg-observe
