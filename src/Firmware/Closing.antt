-- ===== src/Firmware/Closing.antt =====
-- firmware: from the samples of the ADC to the pin of the contact.
use ti_am62x_evse_sdk.Prelude.{
  ◌≡◌, ◌⊎◌, inl, inr, refl, sym, ap, ◌∙◌, ℕ, Bool, true, false, none, some, Bool-cases, arith,
}
use ti_am62x_evse_sdk.Prelude.Floats.{Floats}
use ti_am62x_evse_sdk.Hal.{CpSignal}
use ti_am62x_evse_sdk.Fsm.Types.{CpState, Machine}
use ti_am62x_evse_sdk.Fsm.Defs.{decode_cp_state}
use ti_am62x_evse_sdk.Fsm.Run.{run_checks, run}
use ti_am62x_evse_sdk.Fsm.Access.{run_checks-Kept}
use ti_am62x_evse_sdk.Fsm.Reading.{signal_read, closing-signal, closing-members}
use ti_am62x_evse_sdk.Fsm.Licence.{MayClose}
use ti_am62x_evse_sdk.Sampler.Device.{Sampler, to_volts, get_latest_cp_signal}
use ti_am62x_evse_sdk.Sampler.Steps.{IsU16Burst}
use ti_am62x_evse_sdk.Sampler.Signal.{Published, is_steady, mean, raw_cp_signal-Published}
use ti_am62x_evse_sdk.ControlPilot.Interrupt.{get_cp_signal}
use ti_am62x_evse_sdk.Link.Codec.{Codec}
use ti_am62x_evse_sdk.Drivers.{Gpio, Rest, hal, is_on}
use ti_am62x_evse_sdk.Drivers.Pin.{hal-IsLawful}
use ti_am62x_evse_sdk.Firmware.{Parts, elapse, read_cp_signal, parts, Startup}
use ti_am62x_evse_sdk.Firmware.Reach.{Sound, Stays-IsLasting, by_elapse}
use ti_am62x_evse_sdk.Firmware.Whole.{Sound-IsKept}

module _ (F : Floats) where
  decode-invalid :
      (b : Bool) (s : CpState) (cp : CpSignal F.Float)
      → cp.valid ≡ false
      → decode_cp_state F b s cp ≡ none
  unfolding decode_cp_state
  decode-invalid b s cp e = simp e refl

  decode-valid :
      (b : Bool) (s t : CpState) (cp : CpSignal F.Float)
      → decode_cp_state F b s cp ≡ some t
      → cp.valid ≡ true
  decode-valid b s t cp e = elim (Bool-cases cp.valid) [
    | inl v ↦ v
    | inr i ↦ absurd (cc (e, decode-invalid b s cp i))
  ]

  -- The signal that the means of the windows stand for.
  abbrev pub mean_signal : Sampler → CpSignal F.Float
  mean_signal s = record {
    valid = true;
    high = to_volts F (mean s.cp_high_avg);
    low = to_volts F (mean s.cp_low_avg);
  }

  valid-raw :
      (junk : CpSignal F.Float) (s : Sampler)
      → (get_cp_signal F junk s).valid ≡ true
      → s.raw_cp_signal.valid ≡ true
  unfolding get_cp_signal get_latest_cp_signal
  valid-raw junk s v = elim (Bool-cases s.raw_cp_signal.valid) [
    | inl e ↦ e
    | inr e ↦ absurd (cc (e, v))
  ]

  valid-signal :
      (junk : CpSignal F.Float) (s : Sampler)
      → s.raw_cp_signal.valid ≡ true
      → get_cp_signal F junk s ≡ record {
        valid = true;
        high = to_volts F s.raw_cp_signal.high;
        low = to_volts F s.raw_cp_signal.low;
      }
  unfolding get_cp_signal get_latest_cp_signal
  valid-signal junk s e = simp e refl

  -- A signal that is valid, where the samples say what it is.
  signal-mean :
      (junk : CpSignal F.Float) (s : Sampler)
      → Published s.cp_high_avg s.cp_low_avg s.raw_cp_signal
      → (get_cp_signal F junk s).valid ≡ true
      → (is_steady s.cp_high_avg ≡ true)
        × (is_steady s.cp_low_avg ≡ true)
        × (get_cp_signal F junk s ≡ mean_signal s)
  signal-mean junk s p v =
      let valid : s.raw_cp_signal.valid ≡ true = valid-raw junk s v in
      (
        ground (arith, p.valid, valid),
        ground (arith, p.valid, valid),
        valid-signal junk s valid
            ∙ ap
                (λ k. record {
                  valid = true;
                  high = to_volts F k;
                  low = to_volts F s.raw_cp_signal.low;
                })
                (p.high_mean valid)
            ∙ ap
                (λ k. record {
                  valid = true;
                  high = to_volts F (mean s.cp_high_avg);
                  low = to_volts F k;
                })
                (p.low_mean valid),
      )

module _ (F : Floats) (period ticks_per_ms : ℕ) (c : Codec F.Float) (junk : CpSignal F.Float)
    (size : ℕ) (u : Startup) (g : Gpio) where
  abbrev drivers : Rest F.Float
  drivers = parts F period ticks_per_ms c junk size

  -- The sampler as a run finds it when it reads the signal.
  abbrev pub sampler_read : Machine F.Float (hal F g drivers) → Sampler
  sampler_read m = (elapse (run_checks F (hal F g drivers) m).1.hal.rest).sampling.sampler

  -- The drivers of the firmware when a run reads the signal are sound, if they were before.
  read-Sound :
      (m : Machine F.Float (hal F g drivers))
      → Sound u m.hal.rest
      → Sound u (elapse (run_checks F (hal F g drivers) m).1.hal.rest)
  read-Sound m s = by_elapse (Stays-IsLasting u) _ (
      ((run_checks-Kept F (hal F g drivers)
            (Sound-IsKept F period ticks_per_ms c junk size u g)).step
          m).hardware
        s)

  signal_read-sampler :
      (m : Machine F.Float (hal F g drivers))
      → signal_read F (hal F g drivers) m ≡ get_cp_signal F junk (sampler_read m)
  unfolding read_cp_signal
  signal_read-sampler m = refl

  -- A valid signal of a sound sampler is what its memory held at first, or was published by its task.
  published :
      (w : Parts)
      → IsU16Burst u.high_junk
      → IsU16Burst u.low_junk
      → Sound u w
      → (get_cp_signal F junk w.sampling.sampler).valid ≡ true
      → ((u.raw_junk.valid ≡ true) × (w.sampling.sampler.raw_cp_signal ≡ u.raw_junk))
        ⊎ Published w.sampling.sampler.cp_high_avg w.sampling.sampler.cp_low_avg
            w.sampling.sampler.raw_cp_signal
  published w hh hl s v =
      elim (raw_cp_signal-Published u.status u.high_junk u.low_junk u.tbd_junk u.raw_junk w.sampling
        hh hl s.sampling) [
          | inl same ↦
              inl (sym (ap (λ r. r.valid) same) ∙ valid-raw F junk w.sampling.sampler v, same)
          | inr p ↦ inr p
        ]

  -- What a run that closes the contact has behind it: when it read the signal both parts of the pilot
  -- signal were steady (ten samples had come, and at most one of the last ten was off their mean by more
  -- than 400); the voltages of the two means were decoded as the state that the run leaves; and that is
  -- C, or D with ventilation, while the PWM runs and power is allowed.
  pub record Justified (m : Machine F.Float (hal F g drivers)) : Type 0 where
    pub high_steady : is_steady (sampler_read m).cp_high_avg ≡ true
    pub low_steady : is_steady (sampler_read m).cp_low_avg ≡ true
    pub decoded :
        decode_cp_state F m.fsm.cur_pwm_running m.fsm.cur_state (mean_signal F (sampler_read m))
        ≡ some (run F (hal F g drivers) m).1.fsm.cur_state
    pub members :
        MayClose F (hal F g drivers) (hal-IsLawful F g drivers) (run F (hal F g drivers) m).1.fsm

  -- When a run reads the signal, the raw signal is the one that the memory of the sampler held before the
  -- constructor, and that one is marked as valid.
  abbrev pub IsUnwritten : Machine F.Float (hal F g drivers) → Type 0
  IsUnwritten m = (u.raw_junk.valid ≡ true) × ((sampler_read m).raw_cp_signal ≡ u.raw_junk)

  -- A run that turns the pin from low to high is justified, where the drivers are as the rounds of the main
  -- loop keep them, unless it read what the memory held at first.
  pub closing-Justified :
      (m : Machine F.Float (hal F g drivers))
      → IsU16Burst u.high_junk
      → IsU16Burst u.low_junk
      → Sound u m.hal.rest
      → is_on g m.hal.gpio ≡ false
      → is_on g (run F (hal F g drivers) m).1.hal.gpio ≡ true
      → IsUnwritten m ⊎ Justified m
  unfolding hal-IsLawful
  closing-Justified m hh hl s off on =
      let e = closing-signal F (hal F g drivers) (hal-IsLawful F g drivers) m off on in
      let v : (get_cp_signal F junk (sampler_read m)).valid ≡ true =
        ap (λ k. k.valid) (sym (signal_read-sampler m)) ∙ decode-valid F _ _ _ _ e in
      elim (published _ hh hl (read-Sound m s) v) [
        | inl unwritten ↦ inl unwritten
        | inr q ↦
            let p = signal-mean F junk (sampler_read m) q v in
            inr (record {
              high_steady = p.0;
              low_steady = p.1;
              decoded =
                  ap (decode_cp_state F m.fsm.cur_pwm_running m.fsm.cur_state)
                    (sym (signal_read-sampler m ∙ p.2))
                  ∙ e;
              members = closing-members F (hal F g drivers) (hal-IsLawful F g drivers) m off on;
            })
      ]
