-- ===== src/Examples/Interrupt.antt =====
-- The interrupt handler of the timer over a status register that keeps two flags.
use Prim.Native.Nat.{bit_and}
use ti_am62x_evse_sdk.Prelude.{◌≡◌, refl, ℕ, Bool, true, false, not, ◌&&◌, ◌==◌, [], ◌∷◌}
use ti_am62x_evse_sdk.ControlPilot.{irqstatus_match_flag, irqstatus_overflow_flag}
use ti_am62x_evse_sdk.Sampler.Device.{
  BurstSamplesTbd, TransferStatus, construct, trigger_adc_readout, aquire_adc_sample_write_access,
  transfer, begin_sample,
}
use ti_am62x_evse_sdk.ControlPilot.Interrupt.{
  TimerRegs, Pilot, IsTimer, Settled, pwm_timer_isr, run_isr, run_isr-Settled, trigger_high,
  trigger_low,
}

-- Overflow, and match.
abbrev Flags : Type 0
Flags = Bool × Bool

abbrev status : Flags → ℕ
status (true, true) = 3
status (true, false) = 2
status (false, true) = 1
status (false, false) = 0

abbrev keep : ℕ → ℕ → Bool → Bool
keep value flag is_set = is_set && (bit_and value flag == 0)

abbrev two_flags : TimerRegs
two_flags = record {
  World = Flags;
  read = λ offset w. (status w, w);
  write = λ offset value w.
      (keep value irqstatus_overflow_flag w.0, keep value irqstatus_match_flag w.1);
}

status-overflow : (w : Flags) → not (bit_and (status w) irqstatus_overflow_flag == 0) ≡ w.0
status-overflow (true, true) = refl
status-overflow (true, false) = refl
status-overflow (false, true) = refl
status-overflow (false, false) = refl

status-match : (w : Flags) → not (bit_and (status w) irqstatus_match_flag == 0) ≡ w.1
status-match (true, true) = refl
status-match (true, false) = refl
status-match (false, true) = refl
status-match (false, false) = refl

keep_other : (is_set : Bool) → (is_set && true) ≡ is_set
keep_other true = refl
keep_other false = refl

drop_own : (is_set : Bool) → (is_set && false) ≡ false
drop_own true = refl
drop_own false = refl

abbrev two_flags-IsTimer : IsTimer two_flags
two_flags-IsTimer = record {
  overflow = λ w. w.0;
  matched = λ w. w.1;
  read-world = λ w. refl;
  read-overflow = status-overflow;
  read-matched = status-match;
  clear-overflow = λ w. (drop_own w.0, keep_other w.1);
  clear-matched = λ w. (drop_own w.1, keep_other w.0);
}

-- Both flags are set while the bus is free.
abbrev both_due : Pilot two_flags
both_due = record {
  regs = (true, true);
  sampler =
      construct TransferStatus.completed (record { word0 = 0; word1 = 0; word2 = 0 })
        (record { word0 = 0; word1 = 0; word2 = 0 }) BurstSamplesTbd.low
        (record { high = 0; low = 0; valid = false });
  ovfls = 4;
  matchs = 3;
}

-- The high phase's transfer is still pending when the low one is due: the low one is skipped.
both_due-tbd :
    (run_isr two_flags two_flags-IsTimer
      (TransferStatus.pending ∷ TransferStatus.pending ∷ [])
      both_due).sampler.adc_sample.tbd
    ≡ BurstSamplesTbd.high
unfolding run_isr pwm_timer_isr trigger_high trigger_low trigger_adc_readout construct transfer
    begin_sample aquire_adc_sample_write_access
both_due-tbd = refl

run_isr-Settled_example :
    Settled two_flags two_flags-IsTimer TransferStatus.pending TransferStatus.pending both_due (
      run_isr two_flags two_flags-IsTimer
        (TransferStatus.pending ∷ TransferStatus.pending ∷ [])
        both_due)
run_isr-Settled_example =
    run_isr-Settled two_flags two_flags-IsTimer TransferStatus.pending TransferStatus.pending []
      both_due
