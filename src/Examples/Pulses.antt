-- ===== src/Examples/Pulses.antt =====
-- The PWM timer at 25000 ticks a period.
use Prim.Native.Nat.{bit_or}
use ti_am62x_evse_sdk.Prelude.{ℕ, ◌+◌, ◌-◌, ◌*◌, ◌^◌, ◌≤◌, ◌<◌, ◌≡◌, ◌↔◌, refl, arith}
use ti_am62x_evse_sdk.ControlPilot.{
  Timer, ticks_per_full_pwm_period, calculate_match_ticks, construct, default_tclr, write_match,
  set_pwm, tclr_trg_overflow_and_match,
}
use ti_am62x_evse_sdk.ControlPilot.Duty.{
  percent, high_ticks, high_ticks_bounds, match_ends, write_match_lem,
}
use ti_am62x_evse_sdk.Examples.Bench.{fixed}

period_25_mhz : ticks_per_full_pwm_period 25_000_000 1 ≡ 25_000
unfolding ticks_per_full_pwm_period
period_25_mhz = refl

-- TCLR: start, compare enable and toggle mode, no trigger.
default_tclr_zero : default_tclr 0 ≡ 2 ^ 0 + 2 ^ 6 + 2 ^ 12
unfolding default_tclr
default_tclr_zero = refl

abbrev started : Timer
started = record {
  irqstatus_set = 3;
  tldr = 0xffff_9e58;
  tmar = 0xffff_cf2c;
  ttgr = 0xffff_ffff;
  tclr = 0x1041;
}

construct_zero : construct 25_000 0 ≡ started
unfolding construct calculate_match_ticks default_tclr
construct_zero = refl

-- 10 percent: the match comes 2500 ticks after the reload.
set_pwm_ten_percent : (set_pwm 25_000 fixed 0x1041 1001 started).tmar ≡ 0xffff_9e58 + 2500
unfolding set_pwm calculate_match_ticks write_match
set_pwm_ten_percent = refl

high_ticks_bounds_example :
    (percent 10 * 25_000 ≤ 100 * high_ticks 25_000 10)
    × (100 * high_ticks 25_000 10 < percent 10 * 25_000 + 100)
    × (calculate_match_ticks 25_000 10 ≤ 25_000)
high_ticks_bounds_example = high_ticks_bounds 25_000 (omega arith) 10

match_ends_example :
    ((calculate_match_ticks 25_000 7 ≡ 0) ↔ (100 ≤ 7))
    × ((calculate_match_ticks 25_000 7 ≡ 25_000) ↔ (◌≡◌ {A = ℕ} 7 0))
match_ends_example = match_ends 25_000 (omega arith) (omega arith) 7

write_match_lem_example :
    write_match 25_000 0x1041 (calculate_match_ticks 25_000 5) started ≡ record started {
      tclr = bit_or 0x1041 tclr_trg_overflow_and_match;
      tmar = 0xffff_9e58 + (25_000 - calculate_match_ticks 25_000 5);
    }
write_match_lem_example = write_match_lem 25_000 (omega arith) 0x1041 5 started (omega arith) refl
