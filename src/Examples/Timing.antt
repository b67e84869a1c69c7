-- ===== src/Examples/Timing.antt =====
-- A car that goes on drawing power after the PWM has stopped, on a bench whose clock goes on by 2.5 s
-- whenever it is read.
use ti_am62x_evse_sdk.Prelude.{
  ◌≡◌, ◌⊎◌, inl, refl, ℕ, ◌+◌, ◌<◌, ◌≤◌, ◌-◌, ◌^◌, leb, true, false, arith,
}
use ti_am62x_evse_sdk.Prelude.Word.{u32}
use ti_am62x_evse_sdk.Hal.{Hal, IsLawful}
use ti_am62x_evse_sdk.Fsm.Types.{CpState, Machine}
use ti_am62x_evse_sdk.Fsm.Countdown
use ti_am62x_evse_sdk.Fsm.Defs.{
  fresh, is_voltage_in_range, decode_cp_state, read_cp_state, store_cp_state, power_off,
  start_lock_check, start_pwm_stop,
}
use ti_am62x_evse_sdk.Fsm.Run.{run, run_checks, run_switch, run_state, run_c, by_pwm, without_pwm}
use ti_am62x_evse_sdk.Fsm.Opening.{failures}
use ti_am62x_evse_sdk.Fsm.Clock.{IsClock, elapsed-start}
use ti_am62x_evse_sdk.Fsm.Timing.{runs, StaysIdle, runs-forced_off}
use ti_am62x_evse_sdk.Examples.Bench.{fixed, bench, setup, six_volts, Setup}

abbrev pub clocked : Hal ℕ
clocked = record bench { get_current_ticks = λ w. (u32 w.now, record w { now = w.now + 2500 }) }

abbrev pub clocked_laws : IsLawful clocked
clocked_laws = record {
  observe = λ w. w.board;
  observe-exec = λ c w. refl;
  observe-fired = λ w. refl;
  observe-is_on = λ w. refl;
  observe-reset = λ w. refl;
  observe-signal = λ w. refl;
  observe-ticks = λ w. refl;
  is_on-relay = λ w. refl;
  observe-on = λ b w. refl;
  observe-off = λ w. refl;
}

abbrev pub clocked_time : IsClock clocked
clocked_time = record {
  time = λ w. w.now;
  ticks-time = λ w. refl;
  time-exec = λ c w. omega arith;
  time-fired = λ w. omega arith;
  time-on = λ b w. omega arith;
  time-off = λ w. omega arith;
  time-is_on = λ w. omega arith;
  time-reset = λ w. omega arith;
  time-signal = λ w. omega arith;
  time-ticks = λ w. omega arith;
}

-- The PWM has just stopped.
abbrev stopped : Machine ℕ clocked
stopped = record {
  fsm = record (fresh fixed clocked false) {
    cur_state = CpState.c;
    prev_state = CpState.c;
    cur_pwm_running = false;
    prev_pwm_running = true;
  };
  hal = setup true six_volts 90;
}

abbrev after : ℕ → Machine ℕ clocked
after n = runs fixed clocked clocked_laws clocked_time n stopped

stopped-StaysIdle : StaysIdle fixed clocked clocked_laws clocked_time 4 stopped
unfolding run run_checks read_cp_state store_cp_state decode_cp_state is_voltage_in_range run_switch
    run_state run_c by_pwm without_pwm power_off start_lock_check start_pwm_stop fresh Countdown.new
    Countdown.elapsed Countdown.start
stopped-StaysIdle =
    ((refl, inl refl), ((refl, inl refl), ((refl, inl refl), ((refl, inl refl), tt))))

stopped-due :
    (run fixed clocked stopped).1.hal.now
      + (fresh fixed clocked false).pwm_stop_countdown.period_in_ticks
    ≤ (after 3).hal.now
unfolding run run_checks read_cp_state store_cp_state decode_cp_state is_voltage_in_range run_switch
    run_state run_c by_pwm without_pwm power_off start_lock_check start_pwm_stop fresh Countdown.new
    Countdown.elapsed Countdown.start
stopped-due = omega arith

stopped-upper : (run fixed clocked (after 3)).1.hal.now < 90 + 2 ^ 32
unfolding run run_checks read_cp_state store_cp_state decode_cp_state is_voltage_in_range run_switch
    run_state run_c by_pwm without_pwm power_off start_lock_check start_pwm_stop fresh Countdown.new
    Countdown.elapsed Countdown.start
stopped-upper = omega arith

runs-forced_off_example :
    ((run fixed clocked (after 3)).1.hal.board.relay ≡ false)
    ⊎ (failures (after 3).hal.board.sent < failures (run fixed clocked (after 3)).1.hal.board.sent)
runs-forced_off_example =
    runs-forced_off fixed clocked clocked_laws clocked_time 2 stopped refl refl stopped-StaysIdle
      stopped-due stopped-upper

-- The counter wraps between the two readings.
abbrev late : ℕ → Setup
late now = setup true six_volts now

elapsed-start_example :
    (Countdown.elapsed clocked
      (Countdown.start clocked (Countdown.new 1 6000) (late (2 ^ 32 - 100))).0
      (late (2 ^ 32 + 5000))).0
    ≡ leb 6000 5100
unfolding Countdown.new
elapsed-start_example =
    elapsed-start clocked clocked_time (Countdown.new 1 6000) (late (2 ^ 32 - 100))
      (late (2 ^ 32 + 5000)) (omega arith) (omega arith)
