-- ===== src/Examples/Lock.antt =====
-- Two seconds after the contact was closed.
use ti_am62x_evse_sdk.Prelude.{◌≡◌, ◌+◌, ◌^◌, ◌<◌, refl, ℕ, true, false, arith}
use ti_am62x_evse_sdk.Fsm.Types.{CpState, Machine}
use ti_am62x_evse_sdk.Fsm.Countdown
use ti_am62x_evse_sdk.Fsm.Defs.{
  fresh, is_voltage_in_range, decode_cp_state, read_cp_state, store_cp_state, power_on,
  start_lock_check,
}
use ti_am62x_evse_sdk.Fsm.Run.{run, run_checks, run_switch, run_state, run_c, by_pwm, with_pwm_c}
use ti_am62x_evse_sdk.Fsm.States.{before}
use ti_am62x_evse_sdk.Fsm.Lock.{run-unlocks}
use ti_am62x_evse_sdk.Examples.Bench.{fixed, setup, six_volts}
use ti_am62x_evse_sdk.Examples.Timing.{clocked, clocked_laws, clocked_time}

abbrev charging : Machine ℕ clocked
charging = record {
  fsm = record (fresh fixed clocked false) {
    cur_state = CpState.c;
    prev_state = CpState.c;
    cur_pwm_running = true;
    prev_pwm_running = true;
    power_on_allowed = true;
    lock_check_countdown = record { period_in_ticks = 1000; ticks_at_start = 50; running = true };
  };
  hal = setup true six_volts 2050;
}

charging-readable : (before fixed clocked charging).0 ≡ true
unfolding run_checks read_cp_state store_cp_state decode_cp_state is_voltage_in_range fresh
    Countdown.new Countdown.elapsed Countdown.stop
charging-readable = refl

charging-state : (before fixed clocked charging).1.fsm.cur_state ≡ CpState.c
unfolding run_checks read_cp_state store_cp_state decode_cp_state is_voltage_in_range fresh
    Countdown.new Countdown.elapsed Countdown.stop
charging-state = refl

charging-upper : (run fixed clocked charging).1.hal.now < 50 + 2 ^ 32
unfolding run run_checks read_cp_state store_cp_state decode_cp_state is_voltage_in_range run_switch
    run_state run_c by_pwm with_pwm_c power_on start_lock_check fresh Countdown.new
    Countdown.elapsed Countdown.stop
charging-upper = omega arith

run-unlocks_example :
    ((run fixed clocked charging).1.hal.board.relay ≡ true)
    × ((run fixed clocked charging).1.hal.board.locked ≡ false)
run-unlocks_example =
    run-unlocks fixed clocked clocked_laws clocked_time charging 50 refl refl (omega arith)
      charging-upper charging-readable charging-state refl refl
