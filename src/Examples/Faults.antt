-- ===== src/Examples/Faults.antt =====
-- A short circuit of the pilot while a car charges.
use ti_am62x_evse_sdk.Prelude.{◌≡◌, ◌+◌, ◌&&◌, ◌++◌, if◌then◌else◌, refl, true, false, [], ◌∷◌, ℕ}
use ti_am62x_evse_sdk.Hal.{Event, CpSignal}
use ti_am62x_evse_sdk.Fsm.Types.{CpState, Machine}
use ti_am62x_evse_sdk.Fsm.Countdown
use ti_am62x_evse_sdk.Fsm.Defs.{
  fresh, is_voltage_in_range, decode_cp_state, read_cp_state, store_cp_state, power_off,
  start_lock_check, set_pwm_off,
}
use ti_am62x_evse_sdk.Fsm.Run.{run, run_checks, run_switch, run_state, run_e}
use ti_am62x_evse_sdk.Fsm.States.{before}
use ti_am62x_evse_sdk.Fsm.Silent.{entries}
use ti_am62x_evse_sdk.Fsm.Faults.{one_if, enters_fault, entries-run}
use ti_am62x_evse_sdk.Fsm.Mute.{transitions}
use ti_am62x_evse_sdk.Fsm.Events.{expected, events-run}
use ti_am62x_evse_sdk.Examples.Bench.{fixed, bench, bench_laws, setup}

abbrev no_volts : CpSignal ℕ
no_volts = record { valid = true; high = 1000; low = 1000 }

abbrev shorted : Machine ℕ bench
shorted = record {
  fsm = record (fresh fixed bench false) {
    cur_state = CpState.c;
    prev_state = CpState.c;
    cur_pwm_running = true;
    prev_pwm_running = true;
    power_on_allowed = true;
  };
  hal = setup true no_volts 90;
}

shorted_events :
    (run fixed bench shorted).1.hal.board.sent
    ≡ Event.power_off ∷ Event.bcd_to_ef ∷ Event.error_e ∷ []
unfolding run run_checks read_cp_state store_cp_state decode_cp_state is_voltage_in_range run_switch
    run_state run_e set_pwm_off power_off start_lock_check fresh Countdown.new Countdown.elapsed
shorted_events = refl

entries-run_example :
    entries (run fixed bench shorted).1.hal.board.sent
    ≡ one_if (
        (before fixed bench shorted).0
        && enters_fault fixed bench bench_laws CpState.c (run fixed bench shorted).1.fsm.cur_state)
      + 0
entries-run_example = entries-run fixed bench bench_laws shorted

events-run_example :
    transitions (run fixed bench shorted).1.hal.board.sent
    ≡ (if (before fixed bench shorted).0
        then expected CpState.c (run fixed bench shorted).1.fsm.cur_state
        else [])
      ++ []
events-run_example = events-run fixed bench bench_laws shorted
