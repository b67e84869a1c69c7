-- ===== src/Examples/Calls.antt =====
-- A sequence of calls of the state machine: a car that is plugged in and asks for power at once.
use ti_am62x_evse_sdk.Prelude.{◌<◌, ◌≡◌, ◌⊎◌, refl, true, false, List, [], ◌∷◌, ℕ}
use ti_am62x_evse_sdk.Fsm.Types.{Machine}
use ti_am62x_evse_sdk.Fsm.Countdown
use ti_am62x_evse_sdk.Fsm.Defs.{
  fresh, construct, enable, disable, set_pwm_on, set_pwm_off, allow_power_on, is_voltage_in_range,
  decode_cp_state, read_cp_state, store_cp_state, power_on, start_lock_check,
}
use ti_am62x_evse_sdk.Fsm.Run.{run, run_checks, run_switch, run_state, run_c, by_pwm, with_pwm_c}
use ti_am62x_evse_sdk.Fsm.Opening.{failures}
use ti_am62x_evse_sdk.Fsm.Calls.{Call, after}
use ti_am62x_evse_sdk.Fsm.Safety.{is_charging, relay-after}
use ti_am62x_evse_sdk.Examples.Bench.{fixed, bench, bench_laws, setup, six_volts}

abbrev calls : List (Call ℕ)
calls = Call.enabling ∷ Call.pwm_on 1005 ∷ Call.allowing true ∷ Call.running ∷ []

abbrev ended : Machine ℕ bench
ended = after fixed bench calls (construct fixed bench false (setup false six_volts 50))

ended_closed : ended.hal.board.relay ≡ true
unfolding construct fresh disable enable set_pwm_off set_pwm_on allow_power_on run run_checks
    read_cp_state store_cp_state decode_cp_state is_voltage_in_range run_switch run_state run_c
    by_pwm with_pwm_c power_on start_lock_check Countdown.new Countdown.elapsed
ended_closed = refl

relay-after_example :
    (is_charging (ended.fsm.prev_state) ≡ true) ⊎ (0 < failures (ended.hal.board.sent))
relay-after_example =
    relay-after fixed bench bench_laws false (setup false six_volts 50) calls refl ended_closed
