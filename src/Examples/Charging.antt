-- ===== src/Examples/Charging.antt =====
-- The state machine at concrete inputs.
use ti_am62x_evse_sdk.Prelude.{◌<◌, ◌≡◌, ◌⊎◌, refl, true, false, [], ◌∷◌}
use ti_am62x_evse_sdk.Hal.{Event}
use ti_am62x_evse_sdk.Fsm.Countdown
use ti_am62x_evse_sdk.Fsm.Defs.{
  fresh, is_voltage_in_range, decode_cp_state, read_cp_state, store_cp_state, power_on, power_off,
  set_pwm_off, start_lock_check,
}
use ti_am62x_evse_sdk.Fsm.Run.{
  run, run_checks, run_switch, run_state, run_a, run_c, by_pwm, with_pwm_c, unplug,
}
use ti_am62x_evse_sdk.Fsm.Licence.{MayClose, relay-run}
use ti_am62x_evse_sdk.Fsm.Opening.{failures, relay-run_open}
use ti_am62x_evse_sdk.Examples.Bench.{fixed, bench, bench_laws, asking, unplugged}

asking_closes : (run fixed bench asking).1.hal.board.relay ≡ true
unfolding run run_checks read_cp_state store_cp_state decode_cp_state is_voltage_in_range run_switch
    run_state run_c by_pwm with_pwm_c power_on start_lock_check fresh Countdown.new
    Countdown.elapsed
asking_closes = refl

asking_events :
    (run fixed bench asking).1.hal.board.sent ≡ Event.power_on ∷ Event.car_requested_power ∷ []
unfolding run run_checks read_cp_state store_cp_state decode_cp_state is_voltage_in_range run_switch
    run_state run_c by_pwm with_pwm_c power_on start_lock_check fresh Countdown.new
    Countdown.elapsed
asking_events = refl

unplugged_events :
    (run fixed bench unplugged).1.hal.board.sent
    ≡ Event.car_unplugged ∷ Event.power_off ∷ Event.car_requested_stop_power ∷ []
unfolding run run_checks read_cp_state store_cp_state decode_cp_state is_voltage_in_range run_switch
    run_state run_a set_pwm_off unplug power_off start_lock_check fresh Countdown.new
    Countdown.elapsed
unplugged_events = refl

relay-run_example : (false ≡ true) ⊎ MayClose fixed bench bench_laws (run fixed bench asking).1.fsm
relay-run_example = relay-run fixed bench bench_laws asking asking_closes

relay-run_open_example :
    ((run fixed bench unplugged).1.hal.board.relay ≡ false)
    ⊎ (0 < failures (run fixed bench unplugged).1.hal.board.sent)
unfolding run run_checks read_cp_state store_cp_state decode_cp_state is_voltage_in_range run_switch
    run_state run_a set_pwm_off unplug power_off start_lock_check fresh Countdown.new
    Countdown.elapsed
relay-run_open_example = relay-run_open fixed bench bench_laws unplugged refl refl
