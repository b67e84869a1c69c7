-- ===== src/Examples/Rounds.antt =====
-- Three rounds of the main loop: the module enables the port, starts the PWM and allows power.
use ti_am62x_evse_sdk.Prelude.{◌<◌, ◌≡◌, ◌⊎◌, ◌==◌, ◌+◌, if◌then◌else◌, refl, true, false, ℕ}
use ti_am62x_evse_sdk.Prelude.State.{State}
use ti_am62x_evse_sdk.Fsm.Countdown
use ti_am62x_evse_sdk.Fsm.Defs.{
  fresh, construct, enable, disable, set_pwm_on, set_pwm_off, allow_power_on, is_voltage_in_range,
  decode_cp_state, read_cp_state, store_cp_state, power_on, power_off, start_lock_check,
  start_pwm_stop,
}
use ti_am62x_evse_sdk.Fsm.Run.{
  run, run_checks, run_switch, run_state, run_c, by_pwm, without_pwm, with_pwm_c,
}
use ti_am62x_evse_sdk.Fsm.Opening.{failures}
use ti_am62x_evse_sdk.Fsm.Safety.{is_charging}
use ti_am62x_evse_sdk.Link.Firmware.{handle_set_pwm, handle_incoming_message}
use ti_am62x_evse_sdk.Link.Host.{handle_enable, handle_pwm_on, handle_allow_power_on}
use ti_am62x_evse_sdk.Link.Loop.{
  Received, ok, timeout, Loop, handle, chore, iteration, iterate, start_loop,
}
use ti_am62x_evse_sdk.Link.Rounds.{relay-iterate}
use ti_am62x_evse_sdk.Examples.Bench.{fixed, bench, bench_laws, Setup, setup, six_volts}

abbrev pub script : ℕ → Received ℕ
script n =
    if n == 50
    then ok (handle_enable 1000 true)
    else if n == 51
    then ok (handle_pwm_on 1000 1005)
    else if n == 52
    then ok (handle_allow_power_on 1000 true)
    else timeout

-- One message for each tick of the clock.
abbrev get_scripted : State Setup (Received ℕ)
get_scripted w = (script w.now, record w { now = w.now + 1 })

abbrev three_rounds : Loop fixed bench
three_rounds =
    iterate fixed bench get_scripted 3
      (start_loop fixed bench 1000 false (setup false six_volts 50))

three_rounds_closed : three_rounds.machine.hal.board.relay ≡ true
unfolding construct fresh disable enable set_pwm_off set_pwm_on allow_power_on run run_checks
    read_cp_state store_cp_state decode_cp_state is_voltage_in_range run_switch run_state run_c
    by_pwm without_pwm with_pwm_c power_on power_off start_lock_check start_pwm_stop Countdown.new
    Countdown.elapsed Countdown.start iterate iteration start_loop handle chore handle_set_pwm
    handle_incoming_message handle_enable handle_pwm_on handle_allow_power_on
three_rounds_closed = refl

relay-iterate_example :
    (is_charging (three_rounds.machine.fsm.prev_state) ≡ true)
    ⊎ (0 < failures (three_rounds.machine.hal.board.sent))
relay-iterate_example =
    relay-iterate fixed bench bench_laws get_scripted (λ w. refl) 1000 false
      (setup false six_volts 50) 3 refl three_rounds_closed
