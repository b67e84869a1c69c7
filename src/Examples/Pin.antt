-- ===== src/Examples/Pin.antt =====
-- The same three rounds of the main loop on a pin that is a bit.
use ti_am62x_evse_sdk.Prelude.{◌≡◌, ◌+◌, if◌then◌else◌, refl, true, false, ℕ, Bool, []}
use ti_am62x_evse_sdk.Prelude.State.{State}
use ti_am62x_evse_sdk.Hal.{Board}
use ti_am62x_evse_sdk.Fsm.Countdown
use ti_am62x_evse_sdk.Fsm.Defs.{
  fresh, disable, enable, set_pwm_on, set_pwm_off, allow_power_on, is_voltage_in_range,
  decode_cp_state, read_cp_state, store_cp_state, power_on, power_off, start_lock_check,
  start_pwm_stop,
}
use ti_am62x_evse_sdk.Fsm.Defs
use ti_am62x_evse_sdk.Fsm.Run.{
  run, run_checks, run_switch, run_state, run_c, by_pwm, without_pwm, with_pwm_c,
}
use ti_am62x_evse_sdk.Link.Firmware.{handle_set_pwm, handle_incoming_message}
use ti_am62x_evse_sdk.Link.Host.{handle_enable, handle_pwm_on, handle_allow_power_on}
use ti_am62x_evse_sdk.Link.Loop.{Received, Loop, handle, chore, iteration, iterate, start_loop}
use ti_am62x_evse_sdk.Drivers.{Gpio, Rest, Hardware, is_on, on, off, construct, command, hal}
use ti_am62x_evse_sdk.Drivers.Pin.{rounds}
use ti_am62x_evse_sdk.Examples.Bench.{fixed, six_volts}
use ti_am62x_evse_sdk.Examples.Rounds.{script}

abbrev pub pin : Gpio
pin = record {
  World = Bool;
  set_dir_mode = λ w. w;
  write_high = λ w. true;
  write_low = λ w. false;
  out_value_read = λ w. if w then 1 else 0;
}

abbrev pub rest : Rest ℕ
rest = record {
  World = ℕ;
  set_pwm = λ x w. w;
  get_latest_cp_signal = λ w. (six_volts, w);
  get_ticks = λ w. (w, w);
  send_event = λ e w. w;
  ticks_per_ms = 1;
}

abbrev pub none_told : Board ℕ
none_told = record {
  relay = false;
  locked = false;
  rcd_on = false;
  duty = 1000;
  pilot_on = false;
  sent = [];
}

abbrev pub get_scripted : State (Hardware fixed pin rest) (Received ℕ)
get_scripted w = (script w.rest, record w { rest = w.rest + 1 })

abbrev pub ended : Loop fixed (hal fixed pin rest)
ended = rounds fixed pin rest get_scripted 1000 false true 50 none_told 3

pub ended_high : is_on pin (ended.machine.hal.gpio) ≡ true
unfolding Defs.construct fresh disable enable set_pwm_off set_pwm_on allow_power_on run run_checks
    read_cp_state store_cp_state decode_cp_state is_voltage_in_range run_switch run_state run_c
    by_pwm without_pwm with_pwm_c power_on power_off start_lock_check start_pwm_stop Countdown.new
    Countdown.elapsed Countdown.start iterate iteration start_loop handle chore handle_set_pwm
    handle_incoming_message handle_enable handle_pwm_on handle_allow_power_on is_on on off construct
    command
ended_high = refl
