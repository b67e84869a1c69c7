-- ===== src/Examples/Deadline.antt =====
-- The main loop where the module stops the PWM while the car draws power, and then sends heartbeats; the
-- clock goes on by 2.5 s whenever it is read.
use ti_am62x_evse_sdk.Prelude.{
  ◌≡◌, ◌⊎◌, ◌≤◌, ◌<◌, ◌+◌, ◌^◌, ◌==◌, if◌then◌else◌, inl, refl, ℕ, true, false, arith,
}
use ti_am62x_evse_sdk.Prelude.State.{State}
use ti_am62x_evse_sdk.Fsm.Types.{CpState, Machine}
use ti_am62x_evse_sdk.Fsm.Countdown
use ti_am62x_evse_sdk.Fsm.Defs.{
  fresh, set_pwm_off, is_voltage_in_range, decode_cp_state, read_cp_state, store_cp_state,
  power_off, start_lock_check, start_pwm_stop,
}
use ti_am62x_evse_sdk.Fsm.Run.{run, run_checks, run_switch, run_state, run_c, by_pwm, without_pwm}
use ti_am62x_evse_sdk.Fsm.Opening.{failures}
use ti_am62x_evse_sdk.Fsm.Waiting.{IsIdle}
use ti_am62x_evse_sdk.Link.Firmware.{handle_set_pwm, handle_incoming_message}
use ti_am62x_evse_sdk.Link.Host.{handle_pwm_off, heartbeat}
use ti_am62x_evse_sdk.Link.Loop.{Received, ok, Loop, handle, chore, iteration, iterate}
use ti_am62x_evse_sdk.Link.Timing.{asked, next, StaysIdle, iterate-forced_off}
use ti_am62x_evse_sdk.Examples.Bench.{fixed, setup, six_volts, Setup}
use ti_am62x_evse_sdk.Examples.Timing.{clocked, clocked_laws, clocked_time}

-- The first message stops the PWM, and the wait for one takes 4 s.
abbrev get_stop : State Setup (Received ℕ)
get_stop w = (
  if w.now == 90 then ok (handle_pwm_off 1000) else ok (heartbeat 1000),
  record w { now = w.now + 4000 },
)

later_msg : (w : Setup) → w.now ≤ (get_stop w).1.now
later_msg w = omega arith

abbrev drawing : Loop fixed clocked
drawing = record {
  machine = record {
    fsm = record (fresh fixed clocked false) {
      cur_state = CpState.c;
      prev_state = CpState.c;
      cur_pwm_running = true;
      prev_pwm_running = true;
    };
    hal = setup true six_volts 90;
  };
  chore_interval_ticks = 1000;
  last_chore_ts = 0;
}

abbrev after : ℕ → Loop fixed clocked
after n = iterate fixed clocked get_stop n drawing

abbrev first : Machine ℕ clocked
first = asked fixed clocked clocked_laws clocked_time get_stop later_msg drawing

abbrev heard : ℕ → Machine ℕ clocked
heard n = asked fixed clocked clocked_laws clocked_time get_stop later_msg (after n)

heard_off : first.fsm.cur_pwm_running ≡ false
unfolding run run_checks read_cp_state store_cp_state decode_cp_state is_voltage_in_range run_switch
    run_state run_c by_pwm without_pwm power_off start_lock_check start_pwm_stop fresh set_pwm_off
    Countdown.new Countdown.elapsed Countdown.start Countdown.stop iterate iteration handle chore
    handle_set_pwm handle_incoming_message handle_pwm_off heartbeat
heard_off = refl

heard_was : first.fsm.prev_pwm_running ≡ true
unfolding run run_checks read_cp_state store_cp_state decode_cp_state is_voltage_in_range run_switch
    run_state run_c by_pwm without_pwm power_off start_lock_check start_pwm_stop fresh set_pwm_off
    Countdown.new Countdown.elapsed Countdown.start Countdown.stop iterate iteration handle chore
    handle_set_pwm handle_incoming_message handle_pwm_off heartbeat
heard_was = refl

heard-IsIdle : IsIdle fixed clocked clocked_laws clocked_time first
unfolding run run_checks read_cp_state store_cp_state decode_cp_state is_voltage_in_range run_switch
    run_state run_c by_pwm without_pwm power_off start_lock_check start_pwm_stop fresh set_pwm_off
    Countdown.new Countdown.elapsed Countdown.start Countdown.stop iterate iteration handle chore
    handle_set_pwm handle_incoming_message handle_pwm_off heartbeat
heard-IsIdle = (refl, inl refl)

after-StaysIdle :
    StaysIdle fixed clocked clocked_laws clocked_time get_stop later_msg 1
      (next fixed clocked clocked_laws clocked_time get_stop later_msg drawing)
unfolding run run_checks read_cp_state store_cp_state decode_cp_state is_voltage_in_range run_switch
    run_state run_c by_pwm without_pwm power_off start_lock_check start_pwm_stop fresh set_pwm_off
    Countdown.new Countdown.elapsed Countdown.start Countdown.stop iterate iteration handle chore
    handle_set_pwm handle_incoming_message handle_pwm_off heartbeat
after-StaysIdle = ((refl, inl refl), refl, tt)

heard_due :
    (run fixed clocked first).1.hal.now + first.fsm.pwm_stop_countdown.period_in_ticks
    ≤ (heard 1).hal.now
unfolding run run_checks read_cp_state store_cp_state decode_cp_state is_voltage_in_range run_switch
    run_state run_c by_pwm without_pwm power_off start_lock_check start_pwm_stop fresh set_pwm_off
    Countdown.new Countdown.elapsed Countdown.start Countdown.stop iterate iteration handle chore
    handle_set_pwm handle_incoming_message handle_pwm_off heartbeat
heard_due = omega arith

heard_upper : (run fixed clocked (heard 1)).1.hal.now < first.hal.now + 2 ^ 32
unfolding run run_checks read_cp_state store_cp_state decode_cp_state is_voltage_in_range run_switch
    run_state run_c by_pwm without_pwm power_off start_lock_check start_pwm_stop fresh set_pwm_off
    Countdown.new Countdown.elapsed Countdown.start Countdown.stop iterate iteration handle chore
    handle_set_pwm handle_incoming_message handle_pwm_off heartbeat
heard_upper = omega arith

iterate-forced_off_example :
    ((next fixed clocked clocked_laws clocked_time get_stop later_msg
        (after 1)).machine.hal.board.relay
      ≡ false)
    ⊎ (failures (heard 1).hal.board.sent
        < failures
            (next fixed clocked clocked_laws clocked_time get_stop later_msg
              (after 1)).machine.hal.board.sent)
iterate-forced_off_example =
    iterate-forced_off fixed clocked clocked_laws clocked_time get_stop later_msg 0 drawing
      heard_off heard_was heard-IsIdle after-StaysIdle heard_due heard_upper
