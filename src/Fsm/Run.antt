-- ===== src/Fsm/Run.antt =====
-- firmware/lib/iec61851_fsm.cpp, `FSM::run`: one function for each case of its `switch`, and the
-- method itself.
use ti_am62x_evse_sdk.Prelude.{Bool, true, false, not, ◌&&◌, ◌||◌}
use ti_am62x_evse_sdk.Prelude.State.{pure, branch, when, ◌>>=◌, ◌>>◌}
use ti_am62x_evse_sdk.Prelude.Floats.{Floats}
use ti_am62x_evse_sdk.Hal.{Hal, Event, Command}
use ti_am62x_evse_sdk.Fsm.Types.{CpState, Fsm}
use ti_am62x_evse_sdk.Fsm.Countdown
use ti_am62x_evse_sdk.Fsm.Defs.{
  is_state, Method, ask, call, push, get, modify, start_pwm_stop, set_pwm_off, read_cp_state,
  power_on, power_off,
}

module _ (F : Floats) (h : Hal F.Float) where
  -- `case CPState::Disabled`
  unfoldable pub run_disabled : Method F h (Unit {0})
  run_disabled = do
    modify F h (λ s. record s { power_on_allowed = false })
    _ ← power_off F h
    pure tt

  -- The body of the `if` in `case CPState::A`: the car was unplugged.
  unfoldable pub unplug : Method F h (Unit {0})
  unplug = do
    push F h Event.car_requested_stop_power
    power_off F h
    push F h Event.car_unplugged
    reclosing ← get F h (λ s. s.rcd_reclosing_allowed)
    when reclosing do _ ← ask F h h.switch_reset_emergency; call F h Command.rcd_reset

  -- `case CPState::A`
  unfoldable pub run_a : CpState → Method F h (Unit {0})
  run_a prev = do
    modify F h (λ s. record s { use_three_phases_latch = s.use_three_phases })
    set_pwm_off F h
    modify F h (λ s. record s { simplified_mode = false; ventilated_charging_active = false })
    when
        (not (is_state prev CpState.a)
          && not (is_state prev CpState.disabled)
          && not (is_state prev CpState.f))
        unplug

  -- `case CPState::B`
  unfoldable pub run_b : CpState → Method F h (Unit {0})
  run_b prev = do
    when (not (is_state prev CpState.a) && not (is_state prev CpState.b))
        do push F h Event.car_requested_stop_power; _ ← power_off F h; pure tt
    modify F h (λ s. record s { ventilated_charging_active = false })
    when (is_state prev CpState.a || is_state prev CpState.disabled)
        do push F h Event.car_plugged_in; modify F h (λ s. record s { simplified_mode = false })
    when (is_state prev CpState.e || is_state prev CpState.f) (push F h Event.ef_to_bcd)

  -- In C and D without PWM: power is forced off some time after the PWM has stopped.
  unfoldable pub without_pwm : Method F h (Unit {0})
  without_pwm = do
    was_running ← get F h (λ s. s.prev_pwm_running)
    when was_running (start_pwm_stop F h)
    c ← get F h (λ s. s.pwm_stop_countdown)
    expired ← ask F h (Countdown.elapsed h c)
    when expired do _ ← power_off F h; pure tt

  -- `if (!cur_pwm_running) ... else ...` in C and D
  unfoldable pub by_pwm : Method F h (Unit {0}) → Method F h (Unit {0}) → Method F h (Unit {0})
  by_pwm without with = do
    running ← get F h (λ s. s.cur_pwm_running)
    branch (not running) without with

  -- In C with PWM.
  unfoldable pub with_pwm_c : Method F h (Unit {0})
  with_pwm_c = do
    allowed ← get F h (λ s. s.power_on_allowed)
    when allowed do
      power_on F h
      was_running ← get F h (λ s. s.prev_pwm_running)
      simplified ← get F h (λ s. s.simplified_mode)
      when (not was_running && simplified) (push F h Event.car_requested_power)

  -- `case CPState::C`
  unfoldable pub run_c : CpState → Method F h (Unit {0})
  run_c prev = do
    when (is_state prev CpState.a)
        do push F h Event.car_plugged_in; modify F h (λ s. record s { simplified_mode = true })
    when (is_state prev CpState.b) (push F h Event.car_requested_power)
    when (is_state prev CpState.e || is_state prev CpState.f) (push F h Event.ef_to_bcd)
    by_pwm without_pwm with_pwm_c

  -- In D with PWM and power allowed: the contact is closed if there is ventilation.
  unfoldable pub close_ventilated : Bool → Method F h (Unit {0})
  close_ventilated ventilation = do
    on ← ask F h h.switch_is_on
    when (not on) (
        branch (not ventilation) (push F h Event.error_ventilation_not_available)
          do _ ← power_on F h; pure tt)

  -- In D with PWM: the car switches to ventilation while charging.
  unfoldable pub report_ventilation : CpState → Bool → Method F h (Unit {0})
  report_ventilation prev ventilation =
      when (is_state prev CpState.c)
        (when (not ventilation) (push F h Event.error_ventilation_not_available))

  -- In D with PWM.
  unfoldable pub with_pwm_d : CpState → Method F h (Unit {0})
  with_pwm_d prev = do
    allowed ← get F h (λ s. s.power_on_allowed)
    ventilation ← get F h (λ s. s.has_ventilation)
    when allowed (close_ventilated ventilation)
    report_ventilation prev ventilation

  -- `case CPState::D`
  unfoldable pub run_d : CpState → Method F h (Unit {0})
  run_d prev = do
    when (is_state prev CpState.a) do
      push F h Event.car_plugged_in
      push F h Event.car_requested_power
      modify F h (λ s. record s { simplified_mode = true })
    when (is_state prev CpState.b) (push F h Event.car_requested_power)
    when (is_state prev CpState.e || is_state prev CpState.f) (push F h Event.ef_to_bcd)
    by_pwm without_pwm (with_pwm_d prev)

  abbrev pub is_bcd : CpState → Bool
  is_bcd s = is_state s CpState.b || is_state s CpState.c || is_state s CpState.d

  -- `case CPState::E`
  unfoldable pub run_e : CpState → Method F h (Unit {0})
  run_e prev = do
    when (not (is_state prev CpState.e)) (push F h Event.error_e)
    when (is_bcd prev) (push F h Event.bcd_to_ef)
    power_off F h
    set_pwm_off F h

  -- `case CPState::F`
  unfoldable pub run_f : CpState → Method F h (Unit {0})
  run_f prev = do power_off F h; when (is_bcd prev) (push F h Event.bcd_to_ef)

  -- `case CPState::DF`
  unfoldable pub run_df : CpState → Method F h (Unit {0})
  run_df prev = do
    when (not (is_state prev CpState.df)) (push F h Event.error_df)
    when (is_bcd prev) (push F h Event.bcd_to_ef)
    _ ← power_off F h
    pure tt

  -- `switch (cur_state)`
  unfoldable pub run_state : CpState → CpState → Method F h (Unit {0})
  run_state CpState.disabled prev = run_disabled
  run_state CpState.a prev = run_a prev
  run_state CpState.b prev = run_b prev
  run_state CpState.c prev = run_c prev
  run_state CpState.d prev = run_d prev
  run_state CpState.e prev = run_e prev
  run_state CpState.f prev = run_f prev
  run_state CpState.df prev = run_df prev

  -- What `run` does before it reads the signal: the RCD flag and the lock timer.
  unfoldable pub run_checks : Method F h (Unit {0})
  run_checks = do
    fired ← ask F h h.rcd_got_fired
    when fired do call F h Command.rcd_reset; push F h Event.error_rcd
    c ← get F h (λ s. s.lock_check_countdown)
    expired ← ask F h (Countdown.elapsed h c)
    when expired do
      call F h Command.unlock
      modify F h (λ s. record s { lock_check_countdown = Countdown.stop c })

  -- `prev_state = cur_state; prev_pwm_running = cur_pwm_running;`
  abbrev pub latch : Fsm F.Float → Fsm F.Float
  latch s = record s { prev_state = s.cur_state; prev_pwm_running = s.cur_pwm_running }

  -- What `run` does with a signal that it could read.
  unfoldable pub run_switch : Method F h (Unit {0})
  run_switch = do
    state ← get F h (λ s. s.cur_state)
    prev ← get F h (λ s. s.prev_state)
    run_state state prev
    modify F h latch

  unfoldable pub run : Method F h (Unit {0})
  run = do run_checks; readable ← read_cp_state F h; when readable run_switch
