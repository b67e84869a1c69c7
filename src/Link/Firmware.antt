-- ===== src/Link/Firmware.antt =====
-- firmware/main.cpp: the handler of incoming messages and the conversion of events.
use ti_am62x_evse_sdk.Prelude.{ℕ, ◌==◌, if◌then◌else◌}
use ti_am62x_evse_sdk.Prelude.State.{pure}
use ti_am62x_evse_sdk.Prelude.Floats.{Floats}
use ti_am62x_evse_sdk.Hal.{Hal, Event}
use ti_am62x_evse_sdk.Fsm.Defs.{
  Method, set_pwm_on, set_pwm_off, set_pwm_f, allow_power_on, enable, disable,
}
use ti_am62x_evse_sdk.Link.Messages.{
  HighToLow, LowToHigh, set_pwm_tag, allow_power_on_tag, enable_tag, disable_tag, pwm_state_on,
  pwm_state_off, pwm_state_f, event_tag,
}

-- The lambda `convert` of `push_event`: the values of `enum IEC61851Event`.
unfoldable pub to_wire : Event → ℕ
to_wire Event.car_plugged_in = 0
to_wire Event.car_requested_power = 1
to_wire Event.car_requested_stop_power = 4
to_wire Event.car_unplugged = 5
to_wire Event.ef_to_bcd = 12
to_wire Event.error_df = 7
to_wire Event.error_e = 6
to_wire Event.error_over_current = 11
to_wire Event.error_rcd = 9
to_wire Event.error_relais = 8
to_wire Event.error_ventilation_not_available = 10
to_wire Event.evse_replug_finished = 16
to_wire Event.evse_replug_started = 15
to_wire Event.bcd_to_ef = 13
to_wire Event.permanent_fault = 14
to_wire Event.power_off = 3
to_wire Event.power_on = 2

-- The message that `push_event` hands to the link.
unfoldable pub event_message : Event → LowToHigh
event_message e = record { which_message = event_tag; event = to_wire e }

module _ (F : Floats) (h : Hal F.Float) where
  -- `switch (set_pwm.state)`
  unfoldable pub handle_set_pwm : ℕ → F.Float → Method F h (Unit {0})
  handle_set_pwm state duty_cycle =
      if state == pwm_state_f
      then set_pwm_f F h
      else if state == pwm_state_off
      then set_pwm_off F h
      else if state == pwm_state_on
      then set_pwm_on F h duty_cycle
      else pure tt

  unfoldable pub handle_incoming_message : HighToLow F.Float → Method F h (Unit {0})
  unfolding handle_set_pwm
  handle_incoming_message msg =
      if msg.which_message == set_pwm_tag
      then handle_set_pwm msg.set_pwm.state msg.set_pwm.duty_cycle
      else if msg.which_message == allow_power_on_tag
      then allow_power_on F h msg.allow_power_on
      else if msg.which_message == enable_tag
      then enable F h
      else if msg.which_message == disable_tag
      then disable F h
      else pure tt
