-- ===== src/Fsm/Names.antt =====
-- firmware/lib/iec61851_fsm.cpp: the destructor of `FSM`, the methods that only report, and the names
-- of the events.
use Prim.Native.String.{String}
use ti_am62x_evse_sdk.Prelude.{Bool, true}
use ti_am62x_evse_sdk.Prelude.State.{pure}
use ti_am62x_evse_sdk.Prelude.Floats.{Floats}
use ti_am62x_evse_sdk.Hal.{Hal, Event}
use ti_am62x_evse_sdk.Fsm.Types.{CpState}
use ti_am62x_evse_sdk.Fsm.Defs.{Method, get, set_pwm_f}

module _ (F : Floats) (h : Hal F.Float) where
  -- `FSM::~FSM`
  unfoldable pub destroy : Method F h (Unit {0})
  destroy = set_pwm_f F h

  unfoldable pub is_ventilated_charging_active : Method F h Bool
  is_ventilated_charging_active = get F h (λ s. s.ventilated_charging_active)

  unfoldable pub uses_three_phases : Method F h Bool
  uses_three_phases = get F h (λ s. s.use_three_phases)

  unfoldable pub get_current_cp_state : Method F h CpState
  get_current_cp_state = get F h (λ s. s.cur_state)

  unfoldable pub set_phase_switch_while_charging : Bool → Method F h Bool
  set_phase_switch_while_charging enabled = pure true

unfoldable pub event_to_string : Event → String
event_to_string Event.car_plugged_in = "CarPluggedIn"
event_to_string Event.car_requested_power = "CarRequestedPower"
event_to_string Event.power_on = "PowerOn"
event_to_string Event.power_off = "PowerOff"
event_to_string Event.car_requested_stop_power = "CarRequestedStopPower"
event_to_string Event.car_unplugged = "CarUnplugged"
event_to_string Event.error_e = "Error_E"
event_to_string Event.error_df = "Error_DF"
event_to_string Event.error_relais = "Error_Relais"
event_to_string Event.error_rcd = "Error_RCD"
event_to_string Event.error_ventilation_not_available = "Error_VentilationNotAvailable"
event_to_string Event.error_over_current = "Error_OverCurrent"
event_to_string Event.ef_to_bcd = "EF_To_BCD"
event_to_string Event.bcd_to_ef = "BCD_To_EF"
event_to_string Event.permanent_fault = "PermanentFault"
event_to_string Event.evse_replug_started = "EvseReplugStarted"
event_to_string Event.evse_replug_finished = "EvseReplugFinished"
