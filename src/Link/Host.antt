-- ===== src/Link/Host.antt =====
-- everest-module/modules/TiAM625SDK/board_support/board_support_ACImpl.cpp: the module's side.
use ti_am62x_evse_sdk.Prelude.{
  ℕ, Bool, false, Option, none, some, List, [], ◌∷◌, ◌==◌, if◌then◌else◌,
}
use ti_am62x_evse_sdk.Link.Messages.{
  HighToLow, LowToHigh, set_pwm_tag, allow_power_on_tag, enable_tag, disable_tag, heartbeat_tag,
  pwm_state_on, pwm_state_off, pwm_state_f, event_tag,
}

-- `types::board_support::Event`, the constants that the module names.
pub data BoardEvent : Type 0 where
  car_plugged_in car_requested_power power_on power_off car_requested_stop_power : BoardEvent
  car_unplugged error_e error_df error_relais error_rcd : BoardEvent
  error_ventilation_not_available error_over_current ef_to_bcd bcd_to_ef : BoardEvent
  permanent_fault evse_replug_started evse_replug_finished : BoardEvent

-- The lambda `convert` of `handle_low_to_high_message`.
unfoldable pub of_wire : ℕ → BoardEvent
of_wire n =
    if n == 0
    then BoardEvent.car_plugged_in
    else if n == 1
    then BoardEvent.car_requested_power
    else if n == 4
    then BoardEvent.car_requested_stop_power
    else if n == 5
    then BoardEvent.car_unplugged
    else if n == 12
    then BoardEvent.ef_to_bcd
    else if n == 7
    then BoardEvent.error_df
    else if n == 6
    then BoardEvent.error_e
    else if n == 11
    then BoardEvent.error_over_current
    else if n == 9
    then BoardEvent.error_rcd
    else if n == 8
    then BoardEvent.error_relais
    else if n == 10
    then BoardEvent.error_ventilation_not_available
    else if n == 16
    then BoardEvent.evse_replug_finished
    else if n == 15
    then BoardEvent.evse_replug_started
    else if n == 13
    then BoardEvent.bcd_to_ef
    else if n == 14
    then BoardEvent.permanent_fault
    else if n == 3
    then BoardEvent.power_off
    else if n == 2
    then BoardEvent.power_on
    else BoardEvent.permanent_fault

-- What `handle_low_to_high_message` publishes, if anything.
unfoldable pub handle_low_to_high_message : LowToHigh → Option BoardEvent
handle_low_to_high_message msg =
    if msg.which_message == event_tag then some (of_wire msg.event) else none

-- The result of one `read` on the device: an error, or a packet.
pub data Read : Type 0 where
  input_error : Read
  packet : List ℕ → Read

abbrev pub publish : Option BoardEvent → List BoardEvent → List BoardEvent
publish none rest = rest
publish (some e) rest = e ∷ rest

-- A packet that was not decoded is logged and skipped.
unfoldable pub handle_decoded : Option LowToHigh → Option BoardEvent
handle_decoded none = none
handle_decoded (some msg) = handle_low_to_high_message msg

-- `decode` is `pb_decode` on the bytes that were read.
module _ (decode : List ℕ → Option LowToHigh) where
  -- The loop of `RPMsgLink::receive` over what the device returns, one `read` after the other: what
  -- is published. It ends at an error, which an empty packet counts as.
  unfoldable pub receive : List Read → List BoardEvent
  receive [] = []
  receive (input_error ∷ rest) = []
  receive (packet [] ∷ rest) = []
  receive (packet (byte ∷ bytes) ∷ rest) =
      publish (handle_decoded (decode (byte ∷ bytes))) (receive rest)

-- The commands of the interface board_support_AC that the module sends on.
module _ {A : Type 0} (zero_value : A) where
  -- `HighToLow_init_zero`
  abbrev pub init_zero : HighToLow A
  init_zero = record {
    which_message = 0;
    set_pwm = record { state = 0; duty_cycle = zero_value };
    allow_power_on = false;
  }

  unfoldable pub handle_enable : Bool → HighToLow A
  handle_enable value = record init_zero {
    which_message = if value then enable_tag else disable_tag;
  }

  -- `value` after the conversion from double to float.
  unfoldable pub handle_pwm_on : A → HighToLow A
  handle_pwm_on value = record init_zero {
    which_message = set_pwm_tag;
    set_pwm = record { state = pwm_state_on; duty_cycle = value };
  }

  unfoldable pub handle_pwm_off : HighToLow A
  handle_pwm_off = record init_zero {
    which_message = set_pwm_tag;
    set_pwm = record { state = pwm_state_off; duty_cycle = zero_value };
  }

  unfoldable pub handle_pwm_f : HighToLow A
  handle_pwm_f = record init_zero {
    which_message = set_pwm_tag;
    set_pwm = record { state = pwm_state_f; duty_cycle = zero_value };
  }

  unfoldable pub handle_allow_power_on : Bool → HighToLow A
  handle_allow_power_on value = record init_zero {
    which_message = allow_power_on_tag;
    allow_power_on = value;
  }

  -- The heartbeat of `setup_connection`; only its tag is set.
  unfoldable pub heartbeat : HighToLow A
  heartbeat = record init_zero { which_message = heartbeat_tag }
