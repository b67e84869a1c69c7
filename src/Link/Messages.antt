-- ===== src/Link/Messages.antt =====
-- firmware/pb_codec: the messages of high_to_low.pb.h and low_to_high.pb.h. A message is its tag
-- and its union; the model keeps one value for each use of the union.
use ti_am62x_evse_sdk.Prelude.{ℕ, Bool}

-- `enum PWMState`; a received value need not be one of the three, so a message carries a number.
abbrev pub pwm_state_on : ℕ
pwm_state_on = 0

abbrev pub pwm_state_off : ℕ
pwm_state_off = 1

abbrev pub pwm_state_f : ℕ
pwm_state_f = 2

abbrev pub set_pwm_tag : ℕ
set_pwm_tag = 1

abbrev pub allow_power_on_tag : ℕ
allow_power_on_tag = 2

abbrev pub enable_tag : ℕ
enable_tag = 3

abbrev pub disable_tag : ℕ
disable_tag = 4

abbrev pub heartbeat_tag : ℕ
heartbeat_tag = 5

pub record SetPwm (A : Type 0) : Type 0 where
  pub state : ℕ
  pub duty_cycle : A

pub record HighToLow (A : Type 0) : Type 0 where
  pub which_message : ℕ
  pub set_pwm : SetPwm A
  pub allow_power_on : Bool

abbrev pub event_tag : ℕ
event_tag = 1

-- The last constant of `enum IEC61851Event`.
abbrev pub evse_replug_finished : ℕ
evse_replug_finished = 16

abbrev pub mcu_heartbeat_tag : ℕ
mcu_heartbeat_tag = 2

pub record LowToHigh : Type 0 where
  pub which_message : ℕ
  pub event : ℕ
