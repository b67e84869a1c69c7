-- ===== src/Fsm/Types.antt =====
-- firmware/lib/iec61851_fsm.hpp: the states of the control pilot, and the object `FSM` with its
-- hardware.
use ti_am62x_evse_sdk.Prelude.{ℕ, Bool}
use ti_am62x_evse_sdk.Hal.{Hal}

pub data CpState : Type 0 where
  disabled a b c d e f df : CpState

-- `==` on `CPState`.
abbrev pub state_code : CpState → ℕ
state_code CpState.disabled = 0
state_code CpState.a = 1
state_code CpState.b = 2
state_code CpState.c = 3
state_code CpState.d = 4
state_code CpState.e = 5
state_code CpState.f = 6
state_code CpState.df = 7

pub record Countdown : Type 0 where
  pub period_in_ticks : ℕ
  pub ticks_at_start : ℕ
  pub running : Bool

-- The members of `class FSM`, less the references to the hardware and to the callback.
pub record Fsm (A : Type 0) : Type 0 where
  pub pwm_stop_countdown : Countdown
  pub lock_check_countdown : Countdown
  pub overcurrent_countdown : Countdown
  pub cur_state : CpState
  pub prev_state : CpState
  pub power_on_allowed : Bool
  pub rcd_reclosing_allowed : Bool
  pub use_three_phases : Bool
  pub use_three_phases_latch : Bool
  pub has_ventilation : Bool
  pub ventilated_charging_active : Bool
  pub simplified_mode : Bool
  pub pwm_duty_cycle : A
  pub cur_pwm_running : Bool
  pub prev_pwm_running : Bool

-- The object and the hardware that it refers to.
pub record Machine (A : Type 0) (h : Hal A) : Type 0 where
  pub fsm : Fsm A
  pub hal : h.World
