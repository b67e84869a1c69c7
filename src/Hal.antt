-- ===== src/Hal.antt =====
-- firmware/lib/iec61851_hal.hpp: the hardware interface of the state machine, and the events that
-- the state machine reports through its callback.
use ti_am62x_evse_sdk.Prelude.{◌≡◌, Bool, true, false, not, List, ◌∷◌, ℕ}

-- `enum class Event` of firmware/lib/iec61851_fsm.hpp
pub data Event : Type 0 where
  car_plugged_in car_requested_power power_on power_off car_requested_stop_power : Event
  car_unplugged error_e error_df error_relais error_rcd error_ventilation_not_available : Event
  error_over_current ef_to_bcd bcd_to_ef permanent_fault : Event
  evse_replug_started evse_replug_finished : Event

pub record CpSignal (A : Type 0) : Type 0 where
  pub valid : Bool
  pub high : A
  pub low : A

-- The calls that return nothing: those of `IRCD`, `IChargerLock` and `IControlPilot`, and the call
-- of the state machine's event callback.
pub data Command (A : Type 0) : Type 0 where
  rcd_enable rcd_disable rcd_reset : Command A
  lock unlock : Command A
  cp_enable cp_disable : Command A
  set_pwm : A → Command A
  push_event : Event → Command A

-- The hardware, over a state `World` of its own. A call that returns a value may change the state,
-- also one that only reads: time passes.
pub record Hal (A : Type 0) : Type 1 where
  pub World : Type 0
  pub exec : Command A → World → World
  pub rcd_got_fired : World → Bool × World
  pub switch_on : Bool → World → Bool × World
  pub switch_off : World → Bool × World
  pub switch_is_on : World → Bool × World
  pub switch_reset_emergency : World → Bool × World
  pub get_cp_signal : World → CpSignal A × World
  pub get_current_ticks : World → ℕ × World
  pub ticks_per_ms : ℕ

-- What can be seen of the hardware: the contact, the lock, the RCD, the last duty cycle, whether
-- the pilot was enabled, and the events reported, the latest first.
pub record Board (A : Type 0) : Type 0 where
  pub relay : Bool
  pub locked : Bool
  pub rcd_on : Bool
  pub duty : A
  pub pilot_on : Bool
  pub sent : List Event

abbrev pub effect : {A : Type 0} → Command A → Board A → Board A
effect rcd_enable w = record w { rcd_on = true }
effect rcd_disable w = record w { rcd_on = false }
effect rcd_reset w = w
effect lock w = record w { locked = true }
effect unlock w = record w { locked = false }
effect cp_enable w = record w { pilot_on = true }
effect cp_disable w = record w { pilot_on = false }
effect (set_pwm x) w = record w { duty = x }
effect (push_event e) w = record w { sent = e ∷ w.sent }

-- What the interface promises: a command has its effect and no other, a reading has none, and
-- `on` and `off` report truthfully whether the contact obeyed.
pub record IsLawful {A : Type 0} (h : Hal A) : Type 0 where
  pub observe : h.World → Board A
  pub observe-exec : (c : Command A) (w : h.World) → observe (h.exec c w) ≡ effect c (observe w)
  pub observe-fired : (w : h.World) → observe (h.rcd_got_fired w).1 ≡ observe w
  pub observe-is_on : (w : h.World) → observe (h.switch_is_on w).1 ≡ observe w
  pub observe-reset : (w : h.World) → observe (h.switch_reset_emergency w).1 ≡ observe w
  pub observe-signal : (w : h.World) → observe (h.get_cp_signal w).1 ≡ observe w
  pub observe-ticks : (w : h.World) → observe (h.get_current_ticks w).1 ≡ observe w
  pub is_on-relay : (w : h.World) → (h.switch_is_on w).0 ≡ (observe w).relay
  pub observe-on :
      (b : Bool) (w : h.World)
      → observe (h.switch_on b w).1 ≡ record (observe w) { relay = (h.switch_on b w).0 }
  pub observe-off :
      (w : h.World)
      → observe (h.switch_off w).1 ≡ record (observe w) { relay = not (h.switch_off w).0 }
