-- ===== src/Drivers.antt =====
-- firmware/bsp_drivers: power_switch.cpp, rcd.hpp, charger_lock.hpp and the methods of control_pilot.cpp
-- behind the hardware interface, as firmware/main.cpp puts them together.
pub mod Pin
use ti_am62x_evse_sdk.Prelude.{ℕ, Bool, true, false, not, ◌==◌}
use ti_am62x_evse_sdk.Prelude.State.{State}
use ti_am62x_evse_sdk.Prelude.Floats.{Floats}
use ti_am62x_evse_sdk.Hal.{Hal, Event, Command, CpSignal, Board, effect}

-- The driver of the pin that the switch hangs on.
pub record Gpio : Type 1 where
  pub World : Type 0
  pub set_dir_mode : World → World
  pub write_high : World → World
  pub write_low : World → World
  pub out_value_read : World → ℕ

module _ (g : Gpio) where
  unfoldable pub is_on : g.World → Bool
  is_on w = not (g.out_value_read w == 0)

  unfoldable pub on : Bool → g.World → Bool × g.World
  on use_three_phases w = let v = g.write_high w in (is_on v, v)

  unfoldable pub off : g.World → Bool × g.World
  off w = let v = g.write_low w in (not (is_on v), v)

  unfoldable pub reset_emergency_switch : g.World → Bool × g.World
  reset_emergency_switch w = (true, w)

  -- `PowerSwitch::PowerSwitch`
  unfoldable pub construct : g.World → g.World
  construct w = (off (g.set_dir_mode w)).1

-- The rest of the hardware: the PWM timer, the sampler, the clock and the link.
pub record Rest (A : Type 0) : Type 1 where
  pub World : Type 0
  pub set_pwm : A → World → World
  pub get_latest_cp_signal : State World (CpSignal A)
  pub get_ticks : State World ℕ
  pub send_event : Event → World → World
  pub ticks_per_ms : ℕ

module _ (F : Floats) (g : Gpio) (r : Rest F.Float) where
  -- `told` records what was asked of the parts that keep no state of their own.
  pub record Hardware : Type 0 where
    pub gpio : g.World
    pub rest : r.World
    pub told : Board F.Float

  -- The methods of the RCD and of the lock are empty; enabling and disabling the pilot sets its
  -- PWM.
  unfoldable pub command : Command F.Float → r.World → r.World
  command Command.cp_enable w = r.set_pwm (F.tenths 10) w
  command Command.cp_disable w = r.set_pwm (F.tenths 0) w
  command (Command.set_pwm x) w = r.set_pwm x w
  command (Command.push_event e) w = r.send_event e w
  command _ w = w

  -- `iec61851::HAL hal{...}`
  abbrev pub hal : Hal F.Float
  hal = record {
    World = Hardware;
    exec = λ c w. record w { rest = command c (w.rest); told = effect c (w.told) };
    rcd_got_fired = λ w. (false, w);
    switch_on = λ b w. ((on g b (w.gpio)).0, record w { gpio = (on g b (w.gpio)).1 });
    switch_off = λ w. ((off g (w.gpio)).0, record w { gpio = (off g (w.gpio)).1 });
    switch_is_on = λ w. (is_on g (w.gpio), w);
    switch_reset_emergency = λ w. (
      (reset_emergency_switch g (w.gpio)).0,
      record w { gpio = (reset_emergency_switch g (w.gpio)).1 },
    );
    get_cp_signal = λ w. (
      (r.get_latest_cp_signal (w.rest)).0,
      record w { rest = (r.get_latest_cp_signal (w.rest)).1 },
    );
    get_current_ticks =
        λ w. ((r.get_ticks (w.rest)).0, record w { rest = (r.get_ticks (w.rest)).1 });
    ticks_per_ms = r.ticks_per_ms;
  }
