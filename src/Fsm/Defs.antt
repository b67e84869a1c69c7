-- ===== src/Fsm/Defs.antt =====
-- firmware/lib/iec61851_fsm.cpp: the methods of `FSM` other than `run`, in the order of the source
-- file. A method is a function on the object with its hardware.
use ti_am62x_evse_sdk.Prelude.{
  ℕ, Bool, true, false, not, ◌&&◌, ◌||◌, Option, none, some, List, [], ◌∷◌, ◌==◌, if◌then◌else◌,
}
use ti_am62x_evse_sdk.Prelude.State.{State, pure, branch, ◌>>=◌, ◌>>◌}
use ti_am62x_evse_sdk.Prelude.Floats.{Floats}
use ti_am62x_evse_sdk.Hal.{Hal, Event, Command, CpSignal}
use ti_am62x_evse_sdk.Fsm.Types.{CpState, state_code, Fsm, Machine}
use ti_am62x_evse_sdk.Fsm.Countdown

abbrev pub is_state : CpState → CpState → Bool
is_state s t = state_code s == state_code t

-- `strcmp(code, "CH") == 0 || ...` on the two bytes of the code.
abbrev pub is_code : ℕ → ℕ → List ℕ → Bool
is_code x y (u ∷ v ∷ []) = u == x && v == y
is_code x y _ = false

abbrev pub countdown_pwm_stop_in_ms : ℕ
countdown_pwm_stop_in_ms = 6000

abbrev pub countdown_lock_check_in_ms : ℕ
countdown_lock_check_in_ms = 1000

abbrev pub countdown_overcurrent_in_ms : ℕ
countdown_overcurrent_in_ms = 7000

module _ (F : Floats) where
  open F use {Float, lt, add, sub, tenths, neg_tenths}

  -- `interval` is 1.1
  unfoldable pub is_voltage_in_range : Float → Float → Bool
  is_voltage_in_range voltage center =
      lt (sub center (tenths 11)) voltage && lt voltage (add center (tenths 11))

  -- What `read_cp_state` stores for a signal; `none` is `return false`.
  unfoldable pub decode_cp_state : Bool → CpState → CpSignal Float → Option CpState
  decode_cp_state pwm_running state cp =
      if not cp.valid
      then none
      else if is_state state CpState.disabled
      then some state
      else if pwm_running && not (is_voltage_in_range cp.low (neg_tenths 120))
      then if is_voltage_in_range cp.low (tenths 0) && is_voltage_in_range cp.high (tenths 0)
        then some CpState.e
        else if is_voltage_in_range (add cp.high cp.low) (tenths 0)
        then some CpState.df
        else none
      else if is_voltage_in_range cp.high (tenths 120)
      then some CpState.a
      else if is_voltage_in_range cp.high (tenths 90)
      then some CpState.b
      else if is_voltage_in_range cp.high (tenths 60)
      then some CpState.c
      else if is_voltage_in_range cp.high (tenths 30)
      then some CpState.d
      else if is_voltage_in_range cp.high (neg_tenths 120)
      then some CpState.f
      else none

module _ (F : Floats) (h : Hal F.Float) where
  open F use {Float, tenths}

  abbrev pub Method : Type 0 → Type 0
  Method = State (Machine Float h)

  abbrev pub ask : {A : Type 0} → State h.World A → Method A
  ask q m = ((q m.hal).0, record m { hal = (q m.hal).1 })

  abbrev pub call : Command Float → Method (Unit {0})
  call c m = (tt, record m { hal = h.exec c m.hal })

  abbrev pub push : Event → Method (Unit {0})
  push e = call (Command.push_event e)

  abbrev pub get : {A : Type 0} → (Fsm Float → A) → Method A
  get f m = (f m.fsm, m)

  abbrev pub modify : (Fsm Float → Fsm Float) → Method (Unit {0})
  modify f m = (tt, record m { fsm = f m.fsm })

  unfoldable pub start_pwm_stop : Method (Unit {0})
  unfolding Countdown.start
  start_pwm_stop = do
    c ← get (λ s. s.pwm_stop_countdown)
    c' ← ask (Countdown.start h c)
    modify (λ s. record s { pwm_stop_countdown = c' })

  unfoldable pub start_lock_check : Method (Unit {0})
  unfolding Countdown.start
  start_lock_check = do
    c ← get (λ s. s.lock_check_countdown)
    c' ← ask (Countdown.start h c)
    modify (λ s. record s { lock_check_countdown = c' })

  unfoldable pub set_pwm_off : Method (Unit {0})
  set_pwm_off = do
    call (Command.set_pwm (tenths 10))
    modify λ s. record s {
      pwm_duty_cycle = tenths 10;
      cur_pwm_running = false;
      power_on_allowed = false;
    }

  unfoldable pub set_pwm_on : Float → Method (Unit {0})
  set_pwm_on duty_cycle = do
    call (Command.set_pwm duty_cycle)
    modify λ s. record s { pwm_duty_cycle = duty_cycle; cur_pwm_running = true }

  unfoldable pub set_pwm_f : Method (Unit {0})
  set_pwm_f = do
    call (Command.set_pwm (tenths 0))
    modify λ s. record s {
      pwm_duty_cycle = tenths 0;
      cur_state = CpState.f;
      cur_pwm_running = false;
      power_on_allowed = false;
    }

  unfoldable pub enable : Method (Unit {0})
  unfolding set_pwm_off
  enable = do modify (λ s. record s { cur_state = CpState.a }); set_pwm_off; call Command.cp_enable

  unfoldable pub disable : Method (Unit {0})
  unfolding set_pwm_off
  disable = do
    modify (λ s. record s { cur_state = CpState.disabled })
    set_pwm_off
    call Command.cp_disable

  -- The assignment through the reference argument, and the returned value.
  unfoldable pub store_cp_state : Option CpState → Method Bool
  store_cp_state none = pure false
  store_cp_state (some t) = modify (λ s. record s { cur_state = t }) >> pure true

  -- `read_cp_state(cur_state)`
  unfoldable pub read_cp_state : Method Bool
  read_cp_state = do
    cp ← ask h.get_cp_signal
    state ← get (λ s. s.cur_state)
    running ← get (λ s. s.cur_pwm_running)
    store_cp_state (decode_cp_state F running state cp)

  unfoldable pub power_on : Method Bool
  unfolding start_lock_check
  power_on = do
    on ← ask h.switch_is_on
    branch on (pure true) do
      call Command.rcd_disable
      latch ← get (λ s. s.use_three_phases_latch)
      success ← ask (h.switch_on latch)
      push (if success then Event.power_on else Event.error_relais)
      call Command.rcd_enable
      call Command.lock
      start_lock_check
      pure success

  unfoldable pub power_off : Method Bool
  unfolding start_lock_check
  power_off = do
    on ← ask h.switch_is_on
    branch (not on) (pure true) do
      call Command.rcd_disable
      success ← ask h.switch_off
      push (if success then Event.power_off else Event.error_relais)
      call Command.unlock
      start_lock_check
      pure success

  unfoldable pub set_three_phases : Bool → Method (Unit {0})
  set_three_phases enabled = modify (λ s. record s { use_three_phases = enabled })

  unfoldable pub set_ventilation : Bool → Method (Unit {0})
  set_ventilation enabled = modify (λ s. record s { has_ventilation = enabled })

  unfoldable pub set_country_code : List ℕ → Method (Unit {0})
  set_country_code code = modify λ s. record s {
    rcd_reclosing_allowed = not (
        is_code b'C' b'H' code
        || is_code b'D' b'K' code
        || is_code b'G' b'B' code
        || is_code b'F' b'R' code);
  }

  unfoldable pub allow_power_on : Bool → Method (Unit {0})
  allow_power_on enabled = modify (λ s. record s { power_on_allowed = enabled })

  -- The members before the constructor's body runs; `simplified_mode` has no initialiser, so its
  -- value is whatever the memory held.
  unfoldable pub fresh : Bool → Fsm Float
  unfolding Countdown.new
  fresh junk = record {
    pwm_stop_countdown = Countdown.new h.ticks_per_ms countdown_pwm_stop_in_ms;
    lock_check_countdown = Countdown.new h.ticks_per_ms countdown_lock_check_in_ms;
    overcurrent_countdown = Countdown.new h.ticks_per_ms countdown_overcurrent_in_ms;
    cur_state = CpState.disabled;
    prev_state = CpState.disabled;
    power_on_allowed = false;
    rcd_reclosing_allowed = false;
    use_three_phases = true;
    use_three_phases_latch = true;
    has_ventilation = false;
    ventilated_charging_active = true;
    simplified_mode = junk;
    pwm_duty_cycle = tenths 0;
    cur_pwm_running = false;
    prev_pwm_running = false;
  }

  -- The constructor `FSM::FSM` on hardware in state `w`.
  unfoldable pub construct : Bool → h.World → Machine Float h
  unfolding fresh disable
  construct junk w =
      let body : Method (Unit {0}) = disable >> call Command.rcd_enable in
      (body (record { fsm = fresh junk; hal = w })).1
