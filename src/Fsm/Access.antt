-- ===== src/Fsm/Access.antt =====
-- firmware/lib/iec61851_fsm.cpp: the methods of `FSM` as sequences of accesses to the hardware. What
-- every access keeps, every method keeps.
use ti_am62x_evse_sdk.Prelude.{Bool, Option, none, some, inl, inr, Bool-cases}
use ti_am62x_evse_sdk.Prelude.State.{State, pure, branch, when, ◌>>=◌, ◌>>◌}
use ti_am62x_evse_sdk.Prelude.Floats.{Floats}
use ti_am62x_evse_sdk.Prelude.Frame.{
  IsPreorder, Keeps, Keeps-pure, Keeps->>=, Keeps->>, Keeps-when, Keeps-branch,
}
use ti_am62x_evse_sdk.Hal.{Hal, Command}
use ti_am62x_evse_sdk.Fsm.Types.{CpState, Countdown, Machine, Fsm}
use ti_am62x_evse_sdk.Fsm.Countdown
use ti_am62x_evse_sdk.Fsm.Defs.{
  ask, call, get, modify, start_lock_check, start_pwm_stop, power_on, power_off, read_cp_state,
  store_cp_state, set_pwm_off, set_pwm_on, set_pwm_f, enable, disable, allow_power_on, fresh,
  construct,
}
use ti_am62x_evse_sdk.Fsm.Run.{
  run_disabled, unplug, run_a, run_b, without_pwm, by_pwm, with_pwm_c, run_c, close_ventilated,
  report_ventilation, with_pwm_d, run_d, run_e, run_f, run_df, run_state, run_checks, run_switch,
  run,
}

-- A condition on the hardware before and after, which no access to the hardware breaks.
pub record IsKept {A : Type 0} (h : Hal A) (R : h.World → h.World → Type 0) : Type 0 where
  pub order : IsPreorder R
  pub by_exec : (c : Command A) (w : h.World) → R w (h.exec c w)
  pub by_fired : (w : h.World) → R w (h.rcd_got_fired w).1
  pub by_on : (b : Bool) (w : h.World) → R w (h.switch_on b w).1
  pub by_off : (w : h.World) → R w (h.switch_off w).1
  pub by_is_on : (w : h.World) → R w (h.switch_is_on w).1
  pub by_reset : (w : h.World) → R w (h.switch_reset_emergency w).1
  pub by_signal : (w : h.World) → R w (h.get_cp_signal w).1
  pub by_ticks : (w : h.World) → R w (h.get_current_ticks w).1

module _ (F : Floats) (h : Hal F.Float) (R : h.World → h.World → Type 0) where
  pub record OnHal (m n : Machine F.Float h) : Type 0 where
    pub hardware : R m.hal n.hal

module _ (F : Floats) (h : Hal F.Float) {R : h.World → h.World → Type 0} (K : IsKept h R) where
  abbrev pub Kept : {X : Type 0} → State (Machine F.Float h) X → Type 0
  Kept = Keeps (OnHal F h R)

  OnHal-IsPreorder : IsPreorder (OnHal F h R)
  OnHal-IsPreorder = record {
    here = λ m. record { hardware = K.order.here m.hal };
    then = λ m n o p q. record { hardware = K.order.then m.hal n.hal o.hal p.hardware q.hardware };
  }

  pub Kept-pure : {X : Type 0} (x : X) → Kept (pure {S = Machine F.Float h} x)
  Kept-pure x = Keeps-pure OnHal-IsPreorder x

  pub Kept-bind :
      {X Y : Type 0} (f : State (Machine F.Float h) X) (k : X → State (Machine F.Float h) Y)
      → Kept f
      → ((x : X) → Kept (k x))
      → Kept (f >>= k)
  Kept-bind = Keeps->>= OnHal-IsPreorder

  pub Kept-then :
      {X Y : Type 0} (f : State (Machine F.Float h) X) (k : State (Machine F.Float h) Y)
      → Kept f
      → Kept k
      → Kept (f >> k)
  Kept-then = Keeps->> OnHal-IsPreorder

  pub Kept-when : (b : Bool) (f : State (Machine F.Float h) (Unit {0})) → Kept f → Kept (when b f)
  Kept-when = Keeps-when OnHal-IsPreorder

  pub Kept-branch :
      {X : Type 0} (b : Bool) (f k : State (Machine F.Float h) X)
      → Kept f
      → Kept k
      → Kept (branch b f k)
  Kept-branch = Keeps-branch OnHal-IsPreorder

  pub Kept-get : {X : Type 0} (f : Fsm F.Float → X) → Kept (get F h f)
  Kept-get f = record { step = λ m. record { hardware = K.order.here m.hal } }

  pub Kept-modify : (f : Fsm F.Float → Fsm F.Float) → Kept (modify F h f)
  Kept-modify f = record { step = λ m. record { hardware = K.order.here m.hal } }

  pub Kept-call : (c : Command F.Float) → Kept (call F h c)
  Kept-call c = record { step = λ m. record { hardware = K.by_exec c m.hal } }

  Kept-ask : {X : Type 0} (q : State h.World X) → ((w : h.World) → R w (q w).1) → Kept (ask F h q)
  Kept-ask q e = record { step = λ m. record { hardware = e m.hal } }

  pub Kept-fired : Kept (ask F h h.rcd_got_fired)
  Kept-fired = Kept-ask _ K.by_fired

  pub Kept-is_on : Kept (ask F h h.switch_is_on)
  Kept-is_on = Kept-ask _ K.by_is_on

  pub Kept-reset : Kept (ask F h h.switch_reset_emergency)
  Kept-reset = Kept-ask _ K.by_reset

  pub Kept-off : Kept (ask F h h.switch_off)
  Kept-off = Kept-ask _ K.by_off

  pub Kept-on : (b : Bool) → Kept (ask F h (h.switch_on b))
  Kept-on b = Kept-ask _ (K.by_on b)

  pub Kept-signal : Kept (ask F h h.get_cp_signal)
  Kept-signal = Kept-ask _ K.by_signal

  pub Kept-elapsed : (c : Countdown) → Kept (ask F h (Countdown.elapsed h c))
  unfolding Countdown.elapsed
  Kept-elapsed c = elim (Bool-cases c.running) [
    | inl e ↦ rw e (Kept-ask _ K.by_ticks)
    | inr e ↦ rw e (Kept-ask _ K.order.here)
  ]

  pub Kept-start : (c : Countdown) → Kept (ask F h (Countdown.start h c))
  unfolding Countdown.start
  Kept-start c = Kept-ask _ K.by_ticks

-- The rules of every condition that the accesses keep.
pub ruleset access_rules = (
  Kept-pure, Kept-bind, Kept-then, Kept-when, Kept-branch, Kept-get, Kept-modify, Kept-call,
  Kept-fired, Kept-is_on, Kept-reset, Kept-off, Kept-on, Kept-signal, Kept-elapsed, Kept-start,
)

module _ (F : Floats) (h : Hal F.Float) {R : h.World → h.World → Type 0} (K : IsKept h R) where
  store_cp_state-Kept : (o : Option CpState) → Kept F h K (store_cp_state F h o)
  unfolding store_cp_state
  store_cp_state-Kept none = search (access_rules)
  store_cp_state-Kept (some t) = search (access_rules)

  pub read_cp_state-Kept : Kept F h K (read_cp_state F h)
  unfolding read_cp_state
  read_cp_state-Kept = search (access_rules, store_cp_state-Kept) depth 10

  start_lock_check-Kept : Kept F h K (start_lock_check F h)
  unfolding start_lock_check
  start_lock_check-Kept = search (access_rules) depth 8

  start_pwm_stop-Kept : Kept F h K (start_pwm_stop F h)
  unfolding start_pwm_stop
  start_pwm_stop-Kept = search (access_rules) depth 8

  power_on-Kept : Kept F h K (power_on F h)
  unfolding power_on
  power_on-Kept = search (access_rules, start_lock_check-Kept) depth 14

  power_off-Kept : Kept F h K (power_off F h)
  unfolding power_off
  power_off-Kept = search (access_rules, start_lock_check-Kept) depth 14

  pub set_pwm_off-Kept : Kept F h K (set_pwm_off F h)
  unfolding set_pwm_off
  set_pwm_off-Kept = search (access_rules)

  unplug-Kept : Kept F h K (unplug F h)
  unfolding unplug
  unplug-Kept = search (access_rules, power_off-Kept) depth 12

  without_pwm-Kept : Kept F h K (without_pwm F h)
  unfolding without_pwm
  without_pwm-Kept = search (access_rules, power_off-Kept, start_pwm_stop-Kept) depth 12

  with_pwm_c-Kept : Kept F h K (with_pwm_c F h)
  unfolding with_pwm_c
  with_pwm_c-Kept = search (access_rules, power_on-Kept) depth 12

  with_pwm_d-Kept : (prev : CpState) → Kept F h K (with_pwm_d F h prev)
  unfolding with_pwm_d close_ventilated report_ventilation
  with_pwm_d-Kept prev = search (access_rules, power_on-Kept) depth 12

  run_state-Kept : (s prev : CpState) → Kept F h K (run_state F h s prev)
  unfolding run_state run_disabled run_a run_b run_c run_d run_e run_f run_df by_pwm
  run_state-Kept CpState.a prev = search (access_rules, set_pwm_off-Kept, unplug-Kept) depth 12
  run_state-Kept CpState.c prev = search (access_rules, without_pwm-Kept, with_pwm_c-Kept) depth 12
  run_state-Kept CpState.d prev = search (access_rules, without_pwm-Kept, with_pwm_d-Kept) depth 12
  run_state-Kept CpState.e prev = search (access_rules, set_pwm_off-Kept, power_off-Kept) depth 12
  run_state-Kept _ prev = search (access_rules, power_off-Kept) depth 12

  pub run_checks-Kept : Kept F h K (run_checks F h)
  unfolding run_checks
  run_checks-Kept = search (access_rules) depth 12

  run_switch-Kept : Kept F h K (run_switch F h)
  unfolding run_switch
  run_switch-Kept = record {
    step = λ m. record {
      hardware = ((run_state-Kept m.fsm.cur_state m.fsm.prev_state).step m).hardware;
    };
  }

  pub run-Kept : Kept F h K (run F h)
  unfolding run
  run-Kept = search (access_rules, run_checks-Kept, read_cp_state-Kept, run_switch-Kept) depth 8

  pub set_pwm_on-Kept : (x : F.Float) → Kept F h K (set_pwm_on F h x)
  unfolding set_pwm_on
  set_pwm_on-Kept x = search (access_rules)

  pub set_pwm_f-Kept : Kept F h K (set_pwm_f F h)
  unfolding set_pwm_f
  set_pwm_f-Kept = search (access_rules)

  pub enable-Kept : Kept F h K (enable F h)
  unfolding enable
  enable-Kept = search (access_rules, set_pwm_off-Kept)

  pub disable-Kept : Kept F h K (disable F h)
  unfolding disable
  disable-Kept = search (access_rules, set_pwm_off-Kept)

  pub allow_power_on-Kept : (b : Bool) → Kept F h K (allow_power_on F h b)
  unfolding allow_power_on
  allow_power_on-Kept b = search (access_rules)

  pub construct-Kept : (junk : Bool) (w : h.World) → R w (construct F h junk w).hal
  unfolding construct
  construct-Kept junk w =
      K.order.then w _ _ ((disable-Kept.step (record { fsm = fresh F h junk; hal = w })).hardware)
        (K.by_exec Command.rcd_enable _)
