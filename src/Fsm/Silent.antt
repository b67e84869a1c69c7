-- ===== src/Fsm/Silent.antt =====
-- firmware/lib/iec61851_fsm.cpp, `FSM::run`: the parts that do not report the event BCD_To_EF.
use ti_am62x_evse_sdk.Prelude.{
  ◌≡◌, refl, ℕ, ◌+◌, Bool, true, false, not, ◌&&◌, List, [], ◌∷◌, if◌then◌else◌, Bool-cases, inl,
  inr, ap, ◌∙◌, arith,
}
use ti_am62x_evse_sdk.Prelude.State.{State}
use ti_am62x_evse_sdk.Prelude.Floats.{Floats}
use ti_am62x_evse_sdk.Prelude.Frame.{IsPreorder, Keeps}
use ti_am62x_evse_sdk.Hal.{Hal, Event, Command, Board, IsLawful, effect}
use ti_am62x_evse_sdk.Fsm.Types.{CpState, Machine}
use ti_am62x_evse_sdk.Fsm.Power.{opened, closed}
use ti_am62x_evse_sdk.Fsm.Run.{
  run_disabled, unplug, run_a, run_b, without_pwm, by_pwm, with_pwm_c, run_c, close_ventilated,
  report_ventilation, with_pwm_d, run_d, run_state, run_checks,
}
use ti_am62x_evse_sdk.Fsm.Frames.{
  OnBoard, board_rules, board-call, board-set_pwm_off, board-power_off, board-power_on,
}

abbrev pub is_entry : Event → Bool
is_entry Event.bcd_to_ef = true
is_entry _ = false

-- How often the entry into a fault was reported.
abbrev pub entries : List Event → ℕ
entries [] = 0
entries (e ∷ es) = (if is_entry e then 1 else 0) + entries es

-- The states of a fault.
abbrev pub is_fault : CpState → Bool
is_fault CpState.e = true
is_fault CpState.f = true
is_fault CpState.df = true
is_fault _ = false

abbrev pub is_other : {A : Type 0} → Command A → Bool
is_other (Command.push_event e) = not (is_entry e)
is_other _ = true

module _ {A : Type 0} where
  pub record Same (v w : Board A) : Type 0 where
    pub same : entries w.sent ≡ entries v.sent

  pub Same-IsPreorder : IsPreorder Same
  Same-IsPreorder = record {
    here = λ w. record { same = refl };
    then = λ u v w p q. record { same = omega (arith, p.same, q.same) };
  }

  pub Same-effect : (c : Command A) → is_other c ≡ true → (w : Board A) → Same w (effect c w)
  Same-effect (Command.push_event e) o w = record { same = ground (arith, o) }
  Same-effect _ o w = record { same = refl }

  pub Same-opened : (ok : Bool) (w : Board A) → w.relay ≡ true → Same w (opened ok w)
  Same-opened true w e = record { same = omega arith }
  Same-opened false w e = record { same = omega arith }

  pub Same-closed : (ok : Bool) (w : Board A) → w.relay ≡ false → Same w (closed ok w)
  Same-closed true w e = record { same = omega arith }
  Same-closed false w e = record { same = omega arith }

pub ruleset Same_rules = (
  Same-IsPreorder, Same-effect, Same-opened, Same-closed, board-call, board-set_pwm_off,
  board-power_off, board-power_on, refl,
)

module _ (F : Floats) (h : Hal F.Float) (L : IsLawful h) where
  abbrev pub Silent : {X : Type 0} → State (Machine F.Float h) X → Type 0
  Silent = Keeps (OnBoard F h L Same)

  pub run_checks-Silent : Silent (run_checks F h)
  unfolding run_checks
  run_checks-Silent = search (board_rules, Same_rules) depth 14

  without_pwm-Silent : Silent (without_pwm F h)
  unfolding without_pwm
  without_pwm-Silent = search (board_rules, Same_rules) depth 14

  unplug-Silent : Silent (unplug F h)
  unfolding unplug
  unplug-Silent = search (board_rules, Same_rules) depth 14

  with_pwm_c-Silent : Silent (with_pwm_c F h)
  unfolding with_pwm_c
  with_pwm_c-Silent = search (board_rules, Same_rules) depth 14

  with_pwm_d-Silent : (prev : CpState) → Silent (with_pwm_d F h prev)
  unfolding with_pwm_d close_ventilated report_ventilation
  with_pwm_d-Silent prev = search (board_rules, Same_rules) depth 14

  pub run_state-Silent : (s prev : CpState) → is_fault s ≡ false → Silent (run_state F h s prev)
  unfolding run_state run_disabled run_a run_b run_c run_d by_pwm
  run_state-Silent CpState.disabled prev e = search (board_rules, Same_rules) depth 14
  run_state-Silent CpState.a prev e = search (board_rules, Same_rules, unplug-Silent) depth 14
  run_state-Silent CpState.b prev e = search (board_rules, Same_rules) depth 14
  run_state-Silent CpState.c prev e =
      search (board_rules, Same_rules, without_pwm-Silent, with_pwm_c-Silent) depth 14
  run_state-Silent CpState.d prev e =
      search (board_rules, Same_rules, without_pwm-Silent, with_pwm_d-Silent) depth 14
  run_state-Silent _ prev e = absurd (cc)
