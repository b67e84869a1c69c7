-- ===== src/Fsm/Calls.antt =====
-- firmware/lib/iec61851_fsm.hpp, the public methods of `FSM`: sequences of calls, and what they leave
-- of the reports of relay failures.
use ti_am62x_evse_sdk.Prelude.{◌≡◌, ◌≤◌, ℕ, Bool, true, false, List, [], ◌∷◌, arith}
use ti_am62x_evse_sdk.Prelude.Floats.{Floats}
use ti_am62x_evse_sdk.Prelude.Frame.{IsPreorder, Keeps}
use ti_am62x_evse_sdk.Hal.{Hal, Command, Board, IsLawful, effect}
use ti_am62x_evse_sdk.Fsm.Types.{CpState, Machine}
use ti_am62x_evse_sdk.Fsm.Power.{opened, closed}
use ti_am62x_evse_sdk.Fsm.Defs.{
  Method, set_pwm_on, set_pwm_off, set_pwm_f, enable, disable, allow_power_on, set_three_phases,
  set_ventilation, set_country_code,
}
use ti_am62x_evse_sdk.Fsm.Run.{
  run_disabled, unplug, run_a, run_b, without_pwm, by_pwm, with_pwm_c, run_c, close_ventilated,
  report_ventilation, with_pwm_d, run_d, run_e, run_f, run_df, run_state, run_checks, run_switch,
  run,
}
use ti_am62x_evse_sdk.Fsm.Opening.{failures, failures-push}
use ti_am62x_evse_sdk.Fsm.Frames.{
  OnBoard, board_rules, board-call, board-set_pwm_off, board-power_off, board-power_on,
}

-- A call of a public method that changes the object.
pub data Call (A : Type 0) : Type 0 where
  running : Call A
  pwm_on : A → Call A
  pwm_off pwm_f enabling disabling : Call A
  allowing three_phases ventilation : Bool → Call A
  country : List ℕ → Call A

-- No report of a failure is lost.
pub record Reporting {A : Type 0} (v w : Board A) : Type 0 where
  pub reported : failures v.sent ≤ failures w.sent

module _ {A : Type 0} where
  Reporting-IsPreorder : IsPreorder (Reporting {A = A})
  Reporting-IsPreorder = record {
    here = λ w. record { reported = omega arith };
    then = λ u v w p q. record { reported = omega (arith, p.reported, q.reported) };
  }

  Reporting-effect : (c : Command A) (w : Board A) → Reporting w (effect c w)
  Reporting-effect (Command.push_event e) w = record { reported = failures-push e w.sent }
  Reporting-effect _ w = record { reported = omega arith }

  Reporting-opened : (ok : Bool) (w : Board A) → w.relay ≡ true → Reporting w (opened ok w)
  Reporting-opened ok w e = record { reported = failures-push _ w.sent }

  Reporting-closed : (ok : Bool) (w : Board A) → w.relay ≡ false → Reporting w (closed ok w)
  Reporting-closed ok w e = record { reported = failures-push _ w.sent }

ruleset Reporting_rules = (
  Reporting-IsPreorder, Reporting-effect, Reporting-opened, Reporting-closed, board-call,
  board-set_pwm_off, board-power_off, board-power_on,
)

module _ (F : Floats) (h : Hal F.Float) where
  abbrev pub perform : Call F.Float → Method F h (Unit {0})
  perform running = run F h
  perform (pwm_on x) = set_pwm_on F h x
  perform pwm_off = set_pwm_off F h
  perform pwm_f = set_pwm_f F h
  perform enabling = enable F h
  perform disabling = disable F h
  perform (allowing b) = allow_power_on F h b
  perform (three_phases b) = set_three_phases F h b
  perform (ventilation b) = set_ventilation F h b
  perform (country code) = set_country_code F h code

  -- The object after the calls, made one after the other.
  abbrev pub after : List (Call F.Float) → Machine F.Float h → Machine F.Float h
  after [] m = m
  after (c ∷ cs) m = after cs (perform c m).1

module _ (F : Floats) (h : Hal F.Float) (L : IsLawful h) where
  abbrev pub Reports : {X : Type 0} → Method F h X → Type 0
  Reports = Keeps (OnBoard F h L Reporting)

  run_checks-Reports : Reports (run_checks F h)
  unfolding run_checks
  run_checks-Reports = search (board_rules, Reporting_rules) depth 14

  without_pwm-Reports : Reports (without_pwm F h)
  unfolding without_pwm
  without_pwm-Reports = search (board_rules, Reporting_rules) depth 14

  unplug-Reports : Reports (unplug F h)
  unfolding unplug
  unplug-Reports = search (board_rules, Reporting_rules) depth 14

  with_pwm_c-Reports : Reports (with_pwm_c F h)
  unfolding with_pwm_c
  with_pwm_c-Reports = search (board_rules, Reporting_rules) depth 14

  with_pwm_d-Reports : (prev : CpState) → Reports (with_pwm_d F h prev)
  unfolding with_pwm_d close_ventilated report_ventilation
  with_pwm_d-Reports prev = search (board_rules, Reporting_rules) depth 14

  run_state-Reports : (s prev : CpState) → Reports (run_state F h s prev)
  unfolding run_state run_disabled run_a run_b run_c run_d run_e run_f run_df by_pwm
  run_state-Reports CpState.a prev = search (board_rules, Reporting_rules, unplug-Reports) depth 14
  run_state-Reports CpState.c prev =
      search (board_rules, Reporting_rules, without_pwm-Reports, with_pwm_c-Reports) depth 14
  run_state-Reports CpState.d prev =
      search (board_rules, Reporting_rules, without_pwm-Reports, with_pwm_d-Reports) depth 14
  run_state-Reports _ prev = search (board_rules, Reporting_rules) depth 14

  run_switch-Reports : Reports (run_switch F h)
  unfolding run_switch
  run_switch-Reports = record {
    step = λ m. record {
      seen = record {
        reported = ((run_state-Reports m.fsm.cur_state m.fsm.prev_state).step m).seen.reported;
      };
    };
  }

  pub run-Reports : Reports (run F h)
  unfolding run
  run-Reports =
      search (board_rules, Reporting_rules, run_checks-Reports, run_switch-Reports) depth 12

  pub perform-Reports : (c : Call F.Float) → Reports (perform F h c)
  unfolding set_pwm_on set_pwm_f enable disable allow_power_on set_three_phases set_ventilation
      set_country_code
  perform-Reports running = run-Reports
  perform-Reports _ = search (board_rules, Reporting_rules) depth 12
