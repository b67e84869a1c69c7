-- ===== src/Fsm/Contact.antt =====
-- firmware/lib/iec61851_fsm.cpp, `FSM::run`: the parts that never close the contact.
use ti_am62x_evse_sdk.Prelude.{◌≡◌, Bool, true, arith}
use ti_am62x_evse_sdk.Prelude.Floats.{Floats}
use ti_am62x_evse_sdk.Prelude.Frame.{IsPreorder, Keeps}
use ti_am62x_evse_sdk.Hal.{Hal, Command, Board, IsLawful, effect}
use ti_am62x_evse_sdk.Fsm.Types.{CpState}
use ti_am62x_evse_sdk.Fsm.Run.{
  run_disabled, unplug, run_a, run_b, without_pwm, run_e, run_f, run_df, run_checks,
}
use ti_am62x_evse_sdk.Fsm.Power.{opened}
use ti_am62x_evse_sdk.Fsm.Frames.{
  OnBoard, board_rules, board-call, board-set_pwm_off, board-power_off,
}

module _ {A : Type 0} where
  -- The contact is closed after only if it was closed before.
  pub record NoClosing (v w : Board A) : Type 0 where
    pub was_closed : w.relay ≡ true → v.relay ≡ true

  pub NoClosing-IsPreorder : IsPreorder NoClosing
  NoClosing-IsPreorder = record {
    here = λ w. record { was_closed = λ e. e };
    then = λ u v w p q. record { was_closed = λ e. p.was_closed (q.was_closed e) };
  }

  pub NoClosing-effect : (c : Command A) (w : Board A) → NoClosing w (effect c w)
  NoClosing-effect c w = record { was_closed = ground arith }

  pub NoClosing-opened : (ok : Bool) (w : Board A) → w.relay ≡ true → NoClosing w (opened ok w)
  NoClosing-opened ok w e = record { was_closed = λ _. e }

pub ruleset NoClosing_rules = (
  NoClosing-IsPreorder, NoClosing-effect, NoClosing-opened, board-call, board-set_pwm_off,
  board-power_off,
)

module _ (F : Floats) (h : Hal F.Float) (L : IsLawful h) where
  -- The rules of `search` below are those of `Frames`, at the relation `NoClosing`.
  pub run_checks-NoClosing : Keeps (OnBoard F h L NoClosing) (run_checks F h)
  unfolding run_checks
  run_checks-NoClosing = search (board_rules, NoClosing_rules) depth 14

  pub run_disabled-NoClosing : Keeps (OnBoard F h L NoClosing) (run_disabled F h)
  unfolding run_disabled
  run_disabled-NoClosing = search (board_rules, NoClosing_rules) depth 12

  unplug-NoClosing : Keeps (OnBoard F h L NoClosing) (unplug F h)
  unfolding unplug
  unplug-NoClosing = search (board_rules, NoClosing_rules) depth 14

  pub run_a-NoClosing : (prev : CpState) → Keeps (OnBoard F h L NoClosing) (run_a F h prev)
  unfolding run_a
  run_a-NoClosing prev = search (board_rules, NoClosing_rules, unplug-NoClosing) depth 12

  pub run_b-NoClosing : (prev : CpState) → Keeps (OnBoard F h L NoClosing) (run_b F h prev)
  unfolding run_b
  run_b-NoClosing prev = search (board_rules, NoClosing_rules) depth 14

  pub without_pwm-NoClosing : Keeps (OnBoard F h L NoClosing) (without_pwm F h)
  unfolding without_pwm
  without_pwm-NoClosing = search (board_rules, NoClosing_rules) depth 14

  pub run_e-NoClosing : (prev : CpState) → Keeps (OnBoard F h L NoClosing) (run_e F h prev)
  unfolding run_e
  run_e-NoClosing prev = search (board_rules, NoClosing_rules) depth 12

  pub run_f-NoClosing : (prev : CpState) → Keeps (OnBoard F h L NoClosing) (run_f F h prev)
  unfolding run_f
  run_f-NoClosing prev = search (board_rules, NoClosing_rules) depth 12

  pub run_df-NoClosing : (prev : CpState) → Keeps (OnBoard F h L NoClosing) (run_df F h prev)
  unfolding run_df
  run_df-NoClosing prev = search (board_rules, NoClosing_rules) depth 12
