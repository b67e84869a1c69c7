-- ===== src/Fsm/States.antt =====
-- firmware/lib/iec61851_fsm.cpp, `FSM::run`: only the signal sets `cur_state` during a run, and only
-- the end of the run sets `prev_state`.
use ti_am62x_evse_sdk.Prelude.{◌≡◌, ap, sym, ◌∙◌, Bool, true, false, Option, none, some}
use ti_am62x_evse_sdk.Prelude.State.{◌>>◌, when}
use ti_am62x_evse_sdk.Prelude.Floats.{Floats}
use ti_am62x_evse_sdk.Prelude.Frame.{Keeps}
use ti_am62x_evse_sdk.Hal.{Hal}
use ti_am62x_evse_sdk.Fsm.Types.{CpState, Fsm, Machine}
use ti_am62x_evse_sdk.Fsm.Defs.{Method, set_pwm_off, start_pwm_stop, read_cp_state, store_cp_state}
use ti_am62x_evse_sdk.Fsm.Run.{
  run_disabled, unplug, run_a, run_b, without_pwm, by_pwm, with_pwm_c, run_c, close_ventilated,
  report_ventilation, with_pwm_d, run_d, run_e, run_f, run_df, run_state, run_checks, run_switch,
  run,
}
use ti_am62x_evse_sdk.Fsm.Members.{OnMember, member-then, member_rules}

abbrev pub cur : {A : Type 0} → Fsm A → CpState
cur s = s.cur_state

abbrev pub prev_of : {A : Type 0} → Fsm A → CpState
prev_of s = s.prev_state

module _ (F : Floats) (h : Hal F.Float) where
  set_pwm_off-cur : Keeps (OnMember F h cur) (set_pwm_off F h)
  unfolding set_pwm_off
  set_pwm_off-cur = search (member_rules) depth 12

  unplug-cur : Keeps (OnMember F h cur) (unplug F h)
  unfolding unplug
  unplug-cur = search (member_rules) depth 14

  without_pwm-cur : Keeps (OnMember F h cur) (without_pwm F h)
  unfolding without_pwm start_pwm_stop
  without_pwm-cur = search (member_rules) depth 18

  pub run_state-cur : (s prev : CpState) → Keeps (OnMember F h cur) (run_state F h s prev)
  unfolding run_state run_disabled run_a run_b run_c run_d run_e run_f run_df with_pwm_c with_pwm_d
      close_ventilated report_ventilation by_pwm
  run_state-cur CpState.a prev = search (member_rules, set_pwm_off-cur, unplug-cur) depth 18
  run_state-cur CpState.c prev = search (member_rules, without_pwm-cur) depth 18
  run_state-cur CpState.d prev = search (member_rules, without_pwm-cur) depth 18
  run_state-cur CpState.e prev = search (member_rules, set_pwm_off-cur) depth 18
  run_state-cur _ prev = search (member_rules) depth 18

  run_checks-prev : Keeps (OnMember F h prev_of) (run_checks F h)
  unfolding run_checks
  run_checks-prev = search (member_rules) depth 14

  store_cp_state-prev : (o : Option CpState) → Keeps (OnMember F h prev_of) (store_cp_state F h o)
  unfolding store_cp_state
  store_cp_state-prev none = search (member_rules)
  store_cp_state-prev (some t) = search (member_rules)

  read_cp_state-prev : Keeps (OnMember F h prev_of) (read_cp_state F h)
  unfolding read_cp_state
  read_cp_state-prev = search (member_rules, store_cp_state-prev) depth 12

  -- The members when `run` comes to its `switch`.
  pub before-prev : Keeps (OnMember F h prev_of) (run_checks F h >> read_cp_state F h)
  before-prev = search (member-then, run_checks-prev, read_cp_state-prev)

  -- What `run` does before its `switch`; the result says whether the signal was readable.
  abbrev pub before : Method F h Bool
  before = run_checks F h >> read_cp_state F h

  pub run_readable :
      (m : Machine F.Float h)
      → (before m).0 ≡ true
      → (run F h m).1 ≡ (run_switch F h (before m).1).1
  unfolding run
  run_readable m e = ap (λ b. (when b (run_switch F h) (before m).1).1) e

  pub run_unreadable : (m : Machine F.Float h) → (before m).0 ≡ false → (run F h m).1 ≡ (before m).1
  unfolding run
  run_unreadable m e = ap (λ b. (when b (run_switch F h) (before m).1).1) e

  -- The transition that the `switch` sees is from the old state to the one that the run leaves.
  pub run_transition :
      (m : Machine F.Float h)
      → (before m).0 ≡ true
      → ((before m).1.fsm.prev_state ≡ m.fsm.prev_state)
        × ((before m).1.fsm.cur_state ≡ (run F h m).1.fsm.cur_state)
  unfolding run_switch
  run_transition m e = (
    (before-prev.step m).kept,
    sym (
        ap (λ n. n.fsm.cur_state) (run_readable m e)
        ∙ ((run_state-cur _ _).step (before m).1).kept),
  )
