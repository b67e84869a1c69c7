-- ===== src/Fsm/Reading.antt =====
-- firmware/lib/iec61851_fsm.cpp, `FSM::run` and `FSM::read_cp_state`: the signal behind a run that
-- closes the contact.
use ti_am62x_evse_sdk.Prelude.{
  ◌≡◌, inl, inr, refl, sym, ap, ◌∙◌, Bool, true, false, Option, none, some, Bool-cases,
}
use ti_am62x_evse_sdk.Prelude.Floats.{Floats}
use ti_am62x_evse_sdk.Prelude.Frame.{Keeps}
use ti_am62x_evse_sdk.Hal.{Hal, CpSignal, IsLawful}
use ti_am62x_evse_sdk.Fsm.Types.{CpState, Machine, Fsm}
use ti_am62x_evse_sdk.Fsm.Defs.{decode_cp_state, store_cp_state, read_cp_state}
use ti_am62x_evse_sdk.Fsm.Run.{run_checks, run}
use ti_am62x_evse_sdk.Fsm.Frames.{OnBoard, board_rules}
use ti_am62x_evse_sdk.Fsm.Members.{OnMember, member_rules}
use ti_am62x_evse_sdk.Fsm.Contact.{NoClosing, NoClosing_rules, run_checks-NoClosing}
use ti_am62x_evse_sdk.Fsm.States.{before, run_unreadable, run_transition}
use ti_am62x_evse_sdk.Fsm.Licence.{MayClose, relay-run}

-- The members that the decision about the signal depends on.
pub record Mode : Type 0 where
  pub running : Bool
  pub state : CpState

abbrev pub mode : {A : Type 0} → Fsm A → Mode
mode s = record { running = s.cur_pwm_running; state = s.cur_state }

module _ (F : Floats) (h : Hal F.Float) where
  -- What is read of the signal by a run.
  abbrev pub signal_read : Machine F.Float h → CpSignal F.Float
  signal_read m = (h.get_cp_signal (run_checks F h m).1.hal).0

  run_checks-mode : Keeps (OnMember F h mode) (run_checks F h)
  unfolding run_checks
  run_checks-mode = search (member_rules) depth 14

  stored :
      (o : Option CpState) (m : Machine F.Float h)
      → (store_cp_state F h o m).0 ≡ true
      → o ≡ some (store_cp_state F h o m).1.fsm.cur_state
  unfolding store_cp_state
  stored none m e = absurd (cc)
  stored (some t) m e = refl

  before-signal :
      (m : Machine F.Float h)
      → (before F h m).0 ≡ true
      → decode_cp_state F m.fsm.cur_pwm_running m.fsm.cur_state (signal_read m)
        ≡ some (before F h m).1.fsm.cur_state
  unfolding read_cp_state
  before-signal m e =
      ap (λ k. decode_cp_state F k.running k.state (signal_read m))
        (sym (run_checks-mode.step m).kept)
      ∙ stored _ _ e

  module _ (L : IsLawful h) where
    open L use {observe}

    before-NoClosing : Keeps (OnBoard F h L NoClosing) (before F h)
    before-NoClosing = search (board_rules, NoClosing_rules, run_checks-NoClosing) depth 8

    -- A run that closes the contact decoded its signal as the state that it leaves.
    pub closing-signal :
        (m : Machine F.Float h)
        → (observe m.hal).relay ≡ false
        → (observe (run F h m).1.hal).relay ≡ true
        → decode_cp_state F m.fsm.cur_pwm_running m.fsm.cur_state (signal_read m)
          ≡ some (run F h m).1.fsm.cur_state
    closing-signal m off on = elim (Bool-cases (before F h m).0) [
      | inl readable ↦ before-signal m readable ∙ ap some (run_transition F h m readable).1
      | inr blind ↦
          let k : (observe (before F h m).1.hal).relay ≡ true =
            ap (λ n. (observe n.hal).relay) (sym (run_unreadable F h m blind)) ∙ on in
          let was = (before-NoClosing.step m).seen.was_closed k in absurd (cc (was, off))
    ]

    pub closing-members :
        (m : Machine F.Float h)
        → (observe m.hal).relay ≡ false
        → (observe (run F h m).1.hal).relay ≡ true
        → MayClose F h L (run F h m).1.fsm
    closing-members m off on = elim (relay-run F h L m on) [
      | inl was ↦ absurd (cc (was, off))
      | inr may ↦ may
    ]
