-- ===== src/Fsm/Faults.antt =====
-- firmware/lib/iec61851_fsm.cpp, `FSM::run`: when the event BCD_To_EF is reported.
use ti_am62x_evse_sdk.Prelude.{
  ◌≡◌, refl, ℕ, ◌+◌, Bool, true, false, ◌&&◌, if◌then◌else◌, Bool-cases, inl, inr, ap, arith,
}
use ti_am62x_evse_sdk.Prelude.State.{State, when, ◌>>=◌, ◌>>◌}
use ti_am62x_evse_sdk.Prelude.Floats.{Floats}
use ti_am62x_evse_sdk.Prelude.Frame.{Keeps}
use ti_am62x_evse_sdk.Hal.{Hal, Event, Command, Board, IsLawful}
use ti_am62x_evse_sdk.Fsm.Types.{CpState, Machine}
use ti_am62x_evse_sdk.Fsm.Defs.{push}
use ti_am62x_evse_sdk.Fsm.Run.{run_e, run_f, run_df, run_state, run_switch, run, is_bcd}
use ti_am62x_evse_sdk.Fsm.States.{before, run_readable, run_unreadable, run_transition}
use ti_am62x_evse_sdk.Fsm.Frames.{OnBoard, board_rules}
use ti_am62x_evse_sdk.Fsm.Silent.{
  entries, is_fault, Same_rules, Silent, run_checks-Silent, run_state-Silent,
}

abbrev pub one_if : Bool → ℕ
one_if b = if b then 1 else 0

record Once {A : Type 0} (v w : Board A) : Type 0 where
  once : entries w.sent ≡ 1 + entries v.sent

module _ (F : Floats) (h : Hal F.Float) (L : IsLawful h) where
  abbrev ReportingOnce : {X : Type 0} → State (Machine F.Float h) X → Type 0
  ReportingOnce = Keeps (OnBoard F h L Once)

  when_never : (f : State (Machine F.Float h) (Unit {0})) → Silent F h L (when false f)
  when_never f = record { step = λ m. record { seen = record { same = refl } } }

  when_once :
      (f : State (Machine F.Float h) (Unit {0})) → ReportingOnce f → ReportingOnce (when true f)
  when_once f p = record { step = p.step }

  push_once : ReportingOnce (push F h Event.bcd_to_ef)
  push_once = record {
    step = λ m. record {
      seen = record {
        once = rw (L.observe-exec (Command.push_event Event.bcd_to_ef) m.hal) (omega arith);
      };
    };
  }

  module _ {X Y : Type 0} where
    once_after :
        (f : State (Machine F.Float h) X) (k : State (Machine F.Float h) Y)
        → Silent F h L f
        → ReportingOnce k
        → ReportingOnce (f >> k)
    once_after f k q p = record {
      step = λ m. record {
        seen = record { once = omega (arith, (q.step m).seen.same, (p.step (f m).1).seen.once) };
      };
    }

    once_before :
        (f : State (Machine F.Float h) X) (k : State (Machine F.Float h) Y)
        → ReportingOnce f
        → Silent F h L k
        → ReportingOnce (f >> k)
    once_before f k p q = record {
      step = λ m. record {
        seen = record { once = omega (arith, (p.step m).seen.once, (q.step (f m).1).seen.same) };
      };
    }

    once_bind :
        (f : State (Machine F.Float h) X) (k : X → State (Machine F.Float h) Y)
        → Silent F h L f
        → ((x : X) → ReportingOnce (k x))
        → ReportingOnce (f >>= k)
    once_bind f k q p = record {
      step = λ m. record {
        seen = record {
          once = omega (arith, (q.step m).seen.same, ((p (f m).0).step (f m).1).seen.once);
        };
      };
    }

ruleset reporting = (when_never, when_once, push_once, once_after, once_before, once_bind)

module _ (F : Floats) (h : Hal F.Float) (L : IsLawful h) where
  run_state-Once :
      (s prev : CpState)
      → is_fault s ≡ true
      → is_bcd F h prev ≡ true
      → ReportingOnce F h L (run_state F h s prev)
  unfolding run_state run_e run_f run_df
  run_state-Once CpState.e CpState.b e p = search (reporting, board_rules, Same_rules) depth 14
  run_state-Once CpState.e CpState.c e p = search (reporting, board_rules, Same_rules) depth 14
  run_state-Once CpState.e CpState.d e p = search (reporting, board_rules, Same_rules) depth 14
  run_state-Once CpState.f CpState.b e p = search (reporting, board_rules, Same_rules) depth 14
  run_state-Once CpState.f CpState.c e p = search (reporting, board_rules, Same_rules) depth 14
  run_state-Once CpState.f CpState.d e p = search (reporting, board_rules, Same_rules) depth 14
  run_state-Once CpState.df CpState.b e p = search (reporting, board_rules, Same_rules) depth 14
  run_state-Once CpState.df CpState.c e p = search (reporting, board_rules, Same_rules) depth 14
  run_state-Once CpState.df CpState.d e p = search (reporting, board_rules, Same_rules) depth 14
  run_state-Once _ _ e p = absurd (cc)

  run_state-Stays :
      (s prev : CpState)
      → is_fault s ≡ true
      → is_bcd F h prev ≡ false
      → Silent F h L (run_state F h s prev)
  unfolding run_state run_e run_f run_df
  run_state-Stays CpState.e CpState.e e p = search (when_never, board_rules, Same_rules) depth 14
  run_state-Stays CpState.e CpState.b e p = absurd (cc)
  run_state-Stays CpState.e CpState.c e p = absurd (cc)
  run_state-Stays CpState.e CpState.d e p = absurd (cc)
  run_state-Stays CpState.e _ e p = search (when_never, board_rules, Same_rules) depth 14
  run_state-Stays CpState.f CpState.b e p = absurd (cc)
  run_state-Stays CpState.f CpState.c e p = absurd (cc)
  run_state-Stays CpState.f CpState.d e p = absurd (cc)
  run_state-Stays CpState.f _ e p = search (when_never, board_rules, Same_rules) depth 14
  run_state-Stays CpState.df CpState.b e p = absurd (cc)
  run_state-Stays CpState.df CpState.c e p = absurd (cc)
  run_state-Stays CpState.df CpState.d e p = absurd (cc)
  run_state-Stays CpState.df _ e p = search (when_never, board_rules, Same_rules) depth 14
  run_state-Stays _ _ e p = absurd (cc)

  open L use {observe}

  abbrev reports : Machine F.Float h → ℕ
  reports m = entries (observe m.hal).sent

  -- The transition from a connected car to a fault.
  abbrev pub enters_fault : CpState → CpState → Bool
  enters_fault prev s = is_bcd F h prev && is_fault s

  run_state-reports :
      (s prev : CpState) (m : Machine F.Float h)
      → reports (run_state F h s prev m).1 ≡ one_if (enters_fault prev s) + reports m
  run_state-reports s prev m = elim (Bool-cases (is_fault s)) [
    | inr calm ↦
        let k = ((run_state-Silent F h L s prev calm).step m).seen.same in ground (arith, calm, k)
    | inl fault ↦ elim (Bool-cases (is_bcd F h prev)) [
      | inl bcd ↦
          let k = ((run_state-Once s prev fault bcd).step m).seen.once in
          ground (arith, fault, bcd, k)
      | inr other ↦
          let k = ((run_state-Stays s prev fault other).step m).seen.same in
          ground (arith, fault, other, k)
    ]
  ]

  run_switch-reports :
      (n : Machine F.Float h)
      → reports (run_switch F h n).1
        ≡ one_if (enters_fault n.fsm.prev_state n.fsm.cur_state) + reports n
  unfolding run_switch
  run_switch-reports n = run_state-reports n.fsm.cur_state n.fsm.prev_state n

  before-Silent : Silent F h L (before F h)
  before-Silent = search (board_rules, Same_rules, run_checks-Silent) depth 8

  -- A run reports BCD_To_EF exactly once where it could read the signal and the transition is from
  -- B, C or D to E, F or DF, and not at all otherwise.
  pub entries-run :
      (m : Machine F.Float h)
      → entries (observe (run F h m).1.hal).sent
        ≡ one_if ((before F h m).0 && enters_fault m.fsm.prev_state (run F h m).1.fsm.cur_state)
          + entries (observe m.hal).sent
  entries-run m = elim (Bool-cases (before F h m).0) [
    | inr blind ↦
        rw (run_unreadable F h m blind)
          (simp blind (omega (arith, (before-Silent.step m).seen.same)))
    | inl readable ↦
        let n = (before F h m).1 in
        let t = run_transition F h m readable in
        let k : one_if (enters_fault n.fsm.prev_state n.fsm.cur_state)
            ≡ one_if
                ((before F h m).0 && enters_fault m.fsm.prev_state (run F h m).1.fsm.cur_state) =
          rw (readable, t.0, t.1) refl in
        omega (
          arith,
          k,
          run_switch-reports n,
          ap reports (run_readable F h m readable),
          (before-Silent.step m).seen.same,
        )
  ]
