-- ===== src/Fsm/Opening.antt =====
-- firmware/lib/iec61851_fsm.cpp, `FSM::run`: when the contact is opened.
use ti_am62x_evse_sdk.Prelude.{
  ◌≡◌, ◌⊎◌, inl, inr, refl, ℕ, suc, ◌≤◌, ◌<◌, Bool, true, false, ◌||◌, List, [], ◌∷◌, Bool-cases,
  if◌then◌else◌, arith,
}
use ti_am62x_evse_sdk.Prelude.State.{State, when, ◌>>=◌, ◌>>◌}
use ti_am62x_evse_sdk.Prelude.Floats.{Floats}
use ti_am62x_evse_sdk.Prelude.Frame.{IsPreorder, Keeps}
use ti_am62x_evse_sdk.Hal.{Hal, Event, Command, Board, IsLawful, effect}
use ti_am62x_evse_sdk.Fsm.Types.{CpState, Machine}
use ti_am62x_evse_sdk.Fsm.Power.{opened, observe-power_off}
use ti_am62x_evse_sdk.Fsm.Defs.{is_state, power_off}
use ti_am62x_evse_sdk.Fsm.Run.{
  run_disabled, unplug, run_a, run_b, run_e, run_f, run_df, run_state, run_checks, run_switch, run,
}
use ti_am62x_evse_sdk.Fsm.States.{before, run_readable, run_transition}
use ti_am62x_evse_sdk.Fsm.Frames.{
  OnBoard, board_rules, board-call, board-set_pwm_off, board-power_off,
}

-- How many failures of the relay were reported.
abbrev pub failures : List Event → ℕ
failures [] = 0
failures (Event.error_relais ∷ es) = suc (failures es)
failures (_ ∷ es) = failures es

pub failures-push : (e : Event) (es : List Event) → failures es ≤ failures (e ∷ es)
failures-push Event.error_relais es = omega arith
failures-push _ es = omega arith

-- The transitions at which `run` leaves a closed contact alone.
abbrev pub is_resting : CpState → CpState → Bool
is_resting prev CpState.a =
    is_state prev CpState.a || is_state prev CpState.disabled || is_state prev CpState.f
is_resting prev CpState.b = is_state prev CpState.a || is_state prev CpState.b
is_resting prev CpState.c = true
is_resting prev CpState.d = true
is_resting prev _ = false

module _ {A : Type 0} where
  -- Nothing closes, and no report is lost.
  pub record Quiet (v w : Board A) : Type 0 where
    pub was_closed : w.relay ≡ true → v.relay ≡ true
    pub reported : failures v.sent ≤ failures w.sent

  -- The contact is open, or a failure was reported.
  pub record Opened (v w : Board A) : Type 0 where
    pub reported : w.relay ≡ true → failures v.sent < failures w.sent

  pub Quiet-IsPreorder : IsPreorder Quiet
  Quiet-IsPreorder = record {
    here = λ w. record { was_closed = λ e. e; reported = omega arith };
    then = λ u v w p q. record {
      was_closed = λ e. p.was_closed (q.was_closed e);
      reported = omega arith;
    };
  }

  pub Quiet-effect : (c : Command A) (w : Board A) → Quiet w (effect c w)
  Quiet-effect (Command.push_event e) w = record {
    was_closed = λ r. r;
    reported = failures-push e w.sent;
  }
  Quiet-effect _ w = record { was_closed = λ r. r; reported = omega arith }

  pub Quiet-opened : (ok : Bool) (w : Board A) → w.relay ≡ true → Quiet w (opened ok w)
  Quiet-opened true w e = record { was_closed = λ _. e; reported = omega arith }
  Quiet-opened false w e = record { was_closed = λ _. e; reported = omega arith }

  Opened-opened :
      (ok : Bool) (w : Board A) (r : Bool) → w.relay ≡ r → Opened w (if r then opened ok w else w)
  Opened-opened true w true e = record { reported = λ c. absurd (cc) }
  Opened-opened false w true e = record { reported = λ c. omega arith }
  Opened-opened ok w false e = record { reported = λ c. absurd (cc) }

pub ruleset Quiet_rules =
    (Quiet-IsPreorder, Quiet-effect, Quiet-opened, board-call, board-set_pwm_off, board-power_off)

module _ (F : Floats) (h : Hal F.Float) (L : IsLawful h) where
  open L use {observe}

  abbrev pub Opens : {X : Type 0} → State (Machine F.Float h) X → Type 0
  Opens = Keeps (OnBoard F h L Opened)

  abbrev IsQuiet : {X : Type 0} → State (Machine F.Float h) X → Type 0
  IsQuiet = Keeps (OnBoard F h L Quiet)

  pub Opens-power_off : Opens (power_off F h)
  Opens-power_off = record {
    step = λ m. record {
      seen =
          rw (observe-power_off F h L m)
            (Opened-opened (power_off F h m).0 (observe m.hal) (observe m.hal).relay refl);
    };
  }

  pub Opened-after :
      (m n o : Machine F.Float h)
      → OnBoard F h L Quiet m n
      → OnBoard F h L Opened n o
      → OnBoard F h L Opened m o
  Opened-after m n o q p = record {
    seen = record { reported = λ c. omega (arith, q.seen.reported, p.seen.reported c) };
  }

  Opened-before :
      (m n o : Machine F.Float h)
      → OnBoard F h L Opened m n
      → OnBoard F h L Quiet n o
      → OnBoard F h L Opened m o
  Opened-before m n o p q = record {
    seen = record {
      reported = λ c. omega (arith, q.seen.reported, p.seen.reported (q.seen.was_closed c));
    };
  }

  module _ {X Y : Type 0} where
    after_then :
        (f : State (Machine F.Float h) X) (k : State (Machine F.Float h) Y)
        → IsQuiet f
        → Opens k
        → Opens (f >> k)
    after_then f k q p = record { step = λ m. Opened-after m (f m).1 _ (q.step m) (p.step (f m).1) }

    before_then :
        (f : State (Machine F.Float h) X) (k : State (Machine F.Float h) Y)
        → Opens f
        → IsQuiet k
        → Opens (f >> k)
    before_then f k p q = record {
      step = λ m. Opened-before m (f m).1 _ (p.step m) (q.step (f m).1);
    }

    before_bind :
        (f : State (Machine F.Float h) X) (k : X → State (Machine F.Float h) Y)
        → Opens f
        → ((x : X) → IsQuiet (k x))
        → Opens (f >>= k)
    before_bind f k p q = record {
      step = λ m. Opened-before m (f m).1 _ (p.step m) ((q (f m).0).step (f m).1);
    }

  when-Opens : (f : State (Machine F.Float h) (Unit {0})) → Opens f → Opens (when true f)
  when-Opens f p = record { step = p.step }

ruleset opening = (after_then, before_then, before_bind, when-Opens, Opens-power_off)

module _ (F : Floats) (h : Hal F.Float) (L : IsLawful h) where
  open L use {observe}

  run_disabled-Opens : Opens F h L (run_disabled F h)
  unfolding run_disabled
  run_disabled-Opens = search (opening, board_rules, Quiet_rules) depth 12

  unplug-Opens : Opens F h L (unplug F h)
  unfolding unplug
  unplug-Opens = search (opening, board_rules, Quiet_rules) depth 14

  run_a-Opens : (prev : CpState) → is_resting prev CpState.a ≡ false → Opens F h L (run_a F h prev)
  unfolding run_a
  run_a-Opens CpState.b e = search (opening, unplug-Opens, board_rules, Quiet_rules) depth 12
  run_a-Opens CpState.c e = search (opening, unplug-Opens, board_rules, Quiet_rules) depth 12
  run_a-Opens CpState.d e = search (opening, unplug-Opens, board_rules, Quiet_rules) depth 12
  run_a-Opens CpState.e e = search (opening, unplug-Opens, board_rules, Quiet_rules) depth 12
  run_a-Opens CpState.df e = search (opening, unplug-Opens, board_rules, Quiet_rules) depth 12
  run_a-Opens _ e = cc

  -- The first statement of the case B.
  run_b-Opens : (prev : CpState) → is_resting prev CpState.b ≡ false → Opens F h L (run_b F h prev)
  unfolding run_b
  run_b-Opens CpState.a e = cc
  run_b-Opens CpState.b e = cc
  run_b-Opens _ e = search (opening, board_rules, Quiet_rules) depth 14

  run_e-Opens : (prev : CpState) → Opens F h L (run_e F h prev)
  unfolding run_e
  run_e-Opens prev = search (opening, board_rules, Quiet_rules) depth 14

  run_f-Opens : (prev : CpState) → Opens F h L (run_f F h prev)
  unfolding run_f
  run_f-Opens prev = search (opening, board_rules, Quiet_rules) depth 14

  run_df-Opens : (prev : CpState) → Opens F h L (run_df F h prev)
  unfolding run_df
  run_df-Opens prev = search (opening, board_rules, Quiet_rules) depth 14

  run_state-Opens :
      (s prev : CpState) → is_resting prev s ≡ false → Opens F h L (run_state F h s prev)
  unfolding run_state
  run_state-Opens CpState.disabled prev e = run_disabled-Opens
  run_state-Opens CpState.a prev e = run_a-Opens prev e
  run_state-Opens CpState.b prev e = run_b-Opens prev e
  run_state-Opens CpState.c prev e = absurd (cc)
  run_state-Opens CpState.d prev e = absurd (cc)
  run_state-Opens CpState.e prev e = run_e-Opens prev
  run_state-Opens CpState.f prev e = run_f-Opens prev
  run_state-Opens CpState.df prev e = run_df-Opens prev

  before-IsQuiet : IsQuiet F h L (before F h)
  unfolding run_checks
  before-IsQuiet = search (board_rules, Quiet_rules) depth 16

  switch_opens :
      (n : Machine F.Float h)
      → is_resting n.fsm.prev_state n.fsm.cur_state ≡ false
      → OnBoard F h L Opened n (run_switch F h n).1
  unfolding run_switch
  switch_opens n e = record {
    seen = ((run_state-Opens n.fsm.cur_state n.fsm.prev_state e).step n).seen;
  }

  -- Where a run could read the signal and the transition from the last state to the new one is
  -- none of those that leave the contact alone (to C or D, from A, Disabled or F to A, from A or
  -- B to B), the contact is open afterwards or a failure of the relay was reported during the run.
  pub relay-run_open :
      (m : Machine F.Float h)
      → (before F h m).0 ≡ true
      → is_resting m.fsm.prev_state (run F h m).1.fsm.cur_state ≡ false
      → ((observe (run F h m).1.hal).relay ≡ false)
        ⊎ (failures (observe m.hal).sent < failures (observe (run F h m).1.hal).sent)
  relay-run_open m readable rest = elim (Bool-cases (observe (run F h m).1.hal).relay) [
    | inl on ↦ inr (all.seen.reported on)
    | inr off ↦ inl off
  ]
    where
      n : Machine F.Float h
      n = (before F h m).1

      turn : is_resting n.fsm.prev_state n.fsm.cur_state ≡ false
      turn = rw ((run_transition F h m readable).0, (run_transition F h m readable).1) rest

      all : OnBoard F h L Opened m (run F h m).1
      all =
          rw (run_readable F h m readable)
            (Opened-after F h L m n _ (before-IsQuiet.step m) (switch_opens n turn))
