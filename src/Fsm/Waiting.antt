-- ===== src/Fsm/Waiting.antt =====
-- firmware/lib/iec61851_fsm.cpp, `FSM::run`: the cases C and D without PWM, up to the test of the
-- timer and after it.
use ti_am62x_evse_sdk.Prelude.{
  ◌≡◌, ◌⊎◌, inl, inr, ap, ◌∙◌, arith, Option, none, some, Bool, true, false, not, ◌||◌,
}
use ti_am62x_evse_sdk.Prelude.State.{pure, branch, when, ◌>>=◌, ◌>>◌}
use ti_am62x_evse_sdk.Prelude.Floats.{Floats}
use ti_am62x_evse_sdk.Prelude.Frame.{Keeps}
use ti_am62x_evse_sdk.Hal.{Hal, Event, IsLawful}
use ti_am62x_evse_sdk.Fsm.Types.{CpState, Countdown, Machine, Fsm}
use ti_am62x_evse_sdk.Fsm.Countdown
use ti_am62x_evse_sdk.Fsm.Defs.{
  is_state, Method, ask, push, get, modify, read_cp_state, store_cp_state, power_off,
}
use ti_am62x_evse_sdk.Fsm.Run.{
  without_pwm, by_pwm, run_c, run_d, run_state, run_checks, run_switch, run, with_pwm_c, with_pwm_d,
  latch,
}
use ti_am62x_evse_sdk.Fsm.Frames.{OnBoard, board_rules}
use ti_am62x_evse_sdk.Fsm.Members.{OnMember, member_rules}
use ti_am62x_evse_sdk.Fsm.States.{before, run_readable}
use ti_am62x_evse_sdk.Fsm.Opening.{Quiet, Quiet_rules}
use ti_am62x_evse_sdk.Fsm.Clock.{IsClock, Passes, clock_rules}

-- The members that the timer's test depends on.
abbrev pub timing : {A : Type 0} → Fsm A → Countdown × Bool × Bool
timing s = (s.pwm_stop_countdown, s.cur_pwm_running, s.prev_pwm_running)

module _ (F : Floats) (h : Hal F.Float) where
  -- What the cases C and D do before they look at the PWM.
  abbrev pub prelude_c : CpState → Method F h (Unit {0})
  prelude_c prev = do
    when (is_state prev CpState.a)
        do push F h Event.car_plugged_in; modify F h (λ s. record s { simplified_mode = true })
    when (is_state prev CpState.b) (push F h Event.car_requested_power)
    when (is_state prev CpState.e || is_state prev CpState.f) (push F h Event.ef_to_bcd)

  abbrev prelude_d : CpState → Method F h (Unit {0})
  prelude_d prev = do
    when (is_state prev CpState.a) do
      push F h Event.car_plugged_in
      push F h Event.car_requested_power
      modify F h (λ s. record s { simplified_mode = true })
    when (is_state prev CpState.b) (push F h Event.car_requested_power)
    when (is_state prev CpState.e || is_state prev CpState.f) (push F h Event.ef_to_bcd)

  -- `without_pwm` from the timer's test on.
  abbrev pub test_timer : Method F h (Unit {0})
  test_timer = do
    c ← get F h (λ s. s.pwm_stop_countdown)
    expired ← ask F h (Countdown.elapsed h c)
    when expired do _ ← power_off F h; pure tt

  run_c-idle :
      (prev : CpState) (m : Machine F.Float h)
      → (prelude_c prev m).1.fsm.cur_pwm_running ≡ false
      → (run_c F h prev m).1 ≡ (without_pwm F h (prelude_c prev m).1).1
  unfolding run_c by_pwm
  run_c-idle prev m e =
      ap (λ b. (branch (not b) (without_pwm F h) (with_pwm_c F h) (prelude_c prev m).1).1) e

  run_d-idle :
      (prev : CpState) (m : Machine F.Float h)
      → (prelude_d prev m).1.fsm.cur_pwm_running ≡ false
      → (run_d F h prev m).1 ≡ (without_pwm F h (prelude_d prev m).1).1
  unfolding run_d by_pwm
  run_d-idle prev m e =
      ap (λ b. (branch (not b) (without_pwm F h) (with_pwm_d F h prev) (prelude_d prev m).1).1) e

  store_cp_state-timing : (o : Option CpState) → Keeps (OnMember F h timing) (store_cp_state F h o)
  unfolding store_cp_state
  store_cp_state-timing none = search (member_rules)
  store_cp_state-timing (some t) = search (member_rules)

  pub before-timing : Keeps (OnMember F h timing) (before F h)
  unfolding run_checks read_cp_state
  before-timing = search (member_rules, store_cp_state-timing) depth 16

  module _ (L : IsLawful h) (K : IsClock h) where
    -- From the start of a run to the point where it looks at the PWM.
    pub record Reached (m n : Machine F.Float h) : Type 0 where
      pub members : OnMember F h timing m n
      pub passed : Passes F h K m n
      pub quiet : OnBoard F h L Quiet m n

    abbrev Reaches : {X : Type 0} → Method F h X → Type 0
    Reaches = Keeps Reached

    Reaches-of :
        {X : Type 0} (f : Method F h X)
        → Keeps (OnMember F h timing) f
        → Keeps (Passes F h K) f
        → Keeps (OnBoard F h L Quiet) f
        → Reaches f
    Reaches-of f a b c = record {
      step = λ m. record { members = a.step m; passed = b.step m; quiet = c.step m };
    }

    prelude_c-Reached : (prev : CpState) → Reaches (prelude_c prev)
    prelude_c-Reached prev =
        Reaches-of (prelude_c prev) (search (member_rules) depth 14) (search (clock_rules) depth 14)
          (search (board_rules, Quiet_rules) depth 14)

    prelude_d-Reached : (prev : CpState) → Reaches (prelude_d prev)
    prelude_d-Reached prev =
        Reaches-of (prelude_d prev) (search (member_rules) depth 14) (search (clock_rules) depth 14)
          (search (board_rules, Quiet_rules) depth 14)

    before-Reached : Reaches (before F h)
    unfolding run_checks
    before-Reached =
        Reaches-of (before F h) before-timing (search (clock_rules) depth 16)
          (search (board_rules, Quiet_rules) depth 16)

    Reached-then : (m n o : Machine F.Float h) → Reached m n → Reached n o → Reached m o
    Reached-then m n o p q = record {
      members = record { kept = q.members.kept ∙ p.members.kept };
      passed = record { later = omega (arith, p.passed.later, q.passed.later) };
      quiet = record {
        seen = record {
          was_closed = λ e. p.quiet.seen.was_closed (q.quiet.seen.was_closed e);
          reported = omega (arith, p.quiet.seen.reported, q.quiet.seen.reported);
        };
      };
    }

    -- The case for C or D without PWM is what comes before the test, and the test.
    pub run_state-idle :
        (s prev : CpState) (m : Machine F.Float h)
        → (s ≡ CpState.c) ⊎ (s ≡ CpState.d)
        → m.fsm.cur_pwm_running ≡ false
        → (n : Machine F.Float h) × Reached m n
          × ((run_state F h s prev m).1 ≡ (without_pwm F h n).1)
    unfolding run_state
    run_state-idle s prev m (inl e) off =
        let r = (prelude_c-Reached prev).step m in
        (
          (prelude_c prev m).1,
          r,
          ap (λ x. (run_state F h x prev m).1) e
              ∙ run_c-idle prev m (ap (λ x. x.1) r.members.kept ∙ off),
        )
    run_state-idle s prev m (inr e) off =
        let r = (prelude_d-Reached prev).step m in
        (
          (prelude_d prev m).1,
          r,
          ap (λ x. (run_state F h x prev m).1) e
              ∙ run_d-idle prev m (ap (λ x. x.1) r.members.kept ∙ off),
        )

    -- The end of a run.
    abbrev pub finished : Machine F.Float h → Machine F.Float h
    finished x = record x { fsm = latch F h x.fsm }

    -- The signal of the run is readable and says C or D.
    abbrev pub IsIdle : Machine F.Float h → Type 0
    IsIdle m =
        ((before F h m).0 ≡ true)
        × (((before F h m).1.fsm.cur_state ≡ CpState.c)
            ⊎ ((before F h m).1.fsm.cur_state ≡ CpState.d))

    pub run-idle :
        (m : Machine F.Float h)
        → IsIdle m
        → m.fsm.cur_pwm_running ≡ false
        → (n : Machine F.Float h) × Reached m n × ((run F h m).1 ≡ finished (without_pwm F h n).1)
    unfolding run_switch
    run-idle m (readable, cd) off =
        let b = (before F h m).1 in
        let r = before-Reached.step m in
        let (n, p, e) =
          run_state-idle b.fsm.cur_state b.fsm.prev_state b cd
            (ap (λ x. x.1) r.members.kept ∙ off) in
        (n, Reached-then m b n r p, run_readable F h m readable ∙ ap finished e)
