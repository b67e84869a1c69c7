-- ===== src/Fsm/Lock.antt =====
-- firmware/lib/iec61851_fsm.cpp, `FSM::run`: the lock of the connector when its timer has elapsed.
use ti_am62x_evse_sdk.Prelude.{
  ◌≡◌, refl, sym, ap, subst, ◌∙◌, ℕ, ◌≤◌, ◌<◌, ◌+◌, ◌-◌, ◌^◌, leb, not, Bool, true, false, arith,
}
use ti_am62x_evse_sdk.Prelude.Word.{u32}
use ti_am62x_evse_sdk.Prelude.State.{branch, when, ◌>>=◌, ◌>>◌}
use ti_am62x_evse_sdk.Prelude.Floats.{Floats}
use ti_am62x_evse_sdk.Prelude.Frame.{IsPreorder, Keeps}
use ti_am62x_evse_sdk.Hal.{Hal, Event, Command, Board, IsLawful, effect}
use ti_am62x_evse_sdk.Fsm.Types.{CpState, Countdown, Machine}
use ti_am62x_evse_sdk.Fsm.Countdown
use ti_am62x_evse_sdk.Fsm.Power.{closed}
use ti_am62x_evse_sdk.Fsm.Defs.{Method, ask, call, push, get, modify, read_cp_state}
use ti_am62x_evse_sdk.Fsm.Run.{
  run_checks, run_state, run_c, by_pwm, without_pwm, with_pwm_c, run_switch, run, latch,
}
use ti_am62x_evse_sdk.Fsm.Frames.{OnBoard, board_rules, board-call, board-power_on}
use ti_am62x_evse_sdk.Fsm.Members.{OnMember, member_rules}
use ti_am62x_evse_sdk.Fsm.States.{before, run_readable}
use ti_am62x_evse_sdk.Fsm.Waiting.{timing, before-timing, prelude_c}
use ti_am62x_evse_sdk.Fsm.Clock.{IsClock, Passes, clock_rules, elapsed-started}

-- The contact stays closed and the lock stays open.
record Loose {A : Type 0} (v w : Board A) : Type 0 where
  stays : (v.relay ≡ true) × (v.locked ≡ false) → (w.relay ≡ true) × (w.locked ≡ false)

-- The contact stays closed.
record Shut {A : Type 0} (v w : Board A) : Type 0 where
  stays : v.relay ≡ true → w.relay ≡ true

module _ {A : Type 0} where
  Loose-IsPreorder : IsPreorder (Loose {A = A})
  Loose-IsPreorder = record {
    here = λ w. record { stays = λ e. e };
    then = λ u v w p q. record { stays = λ e. q.stays (p.stays e) };
  }

  Loose-push : (e : Event) (w : Board A) → Loose w (effect (Command.push_event e) w)
  Loose-push e w = record { stays = λ p. p }

  Loose-closed : (ok : Bool) (w : Board A) → w.relay ≡ false → Loose w (closed ok w)
  Loose-closed ok w off = record { stays = λ p. absurd (cc (p.0, off)) }

  Shut-IsPreorder : IsPreorder (Shut {A = A})
  Shut-IsPreorder = record {
    here = λ w. record { stays = λ e. e };
    then = λ u v w p q. record { stays = λ e. q.stays (p.stays e) };
  }

  Shut-push : (e : Event) (w : Board A) → Shut w (effect (Command.push_event e) w)
  Shut-push e w = record { stays = λ p. p }

  Shut-reset : (w : Board A) → Shut w (effect Command.rcd_reset w)
  Shut-reset w = record { stays = λ p. p }

  Shut-unlock : (w : Board A) → Shut w (effect Command.unlock w)
  Shut-unlock w = record { stays = λ p. p }

ruleset Loose_rules =
    (board_rules, board-call, board-power_on, Loose-IsPreorder, Loose-push, Loose-closed)

ruleset Shut_rules = (board_rules, board-call, Shut-IsPreorder, Shut-push, Shut-reset, Shut-unlock)

module _ (F : Floats) (h : Hal F.Float) (L : IsLawful h) where
  open L use {observe}

  with_pwm_c-Loose : Keeps (OnBoard F h L Loose) (with_pwm_c F h)
  unfolding with_pwm_c
  with_pwm_c-Loose = search (Loose_rules) depth 16

  read_cp_state-Loose : Keeps (OnBoard F h L Loose) (read_cp_state F h)
  read_cp_state-Loose = search (Loose_rules)

  run_checks-Shut : Keeps (OnBoard F h L Shut) (run_checks F h)
  unfolding run_checks
  run_checks-Shut = search (Shut_rules) depth 16

  prelude_c-Loose : (prev : CpState) → Keeps (OnBoard F h L Loose) (prelude_c F h prev)
  prelude_c-Loose prev = search (Loose_rules) depth 16

  -- The two parts of what a run does first.
  abbrev report_rcd : Method F h (Unit {0})
  report_rcd = do
    fired ← ask F h h.rcd_got_fired
    when fired do call F h Command.rcd_reset; push F h Event.error_rcd

  abbrev check_lock : Method F h (Unit {0})
  check_lock = do
    c ← get F h (λ s. s.lock_check_countdown)
    expired ← ask F h (Countdown.elapsed h c)
    when expired do
      call F h Command.unlock
      modify F h (λ s. record s { lock_check_countdown = Countdown.stop c })

  -- The body of the test, where the timer has elapsed.
  abbrev release : Countdown → Method F h (Unit {0})
  release c = do
    call F h Command.unlock
    modify F h (λ s. record s { lock_check_countdown = Countdown.stop c })

  check_lock-releases :
      (n : Machine F.Float h)
      → (Countdown.elapsed h n.fsm.lock_check_countdown n.hal).0 ≡ true
      → (observe (check_lock n).1.hal).locked ≡ false
  check_lock-releases n e =
      let c = n.fsm.lock_check_countdown in
      let tested : Machine F.Float h = record n { hal = (Countdown.elapsed h c n.hal).1 } in
      ap (λ b. (observe (when b (release c) tested).1.hal).locked) e
      ∙ ap (λ b. b.locked) (L.observe-exec Command.unlock tested.hal)

  run_checks-split :
      (m : Machine F.Float h) → (run_checks F h m).1 ≡ (check_lock (report_rcd m).1).1
  unfolding run_checks
  run_checks-split m = refl

  run_c-busy :
      (prev : CpState) (m : Machine F.Float h)
      → (prelude_c F h prev m).1.fsm.cur_pwm_running ≡ true
      → (run_c F h prev m).1 ≡ (with_pwm_c F h (prelude_c F h prev m).1).1
  unfolding run_c by_pwm
  run_c-busy prev m e =
      ap (λ b. (branch (not b) (without_pwm F h) (with_pwm_c F h) (prelude_c F h prev m).1).1) e

  module _ (K : IsClock h) where
    open K use {time}

    report_rcd-lock : Keeps (OnMember F h (λ s. s.lock_check_countdown)) report_rcd
    report_rcd-lock = search (member_rules) depth 12

    report_rcd-Passes : Keeps (Passes F h K) report_rcd
    report_rcd-Passes = search (clock_rules) depth 12

    check_lock-Passes : Keeps (Passes F h K) check_lock
    check_lock-Passes = search (clock_rules) depth 12

    read_cp_state-Passes : Keeps (Passes F h K) (read_cp_state F h)
    read_cp_state-Passes = search (clock_rules)

    charge-Passes : (prev : CpState) → Keeps (Passes F h K) (prelude_c F h prev >> with_pwm_c F h)
    unfolding with_pwm_c
    charge-Passes prev = search (clock_rules) depth 18

    prelude_c-timing : (prev : CpState) → Keeps (OnMember F h timing) (prelude_c F h prev)
    prelude_c-timing prev = search (member_rules) depth 14

    abbrev latched : Machine F.Float h → Machine F.Float h
    latched z = record z { fsm = latch F h z.fsm }

    -- A run that finds C with the PWM on, from where it has read the signal.
    run-charges :
        (m : Machine F.Float h)
        → (before F h m).0 ≡ true
        → (before F h m).1.fsm.cur_state ≡ CpState.c
        → m.fsm.cur_pwm_running ≡ true
        → (z : Machine F.Float h) × ((run F h m).1 ≡ latched z)
          × (time (before F h m).1.hal ≤ time z.hal)
          × Loose (observe (before F h m).1.hal) (observe z.hal)
    unfolding run_switch run_state
    run-charges m readable e on =
        let b = (before F h m).1 in
        let prev = b.fsm.prev_state in
        let q = (prelude_c F h prev b).1 in
        let z = (with_pwm_c F h q).1 in
        let kept : q.fsm.cur_pwm_running ≡ true =
          ap (λ x. x.1) ((prelude_c-timing prev).step b).kept
          ∙ ap (λ x. x.1) ((before-timing F h).step m).kept
          ∙ on in
        (
          z,
          run_readable F h m readable
              ∙ ap (λ s. latched (run_state F h s prev b).1) e
              ∙ ap latched (run_c-busy prev b kept),
          ((charge-Passes prev).step b).later,
          Loose-IsPreorder.then _ (observe q.hal) _ ((prelude_c-Loose prev).step b).seen
              (with_pwm_c-Loose.step q).seen,
        )

    -- A run releases the connector while it leaves the contact closed: where the timer of the lock was
    -- started at `t`, less than 2^32 ticks ago, and its period has passed, and the run finds the car
    -- charging in C with the PWM on.
    pub run-unlocks :
        (m : Machine F.Float h) (t : ℕ)
        → m.fsm.lock_check_countdown.running ≡ true
        → m.fsm.lock_check_countdown.ticks_at_start ≡ u32 t
        → t + m.fsm.lock_check_countdown.period_in_ticks ≤ time m.hal
        → time (run F h m).1.hal < t + 2 ^ 32
        → (before F h m).0 ≡ true
        → (before F h m).1.fsm.cur_state ≡ CpState.c
        → m.fsm.cur_pwm_running ≡ true
        → (observe m.hal).relay ≡ true
        → ((observe (run F h m).1.hal).relay ≡ true) × ((observe (run F h m).1.hal).locked ≡ false)
    run-unlocks m t r s due upper readable e on closed_now =
        let n = (report_rcd m).1 in
        let k = (run_checks F h m).1 in
        let (z, end, later, loose) = run-charges m readable e on in
        let c = n.fsm.lock_check_countdown in
        let same : c ≡ m.fsm.lock_check_countdown = (report_rcd-lock.step m).kept in
        let n_later = (report_rcd-Passes.step m).later in
        let n_upper : time n.hal < t + 2 ^ 32 = omega (
          arith,
          upper,
          (check_lock-Passes.step n).later,
          (read_cp_state-Passes.step k).later,
          later,
          ap (λ x. time x.hal) (run_checks-split m),
          ap (λ x. time x.hal) end,
        ) in
        let ripe : leb c.period_in_ticks (time n.hal - t) ≡ true =
          ground (arith, n_later, due, ap (λ x. x.period_in_ticks) same) in
        let expired : (Countdown.elapsed h c n.hal).0 ≡ true =
          elapsed-started h K c t n.hal (ap (λ x. x.running) same ∙ r)
            (ap (λ x. x.ticks_at_start) same ∙ s) (omega (arith, n_later)) n_upper
          ∙ ripe in
        let open_lock : (observe k.hal).locked ≡ false =
          ap (λ x. (observe x.hal).locked) (run_checks-split m) ∙ check_lock-releases n expired in
        let shut : (observe k.hal).relay ≡ true = (run_checks-Shut.step m).seen.stays closed_now in
        let read = (read_cp_state-Loose.step k).seen.stays (shut, open_lock) in
        subst (λ x. ((observe x.hal).relay ≡ true) × ((observe x.hal).locked ≡ false)) (sym end)
          (loose.stays read)
