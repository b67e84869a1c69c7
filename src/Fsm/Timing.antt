-- ===== src/Fsm/Timing.antt =====
-- firmware/lib/iec61851_fsm.cpp, `FSM::run`: power is forced off when the car goes on drawing power
-- after the PWM has stopped.
use ti_am62x_evse_sdk.Prelude.{
  ◌≡◌, ◌⊎◌, inl, inr, refl, sym, ap, subst, ◌∙◌, ℕ, zero, suc, ◌≤◌, ◌<◌, ◌+◌, ◌^◌, Bool, true,
  false, Bool-cases, arith,
}
use ti_am62x_evse_sdk.Prelude.Word.{u32}
use ti_am62x_evse_sdk.Prelude.State.{pure, when, ◌>>◌}
use ti_am62x_evse_sdk.Prelude.Floats.{Floats}
use ti_am62x_evse_sdk.Prelude.Frame.{Keeps}
use ti_am62x_evse_sdk.Hal.{Hal, IsLawful}
use ti_am62x_evse_sdk.Fsm.Types.{Countdown, Machine}
use ti_am62x_evse_sdk.Fsm.Countdown
use ti_am62x_evse_sdk.Fsm.Defs.{start_pwm_stop, power_off}
use ti_am62x_evse_sdk.Fsm.Run.{without_pwm, run}
use ti_am62x_evse_sdk.Fsm.Frames.{OnBoard, board-elapsed}
use ti_am62x_evse_sdk.Fsm.Members.{OnMember, member_rules}
use ti_am62x_evse_sdk.Fsm.Opening.{
  Quiet-IsPreorder, Opened, Opened-after, Opens-power_off, failures,
}
use ti_am62x_evse_sdk.Fsm.Clock.{IsClock, Passes, clock_rules, elapsed-started}
use ti_am62x_evse_sdk.Fsm.Waiting.{timing, test_timer, IsIdle, finished, run-idle}

module _ (F : Floats) (h : Hal F.Float) where
  test_timer-timing : Keeps (OnMember F h timing) (test_timer F h)
  test_timer-timing = search (member_rules) depth 14

  -- The countdown `c`, started now.
  abbrev started : Countdown → h.World → Countdown
  started c w = record c { running = true; ticks_at_start = (h.get_current_ticks w).0 }

  without_pwm-test :
      (b : Bool) (n : Machine F.Float h)
      → n.fsm.prev_pwm_running ≡ b
      → (without_pwm F h n).1 ≡ (test_timer F h (when b (start_pwm_stop F h) n).1).1
  unfolding without_pwm
  without_pwm-test b n e = ap (λ x. (test_timer F h (when x (start_pwm_stop F h) n).1).1) e

  start_pwm_stop-timing :
      (n : Machine F.Float h)
      → timing (start_pwm_stop F h n).1.fsm
        ≡ (started n.fsm.pwm_stop_countdown n.hal, n.fsm.cur_pwm_running, n.fsm.prev_pwm_running)
  unfolding start_pwm_stop Countdown.start
  start_pwm_stop-timing n = refl

  without_pwm-starts :
      (c : Countdown) (n : Machine F.Float h)
      → timing n.fsm ≡ (c, false, true)
      → timing (without_pwm F h n).1.fsm ≡ (started c n.hal, false, true)
  without_pwm-starts c n t =
      ap (λ x. timing x.fsm) (without_pwm-test true n (ap (λ x. x.2) t))
      ∙ (test_timer-timing.step (start_pwm_stop F h n).1).kept
      ∙ start_pwm_stop-timing n
      ∙ ap (λ x. (started x.0 n.hal, x.1, x.2)) t

  without_pwm-waits :
      (c : Countdown) (n : Machine F.Float h)
      → timing n.fsm ≡ (c, false, false)
      → timing (without_pwm F h n).1.fsm ≡ (c, false, false)
  without_pwm-waits c n t =
      ap (λ x. timing x.fsm) (without_pwm-test false n (ap (λ x. x.2) t))
      ∙ (test_timer-timing.step n).kept
      ∙ t

  -- The machine after the test, whatever it said.
  abbrev tested : Machine F.Float h → Machine F.Float h
  tested n = record n { hal = (Countdown.elapsed h n.fsm.pwm_stop_countdown n.hal).1 }

  test_timer-expired :
      (n : Machine F.Float h)
      → (Countdown.elapsed h n.fsm.pwm_stop_countdown n.hal).0 ≡ true
      → (test_timer F h n).1 ≡ (power_off F h (tested n)).1
  test_timer-expired n e = ap (λ b. (when b (power_off F h >> pure tt) (tested n)).1) e

  module _ (L : IsLawful h) (K : IsClock h) where
    open L use {observe}
    open K use {time}

    without_pwm-Opened :
        (n : Machine F.Float h)
        → n.fsm.prev_pwm_running ≡ false
        → (Countdown.elapsed h n.fsm.pwm_stop_countdown n.hal).0 ≡ true
        → OnBoard F h L Opened n (without_pwm F h n).1
    without_pwm-Opened n p e =
        subst (OnBoard F h L Opened n) (sym (without_pwm-test false n p ∙ test_timer-expired n e)) (
          Opened-after F h L n (tested n) _
            ((board-elapsed F h L Quiet-IsPreorder n.fsm.pwm_stop_countdown).step n)
            ((Opens-power_off F h L).step (tested n)))

    without_pwm-Passes : Keeps (Passes F h K) (without_pwm F h)
    unfolding without_pwm
    without_pwm-Passes = search (clock_rules) depth 16

    -- The PWM is off, and the countdown was started at the time `t`.
    pub record Waiting (t : ℕ) (c : Countdown) (m : Machine F.Float h) : Type 0 where
      pub running : c.running ≡ true
      pub start : c.ticks_at_start ≡ u32 t
      pub members : timing m.fsm ≡ (c, false, false)
      pub since : t ≤ time m.hal

    pub run-Waiting :
        (t : ℕ) (c : Countdown) (m : Machine F.Float h)
        → IsIdle F h L K m
        → Waiting t c m
        → Waiting t c (run F h m).1
    run-Waiting t c m idle w =
        let (n, r, e) = run-idle F h L K m idle (ap (λ x. x.1) w.members) in
        let kept : timing n.fsm ≡ (c, false, false) = r.members.kept ∙ w.members in
        let off = without_pwm-waits c n kept in
        subst (Waiting t c) (sym e) (record {
          running = w.running;
          start = w.start;
          members = ap (λ x. (x.0, x.1, x.1)) off;
          since = omega (arith, w.since, r.passed.later, (without_pwm-Passes.step n).later);
        })

    pub run-Opened :
        (t : ℕ) (c : Countdown) (m : Machine F.Float h)
        → IsIdle F h L K m
        → Waiting t c m
        → t + c.period_in_ticks ≤ time m.hal
        → time (run F h m).1.hal < t + 2 ^ 32
        → OnBoard F h L Opened m (run F h m).1
    run-Opened t c m idle w due upper =
        let (n, r, e) = run-idle F h L K m idle (ap (λ x. x.1) w.members) in
        let kept : timing n.fsm ≡ (c, false, false) = r.members.kept ∙ w.members in
        let late : time n.hal < t + 2 ^ 32 =
          omega (arith, (without_pwm-Passes.step n).later, ap (λ x. time x.hal) e) in
        let reached : t + c.period_in_ticks ≤ time n.hal = omega (arith, r.passed.later) in
        let expired : (Countdown.elapsed h n.fsm.pwm_stop_countdown n.hal).0 ≡ true =
          ap (λ x. (Countdown.elapsed h x.0 n.hal).0) kept
          ∙ elapsed-started h K c t n.hal w.running w.start (omega arith) late
          ∙ ground arith in
        subst (OnBoard F h L Opened m) (sym e) (
          Opened-after F h L m n (finished F h L K (without_pwm F h n).1) r.quiet
            (record { seen = (without_pwm-Opened n (ap (λ x. x.2) kept) expired).seen }))

    pub run-starts :
        (m : Machine F.Float h)
        → IsIdle F h L K m
        → m.fsm.cur_pwm_running ≡ false
        → m.fsm.prev_pwm_running ≡ true
        → (t : ℕ) × (c : Countdown) × (c.period_in_ticks ≡ m.fsm.pwm_stop_countdown.period_in_ticks)
          × (time m.hal ≤ t)
          × Waiting t c (run F h m).1
    run-starts m idle off was =
        let (n, r, e) = run-idle F h L K m idle off in
        let c = m.fsm.pwm_stop_countdown in
        let now : timing m.fsm ≡ (c, false, true) = simp (off, was) refl in
        let kept : timing n.fsm ≡ (c, false, true) = r.members.kept ∙ now in
        let started_now = without_pwm-starts c n kept in
        (
          time n.hal,
          started c n.hal,
          refl,
          r.passed.later,
          subst (Waiting (time n.hal) (started c n.hal)) (sym e) (record {
            running = refl;
            start = K.ticks-time n.hal;
            members = ap (λ x. (x.0, x.1, x.1)) started_now;
            since = (without_pwm-Passes.step n).later;
          }),
        )

    -- The machine after a number of runs.
    abbrev pub runs : ℕ → Machine F.Float h → Machine F.Float h
    runs zero m = m
    runs (suc n) m = runs n (run F h m).1

    -- Each of the runs finds a signal of C or D.
    abbrev pub StaysIdle : ℕ → Machine F.Float h → Type 0
    StaysIdle zero m = Unit {0}
    StaysIdle (suc n) m = IsIdle F h L K m × StaysIdle n (run F h m).1

    runs-Opened :
        (n t : ℕ) (c : Countdown) (m : Machine F.Float h)
        → Waiting t c m
        → StaysIdle (suc n) m
        → t + c.period_in_ticks ≤ time (runs n m).hal
        → time (run F h (runs n m)).1.hal < t + 2 ^ 32
        → OnBoard F h L Opened (runs n m) (run F h (runs n m)).1
    runs-Opened zero t c m w (idle, _) due upper = run-Opened t c m idle w due upper
    runs-Opened (suc n) t c m w (idle, rest) due upper =
        runs-Opened n t c (run F h m).1 (run-Waiting t c m idle w) rest due upper

    -- The PWM has stopped while the car is in C or D, and every run from then on finds C or D: as
    -- soon as a run starts at least the timer's period after the end of the first of them, the contact
    -- is open after it, or a failure of the relay was reported during it. That run must end less than
    -- 2^32 ticks after the start of the first of them.
    pub runs-forced_off :
        (n : ℕ) (m : Machine F.Float h)
        → m.fsm.cur_pwm_running ≡ false
        → m.fsm.prev_pwm_running ≡ true
        → StaysIdle (suc (suc n)) m
        → time (run F h m).1.hal + m.fsm.pwm_stop_countdown.period_in_ticks
          ≤ time (runs (suc n) m).hal
        → time (run F h (runs (suc n) m)).1.hal < time m.hal + 2 ^ 32
        → ((observe (run F h (runs (suc n) m)).1.hal).relay ≡ false)
          ⊎ (failures (observe (runs (suc n) m).hal).sent
              < failures (observe (run F h (runs (suc n) m)).1.hal).sent)
    runs-forced_off n m off was (idle, rest) due upper =
        let (t, c, p, late, w) = run-starts m idle off was in
        let opened =
          runs-Opened n t c (run F h m).1 w rest (omega (arith, due, p, w.since))
            (omega (arith, upper, late)) in
        elim (Bool-cases (observe (run F h (runs (suc n) m)).1.hal).relay) [
          | inl on ↦ inr (opened.seen.reported on)
          | inr open_now ↦ inl open_now
        ]
