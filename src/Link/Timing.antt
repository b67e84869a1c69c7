-- ===== src/Link/Timing.antt =====
-- firmware/main.cpp and firmware/lib/iec61851_fsm.cpp: the timer that forces power off, over the rounds of
-- the main loop.
use ti_am62x_evse_sdk.Prelude.{
  ◌≡◌, ◌⊎◌, inl, inr, refl, sym, ap, ◌∙◌, ℕ, zero, suc, ◌≤◌, ◌<◌, ◌+◌, ◌^◌, true, false, Bool-cases,
  arith,
}
use ti_am62x_evse_sdk.Prelude.State.{State}
use ti_am62x_evse_sdk.Prelude.Floats.{Floats}
use ti_am62x_evse_sdk.Hal.{Hal, IsLawful}
use ti_am62x_evse_sdk.Fsm.Types.{Countdown, Machine}
use ti_am62x_evse_sdk.Fsm.Run.{run}
use ti_am62x_evse_sdk.Fsm.Frames.{OnBoard}
use ti_am62x_evse_sdk.Fsm.Opening.{Opened, failures}
use ti_am62x_evse_sdk.Fsm.Clock.{IsClock}
use ti_am62x_evse_sdk.Fsm.Access.{IsKept}
use ti_am62x_evse_sdk.Fsm.Waiting.{timing, IsIdle}
use ti_am62x_evse_sdk.Fsm.Timing.{Waiting, run-Waiting, run-Opened, run-starts}
use ti_am62x_evse_sdk.Link.Loop.{Received, Loop, handle, iteration, iterate}
use ti_am62x_evse_sdk.Link.Access.{handle-kept, chore-kept}
use ti_am62x_evse_sdk.Link.Rounds.{chore-observe}

module _ (F : Floats) (h : Hal F.Float) (L : IsLawful h) (K : IsClock h) where
  open L use {observe}
  open K use {time}

  -- No access to the hardware turns time back.
  time-IsKept : IsKept h (λ v w. time v ≤ time w)
  time-IsKept = record {
    order = record { here = λ w. omega arith; then = λ u v w p q. omega (arith, p, q) };
    by_exec = K.time-exec;
    by_fired = K.time-fired;
    by_on = K.time-on;
    by_off = K.time-off;
    by_is_on = K.time-is_on;
    by_reset = K.time-reset;
    by_signal = K.time-signal;
    by_ticks = K.time-ticks;
  }

  -- The timer goes on where the members that it depends on stay, and time does not turn back.
  Waiting-later :
      (t : ℕ) (c : Countdown) (m n : Machine F.Float h)
      → timing n.fsm ≡ timing m.fsm
      → time m.hal ≤ time n.hal
      → Waiting F h L K t c m
      → Waiting F h L K t c n
  Waiting-later t c m n same later w = record {
    running = w.running;
    start = w.start;
    members = same ∙ w.members;
    since = omega (arith, w.since, later);
  }

  module _ (get_msg : State h.World (Received F.Float))
      (time-get_msg : (w : h.World) → time w ≤ time (get_msg w).1) where
    -- The machine of a round before its run: the message was received and handled.
    abbrev pub asked : Loop F h → Machine F.Float h
    asked l =
        let received = get_msg l.machine.hal in
        handle F h received.0 (record (l.machine) { hal = received.1 })

    abbrev pub next : Loop F h → Loop F h
    next = iteration F h get_msg

    -- In each of the rounds the run finds a signal of C or D, and the message leaves the PWM and the timer
    -- as they were.
    abbrev pub StaysIdle : ℕ → Loop F h → Type 0
    StaysIdle zero l = Unit {0}
    StaysIdle (suc n) l =
        IsIdle F h L K (asked l)
        × (timing (asked l).fsm ≡ timing l.machine.fsm)
        × StaysIdle n (next l)

    asked-later : (l : Loop F h) → time l.machine.hal ≤ time (asked l).hal
    asked-later l = omega (
      arith,
      time-get_msg l.machine.hal,
      handle-kept F h time-IsKept (get_msg l.machine.hal).0
          (record (l.machine) { hal = (get_msg l.machine.hal).1 }),
    )

    -- The chore comes after the run, and changes nothing that the timer depends on.
    next-Waiting :
        (t : ℕ) (c : Countdown) (l : Loop F h)
        → Waiting F h L K t c (run F h (asked l)).1
        → Waiting F h L K t c (next l).machine
    unfolding iteration
    next-Waiting t c l w =
        Waiting-later t c (run F h (asked l)).1 _ refl
          (chore-kept F h time-IsKept l.chore_interval_ticks l.last_chore_ts _) w

    next-observe : (l : Loop F h) → observe (next l).machine.hal ≡ observe (run F h (asked l)).1.hal
    unfolding iteration
    next-observe l = chore-observe F h L l.chore_interval_ticks l.last_chore_ts _

    rounds-Opened :
        (n t : ℕ) (c : Countdown) (l : Loop F h)
        → Waiting F h L K t c l.machine
        → StaysIdle (suc n) l
        → t + c.period_in_ticks ≤ time (asked (iterate F h get_msg n l)).hal
        → time (run F h (asked (iterate F h get_msg n l))).1.hal < t + 2 ^ 32
        → OnBoard F h L Opened
            (asked (iterate F h get_msg n l))
            (run F h (asked (iterate F h get_msg n l))).1
    unfolding iterate
    rounds-Opened zero t c l w (idle, same, _) due upper =
        run-Opened F h L K t c (asked l) idle
          (Waiting-later t c l.machine (asked l) same (asked-later l) w) due upper
    rounds-Opened (suc n) t c l w (idle, same, rest) due upper =
        let handled = Waiting-later t c l.machine (asked l) same (asked-later l) w in
        rounds-Opened n t c (next l)
          (next-Waiting t c l (run-Waiting F h L K t c (asked l) idle handled)) rest due upper

    -- In the main loop: after the message of a round the PWM is off but was on in the round before, the run
    -- of the round finds C or D, and so do those of the rounds after it, whose messages leave the PWM and
    -- the timer as they were. Then after a round whose run starts at least the timer's period after the end
    -- of the first of these runs, the contact is open, or a failure of the relay was reported in that
    -- round after its message. That run must end less than 2^32 ticks after the start of the first, and
    -- waiting for a message must not turn time back.
    pub iterate-forced_off :
        (n : ℕ) (l : Loop F h)
        → (asked l).fsm.cur_pwm_running ≡ false
        → (asked l).fsm.prev_pwm_running ≡ true
        → IsIdle F h L K (asked l)
        → StaysIdle (suc n) (next l)
        → time (run F h (asked l)).1.hal + (asked l).fsm.pwm_stop_countdown.period_in_ticks
          ≤ time (asked (iterate F h get_msg (suc n) l)).hal
        → time (run F h (asked (iterate F h get_msg (suc n) l))).1.hal < time (asked l).hal + 2 ^ 32
        → ((observe (next (iterate F h get_msg (suc n) l)).machine.hal).relay ≡ false)
          ⊎ (failures (observe (asked (iterate F h get_msg (suc n) l)).hal).sent
              < failures (observe (next (iterate F h get_msg (suc n) l)).machine.hal).sent)
    unfolding iterate
    iterate-forced_off n l off was idle rest due upper =
        let (t, c, p, late, w) = run-starts F h L K (asked l) idle off was in
        let last = iterate F h get_msg (suc n) l in
        let opened =
          rounds-Opened n t c (next l) (next-Waiting t c l w) rest (omega (arith, due, p, w.since))
            (omega (arith, upper, late)) in
        let seen = next-observe last in
        elim (Bool-cases (observe (next last).machine.hal).relay) [
          | inl on ↦
              let grown = opened.seen.reported (ap (λ b. b.relay) (sym seen) ∙ on) in
              inr (omega (arith, grown, ap (λ b. failures b.sent) seen))
          | inr open_now ↦ inl open_now
        ]
