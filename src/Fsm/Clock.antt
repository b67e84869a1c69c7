-- ===== src/Fsm/Clock.antt =====
-- firmware/lib/iec61851_fsm.cpp, `class Countdown`, and firmware/lib/iec61851_hal.hpp, `IClock`: the
-- countdowns against the time that passes.
use ti_am62x_evse_sdk.Prelude.{
  ◌≡◌, refl, ap, ◌∙◌, ℕ, ◌≤◌, ◌<◌, ◌+◌, ◌-◌, ◌^◌, Bool, true, Option, none, some, leb, inl, inr,
  Bool-cases, arith,
}
use ti_am62x_evse_sdk.Prelude.Word.{u32, sub32}
use ti_am62x_evse_sdk.Prelude.State.{State, pure, branch, when, ◌>>=◌, ◌>>◌}
use ti_am62x_evse_sdk.Prelude.Floats.{Floats}
use ti_am62x_evse_sdk.Prelude.Frame.{
  IsPreorder, Keeps, Keeps-pure, Keeps->>=, Keeps->>, Keeps-when, Keeps-branch,
}
use ti_am62x_evse_sdk.Hal.{Hal, Command}
use ti_am62x_evse_sdk.Fsm.Types.{CpState, Countdown, Machine, Fsm}
use ti_am62x_evse_sdk.Fsm.Countdown
use ti_am62x_evse_sdk.Fsm.Defs.{
  ask, call, get, modify, start_lock_check, start_pwm_stop, power_on, power_off, read_cp_state,
  store_cp_state,
}

-- Ticks since the clock was started, which do not wrap: the counter that is read does, and no call
-- turns time back.
pub record IsClock {A : Type 0} (h : Hal A) : Type 0 where
  pub time : h.World → ℕ
  pub ticks-time : (w : h.World) → (h.get_current_ticks w).0 ≡ u32 (time w)
  pub time-exec : (c : Command A) (w : h.World) → time w ≤ time (h.exec c w)
  pub time-fired : (w : h.World) → time w ≤ time (h.rcd_got_fired w).1
  pub time-on : (b : Bool) (w : h.World) → time w ≤ time (h.switch_on b w).1
  pub time-off : (w : h.World) → time w ≤ time (h.switch_off w).1
  pub time-is_on : (w : h.World) → time w ≤ time (h.switch_is_on w).1
  pub time-reset : (w : h.World) → time w ≤ time (h.switch_reset_emergency w).1
  pub time-signal : (w : h.World) → time w ≤ time (h.get_cp_signal w).1
  pub time-ticks : (w : h.World) → time w ≤ time (h.get_current_ticks w).1

-- What the counter says of a moment less than 2^32 ticks ago.
sub32-later : (s t : ℕ) → s ≤ t → t < s + 2 ^ 32 → sub32 (u32 t) (u32 s) ≡ t - s
sub32-later s t le lt = omega arith

module _ {A : Type 0} (h : Hal A) (K : IsClock h) where
  open K use {time}

  -- A countdown that was started at `t`.
  pub elapsed-started :
      (c : Countdown) (t : ℕ) (w : h.World)
      → c.running ≡ true
      → c.ticks_at_start ≡ u32 t
      → t ≤ time w
      → time w < t + 2 ^ 32
      → (Countdown.elapsed h c w).0 ≡ leb c.period_in_ticks (time w - t)
  unfolding Countdown.elapsed
  elapsed-started c t w r s le lt = rw r (
      ap (λ x. leb c.period_in_ticks (sub32 (h.get_current_ticks w).0 x)) s
      ∙ ap (λ x. leb c.period_in_ticks (sub32 x (u32 t))) (K.ticks-time w)
      ∙ ap (leb c.period_in_ticks) (sub32-later t (time w) le lt))

  -- A countdown that was started less than 2^32 ticks ago has elapsed when its period has passed,
  -- not before, and also where the tick counter has wrapped around in between.
  pub elapsed-start :
      (c : Countdown) (w v : h.World)
      → time w ≤ time v
      → time v < time w + 2 ^ 32
      → (Countdown.elapsed h (Countdown.start h c w).0 v).0
        ≡ leb c.period_in_ticks (time v - time w)
  unfolding Countdown.start
  elapsed-start c w v le lt =
      elapsed-started (Countdown.start h c w).0 (time w) v refl (K.ticks-time w) le lt

module _ (F : Floats) (h : Hal F.Float) (K : IsClock h) where
  open K use {time}

  pub record Passes (m n : Machine F.Float h) : Type 0 where
    pub later : time m.hal ≤ time n.hal

  Passes-IsPreorder : IsPreorder Passes
  Passes-IsPreorder = record {
    here = λ m. record { later = omega arith };
    then = λ m n o p q. record { later = omega (arith, p.later, q.later) };
  }

  pub Passes-pure : {X : Type 0} (x : X) → Keeps Passes (pure {S = Machine F.Float h} x)
  Passes-pure x = Keeps-pure Passes-IsPreorder x

  pub Passes-bind :
      {X Y : Type 0} (f : State (Machine F.Float h) X) (k : X → State (Machine F.Float h) Y)
      → Keeps Passes f
      → ((x : X) → Keeps Passes (k x))
      → Keeps Passes (f >>= k)
  Passes-bind = Keeps->>= Passes-IsPreorder

  pub Passes-then :
      {X Y : Type 0} (f : State (Machine F.Float h) X) (k : State (Machine F.Float h) Y)
      → Keeps Passes f
      → Keeps Passes k
      → Keeps Passes (f >> k)
  Passes-then = Keeps->> Passes-IsPreorder

  pub Passes-when :
      (b : Bool) (f : State (Machine F.Float h) (Unit {0}))
      → Keeps Passes f
      → Keeps Passes (when b f)
  Passes-when = Keeps-when Passes-IsPreorder

  pub Passes-branch :
      {X : Type 0} (b : Bool) (f k : State (Machine F.Float h) X)
      → Keeps Passes f
      → Keeps Passes k
      → Keeps Passes (branch b f k)
  Passes-branch = Keeps-branch Passes-IsPreorder

  pub Passes-get : {X : Type 0} (f : Fsm F.Float → X) → Keeps Passes (get F h f)
  Passes-get f = record { step = λ m. record { later = omega arith } }

  pub Passes-modify : (f : Fsm F.Float → Fsm F.Float) → Keeps Passes (modify F h f)
  Passes-modify f = record { step = λ m. record { later = omega arith } }

  pub Passes-ask :
      {X : Type 0} (q : State h.World X)
      → ((w : h.World) → time w ≤ time (q w).1)
      → Keeps Passes (ask F h q)
  Passes-ask q e = record { step = λ m. record { later = e m.hal } }

  pub Passes-fired : Keeps Passes (ask F h h.rcd_got_fired)
  Passes-fired = Passes-ask _ K.time-fired

  pub Passes-is_on : Keeps Passes (ask F h h.switch_is_on)
  Passes-is_on = Passes-ask _ K.time-is_on

  pub Passes-off : Keeps Passes (ask F h h.switch_off)
  Passes-off = Passes-ask _ K.time-off

  pub Passes-on : (b : Bool) → Keeps Passes (ask F h (h.switch_on b))
  Passes-on b = Passes-ask _ (K.time-on b)

  pub Passes-call : (c : Command F.Float) → Keeps Passes (call F h c)
  Passes-call c = record { step = λ m. record { later = K.time-exec c m.hal } }

  pub Passes-elapsed : (c : Countdown) → Keeps Passes (ask F h (Countdown.elapsed h c))
  unfolding Countdown.elapsed
  Passes-elapsed c = elim (Bool-cases c.running) [
    | inl e ↦ rw e (Passes-ask _ K.time-ticks)
    | inr e ↦ rw e (Passes-ask _ (λ w. omega arith))
  ]

  Passes-start : (c : Countdown) → Keeps Passes (ask F h (Countdown.start h c))
  unfolding Countdown.start
  Passes-start c = Passes-ask _ K.time-ticks

  pub Passes-start_pwm_stop : Keeps Passes (start_pwm_stop F h)
  unfolding start_pwm_stop
  Passes-start_pwm_stop = search (Passes-bind, Passes-get, Passes-start, Passes-modify) depth 8

  pub Passes-start_lock_check : Keeps Passes (start_lock_check F h)
  unfolding start_lock_check
  Passes-start_lock_check = search (Passes-bind, Passes-get, Passes-start, Passes-modify) depth 8

  Passes-store_cp_state : (o : Option CpState) → Keeps Passes (store_cp_state F h o)
  unfolding store_cp_state
  Passes-store_cp_state none = search (Passes-pure)
  Passes-store_cp_state (some t) = search (Passes-then, Passes-pure, Passes-modify)

  pub Passes-read_cp_state : Keeps Passes (read_cp_state F h)
  unfolding read_cp_state
  Passes-read_cp_state =
      search (Passes-bind, Passes-ask, K.time-signal, Passes-get, Passes-store_cp_state) depth 8

  pub Passes-power_off : Keeps Passes (power_off F h)
  unfolding power_off
  Passes-power_off =
      search
        (
          Passes-bind, Passes-then, Passes-branch, Passes-pure, Passes-is_on, Passes-off,
          Passes-call, Passes-start_lock_check,
        )
        depth 14

  pub Passes-power_on : Keeps Passes (power_on F h)
  unfolding power_on
  Passes-power_on =
      search
        (
          Passes-bind, Passes-then, Passes-branch, Passes-pure, Passes-is_on, Passes-get, Passes-on,
          Passes-call, Passes-start_lock_check,
        )
        depth 14

-- The rules by which time passes.
pub ruleset clock_rules = (
  Passes-pure, Passes-bind, Passes-then, Passes-when, Passes-branch, Passes-get, Passes-modify,
  Passes-fired, Passes-is_on, Passes-call, Passes-elapsed, Passes-start_pwm_stop,
  Passes-read_cp_state, Passes-power_off, Passes-power_on,
)
