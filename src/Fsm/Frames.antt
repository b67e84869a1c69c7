-- ===== src/Fsm/Frames.antt =====
-- Frame rules for the methods of `FSM` in terms of what can be seen of the hardware.
use ti_am62x_evse_sdk.Prelude.{
  ◌≡◌, Bool, Option, none, some, if◌then◌else◌, true, false, inl, inr, Bool-cases, sym, refl,
}
use mathlib.Core.Path.{subst}
use ti_am62x_evse_sdk.Prelude.State.{State, pure, branch, when, ◌>>=◌, ◌>>◌}
use ti_am62x_evse_sdk.Prelude.Floats.{Floats}
use ti_am62x_evse_sdk.Prelude.Frame.{
  IsPreorder, Keeps, Keeps-pure, Keeps->>=, Keeps->>, Keeps-when, Keeps-branch, Keeps-branch-true,
}
use ti_am62x_evse_sdk.Hal.{Hal, Command, Board, IsLawful, effect}
use ti_am62x_evse_sdk.Fsm.Types.{CpState, Countdown, Machine, Fsm}
use ti_am62x_evse_sdk.Fsm.Countdown
use ti_am62x_evse_sdk.Fsm.Defs.{
  ask, call, get, modify, start_pwm_stop, set_pwm_off, power_on, power_off, read_cp_state,
  store_cp_state,
}
use ti_am62x_evse_sdk.Fsm.Power.{opened, closed, observe-power_on, observe-power_off}

module _ (F : Floats) (h : Hal F.Float) (L : IsLawful h) where
  open L use {
    observe, observe-exec, observe-ticks, observe-signal, observe-fired, observe-is_on,
    observe-reset,
  }

  -- Two machines whose hardware is seen in related conditions.
  pub record OnBoard (B : Board F.Float → Board F.Float → Type 0) (m n : Machine F.Float h)
      : Type 0 where
    pub seen : B (observe m.hal) (observe n.hal)

  module _ {B : Board F.Float → Board F.Float → Type 0} (p : IsPreorder B) where
    pub OnBoard-IsPreorder : IsPreorder (OnBoard B)
    OnBoard-IsPreorder = record {
      here = λ m. record { seen = p.here (observe m.hal) };
      then = λ m n o a b. record { seen = p.then _ (observe n.hal) _ a.seen b.seen };
    }

    pub board-pure : {X : Type 0} (x : X) → Keeps (OnBoard B) (pure {S = Machine F.Float h} x)
    board-pure x = Keeps-pure OnBoard-IsPreorder x

    pub board-bind :
        {X Y : Type 0} (f : State (Machine F.Float h) X) (k : X → State (Machine F.Float h) Y)
        → Keeps (OnBoard B) f
        → ((x : X) → Keeps (OnBoard B) (k x))
        → Keeps (OnBoard B) (f >>= k)
    board-bind = Keeps->>= OnBoard-IsPreorder

    pub board-then :
        {X Y : Type 0} (f : State (Machine F.Float h) X) (k : State (Machine F.Float h) Y)
        → Keeps (OnBoard B) f
        → Keeps (OnBoard B) k
        → Keeps (OnBoard B) (f >> k)
    board-then = Keeps->> OnBoard-IsPreorder

    pub board-when :
        (b : Bool) (f : State (Machine F.Float h) (Unit {0}))
        → Keeps (OnBoard B) f
        → Keeps (OnBoard B) (when b f)
    board-when = Keeps-when OnBoard-IsPreorder

    pub board-branch :
        {X : Type 0} (b : Bool) (f k : State (Machine F.Float h) X)
        → Keeps (OnBoard B) f
        → Keeps (OnBoard B) k
        → Keeps (OnBoard B) (branch b f k)
    board-branch = Keeps-branch OnBoard-IsPreorder

    pub board-branch-true :
        {X : Type 0} (f k : State (Machine F.Float h) X)
        → Keeps (OnBoard B) f
        → Keeps (OnBoard B) (branch true f k)
    board-branch-true = Keeps-branch-true OnBoard-IsPreorder

    same : {m n : Machine F.Float h} → observe n.hal ≡ observe m.hal → OnBoard B m n
    same {m} e = record { seen = subst (B (observe m.hal)) (sym e) (p.here (observe m.hal)) }

    pub board-get : {X : Type 0} (f : Fsm F.Float → X) → Keeps (OnBoard B) (get F h f)
    board-get f = record { step = λ m. record { seen = p.here (observe m.hal) } }

    pub board-modify : (f : Fsm F.Float → Fsm F.Float) → Keeps (OnBoard B) (modify F h f)
    board-modify f = record { step = λ m. record { seen = p.here (observe m.hal) } }

    pub board-ask :
        {X : Type 0} (q : State h.World X)
        → ((w : h.World) → observe (q w).1 ≡ observe w)
        → Keeps (OnBoard B) (ask F h q)
    board-ask q e = record { step = λ m. same (e m.hal) }

    pub board-call :
        (c : Command F.Float)
        → ((w : Board F.Float) → B w (effect c w))
        → Keeps (OnBoard B) (call F h c)
    board-call c b = record {
      step = λ m. record {
        seen = subst (B (observe m.hal)) (sym (observe-exec c m.hal)) (b (observe m.hal));
      };
    }

    pub board-elapsed : (c : Countdown) → Keeps (OnBoard B) (ask F h (Countdown.elapsed h c))
    unfolding Countdown.elapsed
    board-elapsed c = elim (Bool-cases c.running) [
      | inl e ↦ rw e (board-ask _ observe-ticks)
      | inr e ↦ rw e (board-ask _ (λ w. refl))
    ]

    pub board-fired : Keeps (OnBoard B) (ask F h h.rcd_got_fired)
    board-fired = board-ask _ observe-fired

    pub board-is_on : Keeps (OnBoard B) (ask F h h.switch_is_on)
    board-is_on = board-ask _ observe-is_on

    pub board-reset : Keeps (OnBoard B) (ask F h h.switch_reset_emergency)
    board-reset = board-ask _ observe-reset

    board-start : (c : Countdown) → Keeps (OnBoard B) (ask F h (Countdown.start h c))
    unfolding Countdown.start
    board-start c = board-ask _ observe-ticks

    pub board-start_pwm_stop : Keeps (OnBoard B) (start_pwm_stop F h)
    unfolding start_pwm_stop
    board-start_pwm_stop = search (board-bind, board-get, board-start, board-modify) depth 8

    pub board-set_pwm_off :
        ((w : Board F.Float) → B w (effect (Command.set_pwm (F.tenths 10)) w))
        → Keeps (OnBoard B) (set_pwm_off F h)
    unfolding set_pwm_off
    board-set_pwm_off b = search (board-then, board-call, board-modify)

    board-store_cp_state : (o : Option CpState) → Keeps (OnBoard B) (store_cp_state F h o)
    unfolding store_cp_state
    board-store_cp_state none = Keeps-pure OnBoard-IsPreorder false
    board-store_cp_state (some t) =
        Keeps->> OnBoard-IsPreorder _ _ (board-modify _) (Keeps-pure OnBoard-IsPreorder true)

    pub board-read_cp_state : Keeps (OnBoard B) (read_cp_state F h)
    unfolding read_cp_state
    board-read_cp_state =
        search (board-bind, board-ask, observe-signal, board-get, board-store_cp_state) depth 8

    opened_or_same :
        (ok : Bool) (w : Board F.Float) (r : Bool)
        → (w.relay ≡ true → B w (opened ok w))
        → w.relay ≡ r
        → B w (if r then opened ok w else w)
    opened_or_same ok w true b e = b e
    opened_or_same ok w false b e = p.here w

    closed_or_same :
        (ok : Bool) (w : Board F.Float) (r : Bool)
        → (w.relay ≡ false → B w (closed ok w))
        → w.relay ≡ r
        → B w (if r then w else closed ok w)
    closed_or_same ok w true b e = p.here w
    closed_or_same ok w false b e = b e

    pub board-power_off :
        ((ok : Bool) (w : Board F.Float) → w.relay ≡ true → B w (opened ok w))
        → Keeps (OnBoard B) (power_off F h)
    board-power_off b = record {
      step = λ m. record {
        seen =
            subst (B (observe m.hal)) (sym (observe-power_off F h L m))
              (opened_or_same (power_off F h m).0 (observe m.hal) _ (b _ _) refl);
      };
    }

    pub board-power_on :
        ((ok : Bool) (w : Board F.Float) → w.relay ≡ false → B w (closed ok w))
        → Keeps (OnBoard B) (power_on F h)
    board-power_on b = record {
      step = λ m. record {
        seen =
            subst (B (observe m.hal)) (sym (observe-power_on F h L m))
              (closed_or_same (power_on F h m).0 (observe m.hal) _ (b _ _) refl);
      };
    }

-- The rules that hold for every preorder on boards.
pub ruleset board_rules = (
  board-pure, board-bind, board-then, board-when, board-branch, board-branch-true, board-get,
  board-modify, board-fired, board-is_on, board-reset, board-elapsed, board-start_pwm_stop,
  board-read_cp_state,
)
