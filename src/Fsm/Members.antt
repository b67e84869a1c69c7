-- ===== src/Fsm/Members.antt =====
-- Frame rules for the methods of `FSM` in terms of the members of the object.
use ti_am62x_evse_sdk.Prelude.{◌≡◌, refl, ◌∙◌, Bool}
use ti_am62x_evse_sdk.Prelude.State.{State, pure, branch, when, ◌>>=◌, ◌>>◌}
use ti_am62x_evse_sdk.Prelude.Floats.{Floats}
use ti_am62x_evse_sdk.Prelude.Frame.{
  IsPreorder, Keeps, Keeps-pure, Keeps->>=, Keeps->>, Keeps-when, Keeps-branch,
}
use ti_am62x_evse_sdk.Hal.{Hal, Command}
use ti_am62x_evse_sdk.Fsm.Types.{Countdown, Machine, Fsm}
use ti_am62x_evse_sdk.Fsm.Defs.{ask, call, get, modify, start_lock_check, power_on, power_off}

module _ (F : Floats) (h : Hal F.Float) {X : Type 0} where
  -- What `f` reads of the members is the same.
  pub record OnMember (f : Fsm F.Float → X) (m n : Machine F.Float h) : Type 0 where
    pub kept : f n.fsm ≡ f m.fsm

  -- The lock timer is no part of what `f` reads.
  abbrev pub LockFree : (Fsm F.Float → X) → Type 0
  LockFree f = (s : Fsm F.Float) (c : Countdown) → f (record s { lock_check_countdown = c }) ≡ f s

  module _ {f : Fsm F.Float → X} where
    OnMember-IsPreorder : IsPreorder (OnMember f)
    OnMember-IsPreorder = record {
      here = λ m. record { kept = refl };
      then = λ m n o a b. record { kept = b.kept ∙ a.kept };
    }

    pub member-pure : {Y : Type 0} (y : Y) → Keeps (OnMember f) (pure {S = Machine F.Float h} y)
    member-pure y = Keeps-pure OnMember-IsPreorder y

    pub member-bind :
        {Y Z : Type 0} (g : State (Machine F.Float h) Y) (k : Y → State (Machine F.Float h) Z)
        → Keeps (OnMember f) g
        → ((y : Y) → Keeps (OnMember f) (k y))
        → Keeps (OnMember f) (g >>= k)
    member-bind = Keeps->>= OnMember-IsPreorder

    pub member-then :
        {Y Z : Type 0} (g : State (Machine F.Float h) Y) (k : State (Machine F.Float h) Z)
        → Keeps (OnMember f) g
        → Keeps (OnMember f) k
        → Keeps (OnMember f) (g >> k)
    member-then = Keeps->> OnMember-IsPreorder

    pub member-when :
        (b : Bool) (g : State (Machine F.Float h) (Unit {0}))
        → Keeps (OnMember f) g
        → Keeps (OnMember f) (when b g)
    member-when = Keeps-when OnMember-IsPreorder

    pub member-branch :
        {Y : Type 0} (b : Bool) (g k : State (Machine F.Float h) Y)
        → Keeps (OnMember f) g
        → Keeps (OnMember f) k
        → Keeps (OnMember f) (branch b g k)
    member-branch = Keeps-branch OnMember-IsPreorder

    pub member-get : {Y : Type 0} (g : Fsm F.Float → Y) → Keeps (OnMember f) (get F h g)
    member-get g = record { step = λ m. record { kept = refl } }

    pub member-ask : {Y : Type 0} (q : State h.World Y) → Keeps (OnMember f) (ask F h q)
    member-ask q = record { step = λ m. record { kept = refl } }

    pub member-call : (c : Command F.Float) → Keeps (OnMember f) (call F h c)
    member-call c = record { step = λ m. record { kept = refl } }

    pub member-modify :
        (g : Fsm F.Float → Fsm F.Float)
        → ((s : Fsm F.Float) → f (g s) ≡ f s)
        → Keeps (OnMember f) (modify F h g)
    member-modify g e = record { step = λ m. record { kept = e m.fsm } }

    pub member-start_lock_check : LockFree f → Keeps (OnMember f) (start_lock_check F h)
    unfolding start_lock_check
    member-start_lock_check free = record { step = λ m. record { kept = free m.fsm _ } }

    pub member-power_off : LockFree f → Keeps (OnMember f) (power_off F h)
    unfolding power_off
    member-power_off free =
        search
          (
            member-bind, member-then, member-branch, member-pure, member-ask, member-call,
            member-start_lock_check,
          )
          depth 14

    pub member-power_on : LockFree f → Keeps (OnMember f) (power_on F h)
    unfolding power_on
    member-power_on free =
        search
          (
            member-bind, member-then, member-branch, member-pure, member-ask, member-call,
            member-get, member-start_lock_check,
          )
          depth 14

pub ruleset member_rules = (
  member-pure, member-bind, member-then, member-when, member-branch, member-get, member-ask,
  member-call, member-modify, member-power_off, member-power_on,
)
