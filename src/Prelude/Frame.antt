-- ===== src/Prelude/Frame.antt =====
-- Methods whose effect lies in a preorder on the states, by the shape of their bodies.
use mathlib.Core.Bool.{Bool, true, false}
use ti_am62x_evse_sdk.Prelude.State.{State, pure, ◌>>=◌, ◌>>◌, when, branch}

pub record IsPreorder {S : Type 0} (R : S → S → Type 0) : Type 0 where
  pub here : (s : S) → R s s
  pub then : (s t u : S) → R s t → R t u → R s u

-- Every run of the method goes from a state to a related one.
pub record Keeps {S A : Type 0} (R : S → S → Type 0) (f : State S A) : Type 0 where
  pub step : (s : S) → R s (f s).1

module _ {S : Type 0} {R : S → S → Type 0} (p : IsPreorder R) where
  pub Keeps-pure : {A : Type 0} (x : A) → Keeps R (pure {S = S} x)
  Keeps-pure x = record { step = λ s. p.here s }

  pub Keeps->>= :
      {A B : Type 0} (f : State S A) (k : A → State S B)
      → Keeps R f
      → ((x : A) → Keeps R (k x))
      → Keeps R (f >>= k)
  Keeps->>= f k h g = record {
    step = λ s. p.then s (f s).1 _ (h.step s) ((g (f s).0).step (f s).1);
  }

  pub Keeps->> :
      {A B : Type 0} (f : State S A) (k : State S B) → Keeps R f → Keeps R k → Keeps R (f >> k)
  Keeps->> f k h g = record { step = λ s. p.then s (f s).1 _ (h.step s) (g.step (f s).1) }

  pub Keeps-when : (b : Bool) (f : State S (Unit {0})) → Keeps R f → Keeps R (when b f)
  Keeps-when true f h = record { step = h.step }
  Keeps-when false f h = record { step = λ s. p.here s }

  pub Keeps-branch :
      {A : Type 0} (b : Bool) (f k : State S A) → Keeps R f → Keeps R k → Keeps R (branch b f k)
  Keeps-branch true f k h g = record { step = h.step }
  Keeps-branch false f k h g = record { step = g.step }

  pub Keeps-branch-true : {A : Type 0} (f k : State S A) → Keeps R f → Keeps R (branch true f k)
  Keeps-branch-true f k h = record { step = h.step }
