-- ===== src/Prelude/State.antt =====
-- Methods that change their object: functions from a state to a result and the next state.
use mathlib.Core.Bool.{Bool, true, false}

abbrev pub State : Type 0 → Type 0 → Type 0
State S A = S → A × S

module _ {S : Type 0} where
  abbrev pub pure : {A : Type 0} → A → State S A
  pure x s = (x, s)

  infixl 5 ◌>>=◌ ◌>>◌
  abbrev pub ◌>>=◌ : {A B : Type 0} → State S A → (A → State S B) → State S B
  ◌>>=◌ m f s = f (m s).0 (m s).1

  abbrev pub ◌>>◌ : {A B : Type 0} → State S A → State S B → State S B
  ◌>>◌ m k s = k (m s).1

  -- `if (b) { m }`
  abbrev pub when : Bool → State S (Unit {0}) → State S (Unit {0})
  when true m s = m s
  when false m s = (tt, s)

  -- `if (b) { m } else { k }`
  abbrev pub branch : {A : Type 0} → Bool → State S A → State S A → State S A
  branch true m k s = m s
  branch false m k s = k s
