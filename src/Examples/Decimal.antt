-- ===== src/Examples/Decimal.antt =====
-- Signed decimal numbers for the tests on voltages.
use ti_am62x_evse_sdk.Prelude.{ℕ, ◌+◌, ◌-◌, ◌*◌, ◌/◌, Bool, true, false, ltb, if◌then◌else◌}
use ti_am62x_evse_sdk.Prelude.Floats.{Floats}

-- The number v/100000 is kept as 1000000000 + v.
abbrev zero_at : ℕ
zero_at = 1000000000

abbrev signed : Bool → ℕ → ℕ
signed negative n = if negative then zero_at - n else zero_at + n

abbrev is_negative : ℕ → Bool
is_negative x = ltb x zero_at

abbrev size : ℕ → ℕ
size x = if is_negative x then zero_at - x else x - zero_at

abbrev differ : Bool → Bool → Bool
differ true true = false
differ false false = false
differ _ _ = true

abbrev pub decimal : Floats
decimal = record {
  Float = ℕ;
  lt = ltb;
  add = λ x y. x + y - zero_at;
  sub = λ x y. x + zero_at - y;
  mul = λ x y. signed (differ (is_negative x) (is_negative y)) (size x * size y / 100000);
  div = λ x y. signed (differ (is_negative x) (is_negative y)) (size x * 100000 / size y);
  tenths = λ n. zero_at + n * 10000;
  neg_tenths = λ n. zero_at - n * 10000;
  of_nat = λ n. zero_at + n * 100000;
  to_u32 = λ x. (x - zero_at) / 100000;
}
