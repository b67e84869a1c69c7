-- ===== src/Fsm/Voltage.antt =====
-- firmware/lib/iec61851_fsm.cpp, `FSM::read_cp_state`: the voltages of the states.
use ti_am62x_evse_sdk.Prelude.{
  ◌≡◌, ◌↔◌, refl, sym, ◌∙◌, ◌≤◌, ℕ, Bool, true, false, not, ◌&&◌, Option, none, some, ltb,
  if◌then◌else◌, arith,
}
use ti_am62x_evse_sdk.Prelude.Floats.{Floats}
use ti_am62x_evse_sdk.Hal.{CpSignal}
use ti_am62x_evse_sdk.Fsm.Types.{CpState}
use ti_am62x_evse_sdk.Fsm.Defs.{is_state, is_voltage_in_range, decode_cp_state}

-- The states that the high part of the signal tells apart.
pub data Level : Type 0 where
  at_a at_b at_c at_d at_f : Level

abbrev pub state_at : Level → CpState
state_at at_a = CpState.a
state_at at_b = CpState.b
state_at at_c = CpState.c
state_at at_d = CpState.d
state_at at_f = CpState.f

module _ (F : Floats) where
  open F use {Float, lt, add, sub, tenths, neg_tenths}

  -- The voltage of a state.
  abbrev pub volts : Level → Float
  volts at_a = tenths 120
  volts at_b = tenths 90
  volts at_c = tenths 60
  volts at_d = tenths 30
  volts at_f = neg_tenths 120

  abbrev pub lower : Level → Float
  lower l = sub (volts l) (tenths 11)

  abbrev pub upper : Level → Float
  upper l = add (volts l) (tenths 11)

  -- The numbers that occur are ordered, and rounding keeps the bounds of the states in their order.
  pub record IsOrdered : Type 0 where
    pub rank : Float → ℕ
    pub lt-rank : (x y : Float) → lt x y ≡ ltb (rank x) (rank y)
    pub width : (l : Level) → rank (lower l) ≤ rank (upper l)
    pub f-d : rank (upper at_f) ≤ rank (lower at_d)
    pub d-c : rank (upper at_d) ≤ rank (lower at_c)
    pub c-b : rank (upper at_c) ≤ rank (lower at_b)
    pub b-a : rank (upper at_b) ≤ rank (lower at_a)

  -- The tests of the ranges, in the order of the source.
  abbrev pick : Bool → Bool → Bool → Bool → Bool → Option CpState
  pick a b c d f =
      if a
      then some CpState.a
      else if b
      then some CpState.b
      else if c
      then some CpState.c
      else if d
      then some CpState.d
      else if f
      then some CpState.f
      else none

  abbrev near : Float → Level → Bool
  near x l = is_voltage_in_range F x (volts l)

  abbrev picked : Float → Option CpState
  picked x = pick (near x at_a) (near x at_b) (near x at_c) (near x at_d) (near x at_f)

  decode-picked :
      (running : Bool) (s : CpState) (cp : CpSignal Float)
      → cp.valid ≡ true
      → is_state s CpState.disabled ≡ false
      → (running && not (is_voltage_in_range F cp.low (neg_tenths 120))) ≡ false
      → decode_cp_state F running s cp ≡ picked cp.high
  unfolding decode_cp_state
  decode-picked running s cp v e p = simp (v, e, p) refl

  module _ (o : IsOrdered) where
    near-rank :
        (x : Float) (l : Level)
        → near x l ≡ (ltb (o.rank (lower l)) (o.rank x) && ltb (o.rank x) (o.rank (upper l)))
    unfolding is_voltage_in_range
    near-rank x l = rw (o.lt-rank (lower l) x, o.lt-rank x (upper l)) refl

    -- A voltage below the range of one state is not in it.
    below :
        (x : Float) (k l : Level)
        → o.rank (upper k) ≤ o.rank (lower l)
        → near x k ≡ true
        → near x l ≡ false
    below x k l h e = ground (arith, near-rank x k, near-rank x l, h, e)

    picked-near : (x : Float) (l : Level) → near x l ≡ true → picked x ≡ some (state_at l)
    picked-near x at_a e = simp e refl
    picked-near x at_b e = simp (below x at_b at_a o.b-a e, e) refl
    picked-near x at_c e =
        simp
          (
            below x at_c at_a (omega (arith, o.c-b, o.width at_b, o.b-a)) e,
            below x at_c at_b o.c-b e,
            e,
          )
          refl
    picked-near x at_d e =
        simp
          (
            below x at_d at_a (omega (arith, o.d-c, o.width at_c, o.c-b, o.width at_b, o.b-a)) e,
            below x at_d at_b (omega (arith, o.d-c, o.width at_c, o.c-b)) e,
            below x at_d at_c o.d-c e,
            e,
          )
          refl
    picked-near x at_f e =
        simp
          (
            below x at_f at_a
                (omega
                  (arith, o.f-d, o.width at_d, o.d-c, o.width at_c, o.c-b, o.width at_b, o.b-a))
                e,
            below x at_f at_b (omega (arith, o.f-d, o.width at_d, o.d-c, o.width at_c, o.c-b)) e,
            below x at_f at_c (omega (arith, o.f-d, o.width at_d, o.d-c)) e,
            below x at_f at_d o.f-d e,
            e,
          )
          refl

    abbrev bit : Bool → Bool → Bool → Bool → Bool → Level → Bool
    bit a b c d f at_a = a
    bit a b c d f at_b = b
    bit a b c d f at_c = c
    bit a b c d f at_d = d
    bit a b c d f at_f = f

    pick-bit :
        (a b c d f : Bool) (l : Level) → pick a b c d f ≡ some (state_at l) → bit a b c d f l ≡ true
    pick-bit true b c d f at_a e = refl
    pick-bit true b c d f _ e = absurd (cc)
    pick-bit false true c d f at_b e = refl
    pick-bit false true c d f _ e = absurd (cc)
    pick-bit false false true d f at_c e = refl
    pick-bit false false true d f _ e = absurd (cc)
    pick-bit false false false true f at_d e = refl
    pick-bit false false false true f _ e = absurd (cc)
    pick-bit false false false false true at_f e = refl
    pick-bit false false false false true _ e = absurd (cc)
    pick-bit false false false false false _ e = absurd (cc)

    near-picked : (x : Float) (l : Level) → picked x ≡ some (state_at l) → near x l ≡ true
    near-picked x at_a e = pick-bit (near x at_a) _ _ _ _ at_a e
    near-picked x at_b e = pick-bit (near x at_a) (near x at_b) _ _ _ at_b e
    near-picked x at_c e = pick-bit (near x at_a) (near x at_b) (near x at_c) _ _ at_c e
    near-picked x at_d e = pick-bit (near x at_a) (near x at_b) (near x at_c) (near x at_d) _ at_d e
    near-picked x at_f e =
        pick-bit (near x at_a) (near x at_b) (near x at_c) (near x at_d) (near x at_f) at_f e

    -- Where the numbers are ordered and rounding keeps the bounds of the ranges in their order: a valid
    -- signal without PWM, or with its low part at -12 V, read while the pilot is not disabled, is decoded as
    -- A, B, C, D or F exactly if its high part lies within 1.1 V of 12, 9, 6, 3 or -12 V; so the ranges are
    -- apart, and the order in which the code tests them does not matter.
    pub decode-near :
        (running : Bool) (s : CpState) (cp : CpSignal Float) (l : Level)
        → cp.valid ≡ true
        → is_state s CpState.disabled ≡ false
        → (running && not (is_voltage_in_range F cp.low (neg_tenths 120))) ≡ false
        → (decode_cp_state F running s cp ≡ some (state_at l))
          ↔ (is_voltage_in_range F cp.high (volts l) ≡ true)
    decode-near running s cp l v e p =
        let k = decode-picked running s cp v e p in
        (λ d. near-picked cp.high l (sym k ∙ d), λ n. k ∙ picked-near cp.high l n)
