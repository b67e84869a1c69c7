-- ===== src/ControlPilot/Duty.antt =====
-- firmware/bsp_drivers/control_pilot.cpp: which part of the period the pilot is high.
use Prim.Native.Nat.{bit_or}
use native.Mathlib.Nat.{mod-eq_of_lt}
use ti_am62x_evse_sdk.Prelude.{
  ℕ, ◌+◌, ◌-◌, ◌*◌, ◌/◌, ◌^◌, ◌≤◌, ◌<◌, ◌≡◌, ◌↔◌, ap, dec_lt, ltb, leb, ◌==◌, if◌then◌else◌, arith,
}
use ti_am62x_evse_sdk.ControlPilot.{
  Timer, calculate_match_ticks, write_match, tclr_scpwm_mask, tclr_trg_overflow_and_match,
}

-- The duty cycle in percent, cut off at 100.
abbrev pub percent : ℕ → ℕ
percent d = if ltb 100 d then 100 else d

percent-le : (d : ℕ) → percent d ≤ 100
percent-le d = ground arith

-- The part of the period between the reload and the match, in ticks.
abbrev pub high_ticks : ℕ → ℕ → ℕ
high_ticks period d = period - calculate_match_ticks period d

-- The products of the section do not wrap.
module _ (period : ℕ) (fits : 100 * period < 2 ^ 32) where
  product_fits : (r : ℕ) → r ≤ 100 → r * period < 2 ^ 32
  product_fits r h = grind arith

  match-eq : (d : ℕ) → calculate_match_ticks period d ≡ (100 - percent d) * period / 100
  unfolding calculate_match_ticks
  match-eq d =
      ap (λ t. t / 100)
        (mod-eq_of_lt (product_fits (100 - percent d) (omega (arith, percent-le d))))

  split_period : (p r : ℕ) → r + p ≡ 100 → r * period + p * period ≡ 100 * period
  split_period p r e = omega (arith, ap (λ (t : ℕ). t * period) e)

  high_of_split :
      (p r m : ℕ)
      → r * period + p * period ≡ 100 * period
      → m ≡ r * period / 100
      → (p * period ≤ 100 * (period - m)) × (100 * (period - m) < p * period + 100) × (m ≤ period)
  high_of_split p r m e h = omega arith

  -- Where 100 periods fit into 32 bits, the match value is at most the period, and the ticks
  -- between the reload and the match are the duty cycle's share of the period, cut off at 100
  -- percent and rounded up to a whole tick.
  pub high_ticks_bounds :
      (d : ℕ)
      → (percent d * period ≤ 100 * high_ticks period d)
        × (100 * high_ticks period d < percent d * period + 100)
        × (calculate_match_ticks period d ≤ period)
  high_ticks_bounds d =
      high_of_split (percent d) (100 - percent d) (calculate_match_ticks period d)
        (split_period (percent d) (100 - percent d) (omega (arith, percent-le d))) (match-eq d)

  mul_lower : (r : ℕ) → 1 ≤ r → 1 * period ≤ r * period
  mul_lower r h = grind arith

  mul_upper : (r : ℕ) → r ≤ 99 → r * period ≤ 99 * period
  mul_upper r h = grind arith

  -- Between the ends the match lies inside the period.
  match_inside :
      (d : ℕ)
      → 100 ≤ period
      → 0 < d
      → d < 100
      → (0 < calculate_match_ticks period d) × (calculate_match_ticks period d < period)
  match_inside d big lo hi =
      let e : percent d ≡ d = ground arith in
      rw (match-eq d, e)
        (omega (arith, mul_lower (100 - d) (omega arith), mul_upper (100 - d) (omega arith)))

  match_full : (d : ℕ) → 100 ≤ d → calculate_match_ticks period d ≡ 0
  match_full d h = let e : percent d ≡ 100 = ground arith in rw (match-eq d, e) (omega arith)

  match_none : calculate_match_ticks period 0 ≡ period
  match_none = rw (match-eq 0) (omega arith)

  -- The ends, as the comment above the function has them: the match is 0 exactly from 100 percent
  -- on, and the whole period exactly at 0 percent. The period must have at least 100 ticks, and
  -- 100 periods must fit into 32 bits.
  pub match_ends :
      100 ≤ period
      → (d : ℕ)
      → ((calculate_match_ticks period d ≡ 0) ↔ (100 ≤ d))
        × ((calculate_match_ticks period d ≡ period) ↔ (d ≡ 0))
  match_ends big d = elim (dec_lt d 100) [
    | no ge ↦
        let z : calculate_match_ticks period d ≡ 0 = match_full d (omega arith) in
        ((λ _. omega arith, λ _. z), (λ q. absurd (omega arith), λ q. absurd (omega arith)))
    | yes lt ↦ elim (dec_lt 0 d) [
      | yes pos ↦
          let b = match_inside d big pos lt in
          (
            (λ q. absurd (omega arith), λ q. absurd (omega arith)),
            (λ q. absurd (omega arith), λ q. absurd (omega arith)),
          )
      | no zero_d ↦
          let z : d ≡ 0 = omega arith in
          (
            (
              λ q. absurd (omega (arith, match_none, ap (calculate_match_ticks period) z)),
              λ q. absurd (omega arith),
            ),
            (λ _. z, λ _. rw z match_none),
          )
    ]
  ]

  -- What `set_pwm` leaves in the registers for a whole percentage, on a timer whose reload value is
  -- one period below 2^32: from 100 percent on the output is static with the level bit set; at 0
  -- percent TCLR is the default; in between the toggling on overflow and match is switched on, and
  -- the match lies the high part of the period after the reload value.
  pub write_match_lem :
      (tclr d : ℕ) (t : Timer)
      → 100 ≤ period
      → t.tldr + period ≡ 2 ^ 32
      → write_match period tclr (calculate_match_ticks period d) t ≡ (
          if leb 100 d
          then record t { tclr = bit_or tclr tclr_scpwm_mask }
          else if d == 0
          then record t { tclr = tclr }
          else record t {
            tclr = bit_or tclr tclr_trg_overflow_and_match;
            tmar = t.tldr + high_ticks period d;
          })
  unfolding write_match
  write_match_lem tclr d t big e = elim (dec_lt d 100) [
    | no ge ↦ ground (arith, match_full d (omega arith))
    | yes lt ↦ elim (dec_lt 0 d) [
      | yes pos ↦ ground (arith, match_inside d big pos lt)
      | no zero_d ↦
          let z : d ≡ 0 = omega (arith, zero_d) in
          ground (arith, match_none, ap (calculate_match_ticks period) z)
    ]
  ]
