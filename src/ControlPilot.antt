-- ===== src/ControlPilot.antt =====
-- firmware/bsp_drivers/control_pilot.cpp and timer_pwm_priv.h: the PWM timer behind the pilot.
pub mod Duty
pub mod Interrupt
use Prim.Native.Nat.{bit_and, bit_or, bit_xor}
use ti_am62x_evse_sdk.Prelude.{ℕ, ◌+◌, ◌-◌, ◌*◌, ◌/◌, ◌^◌, ◌%◌, Bool, ltb, leb, ◌==◌, if◌then◌else◌}
use ti_am62x_evse_sdk.Prelude.Word.{u32, sub32, mul32}
use ti_am62x_evse_sdk.Prelude.Floats.{Floats}

-- The registers that the driver writes.
pub record Timer : Type 0 where
  pub irqstatus_set : ℕ
  pub tldr : ℕ
  pub tmar : ℕ
  pub ttgr : ℕ
  pub tclr : ℕ

abbrev pub irqstatus_match_flag : ℕ
irqstatus_match_flag = 0x1

abbrev pub irqstatus_overflow_flag : ℕ
irqstatus_overflow_flag = 0x2

abbrev pub tclr_start_mask : ℕ
tclr_start_mask = 0x1

abbrev pub tclr_ce_mask : ℕ
tclr_ce_mask = 0x1 * 2 ^ 6

abbrev pub tclr_scpwm_mask : ℕ
tclr_scpwm_mask = 0x1 * 2 ^ 7

abbrev pub tclr_trg_mask : ℕ
tclr_trg_mask = 0x3 * 2 ^ 10

abbrev pub tclr_trg_overflow_and_match : ℕ
tclr_trg_overflow_and_match = 0x2 * 2 ^ 10

abbrev pub tclr_pt_mask : ℕ
tclr_pt_mask = 0x1 * 2 ^ 12

abbrev pub tclr_pt_toggle : ℕ
tclr_pt_toggle = 0x1 * 2 ^ 12

abbrev pub tclr_gpo_cfg_mask : ℕ
tclr_gpo_cfg_mask = 0x1 * 2 ^ 14

abbrev pub tclr_gpo_cfg_pwm : ℕ
tclr_gpo_cfg_pwm = 0x0 * 2 ^ 14

-- `x & ~mask`
abbrev pub clear : ℕ → ℕ → ℕ
clear x mask = bit_and x (bit_xor 0xffff_ffff mask)

-- `get_default_tclr`, from the value that is read back from the register.
unfoldable pub default_tclr : ℕ → ℕ
default_tclr read =
    let t1 = clear read tclr_trg_mask in
    let t2 = bit_or (clear t1 tclr_pt_mask) tclr_pt_toggle in
    let t3 = bit_or (clear t2 tclr_gpo_cfg_mask) tclr_gpo_cfg_pwm in
    let t4 = bit_or (clear t3 tclr_ce_mask) tclr_ce_mask in
    let t5 = bit_or (clear t4 tclr_start_mask) tclr_start_mask in clear t5 tclr_scpwm_mask

-- `TIMER_TICKS_PER_FULL_PWM_PERIOD`, from the clock and the prescaler of the generated
-- configuration, at 1000 Hz.
unfoldable pub ticks_per_full_pwm_period : ℕ → ℕ → ℕ
ticks_per_full_pwm_period input_clk_hz prescaler = input_clk_hz / prescaler / 1000

-- The section's parameter is the number of timer ticks in a period.
module _ (period : ℕ) where
  unfoldable pub calculate_match_ticks : ℕ → ℕ
  calculate_match_ticks duty_cycle =
      let d = if ltb 100 duty_cycle then 100 else duty_cycle in mul32 (100 - d) period / 100

  -- The constructor: the registers after its writes, from the value that TCLR held.
  unfoldable pub construct : ℕ → Timer
  unfolding calculate_match_ticks default_tclr
  construct read = record {
    irqstatus_set = bit_or irqstatus_match_flag irqstatus_overflow_flag;
    tldr = u32 (sub32 0xffff_ffff period + 1);
    tmar = u32 (sub32 0xffff_ffff (calculate_match_ticks 50) + 1);
    ttgr = 0xffff_ffff;
    tclr = default_tclr read;
  }

  -- What `set_pwm` writes for the ticks of the match.
  unfoldable pub write_match : ℕ → ℕ → Timer → Timer
  write_match tclr match_ticks t =
      if match_ticks == 0
      then record t { tclr = bit_or tclr tclr_scpwm_mask }
      else if leb period match_ticks
      then record t { tclr = tclr }
      else record t {
        tclr = bit_or tclr tclr_trg_overflow_and_match;
        tmar = u32 (sub32 0xffff_ffff match_ticks + 1);
      }

  module _ (F : Floats) where
    -- `set_pwm(duty_cycle)`; `tclr` is the member `DEFAULT_TCLR`.
    unfoldable pub set_pwm : ℕ → F.Float → Timer → Timer
    set_pwm tclr duty_cycle t =
        let d = if F.lt duty_cycle (F.tenths 0) then F.tenths 0 else duty_cycle in
        write_match tclr (calculate_match_ticks (F.to_u32 (F.mul (F.tenths 1000) d))) t
