-- ===== src/ControlPilot/Interrupt.antt =====
-- firmware/bsp_drivers/control_pilot.cpp: the interrupt handler of the PWM timer, and what it asks of
-- the sampler.
use Prim.Native.Nat.{bit_and}
use ti_am62x_evse_sdk.Prelude.{
  ◌≡◌, refl, sym, ap, subst, ◌∙◌, List, [], ◌∷◌, ◌+◌, inl, inr, ℕ, Bool, true, false, not, ◌||◌,
  ◌==◌, if◌then◌else◌, Bool-cases,
}
use ti_am62x_evse_sdk.Prelude.Word.{u32}
use ti_am62x_evse_sdk.Prelude.State.{State}
use ti_am62x_evse_sdk.Prelude.Floats.{Floats}
use ti_am62x_evse_sdk.Hal.{CpSignal}
use ti_am62x_evse_sdk.Sampler.Device.{
  Sampler, TransferStatus, trigger_adc_readout, get_latest_cp_signal,
}
use ti_am62x_evse_sdk.ControlPilot.{irqstatus_match_flag, irqstatus_overflow_flag}

-- `trigger_high` and `trigger_low`; `answer` is the status in which the driver leaves the transfer.
unfoldable pub trigger_high : TransferStatus → Sampler → Sampler
trigger_high answer s = trigger_adc_readout answer true s

unfoldable pub trigger_low : TransferStatus → Sampler → Sampler
trigger_low answer s = trigger_adc_readout answer false s

-- `ControlPilot::get_cp_signal`
unfoldable pub get_cp_signal : (F : Floats) → CpSignal F.Float → Sampler → CpSignal F.Float
get_cp_signal F junk s = get_latest_cp_signal F junk s

abbrev pub irqstatus_offset : ℕ
irqstatus_offset = 0x28

-- The registers of the timer, by their offsets.
pub record TimerRegs : Type 1 where
  pub World : Type 0
  pub read : ℕ → State World ℕ
  pub write : ℕ → ℕ → World → World

module _ (r : TimerRegs) where
  -- The registers, the sampler of the control pilot, and the counters of the file.
  pub record Pilot : Type 0 where
    pub regs : r.World
    pub sampler : Sampler
    pub ovfls : ℕ
    pub matchs : ℕ

  -- Clearing a flag is writing it.
  abbrev clear_flag : ℕ → Pilot → Pilot
  clear_flag flag x = record x { regs = r.write irqstatus_offset flag x.regs }

  unfoldable pub pwm_timer_isr : TransferStatus → Pilot → Pilot
  unfolding trigger_high trigger_low
  pwm_timer_isr answer x =
      let irq_status = (r.read irqstatus_offset x.regs).0 in
      let y = record x { regs = (r.read irqstatus_offset x.regs).1 } in
      if not (bit_and irq_status irqstatus_overflow_flag == 0)
      then clear_flag irqstatus_overflow_flag
          (record y { ovfls = u32 (y.ovfls + 1); sampler = trigger_high answer y.sampler })
      else if not (bit_and irq_status irqstatus_match_flag == 0)
      then clear_flag irqstatus_match_flag
          (record y { matchs = u32 (y.matchs + 1); sampler = trigger_low answer y.sampler })
      else y

  -- What the manual says of the status register: it shows the two flags, reading it changes nothing,
  -- and a flag that is written as one is cleared, the other kept.
  pub record IsTimer : Type 0 where
    pub overflow : r.World → Bool
    pub matched : r.World → Bool
    pub read-world : (w : r.World) → (r.read irqstatus_offset w).1 ≡ w
    pub read-overflow :
        (w : r.World)
        → not (bit_and (r.read irqstatus_offset w).0 irqstatus_overflow_flag == 0) ≡ overflow w
    pub read-matched :
        (w : r.World)
        → not (bit_and (r.read irqstatus_offset w).0 irqstatus_match_flag == 0) ≡ matched w
    pub clear-overflow :
        (w : r.World)
        → (overflow (r.write irqstatus_offset irqstatus_overflow_flag w) ≡ false)
          × (matched (r.write irqstatus_offset irqstatus_overflow_flag w) ≡ matched w)
    pub clear-matched :
        (w : r.World)
        → (matched (r.write irqstatus_offset irqstatus_match_flag w) ≡ false)
          × (overflow (r.write irqstatus_offset irqstatus_match_flag w) ≡ overflow w)

  module _ (t : IsTimer) where
    open t use {overflow, matched}

    -- The interrupt is a level: the handler is called again while a flag is set. The list holds the
    -- driver's answers, one for each call.
    unfoldable pub run_isr : List TransferStatus → Pilot → Pilot
    run_isr [] x = x
    run_isr (answer ∷ answers) x =
        let rest = run_isr answers (pwm_timer_isr answer x) in
        if overflow x.regs || matched x.regs then rest else x

    -- No flag is set, the triggers of the phases that were due were called, that of the high phase first,
    -- and the counters of their flags went up. A trigger need not start a sample: while the transfer of the
    -- high phase is pending the sampler skips the low one.
    pub record Settled (a b : TransferStatus) (x y : Pilot) : Type 0 where
      pub no_overflow : overflow y.regs ≡ false
      pub no_match : matched y.regs ≡ false
      pub ovfls : y.ovfls ≡ (if overflow x.regs then u32 (x.ovfls + 1) else x.ovfls)
      pub matchs : y.matchs ≡ (if matched x.regs then u32 (x.matchs + 1) else x.matchs)
      pub sampler : y.sampler ≡ (
          if overflow x.regs
          then (if matched x.regs
              then trigger_low b (trigger_high a x.sampler)
              else trigger_high a x.sampler)
          else (if matched x.regs then trigger_low a x.sampler else x.sampler))

    -- The state after a call of the handler that finds the flag.
    abbrev high_served : TransferStatus → Pilot → Pilot
    high_served answer x = record x {
      regs = r.write irqstatus_offset irqstatus_overflow_flag x.regs;
      ovfls = u32 (x.ovfls + 1);
      sampler = trigger_high answer x.sampler;
    }

    abbrev low_served : TransferStatus → Pilot → Pilot
    low_served answer x = record x {
      regs = r.write irqstatus_offset irqstatus_match_flag x.regs;
      matchs = u32 (x.matchs + 1);
      sampler = trigger_low answer x.sampler;
    }

    isr-overflow :
        (answer : TransferStatus) (x : Pilot)
        → overflow x.regs ≡ true
        → pwm_timer_isr answer x ≡ high_served answer x
    unfolding pwm_timer_isr
    isr-overflow answer x o = simp (t.read-world, t.read-overflow, o) refl

    isr-matched :
        (answer : TransferStatus) (x : Pilot)
        → overflow x.regs ≡ false
        → matched x.regs ≡ true
        → pwm_timer_isr answer x ≡ low_served answer x
    unfolding pwm_timer_isr
    isr-matched answer x o m = simp (t.read-world, t.read-overflow, t.read-matched, o, m) refl

    run_isr-quiet :
        (answers : List TransferStatus) (x : Pilot)
        → overflow x.regs ≡ false
        → matched x.regs ≡ false
        → run_isr answers x ≡ x
    unfolding run_isr
    run_isr-quiet [] x o m = refl
    run_isr-quiet (answer ∷ answers) x o m = simp (o, m) refl

    run_isr-matched :
        (answer : TransferStatus) (answers : List TransferStatus) (x : Pilot)
        → overflow x.regs ≡ false
        → matched x.regs ≡ true
        → run_isr (answer ∷ answers) x ≡ low_served answer x
    unfolding run_isr
    run_isr-matched answer answers x o m =
        simp (o, m)
          (ap (run_isr answers) (isr-matched answer x o m)
            ∙ run_isr-quiet answers _ ((t.clear-matched x.regs).1 ∙ o) (t.clear-matched x.regs).0)

    run_isr-overflow :
        (answer : TransferStatus) (answers : List TransferStatus) (x : Pilot)
        → overflow x.regs ≡ true
        → run_isr (answer ∷ answers) x ≡ run_isr answers (high_served answer x)
    unfolding run_isr
    run_isr-overflow answer answers x o = simp o (ap (run_isr answers) (isr-overflow answer x o))

    Settled-quiet :
        (a b : TransferStatus) (x : Pilot)
        → overflow x.regs ≡ false
        → matched x.regs ≡ false
        → Settled a b x x
    Settled-quiet a b x o m = record {
      no_overflow = o;
      no_match = m;
      ovfls = simp o refl;
      matchs = simp m refl;
      sampler = simp (o, m) refl;
    }

    Settled-matched :
        (a b : TransferStatus) (x : Pilot)
        → overflow x.regs ≡ false
        → matched x.regs ≡ true
        → Settled a b x (low_served a x)
    Settled-matched a b x o m = record {
      no_overflow = (t.clear-matched x.regs).1 ∙ o;
      no_match = (t.clear-matched x.regs).0;
      ovfls = simp o refl;
      matchs = simp m refl;
      sampler = simp (o, m) refl;
    }

    Settled-overflow :
        (a b : TransferStatus) (x : Pilot)
        → overflow x.regs ≡ true
        → matched x.regs ≡ false
        → Settled a b x (high_served a x)
    Settled-overflow a b x o m = record {
      no_overflow = (t.clear-overflow x.regs).0;
      no_match = (t.clear-overflow x.regs).1 ∙ m;
      ovfls = simp o refl;
      matchs = simp m refl;
      sampler = simp (o, m) refl;
    }

    Settled-both :
        (a b : TransferStatus) (x : Pilot)
        → overflow x.regs ≡ true
        → matched x.regs ≡ true
        → Settled a b x (low_served b (high_served a x))
    Settled-both a b x o m = record {
      no_overflow = (t.clear-matched (high_served a x).regs).1 ∙ (t.clear-overflow x.regs).0;
      no_match = (t.clear-matched (high_served a x).regs).0;
      ovfls = simp o refl;
      matchs = simp m refl;
      sampler = simp (o, m) refl;
    }

    settle_overflow :
        (a b : TransferStatus) (answers : List TransferStatus) (x : Pilot)
        → overflow x.regs ≡ true
        → Settled a b x (run_isr (a ∷ b ∷ answers) x)
    settle_overflow a b answers x o =
        let (o1, m1) = t.clear-overflow x.regs in
        elim (Bool-cases (matched x.regs)) [
          | inl m ↦
              subst (Settled a b x)
                (sym (
                  run_isr-overflow a (b ∷ answers) x o
                  ∙ run_isr-matched b answers (high_served a x) o1 (m1 ∙ m)))
                (Settled-both a b x o m)
          | inr m ↦
              subst (Settled a b x)
                (sym (
                  run_isr-overflow a (b ∷ answers) x o
                  ∙ run_isr-quiet (b ∷ answers) (high_served a x) o1 (m1 ∙ m)))
                (Settled-overflow a b x o m)
        ]

    -- However the timer's flags stand and whatever the driver answers, two calls of the handler are
    -- enough: then no flag is set and the handler is not called again, the trigger of the sampler was
    -- called exactly once for each phase whose flag was set, that of the high phase first, and each
    -- counter of such a flag went up by one.
    pub run_isr-Settled :
        (a b : TransferStatus) (answers : List TransferStatus) (x : Pilot)
        → Settled a b x (run_isr (a ∷ b ∷ answers) x)
    run_isr-Settled a b answers x = elim (Bool-cases (overflow x.regs)) [
      | inl o ↦ settle_overflow a b answers x o
      | inr o ↦ elim (Bool-cases (matched x.regs)) [
        | inl m ↦
            subst (Settled a b x) (sym (run_isr-matched a (b ∷ answers) x o m))
              (Settled-matched a b x o m)
        | inr m ↦
            subst (Settled a b x) (sym (run_isr-quiet (a ∷ b ∷ answers) x o m))
              (Settled-quiet a b x o m)
      ]
    ]
