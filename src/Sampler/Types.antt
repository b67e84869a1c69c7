-- ===== src/Sampler/Types.antt =====
-- firmware/bsp_drivers/sampler.hpp: the integer members of the sampler against their C types.
use ti_am62x_evse_sdk.Prelude.{
  ◌≡◌, refl, ℕ, ◌+◌, ◌/◌, ◌^◌, ◌<◌, ◌≤◌, Bool, false, List, [], ◌∷◌, length, inl, inr, Bool-cases,
  arith,
}
use ti_am62x_evse_sdk.Prelude.Word.{u32}
use ti_am62x_evse_sdk.Sampler.Ring.{AveragingRingBuffer, new, add_value}
use ti_am62x_evse_sdk.Sampler.Window.{
  IsValid, add_value-Added, sum, window, window-sum_le, outliers, length-rotate,
}
use ti_am62x_evse_sdk.Sampler.Device.{
  Sampler, Burst, BurstSamplesTbd, CombinedAdcSample, TransferStatus, RawCpSignal, is_publishable,
  construct, trigger_adc_readout, begin_sample, transfer, aquire_adc_sample_write_access,
  adc_spi_cb, release_adc_sample_write_access, update_raw_cp_signal, process,
}
use ti_am62x_evse_sdk.Sampler.Steps.{System, Step, Reachable, IsU16Burst, fill}
use ti_am62x_evse_sdk.Sampler.Signal.{IsU16Sample, Locals, decode_burst_adc_samples-u16}
use ti_am62x_evse_sdk.Sampler.Exclusion.{start}

-- A ring whose index is in bounds and whose values are uint16_t; the average is a uint32_t but fits in
-- the uint16_t that it is stored in, and no more values than there are can be misfits.
pub record IsTypedRing (b : AveragingRingBuffer) : Type 0 where
  pub valid : IsValid b
  pub average : b.average < 2 ^ 16
  pub misfits : b.misfits_count ≤ 10

pub record IsTypedRaw (r : RawCpSignal) : Type 0 where
  pub high : r.high < 2 ^ 16
  pub low : r.low < 2 ^ 16

outliers_le : (k m : ℕ) (xs : List ℕ) → outliers k m xs ≤ length xs
outliers_le k m [] = omega arith
outliers_le k m (x ∷ xs) = ground (arith, outliers_le k m xs)

add_value-IsTypedRing :
    (v : ℕ) (b : AveragingRingBuffer) → v < 2 ^ 16 → IsValid b → IsTypedRing (add_value v b)
add_value-IsTypedRing v b h w =
    let a = add_value-Added v b h w in
    let c = add_value v b in
    record {
      valid = a.valid;
      average = omega (arith, a.average, window-sum_le c a.valid);
      misfits = omega (
        arith,
        a.misfits,
        outliers_le b.max_deviation (sum (window c) / 10) (window c),
        length-rotate c.cur_idx c.values,
        a.valid.size,
      );
    }

-- The members that are integers.
pub record Members : Type 0 where
  pub high_samples : Burst
  pub low_samples : Burst
  pub cp_high_avg : AveragingRingBuffer
  pub cp_low_avg : AveragingRingBuffer
  pub pp_avg : AveragingRingBuffer
  pub raw_cp_signal : RawCpSignal
  pub sigs : ℕ
  pub adcs : ℕ

abbrev pub members : Sampler → Members
members s = record {
  high_samples = s.adc_sample.high_samples;
  low_samples = s.adc_sample.low_samples;
  cp_high_avg = s.cp_high_avg;
  cp_low_avg = s.cp_low_avg;
  pp_avg = s.pp_avg;
  raw_cp_signal = s.raw_cp_signal;
  sigs = s.sigs;
  adcs = s.adcs;
}

-- Every integer member holds a value of its C type.
pub record IsTypedSampler (m : Members) : Type 0 where
  pub high_samples : IsU16Burst m.high_samples
  pub low_samples : IsU16Burst m.low_samples
  pub cp_high_avg : IsTypedRing m.cp_high_avg
  pub cp_low_avg : IsTypedRing m.cp_low_avg
  pub pp_avg : IsTypedRing m.pp_avg
  pub raw_cp_signal : IsTypedRaw m.raw_cp_signal
  pub sigs : m.sigs < 2 ^ 32
  pub adcs : m.adcs < 2 ^ 32

-- The sampler, and the local variables of its task.
pub record IsTyped (x : System) : Type 0 where
  pub sampler : IsTypedSampler (members x.sampler)
  pub locals : Locals x.task

trigger-members :
    (answer : TransferStatus) (is_high : Bool) (s : Sampler)
    → members (trigger_adc_readout answer is_high s) ≡ members s
unfolding trigger_adc_readout aquire_adc_sample_write_access begin_sample transfer
trigger-members answer is_high s = ground arith

adc_spi_cb-members :
    (s : Sampler) → members (adc_spi_cb s) ≡ record (members s) { adcs = u32 (s.adcs + 1) }
unfolding adc_spi_cb release_adc_sample_write_access
adc_spi_cb-members s = ground arith

update-members :
    (s : Sampler)
    → members (update_raw_cp_signal s)
      ≡ record (members s) { raw_cp_signal = (update_raw_cp_signal s).raw_cp_signal }
unfolding update_raw_cp_signal
update-members s = ground arith

update-IsTypedRaw :
    (s : Sampler) → IsTypedRaw s.raw_cp_signal → IsTypedRaw (update_raw_cp_signal s).raw_cp_signal
unfolding update_raw_cp_signal
update-IsTypedRaw s r = elim (Bool-cases (is_publishable s)) [
  | inl e ↦ simp e (record { high = omega arith; low = omega arith })
  | inr e ↦ simp e (record { high = r.high; low = r.low })
]

fill-IsTyped :
    (words : Burst) (s : Sampler) (b : BurstSamplesTbd)
    → s.rx_buf ≡ b
    → IsU16Burst words
    → IsTypedSampler (members s)
    → IsTypedSampler (members (fill words s))
fill-IsTyped words s BurstSamplesTbd.high e h w = rw e (record {
  high_samples = h;
  low_samples = w.low_samples;
  cp_high_avg = w.cp_high_avg;
  cp_low_avg = w.cp_low_avg;
  pp_avg = w.pp_avg;
  raw_cp_signal = w.raw_cp_signal;
  sigs = w.sigs;
  adcs = w.adcs;
})
fill-IsTyped words s BurstSamplesTbd.low e h w = rw e (record {
  high_samples = w.high_samples;
  low_samples = h;
  cp_high_avg = w.cp_high_avg;
  cp_low_avg = w.cp_low_avg;
  pp_avg = w.pp_avg;
  raw_cp_signal = w.raw_cp_signal;
  sigs = w.sigs;
  adcs = w.adcs;
})

finish-IsTyped :
    (s : Sampler) → IsTypedSampler (members s) → IsTypedSampler (members (adc_spi_cb s))
finish-IsTyped s w = rw (adc_spi_cb-members s) (record {
  high_samples = w.high_samples;
  low_samples = w.low_samples;
  cp_high_avg = w.cp_high_avg;
  cp_low_avg = w.cp_low_avg;
  pp_avg = w.pp_avg;
  raw_cp_signal = w.raw_cp_signal;
  sigs = w.sigs;
  adcs = omega arith;
})

wake-IsTyped :
    (s : Sampler)
    → IsTypedSampler (members s)
    → IsTypedSampler (members (record s { new_sample_available = false; sigs = u32 (s.sigs + 1) }))
wake-IsTyped s w = record {
  high_samples = w.high_samples;
  low_samples = w.low_samples;
  cp_high_avg = w.cp_high_avg;
  cp_low_avg = w.cp_low_avg;
  pp_avg = w.pp_avg;
  raw_cp_signal = w.raw_cp_signal;
  sigs = omega arith;
  adcs = w.adcs;
}

process-IsTyped :
    (h l : CombinedAdcSample) (s : Sampler)
    → IsU16Sample h
    → IsU16Sample l
    → IsTypedSampler (members s)
    → IsTypedSampler (members (process h l s))
unfolding process
process-IsTyped h l s a b w = rw (update-members _) (record {
  high_samples = w.high_samples;
  low_samples = w.low_samples;
  cp_high_avg = add_value-IsTypedRing h.cp s.cp_high_avg a.cp w.cp_high_avg.valid;
  cp_low_avg = add_value-IsTypedRing l.cp s.cp_low_avg b.cp w.cp_low_avg.valid;
  pp_avg = add_value-IsTypedRing h.pp s.pp_avg a.pp w.pp_avg.valid;
  raw_cp_signal = update-IsTypedRaw _ w.raw_cp_signal;
  sigs = w.sigs;
  adcs = w.adcs;
})

Step-IsTyped : (x y : System) → Step x y → IsTyped x → IsTyped y
Step-IsTyped _ _ (Step.trigger answer is_high x) t = record {
  sampler = rw (trigger-members answer is_high x.sampler) t.sampler;
  locals = t.locals;
}
Step-IsTyped _ _ (Step.receive words x e h) t = record {
  sampler = fill-IsTyped words x.sampler _ refl h t.sampler;
  locals = t.locals;
}
Step-IsTyped _ _ (Step.finish result x e) t = record {
  sampler = finish-IsTyped _ t.sampler;
  locals = t.locals;
}
Step-IsTyped _ _ (Step.wake s e) t = record { sampler = wake-IsTyped s t.sampler; locals = tt }
Step-IsTyped _ _ (Step.take_buffer s e) t = record { sampler = t.sampler; locals = tt }
Step-IsTyped _ _ (Step.decode_high s) t = record {
  sampler = t.sampler;
  locals = decode_burst_adc_samples-u16 _ t.sampler.high_samples;
}
Step-IsTyped _ _ (Step.decode_low s h) t = record {
  sampler = t.sampler;
  locals = (t.locals, decode_burst_adc_samples-u16 _ t.sampler.low_samples);
}
Step-IsTyped _ _ (Step.give_buffer s h l) t = record { sampler = t.sampler; locals = t.locals }
Step-IsTyped _ _ (Step.process_samples s h l) t = record {
  sampler = process-IsTyped h l s t.locals.0 t.locals.1 t.sampler;
  locals = tt;
}

new-IsTypedRing : (k : ℕ) → IsTypedRing (new k)
unfolding new
new-IsTypedRing k = record {
  valid = record { index = omega arith; size = refl; words = ground arith };
  average = omega arith;
  misfits = omega arith;
}

-- In every state that can be reached from a constructed sampler whose memory held values of the members'
-- types, every integer member holds a value of its C type; moreover the averages, which are stored in
-- members of type uint16_t, fit there, the indices stay in the arrays, and no ring counts more than ten
-- misfits.
pub Reachable-IsTyped :
    (status : TransferStatus) (high low : Burst) (tbd : BurstSamplesTbd) (raw : RawCpSignal)
    (x : System)
    → IsU16Burst high
    → IsU16Burst low
    → IsTypedRaw raw
    → Reachable (start status high low tbd raw) x
    → IsTyped x
unfolding construct
Reachable-IsTyped status high low tbd raw _ h l r Reachable.initial = record {
  sampler = record {
    high_samples = h;
    low_samples = l;
    cp_high_avg = new-IsTypedRing 400;
    cp_low_avg = new-IsTypedRing 400;
    pp_avg = new-IsTypedRing 500;
    raw_cp_signal = r;
    sigs = omega arith;
    adcs = omega arith;
  };
  locals = tt;
}
Reachable-IsTyped status high low tbd raw _ h l r (Reachable.next x y s t) =
    Step-IsTyped x y t (Reachable-IsTyped status high low tbd raw x h l r s)
