-- ===== src/Sampler/Signal.antt =====
-- firmware/bsp_drivers/sampler.cpp: the signal that the sampling task publishes, against the windows
-- of the last ten samples.
use ti_am62x_evse_sdk.Prelude.{
  ◌≡◌, ◌⊎◌, inl, inr, refl, sym, ◌∙◌, ap, ℕ, ◌/◌, ◌^◌, ◌<◌, Bool, true, ◌&&◌, leb, Bool-cases,
  arith,
}
use ti_am62x_evse_sdk.Sampler.Ring.{AveragingRingBuffer, new, add_value}
use ti_am62x_evse_sdk.Sampler.Window.{
  IsValid, add_value-Added, sum, window, window-sum_le, outliers,
}
use ti_am62x_evse_sdk.Sampler.Device.{
  Sampler, Burst, BurstSamplesTbd, CombinedAdcSample, TransferStatus, RawCpSignal, is_publishable,
  construct, trigger_adc_readout, begin_sample, transfer, aquire_adc_sample_write_access,
  adc_spi_cb, release_adc_sample_write_access, decode_burst_adc_samples, update_raw_cp_signal,
  process,
}
use ti_am62x_evse_sdk.Sampler.Steps.{System, TaskPoint, Step, Reachable, IsU16Burst, fill}
use ti_am62x_evse_sdk.Sampler.Exclusion.{start}

-- The mean of the last ten values.
abbrev pub mean : AveragingRingBuffer → ℕ
mean b = sum (window b) / 10

-- Ten values have come, and at most one of the last ten is off their mean by more than 400.
abbrev pub is_steady : AveragingRingBuffer → Bool
is_steady b = leb (outliers 400 (mean b) (window b)) 1 && b.filled

-- The signal says what the windows say.
pub record Published (high low : AveragingRingBuffer) (raw : RawCpSignal) : Type 0 where
  pub valid : raw.valid ≡ (is_steady high && is_steady low)
  pub high_mean : raw.valid ≡ true → raw.high ≡ mean high
  pub low_mean : raw.valid ≡ true → raw.low ≡ mean low

-- What the samples go through.
record Data : Type 0 where
  high_samples : Burst
  low_samples : Burst
  cp_high_avg : AveragingRingBuffer
  cp_low_avg : AveragingRingBuffer
  pp_avg : AveragingRingBuffer
  raw : RawCpSignal

abbrev data_of : Sampler → Data
data_of s = record {
  high_samples = s.adc_sample.high_samples;
  low_samples = s.adc_sample.low_samples;
  cp_high_avg = s.cp_high_avg;
  cp_low_avg = s.cp_low_avg;
  pp_avg = s.pp_avg;
  raw = s.raw_cp_signal;
}

record IsRing (k : ℕ) (b : AveragingRingBuffer) : Type 0 where
  ring : IsValid b
  limit : b.max_deviation ≡ k

pub record IsU16Sample (c : CombinedAdcSample) : Type 0 where
  pub cp : c.cp < 2 ^ 16
  pub pp : c.pp < 2 ^ 16

record Sound (junk : RawCpSignal) (d : Data) : Type 0 where
  high_words : IsU16Burst d.high_samples
  low_words : IsU16Burst d.low_samples
  high_ring : IsRing 400 d.cp_high_avg
  low_ring : IsRing 400 d.cp_low_avg
  pp_ring : IsRing 500 d.pp_avg
  signal : (d.raw ≡ junk) ⊎ Published d.cp_high_avg d.cp_low_avg d.raw

-- The local variables of the task.
abbrev pub Locals : TaskPoint → Type 0
Locals (TaskPoint.read_high h) = IsU16Sample h
Locals (TaskPoint.read_low h l) = IsU16Sample h × IsU16Sample l
Locals (TaskPoint.processing h l) = IsU16Sample h × IsU16Sample l
Locals _ = Unit

trigger-data :
    (answer : TransferStatus) (is_high : Bool) (s : Sampler)
    → data_of (trigger_adc_readout answer is_high s) ≡ data_of s
unfolding trigger_adc_readout aquire_adc_sample_write_access begin_sample transfer
trigger-data answer is_high s = ground arith

adc_spi_cb-data : (s : Sampler) → data_of (adc_spi_cb s) ≡ data_of s
unfolding adc_spi_cb release_adc_sample_write_access
adc_spi_cb-data s = ground arith

IsRing-add_value :
    (k v : ℕ) (b : AveragingRingBuffer) → v < 2 ^ 16 → IsRing k b → IsRing k (add_value v b)
IsRing-add_value k v b h r =
    let a = add_value-Added v b h r.ring in record { ring = a.valid; limit = a.limit ∙ r.limit }

-- The members that `add_value` computes, for the limit of the pilot's rings.
record Evaluated (b : AveragingRingBuffer) : Type 0 where
  average : b.average ≡ mean b
  misfits : b.misfits_count ≡ outliers 400 (mean b) (window b)
  small : mean b < 2 ^ 16

add_value-Evaluated :
    (v : ℕ) (b : AveragingRingBuffer) → v < 2 ^ 16 → IsRing 400 b → Evaluated (add_value v b)
add_value-Evaluated v b h r =
    let a = add_value-Added v b h r.ring in
    record {
      average = a.average;
      misfits =
          a.misfits ∙ ap (λ k. outliers k (mean (add_value v b)) (window (add_value v b))) r.limit;
      small = omega (arith, window-sum_le (add_value v b) a.valid);
    }

shuffle : (x y f g : Bool) → (x && (y && (f && g))) ≡ ((x && f) && (y && g))
shuffle x y f g = ground arith

is_publishable-steady :
    (t : Sampler)
    → Evaluated t.cp_high_avg
    → Evaluated t.cp_low_avg
    → is_publishable t ≡ (is_steady t.cp_high_avg && is_steady t.cp_low_avg)
is_publishable-steady t p q =
    rw (p.misfits, q.misfits)
      (shuffle (leb (outliers 400 (mean t.cp_high_avg) (window t.cp_high_avg)) 1)
        (leb (outliers 400 (mean t.cp_low_avg) (window t.cp_low_avg)) 1) t.cp_high_avg.filled
        t.cp_low_avg.filled)

update_raw_cp_signal-Published :
    (t : Sampler)
    → Evaluated t.cp_high_avg
    → Evaluated t.cp_low_avg
    → Published t.cp_high_avg t.cp_low_avg (update_raw_cp_signal t).raw_cp_signal
unfolding update_raw_cp_signal
update_raw_cp_signal-Published t p q = elim (Bool-cases (is_publishable t)) [
  | inl e ↦ simp e (record {
    valid = sym e ∙ is_publishable-steady t p q;
    high_mean = λ _. omega (arith, p.average, p.small);
    low_mean = λ _. omega (arith, q.average, q.small);
  })
  | inr e ↦ simp e (record {
    valid = sym e ∙ is_publishable-steady t p q;
    high_mean = λ c. absurd (cc);
    low_mean = λ c. absurd (cc);
  })
]

update_raw_cp_signal-data :
    (t : Sampler)
    → data_of (update_raw_cp_signal t)
      ≡ record (data_of t) { raw = (update_raw_cp_signal t).raw_cp_signal }
unfolding update_raw_cp_signal
update_raw_cp_signal-data t = ground arith

process-Sound :
    (junk : RawCpSignal) (h l : CombinedAdcSample) (s : Sampler)
    → IsU16Sample h
    → IsU16Sample l
    → Sound junk (data_of s)
    → Sound junk (data_of (process h l s))
unfolding process
process-Sound junk h l s a b w =
    let t = record s {
      cp_high_avg = add_value h.cp s.cp_high_avg;
      cp_low_avg = add_value l.cp s.cp_low_avg;
      pp_avg = add_value h.pp s.pp_avg;
    } in
    rw (update_raw_cp_signal-data t) (record {
      high_words = w.high_words;
      low_words = w.low_words;
      high_ring = IsRing-add_value 400 h.cp s.cp_high_avg a.cp w.high_ring;
      low_ring = IsRing-add_value 400 l.cp s.cp_low_avg b.cp w.low_ring;
      pp_ring = IsRing-add_value 500 h.pp s.pp_avg a.pp w.pp_ring;
      signal = inr (
          update_raw_cp_signal-Published t (add_value-Evaluated h.cp s.cp_high_avg a.cp w.high_ring)
            (add_value-Evaluated l.cp s.cp_low_avg b.cp w.low_ring));
    })

record Good (junk : RawCpSignal) (x : System) : Type 0 where
  sound : Sound junk (data_of x.sampler)
  locals : Locals x.task

Good-same :
    (junk : RawCpSignal) (x : System) (t : Sampler)
    → data_of t ≡ data_of x.sampler
    → Good junk x
    → Good junk (record x { sampler = t })
Good-same junk x t e g = record { sound = rw e g.sound; locals = g.locals }

Sound-fill :
    (junk : RawCpSignal) (words : Burst) (s : Sampler) (b : BurstSamplesTbd)
    → s.rx_buf ≡ b
    → IsU16Burst words
    → Sound junk (data_of s)
    → Sound junk (data_of (fill words s))
Sound-fill junk words s BurstSamplesTbd.high e h w = rw e (record {
  high_words = h;
  low_words = w.low_words;
  high_ring = w.high_ring;
  low_ring = w.low_ring;
  pp_ring = w.pp_ring;
  signal = w.signal;
})
Sound-fill junk words s BurstSamplesTbd.low e h w = rw e (record {
  high_words = w.high_words;
  low_words = h;
  high_ring = w.high_ring;
  low_ring = w.low_ring;
  pp_ring = w.pp_ring;
  signal = w.signal;
})

pub decode_burst_adc_samples-u16 :
    (b : Burst) → IsU16Burst b → IsU16Sample (decode_burst_adc_samples b)
unfolding decode_burst_adc_samples
decode_burst_adc_samples-u16 b w = record { cp = w.word1; pp = w.word2 }

Good-Step : (junk : RawCpSignal) (x y : System) → Step x y → Good junk x → Good junk y
Good-Step junk _ _ (Step.trigger answer is_high x) g =
    Good-same junk x _ (trigger-data answer is_high x.sampler) g
Good-Step junk _ _ (Step.receive words x e h) g = record {
  sound = Sound-fill junk words x.sampler _ refl h g.sound;
  locals = g.locals;
}
Good-Step junk _ _ (Step.finish result x e) g = Good-same junk x _ (adc_spi_cb-data _) g
Good-Step junk _ _ (Step.wake s e) g = record { sound = g.sound; locals = tt }
Good-Step junk _ _ (Step.take_buffer s e) g = record { sound = g.sound; locals = tt }
Good-Step junk _ _ (Step.decode_high s) g = record {
  sound = g.sound;
  locals = decode_burst_adc_samples-u16 _ g.sound.high_words;
}
Good-Step junk _ _ (Step.decode_low s h) g = record {
  sound = g.sound;
  locals = (g.locals, decode_burst_adc_samples-u16 _ g.sound.low_words);
}
Good-Step junk _ _ (Step.give_buffer s h l) g = record { sound = g.sound; locals = g.locals }
Good-Step junk _ _ (Step.process_samples s h l) g = record {
  sound = process-Sound junk h l s g.locals.0 g.locals.1 g.sound;
  locals = tt;
}

Reachable-Good : (junk : RawCpSignal) (s x : System) → Good junk s → Reachable s x → Good junk x
Reachable-Good junk s _ g Reachable.initial = g
Reachable-Good junk s _ g (Reachable.next x y r t) =
    Good-Step junk x y t (Reachable-Good junk s x g r)

IsRing-new : (k : ℕ) → IsRing k (new k)
unfolding new
IsRing-new k = record {
  ring = record { index = omega arith; size = refl; words = ground arith };
  limit = refl;
}

-- In every state that can be reached from a constructed sampler, the raw signal is still the one
-- that the memory held at the start, or it says what the windows say: it is valid exactly if both
-- parts of the pilot signal are steady (ten samples have come, and at most one of the last ten is
-- off their mean by more than 400), and the values of a valid signal are the means of the windows.
pub raw_cp_signal-Published :
    (status : TransferStatus) (high low : Burst) (tbd : BurstSamplesTbd) (raw : RawCpSignal)
    (x : System)
    → IsU16Burst high
    → IsU16Burst low
    → Reachable (start status high low tbd raw) x
    → (x.sampler.raw_cp_signal ≡ raw)
      ⊎ Published x.sampler.cp_high_avg x.sampler.cp_low_avg x.sampler.raw_cp_signal
unfolding construct
raw_cp_signal-Published status high low tbd raw x h l r =
    (Reachable-Good raw _ x
      (record {
        sound = record {
          high_words = h;
          low_words = l;
          high_ring = IsRing-new 400;
          low_ring = IsRing-new 400;
          pp_ring = IsRing-new 500;
          signal = inl refl;
        };
        locals = tt;
      })
      r).sound.signal
