-- ===== src/Sampler/Exclusion.antt =====
-- firmware/bsp_drivers/sampler.cpp: the sample buffer between the interrupts and the task.
use ti_am62x_evse_sdk.Prelude.{
  ◌≡◌, ◌⊎◌, inl, inr, refl, ap, Bool, true, false, not, ◌&&◌, ◌||◌, Bool-cases, arith,
}
use ti_am62x_evse_sdk.Sampler.Device.{
  Sampler, Burst, BurstSamplesTbd, BurstAdcSamples, CombinedAdcSample, TransferStatus, RawCpSignal,
  is_pending, is_completed, is_publishable, mark_done, construct, trigger_adc_readout, begin_sample,
  transfer, aquire_adc_sample_write_access, adc_spi_cb, release_adc_sample_write_access,
  decode_burst_adc_samples, update_raw_cp_signal, process,
}
use ti_am62x_evse_sdk.Sampler.Steps.{System, TaskPoint, Step, Reachable, fill}

-- The task holds the sample buffer.
abbrev pub holds : TaskPoint → Bool
holds TaskPoint.reading = true
holds (TaskPoint.read_high h) = true
holds (TaskPoint.read_low h l) = true
holds _ = false

-- The task was told of a sample that it has not read yet.
abbrev pub is_awake : TaskPoint → Bool
is_awake TaskPoint.signalled = true
is_awake t = holds t

-- What the task has read is what the buffer holds.
abbrev pub Untorn : TaskPoint → BurstAdcSamples → Type 0
Untorn (TaskPoint.read_high h) a = h ≡ decode_burst_adc_samples a.high_samples
Untorn (TaskPoint.read_low h l) a =
    (h ≡ decode_burst_adc_samples a.high_samples) × (l ≡ decode_burst_adc_samples a.low_samples)
Untorn _ a = Unit

pub record Invariant (x : System) : Type 0 where
  pub holder :
      x.sampler.sample_buf_mutex
      ≡ (not x.sampler.adc_sample_write_access_aquired && not (holds x.task))
  pub apart : (x.sampler.adc_sample_write_access_aquired && holds x.task) ≡ false
  pub flight :
      (is_pending x.sampler.status && not x.sampler.adc_sample_write_access_aquired) ≡ false
  pub whole :
      ((x.sampler.new_sample_available || is_awake x.task)
        && (not x.sampler.adc_sample_write_access_aquired
            && not (x.sampler.adc_sample.high_done && x.sampler.adc_sample.low_done)))
      ≡ false
  pub untorn : Untorn x.task x.sampler.adc_sample

-- The system before its first step.
abbrev pub start : TransferStatus → Burst → Burst → BurstSamplesTbd → RawCpSignal → System
start status high low tbd raw = record {
  sampler = construct status high low tbd raw;
  task = TaskPoint.waiting;
}

is_awake-holds : (t : TaskPoint) → holds t ≡ true → is_awake t ≡ true
is_awake-holds TaskPoint.signalled e = absurd (cc)
is_awake-holds TaskPoint.waiting e = e
is_awake-holds TaskPoint.reading e = e
is_awake-holds (TaskPoint.read_high h) e = e
is_awake-holds (TaskPoint.read_low h l) e = e
is_awake-holds (TaskPoint.processing h l) e = e

Untorn-free : (t : TaskPoint) (a : BurstAdcSamples) → holds t ≡ false → Untorn t a
Untorn-free TaskPoint.waiting a e = tt
Untorn-free TaskPoint.signalled a e = tt
Untorn-free TaskPoint.reading a e = tt
Untorn-free (TaskPoint.read_high h) a e = absurd (cc)
Untorn-free (TaskPoint.read_low h l) a e = absurd (cc)
Untorn-free (TaskPoint.processing h l) a e = tt

-- A readout that is started: the buffer was free or is written already, and it is written now.
record Sampling (s t : Sampler) : Type 0 where
  free : (s.adc_sample_write_access_aquired || s.sample_buf_mutex) ≡ true
  aquired : t.adc_sample_write_access_aquired ≡ true
  mutex : t.sample_buf_mutex ≡ (s.sample_buf_mutex && s.adc_sample_write_access_aquired)

trigger_adc_readout_lem :
    (answer : TransferStatus) (is_high : Bool) (s : Sampler)
    → (trigger_adc_readout answer is_high s ≡ s) ⊎ Sampling s (trigger_adc_readout answer is_high s)
unfolding trigger_adc_readout aquire_adc_sample_write_access begin_sample transfer
trigger_adc_readout_lem answer is_high s = elim (Bool-cases (is_completed s.status)) [
  | inr busy ↦ simp busy (inl refl)
  | inl ready ↦ elim (Bool-cases s.adc_sample_write_access_aquired) [
    | inl had ↦
        elim (Bool-cases
          (s.adc_sample.high_done && is_high || s.adc_sample.low_done && not is_high)) [
            | inl done ↦ simp (ready, had, done) (inl refl)
            | inr more ↦
                simp (ready, had, more)
                  (inr (record { free = ground arith; aquired = refl; mutex = ground arith }))
          ]
    | inr fresh ↦ elim (Bool-cases s.sample_buf_mutex) [
      | inl free ↦
          simp (ready, fresh, free)
            (inr (record { free = ground arith; aquired = refl; mutex = ground arith }))
      | inr taken ↦ simp (ready, fresh, taken) (inl refl)
    ]
  ]
]

Invariant-Sampling :
    (x : System) (t : Sampler)
    → Invariant x
    → Sampling x.sampler t
    → Invariant (record x { sampler = t })
Invariant-Sampling x t i p =
    let idle : holds x.task ≡ false = ground (arith, i.holder, i.apart, p.free) in
    record {
      holder = ground (arith, i.holder, p.aquired, p.mutex);
      apart = ground (arith, idle);
      flight = ground (arith, p.aquired);
      whole = ground (arith, p.aquired);
      untorn = Untorn-free x.task t.adc_sample idle;
    }

-- While a transfer is pending the interrupts have the buffer.
aquired-pending :
    (x : System)
    → Invariant x
    → x.sampler.status ≡ TransferStatus.pending
    → (x.sampler.adc_sample_write_access_aquired ≡ true) × (holds x.task ≡ false)
aquired-pending x i e =
    let p : is_pending x.sampler.status ≡ true = ap is_pending e in
    (ground (arith, i.flight, p), ground (arith, i.flight, i.apart, p))

Invariant-receive :
    (x : System) (words : Burst)
    → Invariant x
    → x.sampler.status ≡ TransferStatus.pending
    → Invariant (record x { sampler = fill words x.sampler })
Invariant-receive x words i e =
    let own = aquired-pending x i e in
    record {
      holder = i.holder;
      apart = i.apart;
      flight = i.flight;
      whole = ground (arith, own.0);
      untorn = Untorn-free x.task _ own.1;
    }

Invariant-finish :
    (x : System) (status : TransferStatus)
    → Invariant x
    → x.sampler.status ≡ TransferStatus.pending
    → is_pending status ≡ false
    → Invariant (record x { sampler = adc_spi_cb (record (x.sampler) { status = status }) })
unfolding adc_spi_cb release_adc_sample_write_access
Invariant-finish x status i e done =
    let own = aquired-pending x i e in
    elim (Bool-cases
      ((mark_done x.sampler.adc_sample).low_done && (mark_done x.sampler.adc_sample).high_done)) [
        | inl both ↦ simp both (record {
          holder = ground (arith, own.1);
          apart = refl;
          flight = ground (arith, done);
          whole = ground (arith, both);
          untorn = Untorn-free x.task _ own.1;
        })
        | inr half ↦ simp half (record {
          holder = i.holder;
          apart = i.apart;
          flight = ground (arith, done);
          whole = ground (arith, own.0);
          untorn = Untorn-free x.task _ own.1;
        })
      ]

Invariant-update :
    (t : Sampler)
    → Invariant (record { sampler = t; task = TaskPoint.waiting })
    → Invariant (record { sampler = update_raw_cp_signal t; task = TaskPoint.waiting })
unfolding update_raw_cp_signal
Invariant-update t i = elim (Bool-cases (is_publishable t)) [
  | inl e ↦ simp e (record {
    holder = i.holder;
    apart = i.apart;
    flight = i.flight;
    whole = i.whole;
    untorn = tt;
  })
  | inr e ↦ simp e (record {
    holder = i.holder;
    apart = i.apart;
    flight = i.flight;
    whole = i.whole;
    untorn = tt;
  })
]

Invariant-process :
    (s : Sampler) (h l : CombinedAdcSample)
    → Invariant (record { sampler = s; task = TaskPoint.processing h l })
    → Invariant (record { sampler = process h l s; task = TaskPoint.waiting })
unfolding process
Invariant-process s h l i =
    Invariant-update _ (record {
      holder = i.holder;
      apart = i.apart;
      flight = i.flight;
      whole = i.whole;
      untorn = tt;
    })

Invariant-Step : (x y : System) → Step x y → Invariant x → Invariant y
Invariant-Step _ _ (Step.trigger answer is_high x) i =
    elim (trigger_adc_readout_lem answer is_high x.sampler) [
      | inl same ↦ rw same i
      | inr started ↦ Invariant-Sampling x _ i started
    ]
Invariant-Step _ _ (Step.receive words x e w) i = Invariant-receive x words i e
Invariant-Step _ _ (Step.finish true x e) i = Invariant-finish x TransferStatus.completed i e refl
Invariant-Step _ _ (Step.finish false x e) i = Invariant-finish x TransferStatus.failed i e refl
Invariant-Step _ _ (Step.wake s e) i = record {
  holder = i.holder;
  apart = i.apart;
  flight = i.flight;
  whole = ground (arith, e, i.whole);
  untorn = tt;
}
Invariant-Step _ _ (Step.take_buffer s e) i = record {
  holder = ground (arith, e, i.holder);
  apart = ground (arith, e, i.holder);
  flight = i.flight;
  whole = ground (arith, i.whole);
  untorn = tt;
}
Invariant-Step _ _ (Step.decode_high s) i = record {
  holder = i.holder;
  apart = i.apart;
  flight = i.flight;
  whole = i.whole;
  untorn = refl;
}
Invariant-Step _ _ (Step.decode_low s h) i = record {
  holder = i.holder;
  apart = i.apart;
  flight = i.flight;
  whole = i.whole;
  untorn = (i.untorn, refl);
}
Invariant-Step _ _ (Step.give_buffer s h l) i = record {
  holder = ground (arith, i.apart);
  apart = ground (arith, i.apart);
  flight = i.flight;
  whole = ground (arith, i.whole);
  untorn = tt;
}
Invariant-Step _ _ (Step.process_samples s h l) i = Invariant-process s h l i

construct-Invariant :
    (status : TransferStatus) (high low : Burst) (tbd : BurstSamplesTbd) (raw : RawCpSignal)
    → is_pending status ≡ false
    → Invariant (start status high low tbd raw)
unfolding construct
construct-Invariant status high low tbd raw e = record {
  holder = refl;
  apart = refl;
  flight = ground (arith, e);
  whole = refl;
  untorn = tt;
}

Reachable-Invariant : (s x : System) → Invariant s → Reachable s x → Invariant x
Reachable-Invariant s _ i Reachable.initial = i
Reachable-Invariant s _ i (Reachable.next x y r t) =
    Invariant-Step x y t (Reachable-Invariant s x i r)

-- What the task can rely on while it holds the buffer.
pub record Exclusive (x : System) : Type 0 where
  pub free : x.sampler.adc_sample_write_access_aquired ≡ false
  pub quiet : is_pending x.sampler.status ≡ false
  pub mutex : x.sampler.sample_buf_mutex ≡ false
  pub whole : (x.sampler.adc_sample.high_done && x.sampler.adc_sample.low_done) ≡ true
  pub untorn : Untorn x.task x.sampler.adc_sample

-- In every state that can be reached from a constructed sampler whose driver has no transfer
-- pending, however the interrupts, the transfers and the task interleave: while the task holds the
-- sample buffer, the interrupts do not have it, no transfer is pending, the high and the low part
-- of the sample were both taken, and what the task has read so far is what the buffer holds.
pub holds-Exclusive :
    (status : TransferStatus) (high low : Burst) (tbd : BurstSamplesTbd) (raw : RawCpSignal)
    (x : System)
    → is_pending status ≡ false
    → Reachable (start status high low tbd raw) x
    → holds x.task ≡ true
    → Exclusive x
holds-Exclusive status high low tbd raw x e r held =
    let i = Reachable-Invariant _ x (construct-Invariant status high low tbd raw e) r in
    let free : x.sampler.adc_sample_write_access_aquired ≡ false = ground (arith, i.apart, held) in
    record {
      free = free;
      quiet = ground (arith, i.flight, free);
      mutex = ground (arith, i.holder, held);
      whole = ground (arith, i.whole, free, is_awake-holds x.task held);
      untorn = i.untorn;
    }
