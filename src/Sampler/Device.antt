-- ===== src/Sampler/Device.antt =====
-- firmware/bsp_drivers/sampler.cpp and sampler.hpp, `class Sampler`: the interrupt handlers that
-- read the ADC over SPI, and the sampling task, step by step.
use ti_am62x_evse_sdk.Prelude.{ℕ, ◌+◌, Bool, true, false, not, ◌&&◌, ◌||◌, leb, if◌then◌else◌}
use ti_am62x_evse_sdk.Prelude.Word.{u16, u32}
use ti_am62x_evse_sdk.Prelude.Floats.{Floats}
use ti_am62x_evse_sdk.Hal.{CpSignal}
use ti_am62x_evse_sdk.Sampler.Ring.{
  AveragingRingBuffer, new, add_value, cp_sample_max_deviation, cp_sample_max_misfits,
  pp_sample_max_deviation,
}

pub data BurstSamplesTbd : Type 0 where
  high low : BurstSamplesTbd

-- The field `status` of the driver's transaction, as far as the program tells its values apart.
pub data TransferStatus : Type 0 where
  completed pending failed : TransferStatus

-- `uint16_t[SPI_BURST_ADC_READS]`
pub record Burst : Type 0 where
  pub word0 : ℕ
  pub word1 : ℕ
  pub word2 : ℕ

pub record BurstAdcSamples : Type 0 where
  pub high_samples : Burst
  pub low_samples : Burst
  pub tbd : BurstSamplesTbd
  pub high_done : Bool
  pub low_done : Bool

pub record CombinedAdcSample : Type 0 where
  pub cp : ℕ
  pub pp : ℕ

pub record RawCpSignal : Type 0 where
  pub high : ℕ
  pub low : ℕ
  pub valid : Bool

-- The members of `class Sampler` and the two counters of the file. A binary semaphore is whether it
-- can be taken; `rx_buf` is the buffer that the transaction writes to. The mutex of the raw signal
-- is left out: whoever takes it gives it back in the same function.
pub record Sampler : Type 0 where
  pub adc_sample_write_access_aquired : Bool
  pub status : TransferStatus
  pub rx_buf : BurstSamplesTbd
  pub adc_sample : BurstAdcSamples
  pub new_sample_available : Bool
  pub sample_buf_mutex : Bool
  pub cp_high_avg : AveragingRingBuffer
  pub cp_low_avg : AveragingRingBuffer
  pub pp_avg : AveragingRingBuffer
  pub raw_cp_signal : RawCpSignal
  pub sigs : ℕ
  pub adcs : ℕ

-- The constructor. The buffers, `tbd` and the raw signal have no initialiser: they hold whatever
-- the memory held. The status is the one that the driver's initialisation leaves.
unfoldable pub construct : TransferStatus → Burst → Burst → BurstSamplesTbd → RawCpSignal → Sampler
unfolding new
construct status high_junk low_junk tbd_junk raw_junk = record {
  adc_sample_write_access_aquired = false;
  status = status;
  rx_buf = BurstSamplesTbd.high;
  adc_sample = record {
    high_samples = high_junk;
    low_samples = low_junk;
    tbd = tbd_junk;
    high_done = false;
    low_done = false;
  };
  new_sample_available = false;
  sample_buf_mutex = true;
  cp_high_avg = new cp_sample_max_deviation;
  cp_low_avg = new cp_sample_max_deviation;
  pp_avg = new pp_sample_max_deviation;
  raw_cp_signal = raw_junk;
  sigs = 0;
  adcs = 0;
}

abbrev pub is_completed : TransferStatus → Bool
is_completed TransferStatus.completed = true
is_completed _ = false

abbrev pub is_pending : TransferStatus → Bool
is_pending TransferStatus.pending = true
is_pending _ = false

abbrev pub phase : Bool → BurstSamplesTbd
phase is_high = if is_high then BurstSamplesTbd.high else BurstSamplesTbd.low

-- `aquire_adc_sample_write_access`: the result, and the state after it.
unfoldable pub aquire_adc_sample_write_access : Sampler → Bool × Sampler
aquire_adc_sample_write_access s =
    if s.sample_buf_mutex then (true, record s { sample_buf_mutex = false }) else (false, s)

unfoldable pub release_adc_sample_write_access : Sampler → Sampler
release_adc_sample_write_access s = record s {
  adc_sample_write_access_aquired = false;
  sample_buf_mutex = true;
  new_sample_available = true;
}

-- The end of `trigger_adc_readout`: `answer` is the status in which MCSPI_transfer leaves the
-- transaction.
unfoldable pub transfer : TransferStatus → Sampler → Sampler
transfer answer s = record s { rx_buf = s.adc_sample.tbd; status = answer }

-- A fresh sample.
unfoldable pub begin_sample : Bool → Sampler → Sampler
begin_sample is_high s = record s {
  adc_sample_write_access_aquired = true;
  adc_sample = record (s.adc_sample) { tbd = phase is_high; high_done = false; low_done = false };
}

unfoldable pub trigger_adc_readout : TransferStatus → Bool → Sampler → Sampler
unfolding aquire_adc_sample_write_access
trigger_adc_readout answer is_high s =
    if not (is_completed s.status)
    then s
    else if not s.adc_sample_write_access_aquired
    then (let got = aquire_adc_sample_write_access s in
        if not got.0 then got.1 else transfer answer (begin_sample is_high got.1))
    else if s.adc_sample.high_done && is_high || s.adc_sample.low_done && not is_high
    then s
    else transfer answer (record s { adc_sample = record (s.adc_sample) { tbd = phase is_high } })

-- `sample.high_done = true` or `sample.low_done = true`
abbrev pub mark_done : BurstAdcSamples → BurstAdcSamples
mark_done a = elim a.tbd [
  | BurstSamplesTbd.high ↦ record a { high_done = true }
  | BurstSamplesTbd.low ↦ record a { low_done = true }
]

unfoldable pub adc_spi_cb : Sampler → Sampler
adc_spi_cb s =
    let a = mark_done s.adc_sample in
    let t = record s { adc_sample = a; adcs = u32 (s.adcs + 1) } in
    if a.low_done && a.high_done then release_adc_sample_write_access t else t

unfoldable pub decode_burst_adc_samples : Burst → CombinedAdcSample
decode_burst_adc_samples buffer = record { cp = buffer.word1; pp = buffer.word2 }

abbrev pub is_publishable : Sampler → Bool
is_publishable s =
    leb s.cp_high_avg.misfits_count cp_sample_max_misfits
    && (leb s.cp_low_avg.misfits_count cp_sample_max_misfits
        && (s.cp_high_avg.filled && s.cp_low_avg.filled))

-- The end of the loop's body: the averages, stored in uint16_t members, or a signal that is not
-- valid.
unfoldable pub update_raw_cp_signal : Sampler → Sampler
update_raw_cp_signal s =
    if is_publishable s
    then record s {
      raw_cp_signal = record {
        high = u16 s.cp_high_avg.average;
        low = u16 s.cp_low_avg.average;
        valid = true;
      };
    }
    else record s { raw_cp_signal = record (s.raw_cp_signal) { valid = false } }

-- The loop's body after the sample buffer was given back.
unfoldable pub process : CombinedAdcSample → CombinedAdcSample → Sampler → Sampler
process high_sample low_sample s = update_raw_cp_signal (record s {
  cp_high_avg = add_value high_sample.cp s.cp_high_avg;
  cp_low_avg = add_value low_sample.cp s.cp_low_avg;
  pp_avg = add_value high_sample.pp s.pp_avg;
})

module _ (F : Floats) where
  open F use {Float, add, mul, div, tenths, neg_tenths, of_nat}

  -- `ADC_CHANNEL_1_SCALE`: the resistors are 200, 56 and 66.5.
  abbrev pub adc_channel_1_scale : Float
  adc_channel_1_scale =
      let one = tenths 10 in
      let parallel =
        div one (add (add (div one (tenths 2000)) (div one (tenths 560))) (div one (tenths 665))) in
      mul (div (tenths 2000) parallel) (tenths 33)

  abbrev pub adc_channel_1_offset : Float
  adc_channel_1_offset = div (mul (neg_tenths 33) (tenths 2000)) (tenths 560)

  abbrev pub to_volts : ℕ → Float
  to_volts raw = add adc_channel_1_offset (div (mul adc_channel_1_scale (of_nat raw)) (of_nat 4096))

  -- The members of a signal that is not valid stay as the memory held them.
  unfoldable pub get_latest_cp_signal : CpSignal Float → Sampler → CpSignal Float
  get_latest_cp_signal junk s =
      if s.raw_cp_signal.valid
      then record {
        valid = true;
        high = to_volts s.raw_cp_signal.high;
        low = to_volts s.raw_cp_signal.low;
      }
      else record junk { valid = false }
