-- ===== src/Examples/Handshake.antt =====
-- The sampler's interrupts and task at a concrete run: one sample, from the first trigger to the
-- published signal.
use ti_am62x_evse_sdk.Prelude.{◌≡◌, ◌⊎◌, refl, true, false, arith}
use ti_am62x_evse_sdk.Sampler.Device.{
  Sampler, Burst, BurstSamplesTbd, TransferStatus, RawCpSignal, construct, trigger_adc_readout,
  aquire_adc_sample_write_access, begin_sample, transfer, adc_spi_cb,
  release_adc_sample_write_access, decode_burst_adc_samples, process,
}
use ti_am62x_evse_sdk.Sampler.Steps.{System, TaskPoint, Step, Reachable, IsU16Burst, fill, wake_up}
use ti_am62x_evse_sdk.Sampler.Exclusion.{start, Exclusive, holds-Exclusive}
use ti_am62x_evse_sdk.Sampler.Types.{IsTyped, Reachable-IsTyped}
use ti_am62x_evse_sdk.Sampler.Failure.{Failed, Reachable-Failed}
use ti_am62x_evse_sdk.Sampler.Signal.{Published, raw_cp_signal-Published}

abbrev junk : Burst
junk = record { word0 = 7; word1 = 8; word2 = 9 }

junk_words : IsU16Burst junk
junk_words = record { word0 = omega arith; word1 = omega arith; word2 = omega arith }

abbrev high_words : Burst
high_words = record { word0 = 0; word1 = 3000; word2 = 100 }

abbrev low_words : Burst
low_words = record { word0 = 0; word1 = 200; word2 = 110 }

abbrev raw_junk : RawCpSignal
raw_junk = record { high = 1; low = 2; valid = false }

abbrev begin : System
begin = start TransferStatus.completed junk junk BurstSamplesTbd.high raw_junk

abbrev triggered : System
triggered = record begin {
  sampler = trigger_adc_readout TransferStatus.pending true (begin.sampler);
}

abbrev received : System
received = record triggered { sampler = fill high_words (triggered.sampler) }

abbrev half : System
half = record received {
  sampler = adc_spi_cb (record (received.sampler) { status = TransferStatus.completed });
}

abbrev triggered_low : System
triggered_low = record half {
  sampler = trigger_adc_readout TransferStatus.pending false (half.sampler);
}

abbrev received_low : System
received_low = record triggered_low { sampler = fill low_words (triggered_low.sampler) }

abbrev sampled : System
sampled = record received_low {
  sampler = adc_spi_cb (record (received_low.sampler) { status = TransferStatus.completed });
}

half-Reachable : Reachable begin half
unfolding construct trigger_adc_readout aquire_adc_sample_write_access begin_sample transfer
half-Reachable =
    Reachable.next received half
      (Reachable.next triggered received
        (Reachable.next begin triggered Reachable.initial
          (Step.trigger TransferStatus.pending true begin))
        (Step.receive high_words triggered refl
          (record { word0 = omega arith; word1 = omega arith; word2 = omega arith })))
      (Step.finish true received refl)

sampled-Reachable : Reachable begin sampled
unfolding construct trigger_adc_readout aquire_adc_sample_write_access begin_sample transfer
    adc_spi_cb release_adc_sample_write_access
sampled-Reachable =
    Reachable.next received_low sampled
      (Reachable.next triggered_low received_low
        (Reachable.next half triggered_low half-Reachable
          (Step.trigger TransferStatus.pending false half))
        (Step.receive low_words triggered_low refl
          (record { word0 = omega arith; word1 = omega arith; word2 = omega arith })))
      (Step.finish true received_low refl)

abbrev woken : Sampler
woken = wake_up (sampled.sampler)

abbrev taken : Sampler
taken = record woken { sample_buf_mutex = false }

abbrev read_both : System
read_both = record {
  sampler = taken;
  task = TaskPoint.read_low (record { cp = 3000; pp = 100 }) (record { cp = 200; pp = 110 });
}

abbrev published : System
published = record {
  sampler =
      process (record { cp = 3000; pp = 100 }) (record { cp = 200; pp = 110 })
        (record taken { sample_buf_mutex = true });
  task = TaskPoint.waiting;
}

read_both-Reachable : Reachable begin read_both
unfolding construct trigger_adc_readout aquire_adc_sample_write_access begin_sample transfer
    adc_spi_cb release_adc_sample_write_access decode_burst_adc_samples
read_both-Reachable =
    Reachable.next _ read_both
      (Reachable.next _ _
        (Reachable.next _ _
          (Reachable.next _ _ sampled-Reachable (Step.wake (sampled.sampler) refl))
          (Step.take_buffer woken refl))
        (Step.decode_high taken))
      (Step.decode_low taken _)

published-Reachable : Reachable begin published
published-Reachable =
    Reachable.next _ published
      (Reachable.next read_both _ read_both-Reachable (Step.give_buffer taken _ _))
      (Step.process_samples (record taken { sample_buf_mutex = true }) _ _)

holds-Exclusive_example : Exclusive read_both
holds-Exclusive_example =
    holds-Exclusive TransferStatus.completed junk junk BurstSamplesTbd.high raw_junk read_both refl
      read_both-Reachable refl

raw_cp_signal-Published_example :
    (published.sampler.raw_cp_signal ≡ raw_junk)
    ⊎ Published
        (published.sampler.cp_high_avg)
        (published.sampler.cp_low_avg)
        (published.sampler.raw_cp_signal)
raw_cp_signal-Published_example =
    raw_cp_signal-Published TransferStatus.completed junk junk BurstSamplesTbd.high raw_junk
      published junk_words junk_words published-Reachable

-- A sampler after a transfer that failed, with a signal that is valid.
abbrev stuck : System
stuck = record begin {
  sampler = record (begin.sampler) {
    status = TransferStatus.failed;
    raw_cp_signal = record { high = 3000; low = 200; valid = true };
  };
}

abbrev stuck_triggered : System
stuck_triggered = record stuck {
  sampler = trigger_adc_readout TransferStatus.pending true (stuck.sampler);
}

stuck-Reachable : Reachable stuck stuck_triggered
stuck-Reachable =
    Reachable.next stuck stuck_triggered Reachable.initial
      (Step.trigger TransferStatus.pending true stuck)

stuck-Failed : Failed stuck
unfolding construct
stuck-Failed = record { status = refl; taken = refl; waiting = refl }

Reachable-Failed_example : stuck_triggered ≡ stuck
Reachable-Failed_example = Reachable-Failed stuck stuck_triggered stuck-Failed stuck-Reachable

Reachable-IsTyped_example : IsTyped sampled
Reachable-IsTyped_example =
    Reachable-IsTyped TransferStatus.completed junk junk BurstSamplesTbd.high raw_junk sampled
      junk_words junk_words (record { high = omega arith; low = omega arith }) sampled-Reachable
