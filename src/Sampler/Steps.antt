-- ===== src/Sampler/Steps.antt =====
-- firmware/bsp_drivers/sampler.cpp: the sampling task against the interrupts, as a step relation. An
-- interrupt handler runs to its end; the task can be interrupted between any two of its steps.
use ti_am62x_evse_sdk.Prelude.{◌≡◌, ◌+◌, ◌^◌, ◌<◌, Bool, true, false}
use ti_am62x_evse_sdk.Prelude.Word.{u32}
use ti_am62x_evse_sdk.Sampler.Device.{
  Sampler, Burst, BurstSamplesTbd, BurstAdcSamples, CombinedAdcSample, TransferStatus,
  trigger_adc_readout, adc_spi_cb, decode_burst_adc_samples, process,
}

-- Where `Sampler::loop` stands, with its local variables.
pub data TaskPoint : Type 0 where
  waiting signalled reading : TaskPoint
  read_high : CombinedAdcSample → TaskPoint
  read_low : CombinedAdcSample → CombinedAdcSample → TaskPoint
  processing : CombinedAdcSample → CombinedAdcSample → TaskPoint

pub record System : Type 0 where
  pub sampler : Sampler
  pub task : TaskPoint

pub record IsU16Burst (b : Burst) : Type 0 where
  pub word0 : b.word0 < 2 ^ 16
  pub word1 : b.word1 < 2 ^ 16
  pub word2 : b.word2 < 2 ^ 16

abbrev pub write : BurstSamplesTbd → Burst → BurstAdcSamples → BurstAdcSamples
write BurstSamplesTbd.high words a = record a { high_samples = words }
write BurstSamplesTbd.low words a = record a { low_samples = words }

-- The driver writes to the buffer that the transaction names.
abbrev pub fill : Burst → Sampler → Sampler
fill words s = record s { adc_sample = write s.rx_buf words s.adc_sample }

-- `sigs++`, and the first semaphore taken.
abbrev pub wake_up : Sampler → Sampler
wake_up s = record s { new_sample_available = false; sigs = u32 (s.sigs + 1) }

pub data Step : System → System → Type 0 where
  -- A timer interrupt; `answer` is the status in which the driver leaves the transaction.
  trigger :
      (answer : TransferStatus) (is_high : Bool) (x : System)
      → Step x (record x { sampler = trigger_adc_readout answer is_high x.sampler })
  -- While a transfer is pending the driver may write its buffer at any time.
  receive :
      (words : Burst) (x : System)
      → x.sampler.status ≡ TransferStatus.pending
      → IsU16Burst words
      → Step x (record x { sampler = fill words x.sampler })
  -- A pending transfer ends, and the driver calls back.
  finish :
      (result : Bool) (x : System)
      → x.sampler.status ≡ TransferStatus.pending
      → Step x (record x {
        sampler = adc_spi_cb (record (x.sampler) {
          status = elim result [ true ↦ TransferStatus.completed | false ↦ TransferStatus.failed ];
        });
      })
  -- The task takes `new_sample_available`.
  wake :
      (s : Sampler)
      → s.new_sample_available ≡ true
      → Step
          (record { sampler = s; task = TaskPoint.waiting })
          (record { sampler = wake_up s; task = TaskPoint.signalled })
  -- The task takes `sample_buf_mutex`.
  take_buffer :
      (s : Sampler)
      → s.sample_buf_mutex ≡ true
      → Step
          (record { sampler = s; task = TaskPoint.signalled })
          (record { sampler = record s { sample_buf_mutex = false }; task = TaskPoint.reading })
  decode_high :
      (s : Sampler)
      → Step
          (record { sampler = s; task = TaskPoint.reading })
          (record {
            sampler = s;
            task = TaskPoint.read_high (decode_burst_adc_samples s.adc_sample.high_samples);
          })
  decode_low :
      (s : Sampler) (h : CombinedAdcSample)
      → Step
          (record { sampler = s; task = TaskPoint.read_high h })
          (record {
            sampler = s;
            task = TaskPoint.read_low h (decode_burst_adc_samples s.adc_sample.low_samples);
          })
  -- The task gives `sample_buf_mutex` back.
  give_buffer :
      (s : Sampler) (h l : CombinedAdcSample)
      → Step
          (record { sampler = s; task = TaskPoint.read_low h l })
          (record {
            sampler = record s { sample_buf_mutex = true };
            task = TaskPoint.processing h l;
          })
  -- The rest of the loop's body: what it writes no interrupt handler touches.
  process_samples :
      (s : Sampler) (h l : CombinedAdcSample)
      → Step
          (record { sampler = s; task = TaskPoint.processing h l })
          (record { sampler = process h l s; task = TaskPoint.waiting })

-- The states that the system can come to.
pub data Reachable (start : System) : System → Type 0 where
  initial : Reachable start start
  next : (x y : System) → Reachable start x → Step x y → Reachable start y
