-- ===== src/Firmware/Sampling.antt =====
-- firmware/bsp_drivers/sampler.cpp: a sampler that is served gets through every sample.
use ti_am62x_evse_sdk.Prelude.{
  ◌≡◌, ◌++◌, ◌+◌, refl, ap, ◌∙◌, ℕ, suc, true, false, List, [], ◌∷◌, map, drop, length, arith,
}
use ti_am62x_evse_sdk.Prelude.Word.{u16, u32}
use ti_am62x_evse_sdk.Sampler.Ring.{add_value}
use ti_am62x_evse_sdk.Sampler.Window.{IsValid, AllU16, window, add_values, window-add_values}
use ti_am62x_evse_sdk.Sampler.Device.{
  Sampler, Burst, BurstSamplesTbd, TransferStatus, trigger_adc_readout, begin_sample, transfer,
  aquire_adc_sample_write_access, adc_spi_cb, release_adc_sample_write_access,
  decode_burst_adc_samples, update_raw_cp_signal, process,
}
use ti_am62x_evse_sdk.Sampler.Steps.{System, TaskPoint}
use ti_am62x_evse_sdk.ControlPilot.Interrupt.{trigger_high, trigger_low}
use ti_am62x_evse_sdk.Firmware.{Action, act_sampling, task_step, u16_burst}

-- The words that the ADC returns in the high and in the low part of a period.
pub record Words : Type 0 where
  pub high : Burst
  pub low : Burst

abbrev pub act_list : List Action → System → System
act_list [] x = x
act_list (a ∷ acts) x = act_list acts (act_sampling a x)

-- A period of the PWM with a transfer in each part, and the sampling task after it.
abbrev pub period_acts : Words → List Action
period_acts w =
    Action.trigger TransferStatus.pending true
    ∷ Action.receive w.high
    ∷ Action.finish true
    ∷ Action.trigger TransferStatus.pending false
    ∷ Action.receive w.low
    ∷ Action.finish true
    ∷ Action.sampling_task
    ∷ Action.sampling_task
    ∷ Action.sampling_task
    ∷ Action.sampling_task
    ∷ Action.sampling_task
    ∷ Action.sampling_task
    ∷ []

abbrev pub periods : List Words → System → System
periods [] x = x
periods (w ∷ ws) x = periods ws (act_list (period_acts w) x)

-- No transfer is pending, nobody has the sample buffer, and the task waits.
abbrev pub idle : Sampler → System
idle s = record {
  sampler = record s {
    status = TransferStatus.completed;
    adc_sample_write_access_aquired = false;
    sample_buf_mutex = true;
    new_sample_available = false;
  };
  task = TaskPoint.waiting;
}

-- What a period leaves of the sample buffer and of the counters, before the task processes it.
abbrev sampled : Words → Sampler → Sampler
sampled w s = record s {
  rx_buf = BurstSamplesTbd.low;
  adc_sample = record {
    high_samples = u16_burst w.high;
    low_samples = u16_burst w.low;
    tbd = BurstSamplesTbd.low;
    high_done = true;
    low_done = true;
  };
  sigs = u32 (s.sigs + 1);
  adcs = u32 (u32 (s.adcs + 1) + 1);
}

abbrev after : Words → Sampler → Sampler
after w s =
    process (decode_burst_adc_samples (u16_burst w.high))
      (decode_burst_adc_samples (u16_burst w.low)) (idle (sampled w s)).sampler

-- With the values in the rings, before the signal is published.
abbrev added : Words → Sampler → Sampler
added w s = record (sampled w s) {
  cp_high_avg = add_value (u16 w.high.word1) s.cp_high_avg;
  cp_low_avg = add_value (u16 w.low.word1) s.cp_low_avg;
  pp_avg = add_value (u16 w.high.word2) s.pp_avg;
}

update-idle :
    (s : Sampler)
    → update_raw_cp_signal (idle s).sampler ≡ (idle (update_raw_cp_signal (idle s).sampler)).sampler
unfolding update_raw_cp_signal
update-idle s = ground arith

period-idle : (w : Words) (s : Sampler) → act_list (period_acts w) (idle s) ≡ idle (after w s)
unfolding act_sampling trigger_high trigger_low trigger_adc_readout aquire_adc_sample_write_access
    begin_sample transfer adc_spi_cb release_adc_sample_write_access task_step process
    decode_burst_adc_samples
period-idle w s =
    ap (λ t. record { sampler = t; task = TaskPoint.waiting }) (update-idle (added w s))

-- The rings after a sample.
record Added (w : Words) (s t : Sampler) : Type 0 where
  high : t.cp_high_avg ≡ add_value (u16 w.high.word1) s.cp_high_avg
  low : t.cp_low_avg ≡ add_value (u16 w.low.word1) s.cp_low_avg
  pp : t.pp_avg ≡ add_value (u16 w.high.word2) s.pp_avg

after-Added : (w : Words) (s : Sampler) → Added w s (after w s)
unfolding process update_raw_cp_signal decode_burst_adc_samples
after-Added w s = record { high = ground arith; low = ground arith; pp = ground arith }

abbrev pub high_values : List Words → List ℕ
high_values = map (λ w. u16 w.high.word1)

abbrev pub low_values : List Words → List ℕ
low_values = map (λ w. u16 w.low.word1)

-- The rings after a number of samples, and that the sampler is idle again.
record Served (ws : List Words) (s : Sampler) : Type 0 where
  left : Sampler
  ended : periods ws (idle s) ≡ idle left
  high : left.cp_high_avg ≡ add_values (high_values ws) s.cp_high_avg
  low : left.cp_low_avg ≡ add_values (low_values ws) s.cp_low_avg

periods-Served : (ws : List Words) (s : Sampler) → Served ws s
unfolding add_values
periods-Served [] s = record { left = s; ended = refl; high = refl; low = refl }
periods-Served (w ∷ ws) s =
    let a = after-Added w s in
    let r = periods-Served ws (after w s) in
    record {
      left = r.left;
      ended = ap (periods ws) (period-idle w s) ∙ r.ended;
      high = r.high ∙ ap (add_values (high_values ws)) a.high;
      low = r.low ∙ ap (add_values (low_values ws)) a.low;
    }

length-map : (f : Words → ℕ) (ws : List Words) → length (map f ws) ≡ length ws
length-map f [] = refl
length-map f (w ∷ ws) = ap suc (length-map f ws)

AllU16-map : (f : Words → ℕ) (ws : List Words) → AllU16 (map (λ w. u16 (f w)) ws)
AllU16-map f [] = tt
AllU16-map f (w ∷ ws) = (omega arith, AllU16-map f ws)

-- From an idle sampler with valid rings, where each part of every period has a transfer that succeeds and
-- the sampling task gets its turn: every sample is processed, in order. After any number of periods the
-- task waits again with the buffer free, and the windows of the high and of the low part are the last ten
-- of what they held followed by the words that the ADC returned.
pub periods-window :
    (ws : List Words) (s : Sampler)
    → IsValid s.cp_high_avg
    → IsValid s.cp_low_avg
    → ((periods ws (idle s)).task ≡ TaskPoint.waiting)
      × ((periods ws (idle s)).sampler.sample_buf_mutex ≡ true)
      × (window (periods ws (idle s)).sampler.cp_high_avg
          ≡ drop (length ws) (window s.cp_high_avg ++ high_values ws))
      × (window (periods ws (idle s)).sampler.cp_low_avg
          ≡ drop (length ws) (window s.cp_low_avg ++ low_values ws))
periods-window ws s vh vl =
    let r = periods-Served ws s in
    (
      ap (λ x. x.task) r.ended,
      ap (λ x. x.sampler.sample_buf_mutex) r.ended,
      ap (λ x. window x.sampler.cp_high_avg) r.ended
          ∙ ap window r.high
          ∙ (window-add_values (high_values ws) s.cp_high_avg (AllU16-map (λ w. w.high.word1) ws)
              vh).1
          ∙ ap (λ n. drop n (window s.cp_high_avg ++ high_values ws))
              (length-map (λ w. u16 w.high.word1) ws),
      ap (λ x. window x.sampler.cp_low_avg) r.ended
          ∙ ap window r.low
          ∙ (window-add_values (low_values ws) s.cp_low_avg (AllU16-map (λ w. w.low.word1) ws) vl).1
          ∙ ap (λ n. drop n (window s.cp_low_avg ++ low_values ws))
              (length-map (λ w. u16 w.low.word1) ws),
    )
