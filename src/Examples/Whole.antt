-- ===== src/Examples/Whole.antt =====
-- The whole firmware on a pin that is a bit, with a module that talks to it and a car that asks for
-- power.
use ti_am62x_evse_sdk.Prelude.{◌⊎◌, ◌<◌, ◌≡◌, refl, ℕ, zero, suc, true, false, List, [], ◌∷◌, arith}
use ti_am62x_evse_sdk.Hal.{CpSignal, Board}
use ti_am62x_evse_sdk.Fsm.Countdown
use ti_am62x_evse_sdk.Fsm.Defs.{
  fresh, decode_cp_state, is_voltage_in_range, read_cp_state, store_cp_state, power_on,
  start_lock_check, disable, enable, set_pwm_off, set_pwm_on, allow_power_on,
}
use ti_am62x_evse_sdk.Fsm.Run.{
  run, run_checks, run_switch, run_state, run_c, by_pwm, without_pwm, with_pwm_c,
}
use ti_am62x_evse_sdk.Sampler.Ring.{
  new, add_value, store, evaluate, accumulate, count_misfits, deviation,
}
use ti_am62x_evse_sdk.Sampler.Device.{
  Burst, BurstSamplesTbd, TransferStatus, RawCpSignal, to_volts, trigger_adc_readout, begin_sample,
  transfer, aquire_adc_sample_write_access, adc_spi_cb, release_adc_sample_write_access,
  decode_burst_adc_samples, process, update_raw_cp_signal, get_latest_cp_signal,
}
use ti_am62x_evse_sdk.Sampler.Device
use ti_am62x_evse_sdk.ControlPilot.Interrupt.{trigger_high, trigger_low, get_cp_signal}
use ti_am62x_evse_sdk.Link.Endpoint.{send_msg, recv, read_packet, detect, receive_notify_cb}
use ti_am62x_evse_sdk.Sampler.Steps.{IsU16Burst}
use ti_am62x_evse_sdk.ControlPilot.{construct, default_tclr}
use ti_am62x_evse_sdk.Sampler.Exclusion.{start}
use ti_am62x_evse_sdk.Drivers
use ti_am62x_evse_sdk.Firmware.Closing.{IsUnwritten, Justified}
use ti_am62x_evse_sdk.Firmware.Power.{asked, next, rounds-closing, rounds-guarded}
use ti_am62x_evse_sdk.Fsm.Opening.{failures}
use ti_am62x_evse_sdk.Fsm.Safety.{is_charging}
use ti_am62x_evse_sdk.Link.Firmware.{handle_set_pwm, handle_incoming_message}
use ti_am62x_evse_sdk.Link.Endpoint
use ti_am62x_evse_sdk.Fsm.Defs
use ti_am62x_evse_sdk.Link.Loop.{Loop, iterate, iteration, handle, chore}
use ti_am62x_evse_sdk.Firmware.Whole.{rounds, rounds-Sound}
use ti_am62x_evse_sdk.Boot.{
  Services, looping, assert, wait_for_linux, enter_loop, start_fsm, start_drivers, main_task,
}
use ti_am62x_evse_sdk.Firmware.Reach.{Sound}
use ti_am62x_evse_sdk.Drivers.{Rest, Hardware, hal, is_on, on, off, command}
use ti_am62x_evse_sdk.Firmware.{
  wait_msg, poll_endpoint, construct_sampler, construct_endpoint, Action, Parts, Startup, parts,
  boot_calls, act_all, elapse, act, act_sampling, act_endpoint, act_time, task_step, push_event,
  get_ticks, drive_pwm, read_cp_signal,
}
use ti_am62x_evse_sdk.Examples.Decimal.{decimal}
use ti_am62x_evse_sdk.Examples.Messages.{plain}
use ti_am62x_evse_sdk.Examples.Pin.{pin}

-- 2913 is read as 5.994 V, and 0 as -11.786 V.
volts_c : to_volts decimal 2913 ≡ 1000599439
volts_c = refl

volts_low : to_volts decimal 0 ≡ 998821429
volts_low = refl

abbrev pub high_words : Burst
high_words = record { word0 = 0; word1 = 2913; word2 = 100 }

abbrev pub low_words : Burst
low_words = record { word0 = 0; word1 = 0; word2 = 110 }

-- A sample of the ADC, from the first interrupt to the published signal, some times.
abbrev pub samples : ℕ → List Action
samples zero = []
samples (suc n) =
    Action.trigger TransferStatus.pending true
    ∷ Action.receive high_words
    ∷ Action.finish true
    ∷ Action.trigger TransferStatus.pending false
    ∷ Action.receive low_words
    ∷ Action.finish true
    ∷ Action.sampling_task
    ∷ Action.sampling_task
    ∷ Action.sampling_task
    ∷ Action.sampling_task
    ∷ Action.sampling_task
    ∷ Action.sampling_task
    ∷ samples n

abbrev pub startup : Startup
startup = record {
  usec_to_ticks = λ n. n;
  linux_is_ready = true;
  is_announced = true;
  endpoint_exists = true;
  interrupt_exists = true;
  sampling_task_exists = true;
  core_junk = 0;
  end_point_junk = 0;
  status = TransferStatus.completed;
  high_junk = low_words;
  low_junk = low_words;
  tbd_junk = BurstSamplesTbd.high;
  raw_junk = record { high = 7; low = 8; valid = false };
  tclr = 0;
}

abbrev pub no_signal : CpSignal ℕ
no_signal = record { valid = false; high = 0; low = 0 }

abbrev pub drivers : Rest ℕ
drivers = parts decimal 25000 1 plain no_signal 20

abbrev calls : Services drivers
calls = boot_calls decimal 25000 1 plain no_signal 20 startup

abbrev pub told : Board ℕ
told = record {
  relay = false;
  locked = false;
  rcd_on = false;
  duty = 1000000000;
  pilot_on = false;
  sent = [];
}

abbrev from_module : List ℕ → Action
from_module bytes = Action.arrive (record { bytes = bytes; core_id = 0; end_point = 1024 })

-- The endpoint with a peer, and ten samples before the next access.
abbrev pub primed : Parts
primed = record {
  timer = construct 25000 0;
  default_tclr = default_tclr 0;
  sampling =
      start TransferStatus.completed low_words low_words BurstSamplesTbd.high
        (record { high = 7; low = 8; valid = false });
  endpoint = record {
    remote_peer_detected = true;
    remote_core_id = 0;
    remote_end_point = 1024;
    pending_msgs = 0;
    queue = [];
    outgoing = [];
    messages_received = 0;
  };
  time = 50;
  halted = false;
  answers = [];
  fate = samples 10 ∷ [];
}

low_words_u16 : IsU16Burst low_words
low_words_u16 = record { word0 = omega arith; word1 = omega arith; word2 = omega arith }

-- The firmware before it starts: in the first round of its loop come the commands that enable the pilot,
-- start the PWM and allow power, and before the fourth one ten samples of a car that asks for power.
abbrev powered_up : Hardware decimal pin drivers
powered_up = record {
  gpio = true;
  rest = record primed {
    fate =
        (Action.pass 1 ∷ [])
        ∷ []
        ∷ []
        ∷ (from_module (3 ∷ 0 ∷ 0 ∷ 0 ∷ [])
            ∷ from_module (1 ∷ 0 ∷ 1000050000 ∷ 0 ∷ [])
            ∷ from_module (2 ∷ 0 ∷ 0 ∷ 1 ∷ [])
            ∷ [])
        ∷ (Action.pass 1 ∷ [])
        ∷ []
        ∷ []
        ∷ []
        ∷ []
        ∷ []
        ∷ []
        ∷ []
        ∷ []
        ∷ []
        ∷ []
        ∷ samples 10
        ∷ [];
  };
  told = told;
}

abbrev entered : Loop decimal (hal decimal pin drivers)
entered = enter_loop decimal pin drivers calls (record {
  machine = Defs.construct decimal (hal decimal pin drivers) false (record {
    gpio = Drivers.construct pin true;
    rest =
        construct_sampler decimal 25000 1 plain no_signal 20 startup
          (construct_endpoint decimal 25000 1 plain no_signal 20 startup powered_up.rest).1;
    told = told;
  });
  chore_interval_ticks = 0;
  last_chore_ts = 0;
})

started : main_task decimal pin drivers calls false powered_up ≡ looping entered
unfolding main_task start_drivers start_fsm assert wait_for_linux construct_endpoint
started = refl

rounds-Sound_example :
    Sound startup (rounds decimal 25000 1 plain no_signal 20 startup pin 3 entered).machine.hal.rest
rounds-Sound_example =
    rounds-Sound decimal 25000 1 plain no_signal 20 startup pin false powered_up entered 3 refl
      started

-- The loop after the three commands.
abbrev allowed : Loop decimal (hal decimal pin drivers)
allowed = rounds decimal 25000 1 plain no_signal 20 startup pin 3 entered

allowed_low :
    is_on pin (asked decimal 25000 1 plain no_signal 20 startup pin allowed).hal.gpio ≡ false
unfolding fresh run run_checks read_cp_state store_cp_state decode_cp_state is_voltage_in_range
    run_switch run_state run_c by_pwm without_pwm with_pwm_c power_on start_lock_check Countdown.new
    Countdown.elapsed Countdown.start is_on on off Drivers.construct command elapse act_all act
    act_sampling task_step trigger_high trigger_low get_cp_signal get_latest_cp_signal
    trigger_adc_readout aquire_adc_sample_write_access begin_sample transfer adc_spi_cb
    release_adc_sample_write_access decode_burst_adc_samples process update_raw_cp_signal add_value
    store evaluate accumulate count_misfits deviation Device.construct read_cp_signal push_event
    get_ticks drive_pwm new act_endpoint act_time send_msg Defs.construct disable enable set_pwm_off
    set_pwm_on allow_power_on iterate iteration handle chore handle_set_pwm handle_incoming_message
    wait_msg poll_endpoint Endpoint.get_msg recv read_packet detect receive_notify_cb
    Endpoint.construct construct_sampler construct_endpoint enter_loop
allowed_low = refl

closes :
    is_on pin (next decimal 25000 1 plain no_signal 20 startup pin allowed).machine.hal.gpio ≡ true
unfolding fresh run run_checks read_cp_state store_cp_state decode_cp_state is_voltage_in_range
    run_switch run_state run_c by_pwm without_pwm with_pwm_c power_on start_lock_check Countdown.new
    Countdown.elapsed Countdown.start is_on on off Drivers.construct command elapse act_all act
    act_sampling task_step trigger_high trigger_low get_cp_signal get_latest_cp_signal
    trigger_adc_readout aquire_adc_sample_write_access begin_sample transfer adc_spi_cb
    release_adc_sample_write_access decode_burst_adc_samples process update_raw_cp_signal add_value
    store evaluate accumulate count_misfits deviation Device.construct read_cp_signal push_event
    get_ticks drive_pwm new act_endpoint act_time send_msg Defs.construct disable enable set_pwm_off
    set_pwm_on allow_power_on iterate iteration handle chore handle_set_pwm handle_incoming_message
    wait_msg poll_endpoint Endpoint.get_msg recv read_packet detect receive_notify_cb
    Endpoint.construct construct_sampler construct_endpoint enter_loop
closes = refl

rounds-closing_example :
    IsUnwritten decimal 25000 1 plain no_signal 20 startup pin
      (asked decimal 25000 1 plain no_signal 20 startup pin allowed)
    ⊎ Justified decimal 25000 1 plain no_signal 20 startup pin
        (asked decimal 25000 1 plain no_signal 20 startup pin allowed)
rounds-closing_example =
    rounds-closing decimal 25000 1 plain no_signal 20 startup pin false powered_up entered 3 refl
      started low_words_u16 low_words_u16 allowed_low closes

closed :
    is_on pin (rounds decimal 25000 1 plain no_signal 20 startup pin 4 entered).machine.hal.gpio
    ≡ true
unfolding iterate
closed = closes

rounds-guarded_example :
    (is_charging
        (rounds decimal 25000 1 plain no_signal 20 startup pin 4 entered).machine.fsm.prev_state
      ≡ true)
    ⊎ (0
        < failures
            (rounds decimal 25000 1 plain no_signal 20 startup pin 4 entered).machine.hal.told.sent)
rounds-guarded_example =
    rounds-guarded decimal 25000 1 plain no_signal 20 startup pin (record { low-read = λ w. refl })
      false powered_up entered 4 started closed
