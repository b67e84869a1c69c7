-- ===== src/Firmware.antt =====
-- firmware/main.cpp and firmware/bsp_drivers: the drivers of the firmware put together, with what
-- happens around the main task between two of its accesses to them.
pub mod Reach
pub mod Whole
pub mod Sending
pub mod Closing
pub mod Power
pub mod Reporting
pub mod Sampling
use ti_am62x_evse_sdk.Prelude.{
  ℕ, ◌+◌, Bool, true, false, ◌||◌, Option, none, some, List, [], ◌∷◌, if◌then◌else◌,
}
use ti_am62x_evse_sdk.Prelude.Word.{u16, u32}
use ti_am62x_evse_sdk.Prelude.State.{State}
use ti_am62x_evse_sdk.Prelude.Floats.{Floats}
use ti_am62x_evse_sdk.Hal.{Event, CpSignal, Board}
use ti_am62x_evse_sdk.Sampler.Device.{
  Sampler, Burst, BurstSamplesTbd, TransferStatus, RawCpSignal, is_pending, adc_spi_cb,
  decode_burst_adc_samples, process,
}
use ti_am62x_evse_sdk.Sampler.Steps.{System, TaskPoint, fill, wake_up}
use ti_am62x_evse_sdk.Sampler.Exclusion.{start}
use ti_am62x_evse_sdk.ControlPilot.{Timer}
use ti_am62x_evse_sdk.ControlPilot
use ti_am62x_evse_sdk.ControlPilot.Interrupt.{trigger_high, trigger_low, get_cp_signal}
use ti_am62x_evse_sdk.Link.Messages.{HighToLow, LowToHigh}
use ti_am62x_evse_sdk.Link.Codec.{Codec}
use ti_am62x_evse_sdk.Link.Firmware.{event_message}
use ti_am62x_evse_sdk.Link.Endpoint.{
  Packet, Endpoint, Outcome, assertion_failed, receive_notify_cb, send_msg,
}
use ti_am62x_evse_sdk.Link.Endpoint
use ti_am62x_evse_sdk.Link.Loop.{Received, received}
use ti_am62x_evse_sdk.Drivers.{Gpio, Rest, Hardware}
use ti_am62x_evse_sdk.Boot.{Services}

-- A step of the sampling task: it waits at a semaphore that it cannot take.
unfoldable pub task_step : TaskPoint → Sampler → System
task_step TaskPoint.waiting s =
    if s.new_sample_available
    then record { sampler = wake_up s; task = TaskPoint.signalled }
    else record { sampler = s; task = TaskPoint.waiting }
task_step TaskPoint.signalled s =
    if s.sample_buf_mutex
    then record { sampler = record s { sample_buf_mutex = false }; task = TaskPoint.reading }
    else record { sampler = s; task = TaskPoint.signalled }
task_step TaskPoint.reading s = record {
  sampler = s;
  task = TaskPoint.read_high (decode_burst_adc_samples s.adc_sample.high_samples);
}
task_step (TaskPoint.read_high h) s = record {
  sampler = s;
  task = TaskPoint.read_low h (decode_burst_adc_samples s.adc_sample.low_samples);
}
task_step (TaskPoint.read_low h l) s = record {
  sampler = record s { sample_buf_mutex = true };
  task = TaskPoint.processing h l;
}
task_step (TaskPoint.processing h l) s = record {
  sampler = process h l s;
  task = TaskPoint.waiting;
}

-- What happens around the main task: a packet arrives, time passes, the timer interrupts at the
-- start of the high or of the low part of the period, the driver writes words that it received, its
-- transfer ends, or the sampling task does its next step.
pub data Action : Type 0 where
  arrive : Packet → Action
  pass : ℕ → Action
  trigger : TransferStatus → Bool → Action
  receive : Burst → Action
  finish : Bool → Action
  sampling_task : Action

-- The drivers less the pin of the contact. `default_tclr` is the member of the control pilot;
-- `time` does not wrap, but what is read of it does. `answers` are those of RPMessage_send, `fate` is
-- what happens before each access, and `halted` is whether the assertion of `get_msg` failed.
pub record Parts : Type 0 where
  pub timer : Timer
  pub default_tclr : ℕ
  pub sampling : System
  pub endpoint : Endpoint
  pub time : ℕ
  pub halted : Bool
  pub answers : List Bool
  pub fate : List (List Action)

-- `uint16_t[SPI_BURST_ADC_READS]`
abbrev pub u16_burst : Burst → Burst
u16_burst words = record {
  word0 = u16 words.word0;
  word1 = u16 words.word1;
  word2 = u16 words.word2;
}

-- The interrupts and the sampling task. A driver without a pending transfer does nothing.
unfoldable pub act_sampling : Action → System → System
act_sampling (trigger answer true) x = record x { sampler = trigger_high answer x.sampler }
act_sampling (trigger answer false) x = record x { sampler = trigger_low answer x.sampler }
act_sampling (receive words) x =
    if is_pending x.sampler.status
    then record x { sampler = fill (u16_burst words) x.sampler }
    else x
act_sampling (finish result) x =
    if is_pending x.sampler.status
    then record x {
      sampler = adc_spi_cb (record (x.sampler) {
        status = elim result [ true ↦ TransferStatus.completed | false ↦ TransferStatus.failed ];
      });
    }
    else x
act_sampling sampling_task x = task_step x.task x.sampler
act_sampling (arrive p) x = x
act_sampling (pass n) x = x

unfoldable pub act_endpoint : Action → Endpoint → Endpoint
act_endpoint (arrive p) e = receive_notify_cb p e
act_endpoint _ e = e

unfoldable pub act_time : Action → ℕ → ℕ
act_time (pass n) t = t + n
act_time _ t = t

unfoldable pub act : Action → Parts → Parts
act a w = record w {
  sampling = act_sampling a w.sampling;
  endpoint = act_endpoint a w.endpoint;
  time = act_time a w.time;
}

unfoldable pub act_all : List Action → Parts → Parts
act_all [] w = w
act_all (a ∷ acts) w = act_all acts (act a w)

abbrev next_acts : List (List Action) → List Action
next_acts [] = []
next_acts (acts ∷ fate) = acts

abbrev later_fate : List (List Action) → List (List Action)
later_fate [] = []
later_fate (acts ∷ fate) = fate

-- What happens before an access.
unfoldable pub elapse : Parts → Parts
elapse w = record (act_all (next_acts w.fate) w) { fate = later_fate w.fate }

abbrev next_answer : List Bool → Bool
next_answer [] = true
next_answer (b ∷ answers) = b

abbrev later_answers : List Bool → List Bool
later_answers [] = []
later_answers (b ∷ answers) = answers

-- The parameters: the number of timer ticks in a period, the clock's ticks in a millisecond, the
-- codec, and what the memory holds of a signal that is not valid.
module _ (F : Floats) (period ticks_per_ms : ℕ) (c : Codec F.Float) (junk : CpSignal F.Float)
    (size : ℕ) where
  -- `ControlPilot::set_pwm`
  unfoldable pub drive_pwm : F.Float → Parts → Parts
  drive_pwm x w =
      let v = elapse w in
      record v { timer = ControlPilot.set_pwm period F v.default_tclr x v.timer }

  unfoldable pub read_cp_signal : State Parts (CpSignal F.Float)
  read_cp_signal w = let v = elapse w in (get_cp_signal F junk v.sampling.sampler, v)

  -- `ClockP_getTicks`; what would happen before the next access happens right after the reading.
  unfoldable pub get_ticks : State Parts ℕ
  get_ticks w = (u32 w.time, elapse w)

  -- `push_event`
  unfoldable pub push_event : Event → Parts → Parts
  push_event e w =
      let v = elapse w in
      record v {
        endpoint = (send_msg c.encode_event (next_answer v.answers) (event_message e) v.endpoint).1;
        answers = later_answers v.answers;
      }

  abbrev pub parts : Rest F.Float
  parts = record {
    World = Parts;
    set_pwm = drive_pwm;
    get_latest_cp_signal = read_cp_signal;
    get_ticks = get_ticks;
    send_event = push_event;
    ticks_per_ms = ticks_per_ms;
  }

  abbrev pub is_halt : Outcome F.Float → Bool
  is_halt assertion_failed = true
  is_halt _ = false

  -- `rpmsg_link.get_msg`
  unfoldable pub poll_endpoint : State Parts (Received F.Float)
  poll_endpoint w =
      let v = elapse w in
      let o = Endpoint.get_msg c.decode_command size v.endpoint in
      (received o.0, record v { endpoint = o.1; halted = v.halted || is_halt o.0 })

  unfoldable pub wait_msg : (g : Gpio) → State (Hardware F g parts) (Received F.Float)
  wait_msg g w = ((poll_endpoint w.rest).0, record w { rest = (poll_endpoint w.rest).1 })

-- How the calls of the start answer, and what the memory and the registers hold at first.
pub record Startup : Type 0 where
  pub usec_to_ticks : ℕ → ℕ
  pub linux_is_ready : Bool
  pub is_announced : Bool
  pub endpoint_exists : Bool
  pub interrupt_exists : Bool
  pub sampling_task_exists : Bool
  pub core_junk : ℕ
  pub end_point_junk : ℕ
  pub status : TransferStatus
  pub high_junk : Burst
  pub low_junk : Burst
  pub tbd_junk : BurstSamplesTbd
  pub raw_junk : RawCpSignal
  pub tclr : ℕ

module _ (F : Floats) (period ticks_per_ms : ℕ) (c : Codec F.Float) (junk : CpSignal F.Float)
    (size : ℕ) (u : Startup) where
  -- The constructors of the sampler and of the control pilot.
  unfoldable pub construct_sampler : Parts → Parts
  construct_sampler w = record w {
    sampling = start u.status u.high_junk u.low_junk u.tbd_junk u.raw_junk;
    timer = ControlPilot.construct period u.tclr;
    default_tclr = ControlPilot.default_tclr u.tclr;
  }

  -- The constructor of the endpoint, and the assertion on it.
  unfoldable pub construct_endpoint : State Parts Bool
  construct_endpoint w =
      (u.endpoint_exists, record w { endpoint = Endpoint.construct u.core_junk u.end_point_junk })

  abbrev pub boot_calls : Services (parts F period ticks_per_ms c junk size)
  boot_calls = record {
    usec_to_ticks = u.usec_to_ticks;
    wait_for_linux_ready = λ n w. (u.linux_is_ready, w);
    announce = λ w. (u.is_announced, w);
    construct_endpoint = construct_endpoint;
    construct_sampler = construct_sampler;
    construct_interrupt = λ w. (u.interrupt_exists, w);
    create_sampling_task = λ w. (u.sampling_task_exists, w);
  }
