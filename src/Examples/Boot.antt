-- ===== src/Examples/Boot.antt =====
-- A start of the firmware on a pin that reads high at first.
use ti_am62x_evse_sdk.Prelude.{◌≡◌, ◌/◌, ◌⊎◌, ◌<◌, refl, true, false}
use ti_am62x_evse_sdk.Fsm.Defs.{disable, set_pwm_off, fresh}
use ti_am62x_evse_sdk.Fsm.Defs
use ti_am62x_evse_sdk.Fsm.Countdown
use ti_am62x_evse_sdk.Drivers.{Hardware, construct, off, is_on, command, hal}
use ti_am62x_evse_sdk.Boot.{
  Services, looping, assert, wait_for_linux, enter_loop, start_fsm, start_drivers, main_task,
}
use ti_am62x_evse_sdk.Link.Loop.{Loop, start_loop}
use ti_am62x_evse_sdk.Fsm.Opening.{failures}
use ti_am62x_evse_sdk.Fsm.Safety.{is_charging}
use ti_am62x_evse_sdk.Drivers.Pin.{boot}
use ti_am62x_evse_sdk.Boot.Rounds.{iterate-main_task}
use ti_am62x_evse_sdk.Boot.Contact.{Leaves, main_task-Leaves}
use ti_am62x_evse_sdk.Examples.Bench.{fixed}
use ti_am62x_evse_sdk.Examples.Pin.{pin, rest, none_told, get_scripted, ended, ended_high}

-- The sampling task cannot be created.
abbrev services : Services rest
services = record {
  usec_to_ticks = λ n. n / 1000;
  wait_for_linux_ready = λ n w. (true, w);
  announce = λ w. (true, w);
  construct_endpoint = λ w. (true, w);
  construct_sampler = λ w. w;
  construct_interrupt = λ w. (true, w);
  create_sampling_task = λ w. (false, w);
}

abbrev powered_up : Hardware fixed pin rest
powered_up = record { gpio = true; rest = 5; told = none_told }

main_task-Leaves_example :
    Leaves fixed pin rest services true (main_task fixed pin rest services false powered_up)
main_task-Leaves_example =
    main_task-Leaves fixed pin rest services (record { low-read = λ w. refl }) false powered_up

abbrev all_well : Services rest
all_well = record services { create_sampling_task = λ w. (true, w) }

abbrev started : Hardware fixed pin rest
started = record { gpio = true; rest = 50; told = none_told }

abbrev entered : Loop fixed (hal fixed pin rest)
entered = start_loop fixed (hal fixed pin rest) 1000 false (boot fixed pin rest true 50 none_told)

started-entered : main_task fixed pin rest all_well false started ≡ looping entered
unfolding main_task start_drivers start_fsm enter_loop assert wait_for_linux Defs.construct disable
    set_pwm_off fresh Countdown.new construct off is_on start_loop command
started-entered = refl

iterate-main_task_example :
    (is_charging (ended.machine.fsm.prev_state) ≡ true)
    ⊎ (0 < failures (ended.machine.hal.told.sent))
iterate-main_task_example =
    iterate-main_task fixed pin rest all_well get_scripted (λ w. refl)
      (record { low-read = λ w. refl }) false started entered 3 started-entered ended_high
