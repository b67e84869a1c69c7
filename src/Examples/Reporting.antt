-- ===== src/Examples/Reporting.antt =====
-- A car that asks for power, and what the module hears of it; and two periods of the ADC.
use ti_am62x_evse_sdk.Prelude.{◌≡◌, ◌++◌, refl, ℕ, true, false, List, [], ◌∷◌, map, arith}
use ti_am62x_evse_sdk.Hal.{Event}
use ti_am62x_evse_sdk.Fsm.Types.{CpState, Machine}
use ti_am62x_evse_sdk.Fsm.Defs.{fresh}
use ti_am62x_evse_sdk.Sampler.Ring.{new}
use ti_am62x_evse_sdk.Sampler.Device.{Sampler}
use ti_am62x_evse_sdk.Sampler.Steps.{TaskPoint}
use mathlib.Core.List.{reverse}
use ti_am62x_evse_sdk.Link.Host.{receive}
use ti_am62x_evse_sdk.Link.Names.{board_name}
use ti_am62x_evse_sdk.Firmware.Reporting.{as_read, later_loop, rounds-receive}
use ti_am62x_evse_sdk.Link.Loop.{Loop, iterate}
use ti_am62x_evse_sdk.Firmware.Sending.{hand, rounds-Relays}
use ti_am62x_evse_sdk.Drivers.{hal}
use ti_am62x_evse_sdk.Firmware.{wait_msg}
use ti_am62x_evse_sdk.Examples.Decimal.{decimal}
use ti_am62x_evse_sdk.Examples.Messages.{plain, plain-IsFaithful}
use ti_am62x_evse_sdk.Examples.Pin.{pin}
use ti_am62x_evse_sdk.Examples.Whole.{drivers, primed, told, no_signal, high_words, low_words}
use ti_am62x_evse_sdk.Sampler.Window.{IsValid, window}
use ti_am62x_evse_sdk.Firmware.Sampling.{Words, idle, periods, periods-window}
use ti_am62x_evse_sdk.Prelude.{drop}

-- A car in B that may have power.
abbrev waiting : Machine ℕ (hal decimal pin drivers)
waiting = record {
  fsm = record (fresh decimal (hal decimal pin drivers) false) {
    cur_state = CpState.b;
    prev_state = CpState.b;
    cur_pwm_running = true;
    prev_pwm_running = true;
    power_on_allowed = true;
  };
  hal = record { gpio = false; rest = primed; told = told };
}

abbrev charging : Loop decimal (hal decimal pin drivers)
charging = record { machine = waiting; chore_interval_ticks = 1000; last_chore_ts = 0 }

rounds-Relays_example :
    (es : List Event) × ((iterate decimal
        (hal decimal pin drivers)
        (wait_msg decimal 25000 1 plain no_signal 20 pin)
        2
        charging).machine.hal.told.sent
      ≡ es ++ [])
    × ((iterate decimal
          (hal decimal pin drivers)
          (wait_msg decimal 25000 1 plain no_signal 20 pin)
          2
          charging).machine.hal.rest.endpoint.outgoing
        ≡ map (hand plain.encode_event 1024) es ++ [])
rounds-Relays_example = rounds-Relays decimal 25000 1 plain no_signal 20 pin charging 2 refl

rounds-receive_example :
    (es : List Event) × (packets : List (ℕ × List ℕ)) × ((later_loop decimal 25000 1 plain
        plain-IsFaithful no_signal 20 pin 2 charging).machine.hal.told.sent
      ≡ es ++ [])
    × ((later_loop decimal 25000 1 plain plain-IsFaithful no_signal 20 pin 2
          charging).machine.hal.rest.endpoint.outgoing
        ≡ packets ++ [])
    × (receive plain.decode_event (reverse (map as_read packets)) ≡ map board_name (reverse es))
rounds-receive_example =
    rounds-receive decimal 25000 1 plain plain-IsFaithful no_signal 20 pin charging 2 refl

abbrev words : Words
words = record { high = high_words; low = low_words }

new-IsValid : IsValid (new 400)
unfolding new
new-IsValid = record { index = omega arith; size = refl; words = ground arith }

-- The sampler after its constructor, and two periods.
abbrev constructed : Sampler
constructed = record (primed.sampling.sampler) { cp_high_avg = new 400; cp_low_avg = new 400 }

periods-window_example :
    ((periods (words ∷ words ∷ []) (idle constructed)).task ≡ TaskPoint.waiting)
    × ((periods (words ∷ words ∷ []) (idle constructed)).sampler.sample_buf_mutex ≡ true)
    × (window (periods (words ∷ words ∷ []) (idle constructed)).sampler.cp_high_avg
        ≡ drop 2 (window (new 400) ++ 2913 ∷ 2913 ∷ []))
    × (window (periods (words ∷ words ∷ []) (idle constructed)).sampler.cp_low_avg
        ≡ drop 2 (window (new 400) ++ 0 ∷ 0 ∷ []))
periods-window_example = periods-window (words ∷ words ∷ []) constructed new-IsValid new-IsValid
