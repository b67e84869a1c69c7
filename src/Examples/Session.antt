-- ===== src/Examples/Session.antt =====
-- A module that starts and gives three commands, and the firmware that polls its endpoint; and a
-- module that is linked with the dummy library.
use ti_am62x_evse_sdk.Prelude.{
  ◌≡◌, ◌⊎◌, refl, true, false, ℕ, none, some, List, [], ◌∷◌, ◌++◌, ◌==◌, ◌+◌, length, arith,
}
use ti_am62x_evse_sdk.Link.Host.{heartbeat, handle_enable, handle_pwm_on, handle_allow_power_on}
use ti_am62x_evse_sdk.Link.Commands.{enabling, pwm_on, allowing}
use ti_am62x_evse_sdk.Link.Endpoint.{construct}
use ti_am62x_evse_sdk.Link.Backlog.{Action, arrive, poll, serve}
use ti_am62x_evse_sdk.Link.Loop.{Loop}
use ti_am62x_evse_sdk.Link.Fields.{high_to_low_size}
use ti_am62x_evse_sdk.Link.Delivery.{IsBounded, rounds, follow}
use ti_am62x_evse_sdk.Link.Module.{
  CharDevice, Module, BoardCommand, InitResult, setup_connection, init, handle_command,
  handle_commands,
}
use ti_am62x_evse_sdk.Link.Module.Startup.{IsDevice, opened, init_lem}
use ti_am62x_evse_sdk.Link.Module.Sending.{requests, packets_of, sent-handle_commands}
use ti_am62x_evse_sdk.Link.Module.Session.{rounds-session}
use ti_am62x_evse_sdk.Link.Module.Dummy.{dummy}
use ti_am62x_evse_sdk.Examples.Bench.{fixed, bench, Setup, asking}
use ti_am62x_evse_sdk.Examples.Messages.{plain, plain-IsFaithful}

-- A device that records what is written to it.
abbrev recorder : CharDevice
recorder = record {
  World = List (List ℕ);
  char_init = λ w. (0, w);
  char_open = λ w. (some 3, w);
  char_close = λ fd w. w;
  write = λ fd bytes w. (some (length bytes), w ++ (bytes ∷ []));
}

same_length : (bytes : List ℕ) → (length bytes == length bytes) ≡ true
same_length bytes = ground arith

recorder-IsDevice : IsDevice recorder
recorder-IsDevice = record {
  sent = λ w. w;
  sent-init = λ w. refl;
  sent-open = λ w. refl;
  sent-write = λ fd bytes w. rw (same_length bytes) refl;
}

plain-IsBounded : IsBounded plain
plain-IsBounded = record { command_size = λ m i. omega arith }

abbrev unconnected : Module recorder
unconnected = record { rpmsg_ep = none; receiving = false; device = [] }

abbrev commands : List (BoardCommand ℕ)
commands =
    BoardCommand.enable true
    ∷ BoardCommand.get_hw_capabilities
    ∷ BoardCommand.pwm_on 1005
    ∷ BoardCommand.allow_power_on true
    ∷ []

abbrev from_module : List ℕ → Action
from_module bytes = arrive (record { bytes = bytes; core_id = 0; end_point = 1024 })

abbrev schedule : List Action
schedule =
    from_module (5 ∷ 0 ∷ 1000 ∷ 0 ∷ [])
    ∷ from_module (3 ∷ 0 ∷ 1000 ∷ 0 ∷ [])
    ∷ poll
    ∷ poll
    ∷ poll
    ∷ from_module (1 ∷ 0 ∷ 1005 ∷ 0 ∷ [])
    ∷ from_module (2 ∷ 0 ∷ 1000 ∷ 1 ∷ [])
    ∷ poll
    ∷ []

abbrev looped : Loop fixed bench
looped = record { machine = asking; chore_interval_ticks = 1000; last_chore_ts = 0 }

-- A millisecond passes while the main loop waits for a message.
abbrev a_tick : Setup → Setup
a_tick w = record w { now = w.now + 1 }

rounds-session_example :
    rounds fixed bench a_tick
      (serve plain.decode_command high_to_low_size schedule (construct 0 0)).0
      looped
    ≡ follow fixed bench a_tick
        (serve plain.decode_command high_to_low_size schedule (construct 0 0)).0
        (none ∷ some (enabling true) ∷ some (pwm_on 1005) ∷ some (allowing true) ∷ [])
        looped
unfolding init setup_connection handle_command handle_commands handle_enable handle_pwm_on
    handle_allow_power_on heartbeat recorder-IsDevice
rounds-session_example =
    rounds-session fixed bench plain plain-IsFaithful plain-IsBounded recorder recorder-IsDevice
      unconnected 3 commands 0 0 schedule a_tick looped (λ bytes w. same_length bytes) refl refl
      refl

abbrev linked : Module recorder
linked = record { rpmsg_ep = some 3; receiving = true; device = [] }

sent-handle_commands_example :
    (handle_commands recorder 1000 plain.encode_command commands linked).device
    ≡ packets_of fixed recorder plain.encode_command recorder-IsDevice (requests commands)
unfolding recorder-IsDevice
sent-handle_commands_example =
    sent-handle_commands fixed recorder plain.encode_command recorder-IsDevice 3
      (λ bytes w. same_length bytes) commands linked refl

abbrev on_dummy : Module dummy
on_dummy = record { rpmsg_ep = none; receiving = false; device = tt }

abbrev nothing : List (List ℕ)
nothing = []

dummy-IsDevice : IsDevice dummy
dummy-IsDevice = record {
  sent = λ w. [];
  sent-init = λ w. refl;
  sent-open = λ w. refl;
  sent-write = λ fd bytes w. refl;
}

-- Built with the dummy library the module never starts.
dummy_raises : (init dummy 1000 plain.encode_command on_dummy).0 ≡ InitResult.internal_error
unfolding init setup_connection
dummy_raises = refl

init_lem_example :
    ((opened dummy tt ≡ none)
      × ((init dummy 1000 plain.encode_command on_dummy).0 ≡ InitResult.internal_error)
      × (nothing ≡ nothing))
    ⊎ ((fd : ℕ) × (opened dummy tt ≡ some fd)
        × ((init dummy 1000 plain.encode_command on_dummy).0 ≡ InitResult.ok)
        × ((init dummy 1000 plain.encode_command on_dummy).1.rpmsg_ep ≡ some fd)
        × ((nothing ≡ nothing) ⊎ (nothing ≡ plain.encode_command (heartbeat 1000) ∷ [])))
unfolding dummy-IsDevice
init_lem_example = init_lem dummy 1000 plain.encode_command dummy-IsDevice on_dummy
