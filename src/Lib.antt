-- ===== src/Lib.antt =====
-- Verification of the EVSE firmware for the TI AM62x and of its EVerest board support module.
--
-- The firmware's state machine reads the voltage on the control pilot through the sampler, decides
-- on the states of IEC 61851, drives the contact, the lock and the RCD through the hardware
-- interface, and reports events. Commands and events travel over an RPMsg link, as nanopb messages,
-- between the firmware and the EVerest module on the main cores.
--
-- Hal                firmware/lib/iec61851_hal.hpp. `Hal` holds the operations of HAL over an
--                    abstract state; `IsLawful` says what the clients rely on, through what can be
--                    seen of the hardware (`Board`). The event callback is a command of `Hal`.
-- Fsm.Types, Fsm.Countdown, Fsm.Defs, Fsm.Run
--                    firmware/lib/iec61851_fsm.{hpp,cpp}. `Fsm` is class FSM; a method is a state
--                    transformer on `Machine`, the object with its hardware. `run` is split by the
--                    cases of its switch: run_disabled, run_a, run_b, run_c, run_d, run_e, run_f,
--                    run_df. `decode_cp_state` is the decision of FSM::read_cp_state.
-- Fsm.Power, Fsm.Frames, Fsm.Members, Fsm.States, Fsm.Contact, Fsm.Licence, Fsm.Opening, Fsm.Calls,
-- Fsm.Safety, Fsm.Silent, Fsm.Faults, Fsm.Mute, Fsm.Events, Fsm.Clock, Fsm.Waiting, Fsm.Timing,
-- Fsm.Lock, Fsm.Reading, Fsm.Voltage, Fsm.Access
--                    the theorems on them: the effect of power_on and power_off, frame rules for
--                    the hardware and for the members, when the contact closes and opens,
--                    sequences of calls of the public methods, the events that a run reports, the
--                    countdowns against the time that passes (`IsClock`), the signal behind a run
--                    and the voltages of the states.
-- Fsm.Names          the destructor and the methods of FSM that only report, and event_to_string.
-- Sampler            firmware/bsp_drivers/sampler.cpp. Sampler.Ring: AveragingRingBuffer;
--                    Sampler.Window: the ring against a sliding window; Sampler.Device: class Sampler
--                    with its interrupt handlers and the body of its task's loop; Sampler.Steps: the
--                    task and the interrupts as a step relation, with Sampler.Exclusion and
--                    Sampler.Signal on the states that it reaches, Sampler.Types: the C types of
--                    the members, and Sampler.Failure: after a transfer that failed.
-- ControlPilot       firmware/bsp_drivers/control_pilot.cpp and timer_pwm_priv.h: the registers that
--                    the constructor and set_pwm write; ControlPilot.Duty has the theorems.
--                    ControlPilot.Interrupt: pwm_timer_isr over the status register, and the sampler's
--                    trigger_high and trigger_low.
-- Link               Link.Messages: firmware/pb_codec; Link.Firmware: handle_incoming_message and
--                    push_event of firmware/main.cpp; Link.Host:
--                    everest-module/modules/TiAM625SDK/board_support/board_support_ACImpl.cpp;
--                    Link.Codec: the codec; Link.Fields: the generated bound on a command of
--                    firmware/pb_codec; Link.Names and Link.Commands: events and commands from end to
--                    end. Link.Loop: the main loop of firmware/main.cpp, with Link.Rounds and
--                    Link.Timing;
--                    Link.Endpoint: firmware/bsp_drivers/rpmsg.cpp, with Link.Backlog (what is
--                    received) and Link.Peer (to whom it sends). Link.Module: the device of the
--                    module (class RPMsgLink) and the handlers of its commands, with
--                    Link.Module.Startup and Link.Module.Sending; Link.Module.Dummy:
--                    rpmsg_dummy_lib/ti_rpmsg_char.h of the module. Link.Delivery and
--                    Link.Module.Session: from the module's commands to the state machine.
-- Drivers            firmware/bsp_drivers: power_switch.cpp, rcd.hpp, charger_lock.hpp and the HAL object of
--                    firmware/main.cpp, an instance of `Hal`; Drivers.Pin proves its laws.
-- Boot               firmware/entry.cpp (`main`) and firmware/main.cpp before its loop (`main_task`), with
--                    the SDK and FreeRTOS as parameters (`Sdk`, `Services`); Boot.Contact and
--                    Boot.Rounds: the contact from the start on.
-- Firmware           firmware/main.cpp with the models of all its drivers: `Parts` is their state, and a
--                    script of actions (packets, ticks, interrupts, transfers, steps of the sampling
--                    task) says what happens before each access of the main task to them.
--                    Firmware.Reach: what no action and no access breaks; Firmware.Whole: the rounds of
--                    the main loop; Firmware.Sending: the events that are sent; Firmware.Closing and
--                    Firmware.Power: from the samples to the contact; Firmware.Reporting: from the
--                    state machine to the module; Firmware.Sampling: a sampler that is served.
--                    Fsm.Access and Link.Access: what every access keeps is kept by the methods and by
--                    the rounds.
-- Prelude            shared names, words, floats, the state monad and rules for it.
-- Examples           tests and the theorems at concrete inputs.
--
-- Numbers are native naturals; uint16_t and uint32_t arithmetic wraps explicitly. Floats are a
-- parameter (`Prelude.Floats`) of which no law is assumed but the order of the ranges in Fsm.Voltage
-- (`IsOrdered`). The nanopb codec is a parameter
-- (`Link.Codec`), which gives back what was encoded of the messages that the types name. The loops
-- over arrays are recursions on lists, and the endless loops of the main task and the sampling task
-- are a number of rounds and a step relation, so there is no fuel. An interrupt handler runs to its
-- end between two steps of a task, and the SPI driver may do anything to the buffer of a pending
-- transfer. The main loop receives through a parameter, which Firmware fills with the endpoint's own
-- method. The clock and configuration of the timer are generated by the build: the number of ticks in
-- a period is a parameter. In Firmware the script of actions is a finite list of any length, after
-- which nothing more happens around the main task; the theorems hold for every script.
-- The registers of the timer are a parameter too (`TimerRegs`), of which the interrupt handler relies on
-- what the manual says of the status register (`IsTimer`); so are the library ti_rpmsg_char and the
-- system's write (`CharDevice`).
--
-- Not modelled: the GPIO driver, pin multiplexing, the variant of the firmware under #else, and nanopb
-- itself.
mod Prelude
pub mod Hal
pub mod Fsm
pub mod Sampler
pub mod ControlPilot
pub mod Drivers
pub mod Link
pub mod Boot
pub mod Firmware
mod Examples
