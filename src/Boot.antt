-- ===== src/Boot.antt =====
-- firmware/entry.cpp and the part of firmware/main.cpp before the main loop: how the firmware starts.
pub mod Contact
pub mod Rounds
use ti_am62x_evse_sdk.Prelude.{ℕ, Bool, true, false, Option, none, some}
use ti_am62x_evse_sdk.Prelude.Word.{mul32}
use ti_am62x_evse_sdk.Prelude.State.{State}
use ti_am62x_evse_sdk.Prelude.Floats.{Floats}
use ti_am62x_evse_sdk.Fsm.Defs
use ti_am62x_evse_sdk.Link.Loop.{Loop, chore_interval_ms}
use ti_am62x_evse_sdk.Drivers.{Gpio, Rest, Hardware, hal, construct}

-- The calls of the SDK and of FreeRTOS in `main`; a scheduler that does not return is `none`.
pub record Sdk : Type 1 where
  pub World : Type 0
  pub system_init : World → World
  pub board_init : World → World
  pub drivers_open : World → World
  pub board_drivers_open : World → World
  pub create_main_task : State World Bool
  pub start_scheduler : World → Option World
  pub board_drivers_close : World → World
  pub drivers_close : World → World

-- How `main` ends: at its first assertion, never, or at its last one.
pub data Ending (s : Sdk) : Type 0 where
  no_main_task : s.World → Ending s
  scheduled : Ending s
  out_of_heap : s.World → Ending s

module _ (s : Sdk) where
  unfoldable pub after_scheduler : Option s.World → Ending s
  after_scheduler none = scheduled
  after_scheduler (some w) = out_of_heap (s.drivers_close (s.board_drivers_close w))

  unfoldable pub schedule : Bool × s.World → Ending s
  schedule (false, w) = no_main_task w
  schedule (true, w) = after_scheduler (s.start_scheduler w)

  unfoldable pub main : s.World → Ending s
  main w =
      schedule (
        s.create_main_task (s.board_drivers_open (s.drivers_open (s.board_init (s.system_init w)))))

-- The calls of the SDK in `main_task` and in the constructors that it runs, on the hardware less the pin
-- of the contact; a status is whether it is a success.
pub record Services {A : Type 0} (r : Rest A) : Type 0 where
  pub usec_to_ticks : ℕ → ℕ
  pub wait_for_linux_ready : ℕ → State r.World Bool
  pub announce : State r.World Bool
  pub construct_endpoint : State r.World Bool
  pub construct_sampler : r.World → r.World
  pub construct_interrupt : State r.World Bool
  pub create_sampling_task : State r.World Bool

-- The assertions of `main_task` in their order.
pub data Assertion : Type 0 where
  linux_is_ready is_announced endpoint_exists interrupt_exists sampling_task_exists : Assertion

module _ (F : Floats) (g : Gpio) (r : Rest F.Float) (k : Services r) where
  -- Where the start ends: at an assertion that fails, or in the main loop.
  pub data Started : Type 0 where
    stopped : Assertion → Hardware F g r → Started
    looping : Loop F (hal F g r) → Started

  -- A call that returns a status, and the assertion of it.
  unfoldable pub assert :
      Assertion → State r.World Bool → (Hardware F g r → Started) → Hardware F g r → Started
  assert a q rest w =
      let answer = q w.rest in
      let v = record w { rest = answer.1 } in elim answer.0 [ true ↦ rest v | false ↦ stopped a v ]

  -- `RPMsg::wait_for_linux`
  unfoldable pub wait_for_linux : ℕ → State r.World Bool
  wait_for_linux timeout_ms w = k.wait_for_linux_ready (k.usec_to_ticks (mul32 timeout_ms 1000)) w

  -- The start of the loop: the time is read, and the interval of the chore is set.
  unfoldable pub enter_loop : Loop F (hal F g r) → Loop F (hal F g r)
  enter_loop l =
      let now = (hal F g r).get_current_ticks l.machine.hal in
      record {
        machine = record (l.machine) { hal = now.1 };
        chore_interval_ticks = k.usec_to_ticks (mul32 chore_interval_ms 1000);
        last_chore_ts = now.0;
      }

  -- The state machine, the sampling task, and the loop; `junk` is what the memory held.
  unfoldable pub start_fsm : Bool → Hardware F g r → Started
  start_fsm junk w =
      let m = Defs.construct F (hal F g r) junk w in
      assert sampling_task_exists k.create_sampling_task
        (λ v. looping (
          enter_loop (record {
            machine = record m { hal = v };
            chore_interval_ticks = 0;
            last_chore_ts = 0;
          })))
        m.hal

  unfoldable pub start_drivers : Bool → Hardware F g r → Started
  start_drivers junk w =
      assert interrupt_exists k.construct_interrupt (start_fsm junk)
        (record w { gpio = construct g w.gpio; rest = k.construct_sampler w.rest })

  unfoldable pub main_task : Bool → Hardware F g r → Started
  main_task junk w =
      assert linux_is_ready (wait_for_linux 10000)
        (assert is_announced k.announce
          (assert endpoint_exists k.construct_endpoint (start_drivers junk)))
        w
