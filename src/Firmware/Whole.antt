-- ===== src/Firmware/Whole.antt =====
-- firmware/main.cpp: the drivers' states over the rounds of the main loop, from the start of the main
-- task.
use ti_am62x_evse_sdk.Prelude.{
  ◌≡◌, ◌≤◌, ◌-◌, ◌==◌, refl, subst, ℕ, Bool, false, Option, none, some, List, [], ◌∷◌, length, take,
  inl, inr, Bool-cases, arith,
}
use ti_am62x_evse_sdk.Prelude.State.{State}
use ti_am62x_evse_sdk.Prelude.Floats.{Floats}
use ti_am62x_evse_sdk.Hal.{Event, CpSignal}
use ti_am62x_evse_sdk.Fsm.Defs.{disable, set_pwm_off, fresh}
use ti_am62x_evse_sdk.Fsm.Defs
use ti_am62x_evse_sdk.Fsm.Access.{IsKept, construct-Kept}
use ti_am62x_evse_sdk.Sampler.Steps.{Reachable}
use ti_am62x_evse_sdk.Link.Messages.{HighToLow, LowToHigh}
use ti_am62x_evse_sdk.Link.Codec.{Codec}
use ti_am62x_evse_sdk.Link.Endpoint.{
  Packet, Endpoint, Outcome, outcome, send_msg, detect, read_packet, recv,
}
use ti_am62x_evse_sdk.Link.Endpoint
use ti_am62x_evse_sdk.Link.Loop.{Loop, iterate}
use ti_am62x_evse_sdk.Link.Access.{iterate-kept}
use ti_am62x_evse_sdk.Drivers.{Gpio, Rest, Hardware, hal}
use ti_am62x_evse_sdk.Boot.{
  Services, Assertion, Started, stopped, looping, assert, wait_for_linux, enter_loop, start_fsm,
  start_drivers, main_task,
}
use ti_am62x_evse_sdk.Firmware.{
  Parts, elapse, push_event, parts, is_halt, poll_endpoint, wait_msg, Startup, construct_sampler,
  construct_endpoint, boot_calls,
}
use ti_am62x_evse_sdk.Firmware.Reach.{
  by_elapse, lasting-IsKept, Sound, IsBacked, Stays, Stays-IsLasting,
}

module _ (encode : LowToHigh → List ℕ) where
  send_msg-IsBacked :
      (answer : Bool) (msg : LowToHigh) (e : Endpoint)
      → IsBacked e
      → IsBacked (send_msg encode answer msg e).1
  unfolding send_msg
  send_msg-IsBacked answer msg e b = ground (arith, b)

module _ (F : Floats) (period ticks_per_ms : ℕ) (c : Codec F.Float) (junk : CpSignal F.Float)
    (size : ℕ) where
  -- What a poll returns of an endpoint whose queue holds what its semaphore counts.
  record Polled (r : Outcome F.Float × Endpoint) : Type 0 where
    backed : IsBacked r.1
    running : is_halt F period ticks_per_ms c junk size r.0 ≡ false

  outcome-running :
      (o : Option (HighToLow F.Float))
      → is_halt F period ticks_per_ms c junk size (outcome o) ≡ false
  outcome-running none = refl
  outcome-running (some msg) = refl

  detect-IsBacked : (p : Packet) (e : Endpoint) → IsBacked e → IsBacked (detect p e)
  unfolding detect
  detect-IsBacked p e b = ground (arith, b)

  recv-Polled :
      (ps : List Packet) (e : Endpoint)
      → e.pending_msgs ≤ length ps
      → (e.pending_msgs == 0) ≡ false
      → Polled (recv c.decode_command size ps (record e { pending_msgs = e.pending_msgs - 1 }))
  unfolding recv read_packet
  recv-Polled [] e b z = absurd (ground (arith, b, z))
  recv-Polled (p ∷ ps) e b z = record {
    backed = detect-IsBacked p _ (ground (arith, b, z));
    running = outcome-running (c.decode_command (take size p.bytes));
  }

  get_msg-Polled : (e : Endpoint) → IsBacked e → Polled (Endpoint.get_msg c.decode_command size e)
  unfolding Endpoint.get_msg
  get_msg-Polled e b = elim (Bool-cases (e.pending_msgs == 0)) [
    | inl z ↦ simp z (record { backed = b; running = refl })
    | inr z ↦ simp z (recv-Polled e.queue e b z)
  ]

  module _ (u : Startup) where
    push_event-Sound :
        (e : Event) (w : Parts) → Stays u w (push_event F period ticks_per_ms c junk size e w)
    unfolding push_event
    push_event-Sound e w s =
        let t = by_elapse (Stays-IsLasting u) w s in
        record {
          sampling = t.sampling;
          backed = send_msg-IsBacked c.encode_event _ _ _ t.backed;
          running = t.running;
        }

    poll_endpoint-Sound :
        (w : Parts) → Stays u w (poll_endpoint F period ticks_per_ms c junk size w).1
    unfolding poll_endpoint
    poll_endpoint-Sound w s =
        let t = by_elapse (Stays-IsLasting u) w s in
        let p = get_msg-Polled (elapse w).endpoint t.backed in
        record {
          sampling = t.sampling;
          backed = p.backed;
          running = ground (arith, t.running, p.running);
        }

    -- The drivers are sound, as a condition on the hardware that every access keeps.
    pub Sound-IsKept :
        (g : Gpio)
        → IsKept (hal F g (parts F period ticks_per_ms c junk size)) (λ w v. Stays u w.rest v.rest)
    Sound-IsKept g =
        lasting-IsKept F period ticks_per_ms c junk size (Stays-IsLasting u) push_event-Sound g

    module _ (g : Gpio) where
      abbrev pub drivers : Rest F.Float
      drivers = parts F period ticks_per_ms c junk size

      abbrev pub calls : Services drivers
      calls = boot_calls F period ticks_per_ms c junk size u

      -- What a start leaves where it comes to the main loop.
      unfoldable Ready : Started F g drivers calls → Type 0
      Ready (stopped a v) = Unit
      Ready (looping l) = Sound u l.machine.hal.rest

      assert-Ready :
          (a : Assertion) (q : State Parts Bool)
          (rest : Hardware F g drivers → Started F g drivers calls) (w : Hardware F g drivers)
          → Ready (rest (record w { rest = (q w.rest).1 }))
          → Ready (assert F g drivers calls a q rest w)
      unfolding Ready assert
      assert-Ready a q rest w good = elim (Bool-cases (q w.rest).0) [
        | inl e ↦ rw (e, assert) good
        | inr e ↦ rw (e, assert) tt
      ]

      start_fsm-Ready :
          (b : Bool) (w : Hardware F g drivers)
          → Sound u w.rest
          → Ready (start_fsm F g drivers calls b w)
      unfolding start_fsm Ready enter_loop
      start_fsm-Ready b w s =
          let m = Defs.construct F (hal F g drivers) b w in
          assert-Ready Assertion.sampling_task_exists (calls.create_sampling_task) _ m.hal (
            (Sound-IsKept g).by_ticks m.hal
              (construct-Kept F (hal F g drivers) (Sound-IsKept g) b w s))

      start_drivers-Ready :
          (b : Bool) (w : Hardware F g drivers)
          → IsBacked w.rest.endpoint
          → w.rest.halted ≡ false
          → Ready (start_drivers F g drivers calls b w)
      unfolding start_drivers construct_sampler
      start_drivers-Ready b w e n =
          assert-Ready Assertion.interrupt_exists (calls.construct_interrupt)
            (start_fsm F g drivers calls b) _
            (start_fsm-Ready b _ (record { sampling = Reachable.initial; backed = e; running = n }))

      main_task-Ready :
          (b : Bool) (w : Hardware F g drivers)
          → w.rest.halted ≡ false
          → Ready (main_task F g drivers calls b w)
      unfolding main_task construct_endpoint Endpoint.construct wait_for_linux
      main_task-Ready b w n =
          assert-Ready Assertion.linux_is_ready (wait_for_linux F g drivers calls 10000) _ w (
            assert-Ready Assertion.is_announced calls.announce _ _ (
              assert-Ready Assertion.endpoint_exists calls.construct_endpoint
                (start_drivers F g drivers calls b) _ (start_drivers-Ready b _ none_queued n)))
        where
          none_queued : 0 ≤ 0
          none_queued = omega arith

      -- The main loop after a number of rounds.
      abbrev pub rounds : ℕ → Loop F (hal F g drivers) → Loop F (hal F g drivers)
      rounds = iterate F (hal F g drivers) (wait_msg F period ticks_per_ms c junk size g)

      pub wait_msg-Sound :
          (w : Hardware F g drivers)
          → Stays u w.rest (wait_msg F period ticks_per_ms c junk size g w).1.rest
      unfolding wait_msg
      wait_msg-Sound w = poll_endpoint-Sound w.rest

      -- From the start of the main task on, however the interrupts, the transfers of the ADC, the
      -- sampling task, the clock and the packets that arrive fall between the accesses of the main task
      -- to its drivers, after any number of rounds of the main loop: the assertion of `get_msg` has not
      -- failed, the endpoint's queue holds at least the messages that its semaphore counts, and the
      -- sampler is in a state that its steps reach from its constructor.
      pub rounds-Sound :
          (b : Bool) (w : Hardware F g drivers) (l : Loop F (hal F g drivers)) (n : ℕ)
          → w.rest.halted ≡ false
          → main_task F g drivers calls b w ≡ looping l
          → Sound u (rounds n l).machine.hal.rest
      unfolding Ready
      rounds-Sound b w l n h started =
          iterate-kept F (hal F g drivers) (Sound-IsKept g) _ wait_msg-Sound n l
            (subst Ready started (main_task-Ready b w h))
