-- ===== src/Boot/Contact.antt =====
-- firmware/main.cpp: the contact while the firmware starts.
use ti_am62x_evse_sdk.Prelude.{◌≡◌, refl, Bool, false, inl, inr, Bool-cases}
use ti_am62x_evse_sdk.Prelude.State.{State}
use ti_am62x_evse_sdk.Prelude.Floats.{Floats}
use ti_am62x_evse_sdk.Fsm.Types.{CpState}
use ti_am62x_evse_sdk.Fsm.Defs.{disable, set_pwm_off, fresh}
use ti_am62x_evse_sdk.Fsm.Defs
use ti_am62x_evse_sdk.Drivers.{Gpio, Rest, Hardware, is_on}
use ti_am62x_evse_sdk.Drivers.Pin.{ReadsLow, construct-is_on}
use ti_am62x_evse_sdk.Boot.{
  Services, Assertion, Started, stopped, looping, assert, wait_for_linux, enter_loop, start_fsm,
  start_drivers, main_task,
}

module _ (F : Floats) (g : Gpio) (r : Rest F.Float) (k : Services r) where
  -- What a start leaves: up to the endpoint the pin is as it was, after that it reads low, and the
  -- main loop begins with a state machine that is disabled.
  unfoldable pub Leaves : g.World → Started F g r k → Type 0
  Leaves pin (stopped Assertion.linux_is_ready v) = v.gpio ≡ pin
  Leaves pin (stopped Assertion.is_announced v) = v.gpio ≡ pin
  Leaves pin (stopped Assertion.endpoint_exists v) = v.gpio ≡ pin
  Leaves pin (stopped Assertion.interrupt_exists v) = is_on g v.gpio ≡ false
  Leaves pin (stopped Assertion.sampling_task_exists v) = is_on g v.gpio ≡ false
  Leaves pin (looping l) =
      (is_on g l.machine.hal.gpio ≡ false) × (l.machine.fsm.cur_state ≡ CpState.disabled)

  assert-cases :
      (P : Started F g r k → Type 0) (a : Assertion) (q : State r.World Bool)
      (rest : Hardware F g r → Started F g r k) (w : Hardware F g r)
      → P (stopped a (record w { rest = (q w.rest).1 }))
      → P (rest (record w { rest = (q w.rest).1 }))
      → P (assert F g r k a q rest w)
  unfolding assert
  assert-cases P a q rest w bad good = elim (Bool-cases (q w.rest).0) [
    | inl e ↦ rw (e, assert) good
    | inr e ↦ rw (e, assert) bad
  ]

  start_fsm-Leaves :
      (pin : g.World) (junk : Bool) (w : Hardware F g r)
      → is_on g w.gpio ≡ false
      → Leaves pin (start_fsm F g r k junk w)
  unfolding start_fsm Leaves Defs.construct disable set_pwm_off fresh enter_loop
  start_fsm-Leaves pin junk w off =
      assert-cases (Leaves pin) Assertion.sampling_task_exists k.create_sampling_task _ _ off
        (off, refl)

  start_drivers-Leaves :
      (f : ReadsLow F g r) (pin : g.World) (junk : Bool) (w : Hardware F g r)
      → Leaves pin (start_drivers F g r k junk w)
  unfolding start_drivers Leaves
  start_drivers-Leaves f pin junk w =
      let off = construct-is_on F g r f w.gpio in
      assert-cases (Leaves pin) Assertion.interrupt_exists k.construct_interrupt
        (start_fsm F g r k junk) _ off (start_fsm-Leaves pin junk _ off)

  -- However the calls of the start answer, on a pin that reads as low once it was written low: where
  -- the link, its announcement or its endpoint fails, nothing has touched the pin of the contact; where
  -- the timer's interrupt or the sampling task cannot be created, the pin reads low; and otherwise the main
  -- loop begins with the pin low and the state machine disabled.
  pub main_task-Leaves :
      (f : ReadsLow F g r) (junk : Bool) (w : Hardware F g r)
      → Leaves w.gpio (main_task F g r k junk w)
  unfolding main_task Leaves
  main_task-Leaves f junk w =
      assert-cases (Leaves w.gpio) Assertion.linux_is_ready (wait_for_linux F g r k 10000) _ w refl
        (assert-cases (Leaves w.gpio) Assertion.is_announced k.announce _ _ refl (
          assert-cases (Leaves w.gpio) Assertion.endpoint_exists k.construct_endpoint
            (start_drivers F g r k junk) _ refl (start_drivers-Leaves f w.gpio junk _)))
