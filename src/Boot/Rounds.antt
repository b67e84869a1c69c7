-- ===== src/Boot/Rounds.antt =====
-- firmware/main.cpp: `main_task` from its start through the rounds of its loop.
use ti_am62x_evse_sdk.Prelude.{◌≡◌, ◌⊎◌, ◌<◌, subst, ℕ, Bool, true}
use ti_am62x_evse_sdk.Prelude.State.{State}
use ti_am62x_evse_sdk.Prelude.Floats.{Floats}
use ti_am62x_evse_sdk.Fsm.Opening.{failures}
use ti_am62x_evse_sdk.Fsm.Safety.{is_charging}
use ti_am62x_evse_sdk.Link.Loop.{Received, Loop, iterate}
use ti_am62x_evse_sdk.Link.Rounds.{iterate-Guarded}
use ti_am62x_evse_sdk.Drivers.{Gpio, Rest, Hardware, hal, is_on}
use ti_am62x_evse_sdk.Drivers.Pin.{ReadsLow, observe, hal-IsLawful}
use ti_am62x_evse_sdk.Boot.{Services, looping, main_task}
use ti_am62x_evse_sdk.Boot.Contact.{Leaves, main_task-Leaves}

module _ (F : Floats) (g : Gpio) (r : Rest F.Float) (k : Services r)
    (get_msg : State (Hardware F g r) (Received F.Float))
    (observe-get_msg : (w : Hardware F g r) → observe F g r (get_msg w).1 ≡ observe F g r w) where
  -- Where the main task comes to its loop, on a pin that reads as low once it was written low and where
  -- receiving a message changes neither the pin nor the events: after any number of rounds, if the pin
  -- of the contact reads as high, the last state that the state machine went through is C or D, or a
  -- failure of the relay was reported; however the pin stood when the task was started.
  pub iterate-main_task :
      (f : ReadsLow F g r) (junk : Bool) (w : Hardware F g r) (l : Loop F (hal F g r)) (n : ℕ)
      → main_task F g r k junk w ≡ looping l
      → is_on g (iterate F (hal F g r) get_msg n l).machine.hal.gpio ≡ true
      → (is_charging (iterate F (hal F g r) get_msg n l).machine.fsm.prev_state ≡ true)
        ⊎ (0 < failures (iterate F (hal F g r) get_msg n l).machine.hal.told.sent)
  unfolding hal-IsLawful Leaves
  iterate-main_task f junk w l n started on =
      let left : Leaves F g r k w.gpio (looping l) =
        subst (Leaves F g r k w.gpio) started (main_task-Leaves F g r k f junk w) in
      (iterate-Guarded F (hal F g r) (hal-IsLawful F g r) get_msg observe-get_msg n l
          (record { guard = λ c. absurd (cc (c, left.0)) })).guard
        on
