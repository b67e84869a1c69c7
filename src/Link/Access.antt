-- ===== src/Link/Access.antt =====
-- firmware/main.cpp: the rounds of the main loop as sequences of accesses to the hardware.
use ti_am62x_evse_sdk.Prelude.{
  ℕ, zero, suc, Bool, true, false, ltb, ◌==◌, if◌then◌else◌, Bool-cases, inl, inr,
}
use ti_am62x_evse_sdk.Prelude.Word.{sub32}
use ti_am62x_evse_sdk.Prelude.State.{State}
use ti_am62x_evse_sdk.Prelude.Floats.{Floats}
use ti_am62x_evse_sdk.Hal.{Hal}
use ti_am62x_evse_sdk.Fsm.Types.{Machine}
use ti_am62x_evse_sdk.Fsm.Access.{
  IsKept, Kept, Kept-pure, run-Kept, set_pwm_off-Kept, set_pwm_on-Kept, set_pwm_f-Kept, enable-Kept,
  disable-Kept, allow_power_on-Kept,
}
use ti_am62x_evse_sdk.Link.Messages.{
  HighToLow, set_pwm_tag, allow_power_on_tag, enable_tag, disable_tag, pwm_state_on, pwm_state_off,
  pwm_state_f,
}
use ti_am62x_evse_sdk.Fsm.Run.{run}
use ti_am62x_evse_sdk.Link.Firmware.{handle_set_pwm, handle_incoming_message}
use ti_am62x_evse_sdk.Link.Loop.{
  Received, ok, timeout, corrupt_message, Loop, handle, chore, iteration, iterate,
}

module _ (F : Floats) (h : Hal F.Float) {R : h.World → h.World → Type 0} (K : IsKept h R) where
  choose :
      (b : Bool) {f g : State (Machine F.Float h) (Unit {0})}
      → Kept F h K f
      → Kept F h K g
      → Kept F h K (if b then f else g)
  choose true p q = p
  choose false p q = q

  handle_set_pwm-Kept : (state : ℕ) (x : F.Float) → Kept F h K (handle_set_pwm F h state x)
  unfolding handle_set_pwm
  handle_set_pwm-Kept state x = choose (state == pwm_state_f) (set_pwm_f-Kept F h K) (
      choose (state == pwm_state_off) (set_pwm_off-Kept F h K)
        (choose (state == pwm_state_on) (set_pwm_on-Kept F h K x) (Kept-pure F h K tt)))

  handle_incoming_message-Kept :
      (msg : HighToLow F.Float) → Kept F h K (handle_incoming_message F h msg)
  unfolding handle_incoming_message
  handle_incoming_message-Kept msg =
      choose (msg.which_message == set_pwm_tag)
        (handle_set_pwm-Kept msg.set_pwm.state msg.set_pwm.duty_cycle)
        (choose (msg.which_message == allow_power_on_tag)
          (allow_power_on-Kept F h K msg.allow_power_on)
          (choose (msg.which_message == enable_tag) (enable-Kept F h K)
            (choose (msg.which_message == disable_tag) (disable-Kept F h K) (Kept-pure F h K tt))))

  pub handle-kept : (r : Received F.Float) (m : Machine F.Float h) → R m.hal (handle F h r m).hal
  unfolding handle
  handle-kept (ok msg) m = ((handle_incoming_message-Kept msg).step m).hardware
  handle-kept timeout m = K.order.here m.hal
  handle-kept corrupt_message m = K.order.here m.hal

  pub chore-kept : (interval t : ℕ) (w : h.World) → R w (chore F h interval t w).1
  unfolding chore
  chore-kept interval t w = elim (Bool-cases (ltb interval (sub32 (h.get_current_ticks w).0 t))) [
    | inl e ↦ simp e (K.order.then w _ _ (K.by_ticks w) (K.by_signal _))
    | inr e ↦ simp e (K.by_ticks w)
  ]

  module _ (get_msg : State h.World (Received F.Float))
      (by_get_msg : (w : h.World) → R w (get_msg w).1) where
    iteration-kept : (l : Loop F h) → R l.machine.hal (iteration F h get_msg l).machine.hal
    unfolding iteration
    iteration-kept l =
        let received = get_msg l.machine.hal in
        let m = handle F h received.0 (record (l.machine) { hal = received.1 }) in
        K.order.then l.machine.hal received.1 _ (by_get_msg l.machine.hal) (
          K.order.then received.1 m.hal _ (handle-kept received.0 _) (
            K.order.then m.hal (run F h m).1.hal _ ((run-Kept F h K).step m).hardware
              (chore-kept l.chore_interval_ticks l.last_chore_ts _)))

    -- What every access of a round keeps, any number of rounds keeps.
    pub iterate-kept :
        (n : ℕ) (l : Loop F h) → R l.machine.hal (iterate F h get_msg n l).machine.hal
    unfolding iterate
    iterate-kept zero l = K.order.here l.machine.hal
    iterate-kept (suc n) l =
        K.order.then l.machine.hal (iteration F h get_msg l).machine.hal _ (iteration-kept l)
          (iterate-kept n (iteration F h get_msg l))
