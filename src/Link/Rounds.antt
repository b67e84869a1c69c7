-- ===== src/Link/Rounds.antt =====
-- firmware/main.cpp: the contact over the rounds of the main loop.
use ti_am62x_evse_sdk.Prelude.{
  ◌≡◌, ◌⊎◌, inl, inr, sym, ap, ◌∙◌, ◌<◌, ℕ, zero, suc, Bool, true, false, ltb, ◌==◌, Bool-cases,
}
use ti_am62x_evse_sdk.Prelude.Word.{sub32}
use ti_am62x_evse_sdk.Prelude.State.{State}
use ti_am62x_evse_sdk.Prelude.Floats.{Floats}
use ti_am62x_evse_sdk.Hal.{Hal, IsLawful}
use ti_am62x_evse_sdk.Fsm.Types.{Machine}
use ti_am62x_evse_sdk.Fsm.Opening.{failures}
use ti_am62x_evse_sdk.Fsm.Calls.{Call}
use ti_am62x_evse_sdk.Fsm.Safety.{is_charging, Guarded, Guarded-perform, observe-construct}
use ti_am62x_evse_sdk.Link.Messages.{
  HighToLow, set_pwm_tag, allow_power_on_tag, enable_tag, disable_tag, pwm_state_on, pwm_state_off,
  pwm_state_f,
}
use ti_am62x_evse_sdk.Link.Firmware.{handle_set_pwm, handle_incoming_message}
use ti_am62x_evse_sdk.Link.Loop.{
  Received, ok, timeout, corrupt_message, Loop, handle, chore, iteration, iterate, start_loop,
}

module _ (F : Floats) (h : Hal F.Float) (L : IsLawful h) where
  open L use {observe, observe-ticks, observe-signal}

  -- The hardware moved on without a change that can be seen.
  Guarded-seen :
      (m : Machine F.Float h) (w : h.World)
      → observe w ≡ observe m.hal
      → Guarded F h L m
      → Guarded F h L (record m { hal = w })
  Guarded-seen m w e g = record { guard = λ on. rw e (g.guard (sym (ap (λ b. b.relay) e) ∙ on)) }

  handle_set_pwm-Guarded :
      (state : ℕ) (x : F.Float) (m : Machine F.Float h)
      → Guarded F h L m
      → Guarded F h L (handle_set_pwm F h state x m).1
  unfolding handle_set_pwm
  handle_set_pwm-Guarded state x m g = elim (Bool-cases (state == pwm_state_f)) [
    | inl e ↦ simp e (Guarded-perform F h L Call.pwm_f m g)
    | inr nf ↦ elim (Bool-cases (state == pwm_state_off)) [
      | inl e ↦ simp (nf, e) (Guarded-perform F h L Call.pwm_off m g)
      | inr noff ↦ elim (Bool-cases (state == pwm_state_on)) [
        | inl e ↦ simp (nf, noff, e) (Guarded-perform F h L (Call.pwm_on x) m g)
        | inr non ↦ simp (nf, noff, non) g
      ]
    ]
  ]

  pub chore-observe :
      (interval t : ℕ) (w : h.World) → observe (chore F h interval t w).1 ≡ observe w
  unfolding chore
  chore-observe interval t w =
      elim (Bool-cases (ltb interval (sub32 (h.get_current_ticks w).0 t))) [
        | inl e ↦ simp (e, observe-signal, observe-ticks)
        | inr e ↦ simp (e, observe-ticks)
      ]

  handle_incoming_message-Guarded :
      (msg : HighToLow F.Float) (m : Machine F.Float h)
      → Guarded F h L m
      → Guarded F h L (handle_incoming_message F h msg m).1
  unfolding handle_incoming_message
  handle_incoming_message-Guarded msg m g = elim (Bool-cases (msg.which_message == set_pwm_tag)) [
    | inl e ↦ simp e (handle_set_pwm-Guarded msg.set_pwm.state msg.set_pwm.duty_cycle m g)
    | inr n1 ↦ elim (Bool-cases (msg.which_message == allow_power_on_tag)) [
      | inl e ↦ simp (n1, e) (Guarded-perform F h L (Call.allowing msg.allow_power_on) m g)
      | inr n2 ↦ elim (Bool-cases (msg.which_message == enable_tag)) [
        | inl e ↦ simp (n1, n2, e) (Guarded-perform F h L Call.enabling m g)
        | inr n3 ↦ elim (Bool-cases (msg.which_message == disable_tag)) [
          | inl e ↦ simp (n1, n2, n3, e) (Guarded-perform F h L Call.disabling m g)
          | inr n4 ↦ simp (n1, n2, n3, n4) g
        ]
      ]
    ]
  ]

  handle-Guarded :
      (r : Received F.Float) (m : Machine F.Float h)
      → Guarded F h L m
      → Guarded F h L (handle F h r m)
  unfolding handle
  handle-Guarded (ok msg) m g = handle_incoming_message-Guarded msg m g
  handle-Guarded timeout m g = g
  handle-Guarded corrupt_message m g = g

  start_loop-Guarded :
      (interval : ℕ) (junk : Bool) (w : h.World)
      → (observe w).relay ≡ false
      → Guarded F h L (start_loop F h interval junk w).machine
  unfolding start_loop
  start_loop-Guarded interval junk w off =
      Guarded-seen _ _ (observe-ticks _)
        (record { guard = λ c. absurd (cc (c, observe-construct F h L junk w, off)) })

  module _ (get_msg : State h.World (Received F.Float))
      (observe-get_msg : (w : h.World) → observe (get_msg w).1 ≡ observe w) where
    iteration-Guarded :
        (l : Loop F h) → Guarded F h L l.machine → Guarded F h L (iteration F h get_msg l).machine
    unfolding iteration
    iteration-Guarded l g =
        Guarded-seen _ _ (chore-observe l.chore_interval_ticks l.last_chore_ts _) (
          Guarded-perform F h L Call.running _ (
            handle-Guarded (get_msg l.machine.hal).0 _
              (Guarded-seen l.machine _ (observe-get_msg l.machine.hal) g)))

    pub iterate-Guarded :
        (n : ℕ) (l : Loop F h)
        → Guarded F h L l.machine
        → Guarded F h L (iterate F h get_msg n l).machine
    unfolding iterate
    iterate-Guarded zero l g = g
    iterate-Guarded (suc n) l g = iterate-Guarded n _ (iteration-Guarded l g)

    -- After any number of rounds of the main loop, whatever messages, signals and ticks come, where
    -- the contact was open before the state machine was constructed: if the contact is closed, then
    -- the last state that the state machine went through is C or D, or a failure of the relay was
    -- reported. Receiving a message must not touch the contact or the events.
    pub relay-iterate :
        (interval : ℕ) (junk : Bool) (w : h.World) (n : ℕ)
        → (observe w).relay ≡ false
        → (observe (iterate F h get_msg n (start_loop F h interval junk w)).machine.hal).relay
          ≡ true
        → (is_charging
              (iterate F h get_msg n (start_loop F h interval junk w)).machine.fsm.prev_state
            ≡ true)
          ⊎ (0
              < failures
                  (observe
                    (iterate F h get_msg n (start_loop F h interval junk w)).machine.hal).sent)
    relay-iterate interval junk w n off on =
        (iterate-Guarded n (start_loop F h interval junk w)
            (start_loop-Guarded interval junk w off)).guard
          on
