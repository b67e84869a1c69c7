-- ===== src/Firmware/Reach.antt =====
-- firmware/main.cpp and firmware/bsp_drivers: what the accesses of the main task, and what happens
-- between them, keep of the drivers' states.
use ti_am62x_evse_sdk.Prelude.{
  ◌≡◌, ◌≤◌, refl, ◌∙◌, ℕ, true, false, List, [], ◌∷◌, length, length-append, inl, inr, Bool-cases,
  arith,
}
use ti_am62x_evse_sdk.Prelude.Floats.{Floats}
use ti_am62x_evse_sdk.Prelude.Frame.{IsPreorder}
use ti_am62x_evse_sdk.Hal.{Event, CpSignal, Command}
use ti_am62x_evse_sdk.Sampler.Device.{Sampler, Burst, TransferStatus, is_pending}
use ti_am62x_evse_sdk.Sampler.Steps.{System, TaskPoint, Step, Reachable, IsU16Burst}
use ti_am62x_evse_sdk.Sampler.Exclusion.{start}
use ti_am62x_evse_sdk.ControlPilot.Interrupt.{trigger_high, trigger_low}
use ti_am62x_evse_sdk.Link.Codec.{Codec}
use ti_am62x_evse_sdk.Link.Endpoint.{Endpoint, receive_notify_cb}
use ti_am62x_evse_sdk.Drivers.{Gpio, hal, command}
use ti_am62x_evse_sdk.Fsm.Access.{IsKept}
use ti_am62x_evse_sdk.Firmware.{
  task_step, Action, Parts, u16_burst, act_sampling, act_endpoint, act, act_all, elapse, drive_pwm,
  read_cp_signal, get_ticks, push_event, parts, Startup,
}

-- A condition on the drivers before and after, which neither an access nor what happens between two
-- of them breaks.
pub record IsLasting (Q : Parts → Parts → Type 0) : Type 0 where
  pub order : IsPreorder Q
  pub by_act : (a : Action) (w : Parts) → Q w (act a w)
  pub by_rest :
      (w v : Parts)
      → v.sampling ≡ w.sampling
      → v.endpoint ≡ w.endpoint
      → v.halted ≡ w.halted
      → Q w v

module _ {Q : Parts → Parts → Type 0} (K : IsLasting Q) where
  by_acts : (acts : List Action) (w : Parts) → Q w (act_all acts w)
  unfolding act_all
  by_acts [] w = K.order.here w
  by_acts (a ∷ acts) w = K.order.then w (act a w) _ (K.by_act a w) (by_acts acts (act a w))

  pub by_elapse : (w : Parts) → Q w (elapse w)
  unfolding elapse
  by_elapse w = K.order.then w _ _ (by_acts _ w) (K.by_rest _ _ refl refl refl)

module _ (F : Floats) (period ticks_per_ms : ℕ) (c : Codec F.Float) (junk : CpSignal F.Float)
    (size : ℕ) {Q : Parts → Parts → Type 0} (K : IsLasting Q)
    (by_push : (e : Event) (w : Parts)
      → Q w (push_event F period ticks_per_ms c junk size e w)) where
  by_set_pwm : (x : F.Float) (w : Parts) → Q w (drive_pwm F period ticks_per_ms c junk size x w)
  unfolding drive_pwm
  by_set_pwm x w = K.order.then w _ _ (by_elapse K w) (K.by_rest _ _ refl refl refl)

  by_command :
      (g : Gpio) (d : Command F.Float) (w : Parts)
      → Q w (command F g (parts F period ticks_per_ms c junk size) d w)
  unfolding command
  by_command g Command.cp_enable w = by_set_pwm _ w
  by_command g Command.cp_disable w = by_set_pwm _ w
  by_command g (Command.set_pwm x) w = by_set_pwm x w
  by_command g (Command.push_event e) w = by_push e w
  by_command g _ w = K.order.here w

  pub lasting-IsKept :
      (g : Gpio)
      → IsKept (hal F g (parts F period ticks_per_ms c junk size)) (λ w v. Q w.rest v.rest)
  unfolding read_cp_signal get_ticks
  lasting-IsKept g = record {
    order = record {
      here = λ w. K.order.here w.rest;
      then = λ u v w. K.order.then u.rest v.rest w.rest;
    };
    by_exec = λ d w. by_command g d w.rest;
    by_fired = λ w. K.order.here w.rest;
    by_on = λ b w. K.order.here w.rest;
    by_off = λ w. K.order.here w.rest;
    by_is_on = λ w. K.order.here w.rest;
    by_reset = λ w. K.order.here w.rest;
    by_signal = λ w. by_elapse K w.rest;
    by_ticks = λ w. by_elapse K w.rest;
  }

-- The sampler is in a state that its steps reach, the endpoint's queue holds what its semaphore
-- counts, and no assertion has failed.
pub record Sound (u : Startup) (w : Parts) : Type 0 where
  pub sampling : Reachable (start u.status u.high_junk u.low_junk u.tbd_junk u.raw_junk) w.sampling
  pub backed : w.endpoint.pending_msgs ≤ length w.endpoint.queue
  pub running : w.halted ≡ false

u16_burst-IsU16Burst : (words : Burst) → IsU16Burst (u16_burst words)
u16_burst-IsU16Burst words = record {
  word0 = omega arith;
  word1 = omega arith;
  word2 = omega arith;
}

pending_lem : (s : TransferStatus) → is_pending s ≡ true → s ≡ TransferStatus.pending
pending_lem TransferStatus.pending e = refl
pending_lem _ e = absurd (cc)

module _ (s : System) where
  task_step-Reachable :
      (p : TaskPoint) (t : Sampler)
      → Reachable s (record { sampler = t; task = p })
      → Reachable s (task_step p t)
  unfolding task_step
  task_step-Reachable TaskPoint.waiting t r = elim (Bool-cases t.new_sample_available) [
    | inl e ↦ simp e (Reachable.next _ _ r (Step.wake t e))
    | inr e ↦ simp e r
  ]
  task_step-Reachable TaskPoint.signalled t r = elim (Bool-cases t.sample_buf_mutex) [
    | inl e ↦ simp e (Reachable.next _ _ r (Step.take_buffer t e))
    | inr e ↦ simp e r
  ]
  task_step-Reachable TaskPoint.reading t r = Reachable.next _ _ r (Step.decode_high t)
  task_step-Reachable (TaskPoint.read_high h) t r = Reachable.next _ _ r (Step.decode_low t h)
  task_step-Reachable (TaskPoint.read_low h l) t r = Reachable.next _ _ r (Step.give_buffer t h l)
  task_step-Reachable (TaskPoint.processing h l) t r =
      Reachable.next _ _ r (Step.process_samples t h l)

  -- Whatever happens to the sampler is a step of it, or nothing.
  act_sampling-Reachable :
      (a : Action) (x : System) → Reachable s x → Reachable s (act_sampling a x)
  unfolding act_sampling trigger_high trigger_low
  act_sampling-Reachable (Action.trigger answer true) x r =
      Reachable.next x _ r (Step.trigger answer true x)
  act_sampling-Reachable (Action.trigger answer false) x r =
      Reachable.next x _ r (Step.trigger answer false x)
  act_sampling-Reachable (Action.receive words) x r =
      elim (Bool-cases (is_pending x.sampler.status)) [
        | inl e ↦ simp e (
            Reachable.next x _ r
              (Step.receive (u16_burst words) x (pending_lem _ e) (u16_burst-IsU16Burst words)))
        | inr e ↦ simp e r
      ]
  act_sampling-Reachable (Action.finish result) x r =
      elim (Bool-cases (is_pending x.sampler.status)) [
        | inl e ↦ simp e (Reachable.next x _ r (Step.finish result x (pending_lem _ e)))
        | inr e ↦ simp e r
      ]
  act_sampling-Reachable Action.sampling_task x r = task_step-Reachable x.task x.sampler r
  act_sampling-Reachable (Action.arrive p) x r = r
  act_sampling-Reachable (Action.pass n) x r = r

-- The queue holds what the semaphore counts.
abbrev pub IsBacked : Endpoint → Type 0
IsBacked e = e.pending_msgs ≤ length e.queue

act_endpoint-IsBacked : (a : Action) (e : Endpoint) → IsBacked e → IsBacked (act_endpoint a e)
unfolding act_endpoint receive_notify_cb
act_endpoint-IsBacked (Action.arrive p) e b = ground (arith, b, length-append e.queue (p ∷ []))
act_endpoint-IsBacked _ e b = b

module _ (u : Startup) where
  -- Nothing that lasts breaks what is sound.
  abbrev pub Stays : Parts → Parts → Type 0
  Stays w v = Sound u w → Sound u v

  pub Stays-IsLasting : IsLasting Stays
  unfolding act
  Stays-IsLasting = record {
    order = record { here = λ w s. s; then = λ u v w p q s. q (p s) };
    by_act = λ a w s. record {
      sampling = act_sampling-Reachable _ a w.sampling s.sampling;
      backed = act_endpoint-IsBacked a w.endpoint s.backed;
      running = s.running;
    };
    by_rest = λ w v e1 e2 e3 s. record {
      sampling = rw e1 s.sampling;
      backed = rw e2 s.backed;
      running = e3 ∙ s.running;
    };
  }
