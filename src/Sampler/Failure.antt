-- ===== src/Sampler/Failure.antt =====
-- firmware/bsp_drivers/sampler.cpp: what the sampler does after a transfer that failed.
use ti_am62x_evse_sdk.Prelude.{◌≡◌, refl, sym, ap, subst, ◌∙◌, Bool, false}
use ti_am62x_evse_sdk.Sampler.Device.{Sampler, TransferStatus, trigger_adc_readout}
use ti_am62x_evse_sdk.Sampler.Steps.{System, TaskPoint, Step, Reachable}

-- A transfer failed, and the task has no sample left to read.
pub record Failed (x : System) : Type 0 where
  pub status : x.sampler.status ≡ TransferStatus.failed
  pub taken : x.sampler.new_sample_available ≡ false
  pub waiting : x.task ≡ TaskPoint.waiting

trigger-failed :
    (answer : TransferStatus) (is_high : Bool) (s : Sampler)
    → s.status ≡ TransferStatus.failed
    → trigger_adc_readout answer is_high s ≡ s
unfolding trigger_adc_readout
trigger-failed answer is_high s e = simp e refl

Step-Failed : (x y : System) → Step x y → Failed x → y ≡ x
Step-Failed _ _ (Step.trigger answer is_high x) f =
    ap (λ s. record x { sampler = s }) (trigger-failed answer is_high x.sampler f.status)
Step-Failed _ _ (Step.receive words x e w) f = absurd (cc (e, f.status))
Step-Failed _ _ (Step.finish result x e) f = absurd (cc (e, f.status))
Step-Failed _ _ (Step.wake s e) f = absurd (cc (e, f.taken))
Step-Failed _ _ (Step.take_buffer s e) f = absurd (cc (f.waiting))
Step-Failed _ _ (Step.decode_high s) f = absurd (cc (f.waiting))
Step-Failed _ _ (Step.decode_low s h) f = absurd (cc (f.waiting))
Step-Failed _ _ (Step.give_buffer s h l) f = absurd (cc (f.waiting))
Step-Failed _ _ (Step.process_samples s h l) f = absurd (cc (f.waiting))

-- Once a transfer of the ADC has failed and the task waits without a new sample, no step of the
-- interrupts, of the driver or of the task changes anything any more: the published signal stays as it
-- is, also where it is valid.
pub Reachable-Failed : (x y : System) → Failed x → Reachable x y → y ≡ x
Reachable-Failed x _ f Reachable.initial = refl
Reachable-Failed x _ f (Reachable.next y z r t) =
    let e = Reachable-Failed x y f r in Step-Failed y z t (subst Failed (sym e) f) ∙ e
