-- ===== src/Fsm/Mute.antt =====
-- firmware/lib/iec61851_fsm.cpp, `FSM::run`: the events that depend on nothing but the transition, and
-- what reports none of them.
use ti_am62x_evse_sdk.Prelude.{
  ◌≡◌, refl, sym, ap, ◌∙◌, Bool, true, false, List, [], ◌∷◌, ◌++◌, if◌then◌else◌, Bool-cases, inl,
  inr, arith,
}
use ti_am62x_evse_sdk.Prelude.State.{State}
use ti_am62x_evse_sdk.Prelude.Floats.{Floats}
use ti_am62x_evse_sdk.Prelude.Frame.{IsPreorder, Keeps}
use ti_am62x_evse_sdk.Hal.{Hal, Event, Command, Board, IsLawful, effect}
use ti_am62x_evse_sdk.Fsm.Types.{CpState, Machine}
use ti_am62x_evse_sdk.Fsm.Power.{opened, closed}
use ti_am62x_evse_sdk.Fsm.Defs.{Method, push, set_pwm_off, power_off}
use ti_am62x_evse_sdk.Fsm.Run.{
  without_pwm, by_pwm, with_pwm_c, close_ventilated, report_ventilation, with_pwm_d, run_checks,
}
use ti_am62x_evse_sdk.Fsm.Frames.{
  OnBoard, board_rules, board-call, board-set_pwm_off, board-power_off, board-power_on,
}
use ti_am62x_evse_sdk.Fsm.States.{before}

-- The events that depend on nothing but the transition.
abbrev pub is_transition : Event → Bool
is_transition Event.car_plugged_in = true
is_transition Event.car_requested_stop_power = true
is_transition Event.car_unplugged = true
is_transition Event.error_e = true
is_transition Event.error_df = true
is_transition Event.ef_to_bcd = true
is_transition Event.bcd_to_ef = true
is_transition _ = false

abbrev pub transitions : List Event → List Event
transitions [] = []
transitions (e ∷ es) = if is_transition e then e ∷ transitions es else transitions es

abbrev is_plain : {A : Type 0} → Command A → Bool
is_plain (Command.push_event e) = if is_transition e then false else true
is_plain _ = true

module _ {A : Type 0} where
  -- No transition is reported.
  pub record Mute (v w : Board A) : Type 0 where
    pub same : transitions w.sent ≡ transitions v.sent

  pub Mute-IsPreorder : IsPreorder Mute
  Mute-IsPreorder = record {
    here = λ w. record { same = refl };
    then = λ u v w p q. record { same = q.same ∙ p.same };
  }

  pub Mute-effect : (c : Command A) → is_plain c ≡ true → (w : Board A) → Mute w (effect c w)
  Mute-effect (Command.push_event e) o w = record { same = ground (arith, o) }
  Mute-effect _ o w = record { same = refl }

  pub Mute-opened : (ok : Bool) (w : Board A) → w.relay ≡ true → Mute w (opened ok w)
  Mute-opened true w e = record { same = refl }
  Mute-opened false w e = record { same = refl }

  pub Mute-closed : (ok : Bool) (w : Board A) → w.relay ≡ false → Mute w (closed ok w)
  Mute-closed true w e = record { same = refl }
  Mute-closed false w e = record { same = refl }

pub ruleset Mute_rules = (
  Mute-IsPreorder, Mute-effect, Mute-opened, Mute-closed, board-call, board-set_pwm_off,
  board-power_off, board-power_on, refl,
)

module _ (F : Floats) (h : Hal F.Float) (L : IsLawful h) where
  open L use {observe}

  abbrev pub told : Machine F.Float h → List Event
  told m = transitions (observe m.hal).sent

  abbrev pub IsMute : {X : Type 0} → State (Machine F.Float h) X → Type 0
  IsMute = Keeps (OnBoard F h L Mute)

  pub told-IsMute :
      {X : Type 0} (f : Method F h X) → IsMute f → (m : Machine F.Float h) → told (f m).1 ≡ told m
  told-IsMute f p m = (p.step m).seen.same

  pub told-push :
      (e : Event) (m : Machine F.Float h)
      → told (push F h e m).1 ≡ transitions (e ∷ (observe m.hal).sent)
  told-push e m = ap (λ b. transitions b.sent) (L.observe-exec (Command.push_event e) m.hal)

  pub told-power_off : (m : Machine F.Float h) → told (power_off F h m).1 ≡ told m
  told-power_off = told-IsMute (power_off F h) (search (Mute_rules))

  pub told-set_pwm_off : (m : Machine F.Float h) → told (set_pwm_off F h m).1 ≡ told m
  told-set_pwm_off = told-IsMute (set_pwm_off F h) (search (Mute_rules))

  run_checks-IsMute : IsMute (run_checks F h)
  unfolding run_checks
  run_checks-IsMute = search (board_rules, Mute_rules) depth 14

  without_pwm-IsMute : IsMute (without_pwm F h)
  unfolding without_pwm
  without_pwm-IsMute = search (board_rules, Mute_rules) depth 14

  with_pwm_c-IsMute : IsMute (with_pwm_c F h)
  unfolding with_pwm_c
  with_pwm_c-IsMute = search (board_rules, Mute_rules) depth 14

  with_pwm_d-IsMute : (prev : CpState) → IsMute (with_pwm_d F h prev)
  unfolding with_pwm_d close_ventilated report_ventilation
  with_pwm_d-IsMute prev = search (board_rules, Mute_rules) depth 14

  by_pwm_c-IsMute : IsMute (by_pwm F h (without_pwm F h) (with_pwm_c F h))
  unfolding by_pwm
  by_pwm_c-IsMute = search (board_rules, Mute_rules, without_pwm-IsMute, with_pwm_c-IsMute) depth 14

  by_pwm_d-IsMute : (prev : CpState) → IsMute (by_pwm F h (without_pwm F h) (with_pwm_d F h prev))
  unfolding by_pwm
  by_pwm_d-IsMute prev =
      search (board_rules, Mute_rules, without_pwm-IsMute, with_pwm_d-IsMute) depth 14

  pub told-by_pwm_c :
      (m : Machine F.Float h) → told (by_pwm F h (without_pwm F h) (with_pwm_c F h) m).1 ≡ told m
  told-by_pwm_c = told-IsMute (by_pwm F h (without_pwm F h) (with_pwm_c F h)) by_pwm_c-IsMute

  pub told-by_pwm_d :
      (prev : CpState) (m : Machine F.Float h)
      → told (by_pwm F h (without_pwm F h) (with_pwm_d F h prev) m).1 ≡ told m
  told-by_pwm_d prev =
      told-IsMute (by_pwm F h (without_pwm F h) (with_pwm_d F h prev)) (by_pwm_d-IsMute prev)

  pub before-IsMute : IsMute (before F h)
  before-IsMute = search (board_rules, Mute_rules, run_checks-IsMute) depth 8
