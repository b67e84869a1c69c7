-- ===== src/Fsm/Events.antt =====
-- firmware/lib/iec61851_fsm.cpp, `FSM::run`: the events that a transition reports, as a table.
use ti_am62x_evse_sdk.Fsm.Mute.{
  Mute_rules, transitions, told, IsMute, told-IsMute, told-push, told-power_off, told-set_pwm_off,
  before-IsMute, told-by_pwm_c, told-by_pwm_d,
}
use ti_am62x_evse_sdk.Prelude.{
  ◌≡◌, refl, ap, ◌∙◌, List, [], ◌∷◌, ◌++◌, if◌then◌else◌, Bool-cases, inl, inr,
}
use ti_am62x_evse_sdk.Prelude.State.{when, ◌>>=◌}
use ti_am62x_evse_sdk.Prelude.Floats.{Floats}
use ti_am62x_evse_sdk.Hal.{Hal, Event, Command, IsLawful}
use ti_am62x_evse_sdk.Fsm.Types.{CpState, Machine}
use ti_am62x_evse_sdk.Fsm.Defs.{Method, push, ask, call, get, power_off}
use ti_am62x_evse_sdk.Fsm.Run.{
  run_disabled, unplug, run_a, run_b, run_c, run_d, run_e, run_f, run_df, run_state, run_switch,
  run,
}
use ti_am62x_evse_sdk.Fsm.Frames.{board_rules}
use ti_am62x_evse_sdk.Fsm.States.{before, run_readable, run_unreadable, run_transition}

-- The table: what is reported on the way from a state to another, the latest first.
unfoldable pub expected : CpState → CpState → List Event
expected CpState.b CpState.a = Event.car_unplugged ∷ Event.car_requested_stop_power ∷ []
expected CpState.c CpState.a = Event.car_unplugged ∷ Event.car_requested_stop_power ∷ []
expected CpState.d CpState.a = Event.car_unplugged ∷ Event.car_requested_stop_power ∷ []
expected CpState.e CpState.a = Event.car_unplugged ∷ Event.car_requested_stop_power ∷ []
expected CpState.df CpState.a = Event.car_unplugged ∷ Event.car_requested_stop_power ∷ []
expected CpState.disabled CpState.b = Event.car_plugged_in ∷ Event.car_requested_stop_power ∷ []
expected CpState.a CpState.b = Event.car_plugged_in ∷ []
expected CpState.c CpState.b = Event.car_requested_stop_power ∷ []
expected CpState.d CpState.b = Event.car_requested_stop_power ∷ []
expected CpState.e CpState.b = Event.ef_to_bcd ∷ Event.car_requested_stop_power ∷ []
expected CpState.f CpState.b = Event.ef_to_bcd ∷ Event.car_requested_stop_power ∷ []
expected CpState.df CpState.b = Event.car_requested_stop_power ∷ []
expected CpState.a CpState.c = Event.car_plugged_in ∷ []
expected CpState.e CpState.c = Event.ef_to_bcd ∷ []
expected CpState.f CpState.c = Event.ef_to_bcd ∷ []
expected CpState.a CpState.d = Event.car_plugged_in ∷ []
expected CpState.e CpState.d = Event.ef_to_bcd ∷ []
expected CpState.f CpState.d = Event.ef_to_bcd ∷ []
expected CpState.disabled CpState.e = Event.error_e ∷ []
expected CpState.a CpState.e = Event.error_e ∷ []
expected CpState.b CpState.e = Event.bcd_to_ef ∷ Event.error_e ∷ []
expected CpState.c CpState.e = Event.bcd_to_ef ∷ Event.error_e ∷ []
expected CpState.d CpState.e = Event.bcd_to_ef ∷ Event.error_e ∷ []
expected CpState.f CpState.e = Event.error_e ∷ []
expected CpState.df CpState.e = Event.error_e ∷ []
expected CpState.b CpState.f = Event.bcd_to_ef ∷ []
expected CpState.c CpState.f = Event.bcd_to_ef ∷ []
expected CpState.d CpState.f = Event.bcd_to_ef ∷ []
expected CpState.disabled CpState.df = Event.error_df ∷ []
expected CpState.a CpState.df = Event.error_df ∷ []
expected CpState.b CpState.df = Event.bcd_to_ef ∷ Event.error_df ∷ []
expected CpState.c CpState.df = Event.bcd_to_ef ∷ Event.error_df ∷ []
expected CpState.d CpState.df = Event.bcd_to_ef ∷ Event.error_df ∷ []
expected CpState.e CpState.df = Event.error_df ∷ []
expected CpState.f CpState.df = Event.error_df ∷ []
expected _ _ = []

module _ (F : Floats) (h : Hal F.Float) (L : IsLawful h) where
  open L use {observe}

  -- The end of `unplug`.
  abbrev reset_rcd : Method F h (Unit {0})
  reset_rcd = do
    reclosing ← get F h (λ s. s.rcd_reclosing_allowed)
    when reclosing do _ ← ask F h h.switch_reset_emergency; call F h Command.rcd_reset

  reset_rcd-IsMute : IsMute F h L reset_rcd
  reset_rcd-IsMute = search (board_rules, Mute_rules) depth 14

  unplug-told :
      (m : Machine F.Float h)
      → told F h L (unplug F h m).1
        ≡ Event.car_unplugged ∷ Event.car_requested_stop_power ∷ told F h L m
  unfolding unplug
  unplug-told m =
      let a = (push F h Event.car_requested_stop_power m).1 in
      let b = (power_off F h a).1 in
      told-IsMute F h L reset_rcd reset_rcd-IsMute (push F h Event.car_unplugged b).1
      ∙ told-push F h L Event.car_unplugged b
      ∙ ap (λ l. Event.car_unplugged ∷ l)
          (told-power_off F h L a ∙ told-push F h L Event.car_requested_stop_power m)

  run_a-told :
      (prev : CpState) (m : Machine F.Float h)
      → told F h L (run_a F h prev m).1 ≡ expected prev CpState.a ++ told F h L m
  unfolding run_a expected
  run_a-told CpState.a m = simp (told-set_pwm_off F h L)
  run_a-told CpState.disabled m = simp (told-set_pwm_off F h L)
  run_a-told CpState.f m = simp (told-set_pwm_off F h L)
  run_a-told _ m = simp (told-set_pwm_off F h L, unplug-told)

  run_b-told :
      (prev : CpState) (m : Machine F.Float h)
      → told F h L (run_b F h prev m).1 ≡ expected prev CpState.b ++ told F h L m
  unfolding run_b expected
  run_b-told CpState.disabled m = simp (told-power_off F h L, told-push F h L)
  run_b-told CpState.a m = simp (told-push F h L)
  run_b-told CpState.b m = refl
  run_b-told CpState.c m = simp (told-power_off F h L, told-push F h L)
  run_b-told CpState.d m = simp (told-power_off F h L, told-push F h L)
  run_b-told CpState.e m = simp (told-power_off F h L, told-push F h L)
  run_b-told CpState.f m = simp (told-power_off F h L, told-push F h L)
  run_b-told CpState.df m = simp (told-power_off F h L, told-push F h L)

  run_c-told :
      (prev : CpState) (m : Machine F.Float h)
      → told F h L (run_c F h prev m).1 ≡ expected prev CpState.c ++ told F h L m
  unfolding run_c expected
  run_c-told CpState.disabled m = simp (told-by_pwm_c F h L)
  run_c-told CpState.a m = simp (told-by_pwm_c F h L, told-push F h L)
  run_c-told CpState.b m = simp (told-by_pwm_c F h L, told-push F h L)
  run_c-told CpState.c m = simp (told-by_pwm_c F h L)
  run_c-told CpState.d m = simp (told-by_pwm_c F h L)
  run_c-told CpState.e m = simp (told-by_pwm_c F h L, told-push F h L)
  run_c-told CpState.f m = simp (told-by_pwm_c F h L, told-push F h L)
  run_c-told CpState.df m = simp (told-by_pwm_c F h L)

  run_d-told :
      (prev : CpState) (m : Machine F.Float h)
      → told F h L (run_d F h prev m).1 ≡ expected prev CpState.d ++ told F h L m
  unfolding run_d expected
  run_d-told CpState.disabled m = simp (told-by_pwm_d F h L)
  run_d-told CpState.a m = simp (told-by_pwm_d F h L, told-push F h L)
  run_d-told CpState.b m = simp (told-by_pwm_d F h L, told-push F h L)
  run_d-told CpState.c m = simp (told-by_pwm_d F h L)
  run_d-told CpState.d m = simp (told-by_pwm_d F h L)
  run_d-told CpState.e m = simp (told-by_pwm_d F h L, told-push F h L)
  run_d-told CpState.f m = simp (told-by_pwm_d F h L, told-push F h L)
  run_d-told CpState.df m = simp (told-by_pwm_d F h L)

  run_e-told :
      (prev : CpState) (m : Machine F.Float h)
      → told F h L (run_e F h prev m).1 ≡ expected prev CpState.e ++ told F h L m
  unfolding run_e expected
  run_e-told CpState.e m = simp (told-set_pwm_off F h L, told-power_off F h L)
  run_e-told _ m = simp (told-set_pwm_off F h L, told-power_off F h L, told-push F h L)

  run_f-told :
      (prev : CpState) (m : Machine F.Float h)
      → told F h L (run_f F h prev m).1 ≡ expected prev CpState.f ++ told F h L m
  unfolding run_f expected
  run_f-told CpState.disabled m = simp (told-power_off F h L)
  run_f-told CpState.a m = simp (told-power_off F h L)
  run_f-told CpState.b m = simp (told-power_off F h L, told-push F h L)
  run_f-told CpState.c m = simp (told-power_off F h L, told-push F h L)
  run_f-told CpState.d m = simp (told-power_off F h L, told-push F h L)
  run_f-told CpState.e m = simp (told-power_off F h L)
  run_f-told CpState.f m = simp (told-power_off F h L)
  run_f-told CpState.df m = simp (told-power_off F h L)

  run_df-told :
      (prev : CpState) (m : Machine F.Float h)
      → told F h L (run_df F h prev m).1 ≡ expected prev CpState.df ++ told F h L m
  unfolding run_df expected
  run_df-told CpState.disabled m = simp (told-power_off F h L, told-push F h L)
  run_df-told CpState.a m = simp (told-power_off F h L, told-push F h L)
  run_df-told CpState.b m = simp (told-power_off F h L, told-push F h L)
  run_df-told CpState.c m = simp (told-power_off F h L, told-push F h L)
  run_df-told CpState.d m = simp (told-power_off F h L, told-push F h L)
  run_df-told CpState.e m = simp (told-power_off F h L, told-push F h L)
  run_df-told CpState.f m = simp (told-power_off F h L, told-push F h L)
  run_df-told CpState.df m = simp (told-power_off F h L)

  run_disabled-told :
      (prev : CpState) (m : Machine F.Float h)
      → told F h L (run_disabled F h m).1 ≡ expected prev CpState.disabled ++ told F h L m
  unfolding run_disabled expected
  run_disabled-told CpState.disabled m = told-power_off F h L _
  run_disabled-told CpState.a m = told-power_off F h L _
  run_disabled-told CpState.b m = told-power_off F h L _
  run_disabled-told CpState.c m = told-power_off F h L _
  run_disabled-told CpState.d m = told-power_off F h L _
  run_disabled-told CpState.e m = told-power_off F h L _
  run_disabled-told CpState.f m = told-power_off F h L _
  run_disabled-told CpState.df m = told-power_off F h L _

  run_state-told :
      (s prev : CpState) (m : Machine F.Float h)
      → told F h L (run_state F h s prev m).1 ≡ expected prev s ++ told F h L m
  unfolding run_state
  run_state-told CpState.disabled = run_disabled-told
  run_state-told CpState.a = run_a-told
  run_state-told CpState.b = run_b-told
  run_state-told CpState.c = run_c-told
  run_state-told CpState.d = run_d-told
  run_state-told CpState.e = run_e-told
  run_state-told CpState.f = run_f-told
  run_state-told CpState.df = run_df-told

  run_switch-told :
      (n : Machine F.Float h)
      → told F h L (run_switch F h n).1 ≡ expected n.fsm.prev_state n.fsm.cur_state ++ told F h L n
  unfolding run_switch
  run_switch-told n = run_state-told n.fsm.cur_state n.fsm.prev_state n

  -- A run that could read the signal reports the events of the table for the transition from the
  -- previous state to the one that it leaves, and one that could not reports none of them.
  pub events-run :
      (m : Machine F.Float h)
      → transitions (observe (run F h m).1.hal).sent
        ≡ (if (before F h m).0 then expected m.fsm.prev_state (run F h m).1.fsm.cur_state else [])
          ++ transitions (observe m.hal).sent
  events-run m = elim (Bool-cases (before F h m).0) [
    | inr blind ↦
        rw (run_unreadable F h m blind)
          (simp blind (told-IsMute F h L (before F h) (before-IsMute F h L) m))
    | inl readable ↦
        let n = (before F h m).1 in
        let t = run_transition F h m readable in
        let l : List Event =
          if (before F h m).0 then expected m.fsm.prev_state (run F h m).1.fsm.cur_state else [] in
        let e : expected n.fsm.prev_state n.fsm.cur_state ≡ l = rw (readable, t.0, t.1) refl in
        ap (told F h L) (run_readable F h m readable)
        ∙ run_switch-told n
        ∙ ap (λ k. k ++ told F h L n) e
        ∙ ap (λ k. l ++ k) (told-IsMute F h L (before F h) (before-IsMute F h L) m)
  ]
