-- ===== src/Fsm/Safety.antt =====
-- firmware/lib/iec61851_fsm.cpp: the contact over a whole sequence of calls of `FSM`'s methods, from
-- the constructor on.
use ti_am62x_evse_sdk.Prelude.{
  ◌≡◌, ◌⊎◌, inl, inr, refl, ap, ◌∙◌, ◌≤◌, ◌<◌, Bool, true, false, List, [], ◌∷◌, Bool-cases, arith,
}
use ti_am62x_evse_sdk.Prelude.Floats.{Floats}
use ti_am62x_evse_sdk.Prelude.Frame.{Keeps}
use ti_am62x_evse_sdk.Hal.{Hal, IsLawful}
use ti_am62x_evse_sdk.Fsm.Types.{CpState, Machine}
use ti_am62x_evse_sdk.Fsm.Defs.{
  set_pwm_on, set_pwm_off, set_pwm_f, enable, disable, allow_power_on, set_three_phases,
  set_ventilation, set_country_code, construct,
}
use ti_am62x_evse_sdk.Fsm.Run.{run_switch, run}
use ti_am62x_evse_sdk.Fsm.Contact.{NoClosing, NoClosing_rules, run_checks-NoClosing}
use ti_am62x_evse_sdk.Fsm.Frames.{OnBoard, board_rules}
use ti_am62x_evse_sdk.Fsm.Members.{OnMember, member_rules}
use ti_am62x_evse_sdk.Fsm.States.{prev_of, before, before-prev, run_readable, run_unreadable}
use ti_am62x_evse_sdk.Fsm.Opening.{failures, is_resting, relay-run_open}
use ti_am62x_evse_sdk.Fsm.Licence.{MayClose, relay-run}
use ti_am62x_evse_sdk.Fsm.Calls.{Call, perform, after, run-Reports, perform-Reports}

-- The car draws power in this state.
abbrev pub is_charging : CpState → Bool
is_charging CpState.c = true
is_charging CpState.d = true
is_charging _ = false

abbrev is_run : {A : Type 0} → Call A → Bool
is_run Call.running = true
is_run _ = false

resting-charging :
    (prev s : CpState) → is_charging prev ≡ true → is_resting prev s ≡ true → is_charging s ≡ true
resting-charging CpState.c CpState.a e r = absurd (cc)
resting-charging CpState.d CpState.a e r = absurd (cc)
resting-charging CpState.c CpState.b e r = absurd (cc)
resting-charging CpState.d CpState.b e r = absurd (cc)
resting-charging prev CpState.c e r = refl
resting-charging prev CpState.d e r = refl
resting-charging prev _ e r = absurd (cc)

module _ (F : Floats) (h : Hal F.Float) (L : IsLawful h) where
  open L use {observe, observe-exec}

  before-NoClosing : Keeps (OnBoard F h L NoClosing) (before F h)
  before-NoClosing = search (board_rules, NoClosing_rules, run_checks-NoClosing) depth 8

  -- The contact is closed only if the last state that a run went through draws power, or a failure
  -- of the relay was reported.
  pub record Guarded (m : Machine F.Float h) : Type 0 where
    pub guard :
        (observe m.hal).relay ≡ true
        → (is_charging m.fsm.prev_state ≡ true) ⊎ (0 < failures (observe m.hal).sent)

  -- A method that neither closes the contact nor moves on to another state.
  pub Guarded-kept :
      (m n : Machine F.Float h)
      → OnBoard F h L NoClosing m n
      → n.fsm.prev_state ≡ m.fsm.prev_state
      → failures (observe m.hal).sent ≤ failures (observe n.hal).sent
      → Guarded m
      → Guarded n
  Guarded-kept m n c e f g = record {
    guard = λ on. elim (g.guard (c.seen.was_closed on)) [
      | inl charging ↦ inl (ap is_charging e ∙ charging)
      | inr failed ↦ inr (omega (arith, f, failed))
    ];
  }

  run_latched :
      (m : Machine F.Float h)
      → (before F h m).0 ≡ true
      → (run F h m).1.fsm.prev_state ≡ (run F h m).1.fsm.cur_state
  unfolding run_switch
  run_latched m e = rw (run_readable F h m e) refl

  Guarded-run : (m : Machine F.Float h) → Guarded m → Guarded (run F h m).1
  Guarded-run m g = elim (Bool-cases (before F h m).0) [
    | inr blind ↦
        Guarded-kept m (run F h m).1 (rw (run_unreadable F h m blind) (before-NoClosing.step m))
          (rw (run_unreadable F h m blind) ((before-prev F h).step m).kept) more g
    | inl readable ↦ elim (Bool-cases (is_resting m.fsm.prev_state (run F h m).1.fsm.cur_state)) [
      | inr turn ↦ record {
        guard = λ on. elim (relay-run_open F h L m readable turn) [
          | inl off ↦ absurd (cc)
          | inr failed ↦ inr (omega (arith, failed))
        ];
      }
      | inl rest ↦ record {
        guard = λ on. elim (relay-run F h L m on) [
          | inl was ↦ elim (g.guard was) [
            | inl charging ↦ inl (
                ap is_charging (run_latched m readable)
                ∙ resting-charging m.fsm.prev_state _ charging rest)
            | inr failed ↦ inr (omega (arith, failed, more))
          ]
          | inr may ↦ inl (ap is_charging (run_latched m readable) ∙ allowed may)
        ];
      }
    ]
  ]
    where
      more : failures (observe m.hal).sent ≤ failures (observe (run F h m).1.hal).sent
      more = ((run-Reports F h L).step m).seen.reported

      allowed : MayClose F h L (run F h m).1.fsm → is_charging (run F h m).1.fsm.cur_state ≡ true
      allowed may = elim may.0 [ inl c ↦ ap is_charging c | inr d ↦ ap is_charging d.0 ]

  perform-NoClosing :
      (c : Call F.Float) → is_run c ≡ false → Keeps (OnBoard F h L NoClosing) (perform F h c)
  unfolding set_pwm_on set_pwm_f enable disable allow_power_on set_three_phases set_ventilation
      set_country_code
  perform-NoClosing Call.running e = absurd (cc)
  perform-NoClosing _ e = search (board_rules, NoClosing_rules) depth 12

  perform-prev :
      (c : Call F.Float) → is_run c ≡ false → Keeps (OnMember F h prev_of) (perform F h c)
  unfolding set_pwm_off set_pwm_on set_pwm_f enable disable allow_power_on set_three_phases
      set_ventilation set_country_code
  perform-prev Call.running e = absurd (cc)
  perform-prev _ e = search (member_rules) depth 12

  Guarded-other :
      (c : Call F.Float) (m : Machine F.Float h)
      → is_run c ≡ false
      → Guarded m
      → Guarded (perform F h c m).1
  Guarded-other c m e g =
      Guarded-kept m _ ((perform-NoClosing c e).step m) ((perform-prev c e).step m).kept
        ((perform-Reports F h L c).step m).seen.reported g

  Guarded-run_call :
      (c : Call F.Float) (m : Machine F.Float h)
      → is_run c ≡ true
      → Guarded m
      → Guarded (perform F h c m).1
  Guarded-run_call Call.running m e g = Guarded-run m g
  Guarded-run_call _ m e g = absurd (cc)

  pub Guarded-perform :
      (c : Call F.Float) (m : Machine F.Float h) → Guarded m → Guarded (perform F h c m).1
  Guarded-perform c m g = elim (Bool-cases (is_run c)) [
    | inl e ↦ Guarded-run_call c m e g
    | inr e ↦ Guarded-other c m e g
  ]

  Guarded-after :
      (cs : List (Call F.Float)) (m : Machine F.Float h) → Guarded m → Guarded (after F h cs m)
  Guarded-after [] m g = g
  Guarded-after (c ∷ cs) m g = Guarded-after cs _ (Guarded-perform c m g)

  pub observe-construct :
      (junk : Bool) (w : h.World) → (observe (construct F h junk w).hal).relay ≡ (observe w).relay
  unfolding construct disable set_pwm_off
  observe-construct junk w = simp observe-exec

  -- Where the contact is open when the object is constructed, and whatever methods are called then,
  -- in any order and on any signals: while the contact is closed, the last state that a run went
  -- through is C or D, or a failure of the relay was reported.
  pub relay-after :
      (junk : Bool) (w : h.World) (cs : List (Call F.Float))
      → (observe w).relay ≡ false
      → (observe (after F h cs (construct F h junk w)).hal).relay ≡ true
      → (is_charging (after F h cs (construct F h junk w)).fsm.prev_state ≡ true)
        ⊎ (0 < failures (observe (after F h cs (construct F h junk w)).hal).sent)
  relay-after junk w cs off on =
      (Guarded-after cs (construct F h junk w)
          (record { guard = λ c. absurd (cc (c, observe-construct junk w, off)) })).guard
        on
