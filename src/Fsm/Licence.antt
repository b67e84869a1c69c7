-- ===== src/Fsm/Licence.antt =====
-- firmware/lib/iec61851_fsm.cpp, `FSM::run`: on which conditions the contact may close.
use ti_am62x_evse_sdk.Prelude.{
  ◌≡◌, ◌⊎◌, inl, inr, ◌∙◌, sym, ap, Bool, true, false, ◌&&◌, refl, Bool-cases, arith,
}
use ti_am62x_evse_sdk.Prelude.State.{when, ◌>>◌}
use ti_am62x_evse_sdk.Prelude.Floats.{Floats}
use ti_am62x_evse_sdk.Prelude.Frame.{IsPreorder, Keeps, Keeps->>, Keeps-when}
use ti_am62x_evse_sdk.Hal.{Hal, IsLawful}
use ti_am62x_evse_sdk.Fsm.Types.{CpState, Machine, Fsm}
use ti_am62x_evse_sdk.Fsm.Defs.{Method, start_pwm_stop, read_cp_state}
use ti_am62x_evse_sdk.Fsm.Run.{
  by_pwm, without_pwm, with_pwm_c, run_c, with_pwm_d, close_ventilated, report_ventilation, run_d,
  run_state, run_checks, run_switch, run,
}
use ti_am62x_evse_sdk.Fsm.Frames.{OnBoard, board-then, board_rules}
use ti_am62x_evse_sdk.Fsm.Members.{OnMember, member_rules}
use ti_am62x_evse_sdk.Fsm.Contact.{
  NoClosing, NoClosing-IsPreorder, NoClosing_rules, run_checks-NoClosing, run_disabled-NoClosing,
  run_a-NoClosing, run_b-NoClosing, without_pwm-NoClosing, run_e-NoClosing, run_f-NoClosing,
  run_df-NoClosing,
}

-- The members that decide about power, and the state just read.
pub record Flags : Type 0 where
  pub state : CpState
  pub pwm : Bool
  pub allowed : Bool
  pub ventilation : Bool

abbrev pub flags : {A : Type 0} → Fsm A → Flags
flags s = record {
  state = s.cur_state;
  pwm = s.cur_pwm_running;
  allowed = s.power_on_allowed;
  ventilation = s.has_ventilation;
}

module _ (F : Floats) (h : Hal F.Float) (L : IsLawful h) where
  open L use {observe}

  without_pwm-flags : Keeps (OnMember F h flags) (without_pwm F h)
  unfolding without_pwm start_pwm_stop
  without_pwm-flags = search (member_rules) depth 18

  with_pwm_c-flags : Keeps (OnMember F h flags) (with_pwm_c F h)
  unfolding with_pwm_c
  with_pwm_c-flags = search (member_rules) depth 14

  with_pwm_d-flags : (prev : CpState) → Keeps (OnMember F h flags) (with_pwm_d F h prev)
  unfolding with_pwm_d close_ventilated report_ventilation
  with_pwm_d-flags prev = search (member_rules) depth 14

  -- The contact is closed after only if it was closed before or the members allow it, and they
  -- stay as they are.
  record Licensed (may : Flags → Bool) (m n : Machine F.Float h) : Type 0 where
    closing :
        (observe n.hal).relay ≡ true → ((observe m.hal).relay ≡ true) ⊎ (may (flags m.fsm) ≡ true)
    kept : flags n.fsm ≡ flags m.fsm

  module _ (may : Flags → Bool) where
    Licensed-IsPreorder : IsPreorder (Licensed may)
    Licensed-IsPreorder = record {
      here = λ m. record { closing = inl; kept = refl };
      then = λ m n o p q. record {
        closing = λ e. elim (q.closing e) [
          | inl was ↦ p.closing was
          | inr ok ↦ inr (ap may (sym p.kept) ∙ ok)
        ];
        kept = q.kept ∙ p.kept;
      };
    }

    Licensed-of :
        {X : Type 0} (f : Method F h X)
        → Keeps (OnBoard F h L NoClosing) f
        → Keeps (OnMember F h flags) f
        → Keeps (Licensed may) f
    Licensed-of f p q = record {
      step =
          λ m. record { closing = λ e. inl ((p.step m).seen.was_closed e); kept = (q.step m).kept };
    }

    -- With a licence anything that leaves the members alone will do.
    Licensed-given :
        {X : Type 0} (f : Method F h X)
        → Keeps (OnMember F h flags) f
        → (m : Machine F.Float h) → may (flags m.fsm) ≡ true
        → Licensed may m (f m).1
    Licensed-given f q m ok = record { closing = λ _. inr ok; kept = (q.step m).kept }

  abbrev may_close_c : Flags → Bool
  may_close_c s = s.pwm && s.allowed

  abbrev may_close_d : Flags → Bool
  may_close_d s = s.pwm && (s.allowed && s.ventilation)

  by_pwm-Licensed :
      (may : Flags → Bool) (f g : Method F h (Unit {0}))
      → Keeps (Licensed may) f
      → ((m : Machine F.Float h) → m.fsm.cur_pwm_running ≡ true → Licensed may m (g m).1)
      → Keeps (Licensed may) (by_pwm F h f g)
  unfolding by_pwm
  by_pwm-Licensed may f g p q = record {
    step = λ m. elim (Bool-cases m.fsm.cur_pwm_running) [
      | inl on ↦ simp on (q m on)
      | inr off ↦ simp off (p.step m)
    ];
  }

  with_pwm_c-Licensed :
      (m : Machine F.Float h)
      → m.fsm.cur_pwm_running ≡ true
      → Licensed may_close_c m (with_pwm_c F h m).1
  with_pwm_c-Licensed m on = elim (Bool-cases m.fsm.power_on_allowed) [
    | inl e ↦ Licensed-given may_close_c _ with_pwm_c-flags m (ground arith)
    | inr e ↦ unfold with_pwm_c in simp e ((Licensed-IsPreorder may_close_c).here m)
  ]

  close_ventilated-NoClosing : Keeps (OnBoard F h L NoClosing) (close_ventilated F h false)
  unfolding close_ventilated
  close_ventilated-NoClosing = search (board_rules, NoClosing_rules) depth 12

  report_ventilation-NoClosing :
      (prev : CpState) (v : Bool) → Keeps (OnBoard F h L NoClosing) (report_ventilation F h prev v)
  unfolding report_ventilation
  report_ventilation-NoClosing prev v = search (board_rules, NoClosing_rules) depth 12

  with_pwm_d-refused :
      (prev : CpState) (m : Machine F.Float h)
      → m.fsm.power_on_allowed && m.fsm.has_ventilation ≡ false
      → OnBoard F h L NoClosing m (with_pwm_d F h prev m).1
  unfolding with_pwm_d
  with_pwm_d-refused prev m e = elim (Bool-cases m.fsm.power_on_allowed) [
    | inl was ↦
        let v : m.fsm.has_ventilation ≡ false = ground arith in
        simp (was, v)
          ((board-then F h L NoClosing-IsPreorder _ _ close_ventilated-NoClosing
              (report_ventilation-NoClosing prev false)).step
            m)
    | inr off ↦ simp off ((report_ventilation-NoClosing prev _).step m)
  ]

  with_pwm_d-Licensed :
      (prev : CpState) (m : Machine F.Float h)
      → m.fsm.cur_pwm_running ≡ true
      → Licensed may_close_d m (with_pwm_d F h prev m).1
  with_pwm_d-Licensed prev m on =
      elim (Bool-cases (m.fsm.power_on_allowed && m.fsm.has_ventilation)) [
        | inl e ↦ Licensed-given may_close_d _ (with_pwm_d-flags prev) m (ground arith)
        | inr e ↦ record {
          closing = λ c. inl ((with_pwm_d-refused prev m e).seen.was_closed c);
          kept = ((with_pwm_d-flags prev).step m).kept;
        }
      ]

  run_c-Licensed : (prev : CpState) → Keeps (Licensed may_close_c) (run_c F h prev)
  unfolding run_c
  run_c-Licensed prev =
      search
        (
          Keeps->>, Keeps-when, Licensed-IsPreorder, by_pwm-Licensed, with_pwm_c-Licensed,
          Licensed-of, without_pwm-NoClosing, without_pwm-flags, board_rules, NoClosing_rules,
          member_rules,
        )
        depth 12

  run_d-Licensed : (prev : CpState) → Keeps (Licensed may_close_d) (run_d F h prev)
  unfolding run_d
  run_d-Licensed prev =
      search
        (
          Keeps->>, Keeps-when, Licensed-IsPreorder, by_pwm-Licensed, with_pwm_d-Licensed,
          Licensed-of, without_pwm-NoClosing, without_pwm-flags, board_rules, NoClosing_rules,
          member_rules,
        )
        depth 12

  abbrev relay : Machine F.Float h → Bool
  relay m = (observe m.hal).relay

  -- Why the contact may be closed, by the members after the run.
  abbrev pub MayClose : Fsm F.Float → Type 0
  MayClose s =
      ((s.cur_state ≡ CpState.c) ⊎ ((s.cur_state ≡ CpState.d) × (s.has_ventilation ≡ true)))
      × (s.cur_pwm_running ≡ true)
      × (s.power_on_allowed ≡ true)

  record Accounted (m n : Machine F.Float h) : Type 0 where
    closing : relay n ≡ true → (relay m ≡ true) ⊎ MayClose n.fsm

  Accounted-of :
      {X : Type 0} {f : Method F h X} (m : Machine F.Float h)
      → Keeps (OnBoard F h L NoClosing) f
      → Accounted m (f m).1
  Accounted-of m p = record { closing = λ e. inl ((p.step m).seen.was_closed e) }

  MayClose-c :
      (s t : Fsm F.Float)
      → flags t ≡ flags s
      → s.cur_state ≡ CpState.c
      → may_close_c (flags s) ≡ true
      → MayClose t
  MayClose-c s t k e ok = ground arith

  MayClose-d :
      (s t : Fsm F.Float)
      → flags t ≡ flags s
      → s.cur_state ≡ CpState.d
      → may_close_d (flags s) ≡ true
      → MayClose t
  MayClose-d s t k e ok = ground arith

  Accounted-by :
      (may : Flags → Bool) (m n : Machine F.Float h)
      → Licensed may m n
      → (may (flags m.fsm) ≡ true → MayClose n.fsm)
      → Accounted m n
  Accounted-by may m n l ok = record {
    closing = λ e. elim (l.closing e) [ inl was ↦ inl was | inr allowed ↦ inr (ok allowed) ];
  }

  run_state-Accounted :
      (s prev : CpState) (m : Machine F.Float h)
      → m.fsm.cur_state ≡ s
      → Accounted m (run_state F h s prev m).1
  unfolding run_state
  run_state-Accounted CpState.disabled prev m e = Accounted-of m (run_disabled-NoClosing F h L)
  run_state-Accounted CpState.a prev m e = Accounted-of m (run_a-NoClosing F h L prev)
  run_state-Accounted CpState.b prev m e = Accounted-of m (run_b-NoClosing F h L prev)
  run_state-Accounted CpState.c prev m e =
      let l : Licensed may_close_c m (run_c F h prev m).1 = (run_c-Licensed prev).step m in
      Accounted-by may_close_c m _ l (MayClose-c m.fsm (run_c F h prev m).1.fsm l.kept e)
  run_state-Accounted CpState.d prev m e =
      let l : Licensed may_close_d m (run_d F h prev m).1 = (run_d-Licensed prev).step m in
      Accounted-by may_close_d m _ l (MayClose-d m.fsm (run_d F h prev m).1.fsm l.kept e)
  run_state-Accounted CpState.e prev m e = Accounted-of m (run_e-NoClosing F h L prev)
  run_state-Accounted CpState.f prev m e = Accounted-of m (run_f-NoClosing F h L prev)
  run_state-Accounted CpState.df prev m e = Accounted-of m (run_df-NoClosing F h L prev)

  run_switch-Accounted : (m : Machine F.Float h) → Accounted m (run_switch F h m).1
  unfolding run_switch
  run_switch-Accounted m = record {
    closing = (run_state-Accounted m.fsm.cur_state m.fsm.prev_state m refl).closing;
  }

  when-Accounted : (b : Bool) (m : Machine F.Float h) → Accounted m (when b (run_switch F h) m).1
  when-Accounted true m = run_switch-Accounted m
  when-Accounted false m = record { closing = inl }

  -- If the contact is closed after a run of the state machine, then it was closed before, or the
  -- pilot is in state C, or in state D with ventilation present, while the PWM is running and
  -- power is allowed. This holds for every signal, clock and answer of the switch.
  pub relay-run :
      (m : Machine F.Float h)
      → (observe (run F h m).1.hal).relay ≡ true
      → ((observe m.hal).relay ≡ true) ⊎ MayClose (run F h m).1.fsm
  unfolding run
  relay-run m e = elim ((when-Accounted _ _).closing e) [
    | inl was ↦ inl ((before.step m).seen.was_closed was)
    | inr ok ↦ inr ok
  ]
    where
      before : Keeps (OnBoard F h L NoClosing) (run_checks F h >> read_cp_state F h)
      before = search (board_rules, NoClosing_rules, run_checks-NoClosing) depth 8
