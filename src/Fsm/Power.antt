-- ===== src/Fsm/Power.antt =====
-- What `power_on` and `power_off` do to the hardware and to the members of the object.
use ti_am62x_evse_sdk.Prelude.{
  ◌≡◌, Bool, true, false, not, inl, inr, Bool-cases, ◌∷◌, if◌then◌else◌,
}
use ti_am62x_evse_sdk.Prelude.Floats.{Floats}
use ti_am62x_evse_sdk.Hal.{Hal, Event, Board, IsLawful}
use ti_am62x_evse_sdk.Fsm.Types.{Machine}
use ti_am62x_evse_sdk.Fsm.Defs.{power_on, power_off}

module _ {A : Type 0} where
  -- The board after the contact was told to open, by the answer of the switch.
  abbrev pub opened : Bool → Board A → Board A
  opened success w = record w {
    relay = not success;
    rcd_on = false;
    locked = false;
    sent = (if success then Event.power_off else Event.error_relais) ∷ w.sent;
  }

  -- The board after the contact was told to close, by the answer of the switch.
  abbrev pub closed : Bool → Board A → Board A
  closed success w = record w {
    relay = success;
    rcd_on = true;
    locked = true;
    sent = (if success then Event.power_on else Event.error_relais) ∷ w.sent;
  }

module _ (F : Floats) (h : Hal F.Float) (L : IsLawful h) where
  open L use {
    observe, observe-exec, observe-is_on, observe-ticks, is_on-relay, observe-on, observe-off,
  }

  pub observe-power_off :
      (m : Machine F.Float h)
      → observe (power_off F h m).1.hal ≡ (
          if (observe m.hal).relay
          then opened (power_off F h m).0 (observe m.hal)
          else observe m.hal)
  unfolding power_off
  observe-power_off m = elim (Bool-cases (observe m.hal).relay) [
    | inl e ↦ simp (observe-exec, observe-is_on, observe-ticks, is_on-relay, observe-off, e)
    | inr e ↦ simp (observe-is_on, is_on-relay, e)
  ]

  pub observe-power_on :
      (m : Machine F.Float h)
      → observe (power_on F h m).1.hal ≡ (
          if (observe m.hal).relay
          then observe m.hal
          else closed (power_on F h m).0 (observe m.hal))
  unfolding power_on
  observe-power_on m = elim (Bool-cases (observe m.hal).relay) [
    | inl e ↦ simp (observe-is_on, is_on-relay, e)
    | inr e ↦ simp (observe-exec, observe-is_on, observe-ticks, is_on-relay, observe-on, e)
  ]
