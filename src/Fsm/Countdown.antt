-- ===== src/Fsm/Countdown.antt =====
-- firmware/lib/iec61851_fsm.cpp, `class Countdown`: a timer over the wrapping tick counter.
use ti_am62x_evse_sdk.Prelude.{ℕ, Bool, true, false, not, leb}
use ti_am62x_evse_sdk.Prelude.Word.{sub32, mul32}
use ti_am62x_evse_sdk.Prelude.State.{State, pure, branch, ◌>>=◌}
use ti_am62x_evse_sdk.Hal.{Hal}
use ti_am62x_evse_sdk.Fsm.Types.{Countdown}

-- The constructor; the multiplication is on uint32_t.
unfoldable pub new : ℕ → ℕ → Countdown
new ticks_per_ms period_in_ms = record {
  period_in_ticks = mul32 period_in_ms ticks_per_ms;
  ticks_at_start = 0;
  running = false;
}

unfoldable pub stop : Countdown → Countdown
stop c = record c { running = false }

module _ {A : Type 0} (h : Hal A) where
  unfoldable pub start : Countdown → State h.World Countdown
  start c = do now ← h.get_current_ticks; pure (record c { running = true; ticks_at_start = now })

  -- A timer that was not started does not read the clock.
  unfoldable pub elapsed : Countdown → State h.World Bool
  elapsed c =
      branch (not c.running) (pure false)
        do now ← h.get_current_ticks; pure (leb c.period_in_ticks (sub32 now c.ticks_at_start))
