-- ===== src/Examples/Bench.antt =====
-- A bench for the tests: fixed-point numbers for the floats, and a board that obeys.
use ti_am62x_evse_sdk.Prelude.{ℕ, ◌+◌, ◌-◌, ◌*◌, ◌/◌, refl, Bool, true, false, not, [], ltb}
use ti_am62x_evse_sdk.Prelude.Floats.{Floats}
use ti_am62x_evse_sdk.Hal.{Hal, CpSignal, Board, effect, IsLawful}
use ti_am62x_evse_sdk.Fsm.Types.{CpState, Machine}
use ti_am62x_evse_sdk.Fsm.Defs.{fresh}

-- The number v/10 is kept as 1000 + v.
abbrev pub fixed : Floats
fixed = record {
  Float = ℕ;
  lt = ltb;
  add = λ x y. x + y - 1000;
  sub = λ x y. x + 1000 - y;
  mul = λ x y. (x - 1000) * (y - 1000) / 10 + 1000;
  div = λ x y. (x - 1000) * 10 / (y - 1000) + 1000;
  tenths = λ n. 1000 + n;
  neg_tenths = λ n. 1000 - n;
  of_nat = λ n. n * 10 + 1000;
  to_u32 = λ x. (x - 1000) / 10;
}

pub record Setup : Type 0 where
  pub board : Board ℕ
  pub signal : CpSignal ℕ
  pub now : ℕ
  pub fired : Bool
  pub works : Bool

abbrev set_relay : Bool → Setup → Setup
set_relay r w = record w { board = record (w.board) { relay = r } }

abbrev pub bench : Hal ℕ
bench = record {
  World = Setup;
  exec = λ c w. record w { board = effect c (w.board) };
  rcd_got_fired = λ w. (w.fired, w);
  switch_on = λ b w. (w.works, set_relay (w.works) w);
  switch_off = λ w. (w.works, set_relay (not (w.works)) w);
  switch_is_on = λ w. (w.board.relay, w);
  switch_reset_emergency = λ w. (true, w);
  get_cp_signal = λ w. (w.signal, w);
  get_current_ticks = λ w. (w.now, w);
  ticks_per_ms = 1;
}

abbrev pub bench_laws : IsLawful bench
bench_laws = record {
  observe = λ w. w.board;
  observe-exec = λ c w. refl;
  observe-fired = λ w. refl;
  observe-is_on = λ w. refl;
  observe-reset = λ w. refl;
  observe-signal = λ w. refl;
  observe-ticks = λ w. refl;
  is_on-relay = λ w. refl;
  observe-on = λ b w. refl;
  observe-off = λ w. refl;
}

-- 6 V against -12 V: state C with PWM.
abbrev pub six_volts : CpSignal ℕ
six_volts = record { valid = true; high = 1060; low = 880 }

abbrev pub twelve_volts : CpSignal ℕ
twelve_volts = record { valid = true; high = 1120; low = 880 }

abbrev pub setup : Bool → CpSignal ℕ → ℕ → Setup
setup relay signal now = record {
  board = record {
    relay = relay;
    locked = relay;
    rcd_on = true;
    duty = 1000;
    pilot_on = true;
    sent = [];
  };
  signal = signal;
  now = now;
  fired = false;
  works = true;
}

-- A car in state B with power allowed now asks for power.
abbrev pub asking : Machine ℕ bench
asking = record {
  fsm = record (fresh fixed bench false) {
    cur_state = CpState.b;
    prev_state = CpState.b;
    cur_pwm_running = true;
    prev_pwm_running = true;
    power_on_allowed = true;
  };
  hal = setup false six_volts 50;
}

-- A car is unplugged while it charges.
abbrev pub unplugged : Machine ℕ bench
unplugged = record {
  fsm = record (fresh fixed bench false) {
    cur_state = CpState.c;
    prev_state = CpState.c;
    cur_pwm_running = true;
    prev_pwm_running = true;
    power_on_allowed = true;
  };
  hal = setup true twelve_volts 90;
}
