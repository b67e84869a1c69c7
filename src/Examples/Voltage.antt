-- ===== src/Examples/Voltage.antt =====
-- The voltages of the states with signed decimal numbers: 5.5 V without PWM is C.
use ti_am62x_evse_sdk.Prelude.{◌≡◌, ◌↔◌, refl, true, false, some, ℕ, arith}
use ti_am62x_evse_sdk.Hal.{CpSignal}
use ti_am62x_evse_sdk.Fsm.Types.{CpState}
use ti_am62x_evse_sdk.Fsm.Defs.{is_voltage_in_range, decode_cp_state}
use ti_am62x_evse_sdk.Fsm.Voltage.{Level, IsOrdered, decode-near}
use ti_am62x_evse_sdk.Examples.Decimal.{decimal}

decimal-IsOrdered : IsOrdered decimal
decimal-IsOrdered = record {
  rank = λ x. x;
  lt-rank = λ x y. refl;
  width = λ l. elim l [
    | Level.at_a ↦ omega arith
    | Level.at_b ↦ omega arith
    | Level.at_c ↦ omega arith
    | Level.at_d ↦ omega arith
    | Level.at_f ↦ omega arith
  ];
  f-d = omega arith;
  d-c = omega arith;
  c-b = omega arith;
  b-a = omega arith;
}

abbrev half_volts : CpSignal ℕ
half_volts = record { valid = true; high = 1000550000; low = 1000000000 }

decode-near_example :
    (decode_cp_state decimal false CpState.b half_volts ≡ some CpState.c)
    ↔ (is_voltage_in_range decimal 1000550000 1000600000 ≡ true)
decode-near_example =
    decode-near decimal decimal-IsOrdered false CpState.b half_volts Level.at_c refl refl refl
