-- ===== src/Link/Commands.antt =====
-- board_support_ACImpl.cpp and firmware/main.cpp: a command of the module is a call of the state
-- machine's method.
use ti_am62x_evse_sdk.Prelude.{◌≡◌, refl, Bool, true, false, some, arith}
use ti_am62x_evse_sdk.Prelude.Floats.{Floats}
use ti_am62x_evse_sdk.Hal.{Hal}
use ti_am62x_evse_sdk.Fsm.Types.{Machine}
use ti_am62x_evse_sdk.Fsm.Defs.{
  Method, set_pwm_on, set_pwm_off, set_pwm_f, allow_power_on, enable, disable,
}
use ti_am62x_evse_sdk.Link.Messages.{HighToLow}
use ti_am62x_evse_sdk.Link.Codec.{Agrees, Codec, IsCommand, IsFaithful}
use ti_am62x_evse_sdk.Link.Firmware.{handle_incoming_message}
use ti_am62x_evse_sdk.Link.Host.{
  handle_enable, handle_pwm_on, handle_pwm_off, handle_pwm_f, handle_allow_power_on,
}

-- The commands of the interface that reach the firmware.
pub data Request (A : Type 0) : Type 0 where
  enabling : Bool → Request A
  pwm_on : A → Request A
  pwm_off pwm_f : Request A
  allowing : Bool → Request A

module _ (F : Floats) where
  -- The message that the module's handler pushes.
  abbrev pub message : Request F.Float → HighToLow F.Float
  message (enabling b) = handle_enable (F.tenths 0) b
  message (pwm_on x) = handle_pwm_on (F.tenths 0) x
  message pwm_off = handle_pwm_off (F.tenths 0)
  message pwm_f = handle_pwm_f (F.tenths 0)
  message (allowing b) = handle_allow_power_on (F.tenths 0) b

  pub message-IsCommand : (r : Request F.Float) → IsCommand (message r)
  unfolding handle_enable handle_pwm_on handle_pwm_off handle_pwm_f handle_allow_power_on
  message-IsCommand (enabling true) = record {
    tag_first = omega arith;
    tag_last = omega arith;
    state = omega arith;
  }
  message-IsCommand (enabling false) = record {
    tag_first = omega arith;
    tag_last = omega arith;
    state = omega arith;
  }
  message-IsCommand _ = record {
    tag_first = omega arith;
    tag_last = omega arith;
    state = omega arith;
  }

  module _ (h : Hal F.Float) where
    -- The method of the state machine that the command asks for.
    abbrev pub direct : Request F.Float → Method F h (Unit {0})
    direct (enabling true) = enable F h
    direct (enabling false) = disable F h
    direct (pwm_on x) = set_pwm_on F h x
    direct pwm_off = set_pwm_off F h
    direct pwm_f = set_pwm_f F h
    direct (allowing b) = allow_power_on F h b

    pub handled :
        (r : Request F.Float) (n : HighToLow F.Float) (m : Machine F.Float h)
        → Agrees (message r) n
        → handle_incoming_message F h n m ≡ direct r m
    unfolding handle_incoming_message handle_enable handle_pwm_on handle_pwm_off handle_pwm_f
        handle_allow_power_on
    handled (enabling true) n m g = rw g.tag refl
    handled (enabling false) n m g = rw g.tag refl
    handled (pwm_on x) n m g = rw (g.tag, g.pwm refl) refl
    handled pwm_off n m g = rw (g.tag, g.pwm refl) refl
    handled pwm_f n m g = rw (g.tag, g.pwm refl) refl
    handled (allowing b) n m g = rw (g.tag, g.allow refl) refl

    -- Every command, encoded by the module, decoded by the firmware and handled there, does what
    -- the method of the state machine does that it asks for.
    pub handle-message :
        (c : Codec F.Float) (f : IsFaithful c) (r : Request F.Float) (m : Machine F.Float h)
        → (n : HighToLow F.Float) × (c.decode_command (c.encode_command (message r)) ≡ some n)
          × (handle_incoming_message F h n m ≡ direct r m)
    handle-message c f r m =
        let (n, back, agrees) = f.command_back (message r) (message-IsCommand r) in
        (n, back, handled r n m agrees)
