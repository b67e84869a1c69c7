-- ===== src/Link/Codec.antt =====
-- What both ends rely on in the nanopb codec (firmware/pb_codec/nanopb), which is taken as given.
use ti_am62x_evse_sdk.Prelude.{ℕ, ◌≡◌, ◌≢◌, ◌≤◌, Option, some, List, []}
use ti_am62x_evse_sdk.Link.Messages.{
  HighToLow, LowToHigh, set_pwm_tag, allow_power_on_tag, heartbeat_tag, pwm_state_f, event_tag,
  evse_replug_finished,
}

module _ {A : Type 0} where
  -- The same message: the tag, and the member of the union that the tag selects.
  pub record Agrees (m n : HighToLow A) : Type 0 where
    pub tag : n.which_message ≡ m.which_message
    pub pwm : m.which_message ≡ set_pwm_tag → n.set_pwm ≡ m.set_pwm
    pub allow : m.which_message ≡ allow_power_on_tag → n.allow_power_on ≡ m.allow_power_on

pub record Codec (A : Type 0) : Type 0 where
  pub encode_command : HighToLow A → List ℕ
  pub decode_command : List ℕ → Option (HighToLow A)
  pub encode_event : LowToHigh → List ℕ
  pub decode_event : List ℕ → Option LowToHigh

-- The messages that the generated types name: a tag of the union, and a constant of the enumeration.
pub record IsCommand {A : Type 0} (m : HighToLow A) : Type 0 where
  pub tag_first : set_pwm_tag ≤ m.which_message
  pub tag_last : m.which_message ≤ heartbeat_tag
  pub state : m.set_pwm.state ≤ pwm_state_f

pub record IsEvent (m : LowToHigh) : Type 0 where
  pub tag : m.which_message ≡ event_tag
  pub event : m.event ≤ evse_replug_finished

-- Decoding gives back the message that was encoded, and no event is encoded as the empty packet.
pub record IsFaithful {A : Type 0} (c : Codec A) : Type 0 where
  pub command_back :
      (m : HighToLow A)
      → IsCommand m
      → (n : HighToLow A) × (c.decode_command (c.encode_command m) ≡ some n) × Agrees m n
  pub event_back : (m : LowToHigh) → IsEvent m → c.decode_event (c.encode_event m) ≡ some m
  pub event_nonempty : (m : LowToHigh) → IsEvent m → c.encode_event m ≢ []
