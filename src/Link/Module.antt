-- ===== src/Link/Module.antt =====
-- everest-module/modules/TiAM625SDK/board_support/board_support_ACImpl.cpp: the connection of the
-- module, `class RPMsgLink`, and the handlers of the interface board_support_AC.
pub mod Startup
pub mod Dummy
pub mod Sending
pub mod Session
use ti_am62x_evse_sdk.Prelude.{
  ℕ, Bool, true, false, not, Option, none, some, List, [], ◌∷◌, length, ◌==◌, if◌then◌else◌,
}
use ti_am62x_evse_sdk.Prelude.State.{State, pure, branch, ◌>>=◌, ◌>>◌}
use ti_am62x_evse_sdk.Link.Messages.{HighToLow}
use ti_am62x_evse_sdk.Link.Host.{
  heartbeat, handle_enable, handle_pwm_on, handle_pwm_off, handle_pwm_f, handle_allow_power_on,
}

-- The library ti_rpmsg_char, and `write` on the device that it opens: the code of an initialisation
-- is 0 on success, a device is its file descriptor, and `none` is an error.
pub record CharDevice : Type 1 where
  pub World : Type 0
  pub char_init : State World ℕ
  pub char_open : State World (Option ℕ)
  pub char_close : ℕ → World → World
  pub write : ℕ → List ℕ → State World (Option ℕ)

-- `types::board_support::HardwareCapabilities`
pub record HardwareCapabilities : Type 0 where
  pub max_current_a_import : ℕ
  pub max_current_a_export : ℕ
  pub max_phase_count_import : ℕ
  pub max_phase_count_export : ℕ
  pub min_current_a_import : ℕ
  pub min_current_a_export : ℕ
  pub min_phase_count_import : ℕ
  pub min_phase_count_export : ℕ
  pub supports_changing_phases_during_charging : Bool

-- The commands of the interface, with their arguments.
pub data BoardCommand (A : Type 0) : Type 0 where
  setup : Bool → Bool → List ℕ → Bool → BoardCommand A
  get_hw_capabilities : BoardCommand A
  enable : Bool → BoardCommand A
  pwm_on : A → BoardCommand A
  pwm_off pwm_f : BoardCommand A
  allow_power_on : Bool → BoardCommand A
  force_unlock : BoardCommand A
  switch_three_phases_while_charging : Bool → BoardCommand A
  evse_replug : ℕ → BoardCommand A
  read_pp_ampacity : BoardCommand A

-- What a handler returns.
pub data Answer : Type 0 where
  done : Answer
  capabilities : HardwareCapabilities → Answer
  unlocked : Bool → Answer
  ampacity : ℕ → Answer

pub data InitResult : Type 0 where
  ok internal_error : InitResult

-- `bytes_written == ostream.bytes_written`; an error is -1, which is no length.
abbrev pub is_written : List ℕ → Option ℕ → Bool
is_written bytes none = false
is_written bytes (some n) = n == length bytes

abbrev pub is_null : Option ℕ → Bool
is_null none = true
is_null (some fd) = false

module _ (d : CharDevice) where
  -- The static object `link` with the device; `receiving` is whether the thread was started.
  pub record Module : Type 0 where
    pub rpmsg_ep : Option ℕ
    pub receiving : Bool
    pub device : d.World

  abbrev pub use_device : {A : Type 0} → State d.World A → State Module A
  use_device q m = ((q m.device).0, record m { device = (q m.device).1 })

  abbrev pub set_ep : Option ℕ → State Module (Unit {0})
  set_ep ep m = (tt, record m { rpmsg_ep = ep })

  -- `encode` is `pb_encode` into the buffer.
  module _ {A : Type 0} (zero_value : A) (encode : HighToLow A → List ℕ) where
    -- `none` is the access through a null pointer, which no connection has set.
    unfoldable pub push_on : Option ℕ → HighToLow A → State Module (Option Bool)
    push_on none out = pure none
    push_on (some fd) out = do
      bytes_written ← use_device (d.write fd (encode out))
      pure (some (is_written (encode out) bytes_written))

    unfoldable pub push_message : HighToLow A → State Module (Option Bool)
    unfolding push_on
    push_message out m = push_on m.rpmsg_ep out m

    unfoldable pub setup_connection : State Module Bool
    unfolding push_message
    setup_connection = do
      ret ← use_device d.char_init
      branch (not (ret == 0)) (pure false) do
        ep ← use_device d.char_open
        set_ep ep
        branch (is_null ep) (pure false) do push_message (heartbeat zero_value); pure true

    -- An exception is a result.
    unfoldable pub init : State Module InitResult
    unfolding setup_connection
    init = do
      connected ← setup_connection
      pure (if not connected then InitResult.internal_error else InitResult.ok)

    unfoldable pub ready : State Module (Unit {0})
    ready m = (tt, record m { receiving = true })

    abbrev close_ep : Option ℕ → Module → Module
    close_ep none m = m
    close_ep (some fd) m = record m { device = d.char_close fd m.device }

    -- `RPMsgLink::~RPMsgLink`
    unfoldable pub disconnect : State Module (Unit {0})
    disconnect m = (tt, close_ep m.rpmsg_ep m)

    -- The handlers: those that send ignore whether the message was written.
    unfoldable pub handle_command : BoardCommand A → State Module Answer
    unfolding push_message
    handle_command (BoardCommand.setup three_phases has_ventilation country_code rcd_enabled) =
        pure done
    handle_command BoardCommand.get_hw_capabilities = pure (
        capabilities (record {
          max_current_a_import = 16;
          max_current_a_export = 0;
          max_phase_count_import = 3;
          max_phase_count_export = 3;
          min_current_a_import = 6;
          min_current_a_export = 0;
          min_phase_count_import = 3;
          min_phase_count_export = 3;
          supports_changing_phases_during_charging = false;
        }))
    handle_command (BoardCommand.enable value) =
        push_message (handle_enable zero_value value) >> pure done
    handle_command (BoardCommand.pwm_on value) =
        push_message (handle_pwm_on zero_value value) >> pure done
    handle_command BoardCommand.pwm_off = push_message (handle_pwm_off zero_value) >> pure done
    handle_command BoardCommand.pwm_f = push_message (handle_pwm_f zero_value) >> pure done
    handle_command (BoardCommand.allow_power_on value) =
        push_message (handle_allow_power_on zero_value value) >> pure done
    handle_command BoardCommand.force_unlock = pure (unlocked true)
    handle_command (BoardCommand.switch_three_phases_while_charging value) = pure done
    handle_command (BoardCommand.evse_replug value) = pure done
    handle_command BoardCommand.read_pp_ampacity = pure (ampacity 16)

    -- The commands, one after the other.
    unfoldable pub handle_commands : List (BoardCommand A) → Module → Module
    handle_commands [] m = m
    handle_commands (c ∷ cs) m = handle_commands cs (handle_command c m).1
