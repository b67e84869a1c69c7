-- ===== src/Link/Module/Sending.antt =====
-- board_support_ACImpl.cpp: the packets that a sequence of commands sends.
use ti_am62x_evse_sdk.Prelude.{
  ◌≡◌, refl, sym, ap, ◌∙◌, ℕ, true, some, List, [], ◌∷◌, ◌++◌, append-nil, append_assoc, map,
  map-append,
}
use ti_am62x_evse_sdk.Prelude.Floats.{Floats}
use ti_am62x_evse_sdk.Link.Messages.{HighToLow}
use ti_am62x_evse_sdk.Link.Commands.{Request, enabling, pwm_on, pwm_off, pwm_f, allowing, message}
use ti_am62x_evse_sdk.Link.Module.{
  CharDevice, Module, BoardCommand, is_written, push_on, push_message, handle_command,
  handle_commands,
}
use ti_am62x_evse_sdk.Link.Module.Startup.{IsDevice, sent-push_on}

-- What a command asks of the firmware: nothing, or one request.
abbrev pub asked : {A : Type 0} → BoardCommand A → List (Request A)
asked (BoardCommand.enable value) = enabling value ∷ []
asked (BoardCommand.pwm_on value) = pwm_on value ∷ []
asked BoardCommand.pwm_off = pwm_off ∷ []
asked BoardCommand.pwm_f = pwm_f ∷ []
asked (BoardCommand.allow_power_on value) = allowing value ∷ []
asked _ = []

abbrev pub requests : {A : Type 0} → List (BoardCommand A) → List (Request A)
requests [] = []
requests (c ∷ cs) = asked c ++ requests cs

module _ (F : Floats) (d : CharDevice) (encode : HighToLow F.Float → List ℕ) (l : IsDevice d) where
  open l use {sent}

  -- The packet of a request.
  abbrev pub packet_of : Request F.Float → List ℕ
  packet_of r = encode (message F r)

  abbrev pub packets_of : List (Request F.Float) → List (List ℕ)
  packets_of = map packet_of

  module _ (fd : ℕ)
      (takes : (bytes : List ℕ) (w : d.World)
        → is_written bytes (d.write fd bytes w).0 ≡ true) where
    sent-push_message :
        (out : HighToLow F.Float) (m : Module d)
        → m.rpmsg_ep ≡ some fd
        → sent (push_message d (F.tenths 0) encode out m).1.device
          ≡ sent m.device ++ (encode out ∷ [])
    unfolding push_message
    sent-push_message out m e =
        ap (λ ep. sent (push_on d (F.tenths 0) encode ep out m).1.device) e
        ∙ sent-push_on d (F.tenths 0) encode l fd out m
        ∙ rw (takes (encode out) m.device) refl

    push_message-ep :
        (out : HighToLow F.Float) (m : Module d)
        → m.rpmsg_ep ≡ some fd
        → (push_message d (F.tenths 0) encode out m).1.rpmsg_ep ≡ some fd
    unfolding push_message push_on
    push_message-ep out m e = ap (λ ep. (push_on d (F.tenths 0) encode ep out m).1.rpmsg_ep) e ∙ e

    handle_command-ep :
        (c : BoardCommand F.Float) (m : Module d)
        → m.rpmsg_ep ≡ some fd
        → (handle_command d (F.tenths 0) encode c m).1.rpmsg_ep ≡ some fd
    unfolding handle_command
    handle_command-ep (BoardCommand.enable value) m e = push_message-ep _ m e
    handle_command-ep (BoardCommand.pwm_on value) m e = push_message-ep _ m e
    handle_command-ep BoardCommand.pwm_off m e = push_message-ep _ m e
    handle_command-ep BoardCommand.pwm_f m e = push_message-ep _ m e
    handle_command-ep (BoardCommand.allow_power_on value) m e = push_message-ep _ m e
    handle_command-ep _ m e = e

    sent-handle_command :
        (c : BoardCommand F.Float) (m : Module d)
        → m.rpmsg_ep ≡ some fd
        → sent (handle_command d (F.tenths 0) encode c m).1.device
          ≡ sent m.device ++ packets_of (asked c)
    unfolding handle_command
    sent-handle_command (BoardCommand.enable value) m e = sent-push_message _ m e
    sent-handle_command (BoardCommand.pwm_on value) m e = sent-push_message _ m e
    sent-handle_command BoardCommand.pwm_off m e = sent-push_message _ m e
    sent-handle_command BoardCommand.pwm_f m e = sent-push_message _ m e
    sent-handle_command (BoardCommand.allow_power_on value) m e = sent-push_message _ m e
    sent-handle_command _ m e = sym (append-nil (sent m.device))

    -- A connected module whose device takes every packet sends, for a sequence of commands, exactly
    -- the packets of the requests that they make of the firmware, in order.
    pub sent-handle_commands :
        (cs : List (BoardCommand F.Float)) (m : Module d)
        → m.rpmsg_ep ≡ some fd
        → sent (handle_commands d (F.tenths 0) encode cs m).device
          ≡ sent m.device ++ packets_of (requests cs)
    unfolding handle_commands
    sent-handle_commands [] m e = sym (append-nil (sent m.device))
    sent-handle_commands (c ∷ cs) m e =
        sent-handle_commands cs (handle_command d (F.tenths 0) encode c m).1
          (handle_command-ep c m e)
        ∙ ap (λ x. x ++ packets_of (requests cs)) (sent-handle_command c m e)
        ∙ append_assoc (sent m.device) (packets_of (asked c)) (packets_of (requests cs))
        ∙ ap (λ x. sent m.device ++ x) (sym (map-append packet_of (asked c) (requests cs)))
