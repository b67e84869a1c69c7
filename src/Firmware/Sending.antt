-- ===== src/Firmware/Sending.antt =====
-- firmware/main.cpp, `push_event` behind the callback of the state machine: what the main loop hands to
-- the driver of the link.
use ti_am62x_evse_sdk.Prelude.{
  ◌≡◌, ◌++◌, ◌-◌, ◌==◌, refl, sym, ap, ◌∙◌, ℕ, Bool, true, Option, List, [], ◌∷◌, map, map-append,
  append_assoc, inl, inr, Bool-cases,
}
use ti_am62x_evse_sdk.Prelude.Floats.{Floats}
use ti_am62x_evse_sdk.Prelude.Frame.{IsPreorder}
use ti_am62x_evse_sdk.Hal.{Event, CpSignal, Command}
use ti_am62x_evse_sdk.Fsm.Access.{IsKept}
use ti_am62x_evse_sdk.Link.Messages.{HighToLow, LowToHigh}
use ti_am62x_evse_sdk.Link.Codec.{Codec}
use ti_am62x_evse_sdk.Link.Firmware.{event_message}
use ti_am62x_evse_sdk.Link.Endpoint.{Packet, Endpoint, receive_notify_cb, send_msg, detect, recv}
use ti_am62x_evse_sdk.Link.Endpoint
use ti_am62x_evse_sdk.Link.Loop.{Loop, iterate}
use ti_am62x_evse_sdk.Link.Access.{iterate-kept}
use ti_am62x_evse_sdk.Drivers.{Gpio, Rest, Hardware, hal, command}
use ti_am62x_evse_sdk.Firmware.{
  Action, Parts, act_endpoint, act, act_all, elapse, drive_pwm, read_cp_signal, get_ticks,
  push_event, parts, poll_endpoint, wait_msg,
}

-- What the endpoint knows of the other side, and what it handed to the driver.
pub record Line : Type 0 where
  pub known : Bool
  pub remote : ℕ
  pub out : List (ℕ × List ℕ)

abbrev pub line : Endpoint → Line
line e = record { known = e.remote_peer_detected; remote = e.remote_end_point; out = e.outgoing }

act_endpoint-line : (a : Action) (e : Endpoint) → line (act_endpoint a e) ≡ line e
unfolding act_endpoint receive_notify_cb
act_endpoint-line (Action.arrive p) e = refl
act_endpoint-line _ e = refl

act_all-line : (acts : List Action) (w : Parts) → line (act_all acts w).endpoint ≡ line w.endpoint
unfolding act_all act
act_all-line [] w = refl
act_all-line (a ∷ acts) w = act_all-line acts (act a w) ∙ act_endpoint-line a w.endpoint

-- What happens between two accesses sends nothing.
elapse-line : (w : Parts) → line (elapse w).endpoint ≡ line w.endpoint
unfolding elapse
elapse-line w = act_all-line _ w

module _ (encode : LowToHigh → List ℕ) where
  -- What is handed to the driver for an event.
  abbrev pub hand : ℕ → Event → ℕ × List ℕ
  hand remote e = (remote, encode (event_message e))

  -- The line after the events, the latest first, to a peer that is known.
  abbrev pub with_events : List Event → Line → Line
  with_events es s = record s { out = map (hand s.remote) es ++ s.out }

  send_msg-line :
      (answer : Bool) (e : Event) (p : Endpoint)
      → p.remote_peer_detected ≡ true
      → line (send_msg encode answer (event_message e) p).1 ≡ with_events (e ∷ []) (line p)
  unfolding send_msg
  send_msg-line answer e p d = simp d refl

  with_events-append :
      (es fs : List Event) (s : Line) → with_events es (with_events fs s) ≡ with_events (es ++ fs) s
  with_events-append es fs s =
      ap (λ l. record s { out = l })
        (sym (append_assoc (map (hand s.remote) es) (map (hand s.remote) fs) s.out)
          ∙ ap (λ l. l ++ s.out) (sym (map-append (hand s.remote) es fs)))

module _ {A : Type 0} (decode : List ℕ → Option (HighToLow A)) (size : ℕ) where
  recv-line :
      (ps : List Packet) (e : Endpoint)
      → e.remote_peer_detected ≡ true
      → line (recv decode size ps e).1 ≡ line e
  unfolding recv detect
  recv-line [] e d = refl
  recv-line (p ∷ ps) e d = simp d refl

  get_msg-line :
      (e : Endpoint)
      → e.remote_peer_detected ≡ true
      → line (Endpoint.get_msg decode size e).1 ≡ line e
  unfolding Endpoint.get_msg
  get_msg-line e d = elim (Bool-cases (e.pending_msgs == 0)) [
    | inl z ↦ simp z refl
    | inr z ↦ simp z (recv-line e.queue (record e { pending_msgs = e.pending_msgs - 1 }) d)
  ]

module _ (F : Floats) (period ticks_per_ms : ℕ) (c : Codec F.Float) (junk : CpSignal F.Float)
    (size : ℕ) (g : Gpio) where
  abbrev pub drivers : Rest F.Float
  drivers = parts F period ticks_per_ms c junk size

  -- The events that were reported in between, the latest first, and that each was handed to the driver
  -- where the peer was known before.
  pub record Relays (w v : Hardware F g drivers) : Type 0 where
    pub fresh : List Event
    pub told : v.told.sent ≡ fresh ++ w.told.sent
    pub handed :
        w.rest.endpoint.remote_peer_detected ≡ true
        → line v.rest.endpoint ≡ with_events c.encode_event fresh (line w.rest.endpoint)

  Relays-IsPreorder : IsPreorder Relays
  Relays-IsPreorder = record {
    here = λ w. record { fresh = []; told = refl; handed = λ d. refl };
    then = λ w v x p q. record {
      fresh = q.fresh ++ p.fresh;
      told =
          q.told ∙ ap (λ l. q.fresh ++ l) p.told ∙ sym (append_assoc q.fresh p.fresh w.told.sent);
      handed = λ d.
          let known : v.rest.endpoint.remote_peer_detected ≡ true =
            ap (λ s. s.known) (p.handed d) ∙ d in
          q.handed known
          ∙ ap (with_events c.encode_event q.fresh) (p.handed d)
          ∙ with_events-append c.encode_event q.fresh p.fresh _;
    };
  }

  -- Nothing was reported, and nothing sent.
  silent :
      (w v : Hardware F g drivers)
      → v.told.sent ≡ w.told.sent
      → (w.rest.endpoint.remote_peer_detected ≡ true → line v.rest.endpoint ≡ line w.rest.endpoint)
      → Relays w v
  silent w v t e = record { fresh = []; told = t; handed = e }

  set_pwm-line :
      (x : F.Float) (w : Parts)
      → line (drive_pwm F period ticks_per_ms c junk size x w).endpoint ≡ line w.endpoint
  unfolding drive_pwm
  set_pwm-line x w = elapse-line w

  push_event-line :
      (e : Event) (w : Parts)
      → w.endpoint.remote_peer_detected ≡ true
      → line (push_event F period ticks_per_ms c junk size e w).endpoint
        ≡ with_events c.encode_event (e ∷ []) (line w.endpoint)
  unfolding push_event
  push_event-line e w d =
      send_msg-line c.encode_event _ e (elapse w).endpoint (ap (λ s. s.known) (elapse-line w) ∙ d)
      ∙ ap (with_events c.encode_event (e ∷ [])) (elapse-line w)

  exec-Relays :
      (d : Command F.Float) (w : Hardware F g drivers) → Relays w ((hal F g drivers).exec d w)
  unfolding command
  exec-Relays Command.cp_enable w = silent w _ refl (λ k. set_pwm-line _ w.rest)
  exec-Relays Command.cp_disable w = silent w _ refl (λ k. set_pwm-line _ w.rest)
  exec-Relays (Command.set_pwm x) w = silent w _ refl (λ k. set_pwm-line x w.rest)
  exec-Relays (Command.push_event e) w = record {
    fresh = e ∷ [];
    told = refl;
    handed = push_event-line e w.rest;
  }
  exec-Relays _ w = silent w _ refl (λ k. refl)

  Relays-IsKept : IsKept (hal F g drivers) Relays
  unfolding read_cp_signal get_ticks
  Relays-IsKept = record {
    order = Relays-IsPreorder;
    by_exec = exec-Relays;
    by_fired = Relays-IsPreorder.here;
    by_on = λ b w. silent w _ refl (λ k. refl);
    by_off = λ w. silent w _ refl (λ k. refl);
    by_is_on = Relays-IsPreorder.here;
    by_reset = λ w. silent w _ refl (λ k. refl);
    by_signal = λ w. silent w _ refl (λ k. elapse-line w.rest);
    by_ticks = λ w. silent w _ refl (λ k. elapse-line w.rest);
  }

  get_msg-Relays :
      (w : Hardware F g drivers) → Relays w (wait_msg F period ticks_per_ms c junk size g w).1
  unfolding wait_msg poll_endpoint
  get_msg-Relays w = silent w _ refl (λ k.
      get_msg-line c.decode_command size (elapse w.rest).endpoint
        (ap (λ s. s.known) (elapse-line w.rest) ∙ k)
      ∙ elapse-line w.rest)

  -- From any state of the main loop on in which the endpoint knows its peer, whatever happens between the
  -- accesses to the drivers: over any number of rounds the endpoint hands to the driver, for the peer
  -- that it knew at first, exactly the encoded messages of the events that the state machine reports in
  -- them, in their order.
  pub rounds-Relays :
      (l : Loop F (hal F g drivers)) (n : ℕ)
      → l.machine.hal.rest.endpoint.remote_peer_detected ≡ true
      → (es : List Event) × ((iterate F
            (hal F g drivers)
            (wait_msg F period ticks_per_ms c junk size g)
            n
            l).machine.hal.told.sent
          ≡ es ++ l.machine.hal.told.sent)
        × ((iterate F
              (hal F g drivers)
              (wait_msg F period ticks_per_ms c junk size g)
              n
              l).machine.hal.rest.endpoint.outgoing
            ≡ map (hand c.encode_event l.machine.hal.rest.endpoint.remote_end_point) es
              ++ l.machine.hal.rest.endpoint.outgoing)
  rounds-Relays l n d =
      let r = iterate-kept F (hal F g drivers) Relays-IsKept _ get_msg-Relays n l in
      (r.fresh, r.told, ap (λ s. s.out) (r.handed d))
