-- ===== src/Link/Module/Startup.antt =====
-- board_support_ACImpl.cpp, `init`: the connection is set up, or an exception is thrown.
use ti_am62x_evse_sdk.Prelude.{
  ◌≡◌, ◌⊎◌, inl, inr, refl, ◌∙◌, ℕ, true, Option, none, some, List, [], ◌∷◌, ◌++◌, append-nil, ◌==◌,
  if◌then◌else◌, Bool-cases,
}
use ti_am62x_evse_sdk.Link.Messages.{HighToLow}
use ti_am62x_evse_sdk.Link.Host.{heartbeat}
use ti_am62x_evse_sdk.Link.Module.{CharDevice, Module, InitResult, is_written, push_on, init}

-- What the device promises: only a write sends a packet, and it sends it whole exactly if it
-- returns its length.
pub record IsDevice (d : CharDevice) : Type 0 where
  pub sent : d.World → List (List ℕ)
  pub sent-init : (w : d.World) → sent (d.char_init w).1 ≡ sent w
  pub sent-open : (w : d.World) → sent (d.char_open w).1 ≡ sent w
  pub sent-write :
      (fd : ℕ) (bytes : List ℕ) (w : d.World)
      → sent (d.write fd bytes w).1
        ≡ sent w ++ (if is_written bytes (d.write fd bytes w).0 then bytes ∷ [] else [])

Option-cases : (o : Option ℕ) → (o ≡ none) ⊎ ((x : ℕ) × (o ≡ some x))
Option-cases none = inl refl
Option-cases (some x) = inr (x, refl)

-- The device that the library opens, if it can be initialised.
abbrev pub opened : (d : CharDevice) → d.World → Option ℕ
opened d w = let start = d.char_init w in if start.0 == 0 then (d.char_open start.1).0 else none

module _ (d : CharDevice) {A : Type 0} (zero_value : A) (encode : HighToLow A → List ℕ)
    (l : IsDevice d) where
  open l use {sent, sent-init, sent-open, sent-write}

  pub sent-push_on :
      (fd : ℕ) (out : HighToLow A) (m : Module d)
      → sent (push_on d zero_value encode (some fd) out m).1.device
        ≡ sent m.device
          ++ (if is_written (encode out) (d.write fd (encode out) m.device).0
              then encode out ∷ []
              else [])
  unfolding push_on
  sent-push_on fd out m = sent-write fd (encode out) m.device

  -- The packets of a start: none, or the heartbeat.
  abbrev pub AtMostHeartbeat : List (List ℕ) → List (List ℕ) → Type 0
  AtMostHeartbeat before after =
      (after ≡ before) ⊎ (after ≡ before ++ (encode (heartbeat zero_value) ∷ []))

  -- `init` throws exactly where the library cannot be initialised or opens no device, and then it
  -- has sent nothing; otherwise the module is connected to the device, and the heartbeat was sent if
  -- the device took it, and nothing else.
  pub init_lem :
      (m : Module d)
      → ((opened d m.device ≡ none)
          × ((init d zero_value encode m).0 ≡ InitResult.internal_error)
          × (sent (init d zero_value encode m).1.device ≡ sent m.device))
        ⊎ ((fd : ℕ) × (opened d m.device ≡ some fd)
            × ((init d zero_value encode m).0 ≡ InitResult.ok)
            × ((init d zero_value encode m).1.rpmsg_ep ≡ some fd)
            × AtMostHeartbeat (sent m.device) (sent (init d zero_value encode m).1.device))
  unfolding init
  init_lem m = elim (Bool-cases ((d.char_init m.device).0 == 0)) [
    | inr bad ↦ inl (simp bad refl, simp bad refl, simp bad (sent-init m.device))
    | inl good ↦ elim (Option-cases (d.char_open (d.char_init m.device).1).0) [
      | inl closed ↦ inl (
        simp (good, closed) refl,
        simp (good, closed) refl,
        simp (good, closed) (sent-open _ ∙ sent-init m.device),
      )
      | inr (fd, e) ↦ inr (
        fd,
        simp (good, e) refl,
        simp (good, e) refl,
        simp (good, e) refl,
        (let w = (d.char_open (d.char_init m.device).1).1 in
            let hb = encode (heartbeat zero_value) in
            let base : sent w ≡ sent m.device = sent-open _ ∙ sent-init m.device in
            elim (Bool-cases (is_written hb (d.write fd hb w).0)) [
              | inl took ↦ inr (simp (good, e) (sent-write fd hb w ∙ rw (took, base) refl))
              | inr lost ↦
                  inl (simp (good, e) (sent-write fd hb w ∙ rw (lost, append-nil, base) refl))
            ]),
      )
    ]
  ]

  -- Where the device takes every packet, a connected module has sent the heartbeat.
  pub init-takes :
      (m : Module d) (fd : ℕ)
      → ((bytes : List ℕ) (w : d.World) → is_written bytes (d.write fd bytes w).0 ≡ true)
      → opened d m.device ≡ some fd
      → ((init d zero_value encode m).1.rpmsg_ep ≡ some fd)
        × (sent (init d zero_value encode m).1.device
            ≡ sent m.device ++ (encode (heartbeat zero_value) ∷ []))
  unfolding init
  init-takes m fd takes e = elim (Bool-cases ((d.char_init m.device).0 == 0)) [
    | inr bad ↦ let gone : none ≡ some fd = simp bad at e in absurd (cc)
    | inl good ↦
        let w = (d.char_open (d.char_init m.device).1).1 in
        let hb = encode (heartbeat zero_value) in
        let there : (d.char_open (d.char_init m.device).1).0 ≡ some fd = simp good at e in
        (
          simp (good, there) refl,
          simp (good, there)
              (sent-write fd hb w ∙ rw (takes hb w, sent-open, sent-init m.device) refl),
        )
  ]
