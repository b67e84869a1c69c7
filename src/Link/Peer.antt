-- ===== src/Link/Peer.antt =====
-- firmware/bsp_drivers/rpmsg.cpp: to whom the endpoint sends, and what it drops.
use ti_am62x_evse_sdk.Prelude.{
  ◌≡◌, ◌<◌, refl, sym, ap, subst, ◌∙◌, ◌-◌, ◌==◌, ℕ, Bool, true, false, Option, none, some, List,
  [], ◌∷◌, ◌++◌, Bool-cases, inl, inr, arith,
}
use ti_am62x_evse_sdk.Link.Messages.{HighToLow, LowToHigh}
use ti_am62x_evse_sdk.Link.Endpoint.{
  Packet, Endpoint, construct, receive_notify_cb, get_msg, recv, detect, send_msg,
}

-- What happens at the endpoint, in order: a packet arrives, the main loop polls, and it sends a
-- message, which the driver takes or not.
pub data Action : Type 0 where
  arrive : Packet → Action
  poll : Action
  send : Bool → LowToHigh → Action

-- The endpoint as its users see it: the sender of the first packet that arrived, the end point that
-- messages go to, and what was handed to the driver, the latest first.
pub record Peer : Type 0 where
  pub first : Option ℕ
  pub known : Option ℕ
  pub out : List (ℕ × List ℕ)

abbrev pub or_else : Option ℕ → ℕ → Option ℕ
or_else none n = some n
or_else (some k) n = some k

abbrev pub first_of : Option ℕ → Option ℕ → Option ℕ
first_of none first = first
first_of (some k) first = some k

abbrev pub handed : Option ℕ → List ℕ → List (ℕ × List ℕ) → List (ℕ × List ℕ)
handed none bytes out = out
handed (some n) bytes out = (n, bytes) ∷ out

abbrev pub nobody : Peer
nobody = record { first = none; known = none; out = [] }

module _ {A : Type 0} (decode : List ℕ → Option (HighToLow A)) (size : ℕ)
    (encode : LowToHigh → List ℕ) where
  unfoldable pub act : Action → Endpoint → Endpoint
  act (arrive p) e = receive_notify_cb p e
  act poll e = (get_msg decode size e).1
  act (send answer msg) e = (send_msg encode answer msg e).1

  unfoldable pub act_all : List Action → Endpoint → Endpoint
  act_all [] e = e
  act_all (a ∷ acts) e = act_all acts (act a e)

  -- The first poll after the first packet settles where messages go.
  unfoldable pub follow : Action → Peer → Peer
  follow (arrive p) s = record s { first = or_else s.first p.end_point }
  follow poll s = record s { known = first_of s.known s.first }
  follow (send answer msg) s = record s { out = handed s.known (encode msg) s.out }

  unfoldable pub follow_all : List Action → Peer → Peer
  follow_all [] s = s
  follow_all (a ∷ acts) s = follow_all acts (follow a s)

  -- How an endpoint stands to the two end points.
  Tracks : Endpoint → Option ℕ → Option ℕ → Type 0
  Tracks e none none = (e.pending_msgs ≡ 0) × (e.queue ≡ []) × (e.remote_peer_detected ≡ false)
  Tracks e (some n) none =
      (0 < e.pending_msgs)
      × ((p : Packet) × (ps : List Packet) × (e.queue ≡ p ∷ ps) × (p.end_point ≡ n))
      × (e.remote_peer_detected ≡ false)
  Tracks e first (some n) = (e.remote_peer_detected ≡ true) × (e.remote_end_point ≡ n)

  abbrev Follows : Endpoint → Peer → Type 0
  Follows e s = Tracks e s.first s.known × (e.outgoing ≡ s.out)

  arrive-pending : (p : Packet) (e : Endpoint) → 0 < (receive_notify_cb p e).pending_msgs
  unfolding receive_notify_cb
  arrive-pending p e = ground arith

  arrive-Tracks :
      (p : Packet) (e : Endpoint) (first known : Option ℕ)
      → Tracks e first known
      → Tracks (receive_notify_cb p e) (or_else first p.end_point) known
  unfolding Tracks receive_notify_cb
  arrive-Tracks p e none none (_, q, d) =
      (arrive-pending p e, (p, [], ap (λ l. l ++ (p ∷ [])) q, refl), d)
  arrive-Tracks p e (some n) none (_, (h, t, q, k), d) =
      (arrive-pending p e, (h, t ++ (p ∷ []), ap (λ l. l ++ (p ∷ [])) q, k), d)
  arrive-Tracks p e none (some k) t = t
  arrive-Tracks p e (some n) (some k) t = t

  recv-known :
      (ps : List Packet) (e : Endpoint) (n : ℕ)
      → (e.remote_peer_detected ≡ true) × (e.remote_end_point ≡ n)
      → ((recv decode size ps e).1.remote_peer_detected ≡ true)
        × ((recv decode size ps e).1.remote_end_point ≡ n)
  unfolding recv detect
  recv-known [] e n d = d
  recv-known (p ∷ ps) e n (d, k) = simp d (refl, k)

  poll-nothing : (e : Endpoint) → e.pending_msgs ≡ 0 → (get_msg decode size e).1 ≡ e
  unfolding get_msg
  poll-nothing e z = simp z refl

  send-unknown :
      (answer : Bool) (msg : LowToHigh) (e : Endpoint)
      → e.remote_peer_detected ≡ false
      → (send_msg encode answer msg e).1 ≡ e
  unfolding send_msg
  send-unknown answer msg e d = simp d refl

  poll-known :
      (e : Endpoint) (n : ℕ)
      → (e.remote_peer_detected ≡ true) × (e.remote_end_point ≡ n)
      → ((get_msg decode size e).1.remote_peer_detected ≡ true)
        × ((get_msg decode size e).1.remote_end_point ≡ n)
  unfolding get_msg
  poll-known e n d = elim (Bool-cases (e.pending_msgs == 0)) [
    | inl z ↦ rw z d
    | inr z ↦ rw z (recv-known e.queue (record e { pending_msgs = e.pending_msgs - 1 }) n d)
  ]

  recv-outgoing :
      (ps : List Packet) (e : Endpoint) → (recv decode size ps e).1.outgoing ≡ e.outgoing
  unfolding recv detect
  recv-outgoing [] e = refl
  recv-outgoing (p ∷ ps) e = ground arith

  poll-Tracks :
      (e : Endpoint) (first known : Option ℕ)
      → Tracks e first known
      → Tracks (get_msg decode size e).1 first (first_of known first)
  unfolding Tracks get_msg recv detect
  poll-Tracks e none none (z, q, d) =
      subst (λ x. Tracks x none none) (sym (poll-nothing e z)) (z, q, d)
  poll-Tracks e (some n) none (z, (p, ps, q, k), d) =
      let nz : (e.pending_msgs == 0) ≡ false = ground arith in simp (nz, q, d) (refl, k)
  poll-Tracks e first (some n) d = poll-known e n d

  send-Tracks :
      (answer : Bool) (msg : LowToHigh) (e : Endpoint) (first known : Option ℕ)
      → Tracks e first known
      → Tracks (send_msg encode answer msg e).1 first known
  unfolding Tracks send_msg
  send-Tracks answer msg e none none (z, q, d) =
      subst (λ x. Tracks x none none) (sym (send-unknown answer msg e d)) (z, q, d)
  send-Tracks answer msg e (some n) none (z, q, d) =
      subst (λ x. Tracks x (some n) none) (sym (send-unknown answer msg e d)) (z, q, d)
  send-Tracks answer msg e first (some n) (d, k) = simp d (refl, k)

  poll-outgoing : (e : Endpoint) → (get_msg decode size e).1.outgoing ≡ e.outgoing
  unfolding get_msg
  poll-outgoing e = elim (Bool-cases (e.pending_msgs == 0)) [
    | inl z ↦ rw z refl
    | inr z ↦ rw z (recv-outgoing e.queue (record e { pending_msgs = e.pending_msgs - 1 }))
  ]

  send-outgoing :
      (answer : Bool) (msg : LowToHigh) (e : Endpoint) (first known : Option ℕ)
      → Tracks e first known
      → (send_msg encode answer msg e).1.outgoing ≡ handed known (encode msg) e.outgoing
  unfolding Tracks send_msg
  send-outgoing answer msg e none none (z, q, d) = simp d refl
  send-outgoing answer msg e (some n) none (z, q, d) = simp d refl
  send-outgoing answer msg e first (some n) (d, k) = simp (d, k) refl

  act-Follows :
      (a : Action) (e : Endpoint) (s : Peer) → Follows e s → Follows (act a e) (follow a s)
  unfolding act follow receive_notify_cb
  act-Follows (arrive p) e s (t, o) = (arrive-Tracks p e s.first s.known t, o)
  act-Follows poll e s (t, o) = (poll-Tracks e s.first s.known t, poll-outgoing e ∙ o)
  act-Follows (send answer msg) e s (t, o) = (
    send-Tracks answer msg e s.first s.known t,
    send-outgoing answer msg e s.first s.known t ∙ ap (handed s.known (encode msg)) o,
  )

  act_all-Follows :
      (acts : List Action) (e : Endpoint) (s : Peer)
      → Follows e s
      → Follows (act_all acts e) (follow_all acts s)
  unfolding act_all follow_all
  act_all-Follows [] e s f = f
  act_all-Follows (a ∷ acts) e s f =
      act_all-Follows acts (act a e) (follow a s) (act-Follows a e s f)

  -- From the constructor on, whatever arrives and whenever the loop polls: a message is dropped until
  -- a poll has come after the first packet, and every later one is handed to the driver for the
  -- sender of that first packet, whoever else has sent since.
  pub outgoing-follow :
      (acts : List Action) (core_junk end_point_junk : ℕ)
      → (act_all acts (construct core_junk end_point_junk)).outgoing ≡ (follow_all acts nobody).out
  unfolding construct Tracks
  outgoing-follow acts core_junk end_point_junk =
      (act_all-Follows acts (construct core_junk end_point_junk) nobody
        ((refl, refl, refl), refl)).1
