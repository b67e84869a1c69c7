-- ===== src/Link/Backlog.antt =====
-- firmware/bsp_drivers/rpmsg.cpp: arrivals and polls of the endpoint in any order.
use ti_am62x_evse_sdk.Prelude.{
  ◌≡◌, inl, inr, refl, sym, ap, ◌∙◌, ◌≤◌, ◌+◌, ◌-◌, ℕ, suc, false, Option, none, some, List, [],
  ◌∷◌, ◌++◌, append_assoc, append-nil, length, length-append, map, map-append, take, ltb, ◌==◌,
  if◌then◌else◌, Bool-cases, arith,
}
use ti_am62x_evse_sdk.Link.Messages.{HighToLow}
use ti_am62x_evse_sdk.Link.Endpoint.{
  Packet, Endpoint, construct, max_messages_backlog, receive_notify_cb, Outcome, outcome, timeout,
  detect, read_packet, recv, get_msg,
}

pub data Action : Type 0 where
  arrive : Packet → Action
  poll : Action

abbrev pub arrivals : List Action → List Packet
arrivals [] = []
arrivals (arrive p ∷ acts) = p ∷ arrivals acts
arrivals (poll ∷ acts) = arrivals acts

-- What the polls returned that found a message.
abbrev pub delivered : {A : Type 0} → List (Outcome A) → List (Outcome A)
delivered [] = []
delivered (timeout ∷ os) = delivered os
delivered (o ∷ os) = o ∷ delivered os

-- 1 where a packet arrives while the semaphore is at its limit.
abbrev pub overflow : Endpoint → ℕ
overflow e = if ltb e.pending_msgs max_messages_backlog then 0 else 1

module _ {A : Type 0} (decode : List ℕ → Option (HighToLow A)) (size : ℕ) where
  -- What the polls return, in order, and the endpoint after all actions.
  unfoldable pub serve : List Action → Endpoint → List (Outcome A) × Endpoint
  serve [] e = ([], e)
  serve (arrive p ∷ acts) e = serve acts (receive_notify_cb p e)
  serve (poll ∷ acts) e =
      let r = get_msg decode size e in let rest = serve acts r.1 in (r.0 ∷ rest.0, rest.1)

  -- How often a packet arrived while the semaphore was at its limit.
  unfoldable pub overflows : List Action → Endpoint → ℕ
  overflows [] e = 0
  overflows (arrive p ∷ acts) e = overflow e + overflows acts (receive_notify_cb p e)
  overflows (poll ∷ acts) e = overflows acts (get_msg decode size e).1

  abbrev pub read_all : List Packet → List (Outcome A)
  read_all = map (read_packet decode size)

  -- What a sequence of actions leaves of an endpoint whose queue was `k` longer than the count.
  pub record Served (k : ℕ) (acts : List Action) (e : Endpoint) : Type 0 where
    pub order :
        read_all e.queue ++ read_all (arrivals acts)
        ≡ delivered (serve acts e).0 ++ read_all (serve acts e).1.queue
    pub backlog :
        length (serve acts e).1.queue ≡ (serve acts e).1.pending_msgs + (k + overflows acts e)
    pub bound : (serve acts e).1.pending_msgs ≤ 16

  delivered-outcome :
      (o : Option (HighToLow A)) (os : List (Outcome A))
      → delivered (outcome o ∷ os) ≡ outcome o ∷ delivered os
  delivered-outcome none os = refl
  delivered-outcome (some msg) os = refl

  delivered-read :
      (p : Packet) (os : List (Outcome A))
      → delivered (read_packet decode size p ∷ os) ≡ read_packet decode size p ∷ delivered os
  unfolding read_packet
  delivered-read p os = delivered-outcome (decode (take size p.bytes)) os

  detect-queue :
      (p : Packet) (e : Endpoint)
      → ((detect p e).queue ≡ e.queue) × ((detect p e).pending_msgs ≡ e.pending_msgs)
  unfolding detect
  detect-queue p e = ground arith

  Served-arrive :
      (k : ℕ) (p : Packet) (acts : List Action) (e : Endpoint)
      → Served (k + overflow e) acts (receive_notify_cb p e)
      → Served k (arrive p ∷ acts) e
  unfolding serve overflows receive_notify_cb
  Served-arrive k p acts e s = record {
    order =
        sym (
          append_assoc (read_all e.queue) (read_packet decode size p ∷ [])
            (read_all (arrivals acts)))
        ∙ ap (λ l. l ++ read_all (arrivals acts))
            (sym (map-append (read_packet decode size) e.queue (p ∷ [])))
        ∙ s.order;
    backlog = omega (arith, s.backlog);
    bound = s.bound;
  }

  -- A poll, by what it returns.
  Served-poll :
      (k : ℕ) (acts : List Action) (e f : Endpoint) (o : Outcome A)
      → get_msg decode size e ≡ (o, f)
      → read_all e.queue ≡ delivered (o ∷ []) ++ read_all f.queue
      → ((os : List (Outcome A)) → delivered (o ∷ os) ≡ delivered (o ∷ []) ++ delivered os)
      → Served k acts f
      → Served k (poll ∷ acts) e
  unfolding serve overflows
  Served-poll k acts e f o g q d s = record {
    order =
        rw (g, q, d (serve acts f).0)
          (append_assoc (delivered (o ∷ [])) (read_all f.queue) (read_all (arrivals acts))
            ∙ ap (λ l. delivered (o ∷ []) ++ l) s.order
            ∙ sym (
                append_assoc (delivered (o ∷ [])) (delivered (serve acts f).0)
                  (read_all (serve acts f).1.queue)));
    backlog = rw g s.backlog;
    bound = rw g s.bound;
  }

  get_msg-timeout : (e : Endpoint) → e.pending_msgs ≡ 0 → get_msg decode size e ≡ (timeout, e)
  unfolding get_msg
  get_msg-timeout e z = simp z refl

  -- A message is taken from the queue.
  abbrev taken : List Packet → Endpoint → Endpoint
  taken ps e = record e { pending_msgs = e.pending_msgs - 1; queue = ps }

  get_msg-message :
      (p : Packet) (ps : List Packet) (e : Endpoint)
      → (e.pending_msgs == 0) ≡ false
      → e.queue ≡ p ∷ ps
      → get_msg decode size e ≡ (read_packet decode size p, detect p (taken ps e))
  unfolding get_msg recv
  get_msg-message p ps e z q = simp (z, q) refl

  delivered-one :
      (p : Packet) (os : List (Outcome A))
      → delivered (read_packet decode size p ∷ os)
        ≡ delivered (read_packet decode size p ∷ []) ++ delivered os
  delivered-one p os = delivered-read p os ∙ ap (λ l. l ++ delivered os) (sym (delivered-read p []))

  Served-message :
      (k : ℕ) (p : Packet) (ps : List Packet) (acts : List Action) (e : Endpoint)
      → (e.pending_msgs == 0) ≡ false
      → e.queue ≡ p ∷ ps
      → Served k acts (detect p (taken ps e))
      → Served k (poll ∷ acts) e
  Served-message k p ps acts e z q s =
      Served-poll k acts e (detect p (taken ps e)) (read_packet decode size p)
        (get_msg-message p ps e z q)
        (rw (q, (detect-queue p (taken ps e)).0, delivered-read p []) refl) (delivered-one p) s

  -- The queue holds as many packets as the semaphore counts, and `k` more.
  record Behind (k : ℕ) (e : Endpoint) : Type 0 where
    backlog : length e.queue ≡ e.pending_msgs + k
    bound : e.pending_msgs ≤ 16

  Behind-arrive :
      (k : ℕ) (p : Packet) (e : Endpoint)
      → Behind k e
      → Behind (k + overflow e) (receive_notify_cb p e)
  unfolding receive_notify_cb
  Behind-arrive k p e b = record {
    backlog = ground (arith, b.backlog, length-append e.queue (p ∷ []));
    bound = ground (arith, b.bound);
  }

  Behind-taken :
      (k : ℕ) (p : Packet) (ps : List Packet) (e : Endpoint)
      → (e.pending_msgs == 0) ≡ false
      → e.queue ≡ p ∷ ps
      → Behind k e
      → Behind k (detect p (taken ps e))
  Behind-taken k p ps e z q b =
      let n : length e.queue ≡ suc (length ps) = ap length q in
      record {
        backlog =
            rw ((detect-queue p (taken ps e)).0, (detect-queue p (taken ps e)).1)
              (ground (arith, b.backlog, n, z));
        bound = rw (detect-queue p (taken ps e)).1 (omega (arith, b.bound));
      }

  serve-poll :
      (k : ℕ) (acts : List Action) (e : Endpoint) (q : List Packet)
      → e.queue ≡ q
      → Behind k e
      → ((f : Endpoint) → Behind k f → Served k acts f)
      → Served k (poll ∷ acts) e
  serve-poll k acts e q eq b ih = elim (Bool-cases (e.pending_msgs == 0)) [
    | inl z ↦
        Served-poll k acts e e timeout (get_msg-timeout e (ground (arith, z))) refl (λ os. refl)
          (ih e b)
    | inr z ↦ take_one q eq z
  ]
    where
      take_one :
          (r : List Packet) → e.queue ≡ r → (e.pending_msgs == 0) ≡ false → Served k (poll ∷ acts) e
      take_one [] eq' z =
          let n : length e.queue ≡ 0 = ap length eq' in absurd (ground (arith, n, b.backlog, z))
      take_one (p ∷ ps) eq' z =
          Served-message k p ps acts e z eq' (ih _ (Behind-taken k p ps e z eq' b))

  serve-Behind : (acts : List Action) (k : ℕ) (e : Endpoint) → Behind k e → Served k acts e
  unfolding serve overflows
  serve-Behind [] k e b = record {
    order = append-nil (read_all e.queue);
    backlog = omega (arith, b.backlog);
    bound = b.bound;
  }
  serve-Behind (arrive p ∷ acts) k e b =
      Served-arrive k p acts e (serve-Behind acts (k + overflow e) _ (Behind-arrive k p e b))
  serve-Behind (poll ∷ acts) k e b = serve-poll k acts e e.queue refl b (λ f. serve-Behind acts k f)

  -- Whatever packets arrive at a new endpoint and however it is polled between them: the polls that
  -- find a message return the packets in the order of their arrival, each read once, and what they
  -- have not returned is still in the queue; so none is lost or doubled.
  -- The semaphore never counts more than 16, and the queue is longer than its count by exactly the
  -- number of packets that arrived while it was at 16.
  pub serve-construct :
      (core end_point : ℕ) (acts : List Action)
      → (read_all (arrivals acts)
          ≡ delivered (serve acts (construct core end_point)).0
            ++ read_all (serve acts (construct core end_point)).1.queue)
        × (length (serve acts (construct core end_point)).1.queue
            ≡ (serve acts (construct core end_point)).1.pending_msgs
              + overflows acts (construct core end_point))
        × ((serve acts (construct core end_point)).1.pending_msgs ≤ 16)
  unfolding construct
  serve-construct core end_point acts =
      let s =
        serve-Behind acts 0 (construct core end_point)
          (record { backlog = refl; bound = omega arith }) in
      (s.order, omega (arith, s.backlog), s.bound)
