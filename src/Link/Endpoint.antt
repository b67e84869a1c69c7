-- ===== src/Link/Endpoint.antt =====
-- firmware/bsp_drivers/rpmsg.cpp: the endpoint of the firmware, `class RPMsg`.
use ti_am62x_evse_sdk.Prelude.{
  ℕ, ◌+◌, ◌-◌, Bool, true, false, not, Option, none, some, List, [], ◌∷◌, ◌++◌, ltb, ◌==◌,
  if◌then◌else◌, take,
}
use ti_am62x_evse_sdk.Prelude.Word.{u32}
use ti_am62x_evse_sdk.Link.Messages.{HighToLow, LowToHigh}

abbrev pub max_messages_backlog : ℕ
max_messages_backlog = 16

-- A message in the driver's queue, with its sender.
pub record Packet : Type 0 where
  pub bytes : List ℕ
  pub core_id : ℕ
  pub end_point : ℕ

-- The members of `class RPMsg` and the counter of the file. The semaphore is its count; `rpmsg_ep`
-- is the queue that the driver keeps for it, oldest first, and what was handed to it for sending.
pub record Endpoint : Type 0 where
  pub remote_peer_detected : Bool
  pub remote_core_id : ℕ
  pub remote_end_point : ℕ
  pub pending_msgs : ℕ
  pub queue : List Packet
  pub outgoing : List (ℕ × List ℕ)
  pub messages_received : ℕ

-- The constructor; the remote end has no initialiser.
unfoldable pub construct : ℕ → ℕ → Endpoint
construct core_junk end_point_junk = record {
  remote_peer_detected = false;
  remote_core_id = core_junk;
  remote_end_point = end_point_junk;
  pending_msgs = 0;
  queue = [];
  outgoing = [];
  messages_received = 0;
}

-- The driver has queued a packet and calls back: the semaphore is given, which has no effect at its
-- limit.
unfoldable pub receive_notify_cb : Packet → Endpoint → Endpoint
receive_notify_cb p e = record e {
  queue = e.queue ++ (p ∷ []);
  pending_msgs =
      if ltb e.pending_msgs max_messages_backlog then e.pending_msgs + 1 else e.pending_msgs;
  messages_received = u32 (e.messages_received + 1);
}

-- `get_msg` returns a status, or stops at the assertion that RPMessage_recv succeeded.
pub data Outcome (A : Type 0) : Type 0 where
  ok : HighToLow A → Outcome A
  timeout corrupt_message assertion_failed : Outcome A

-- The sender of the first message is the remote end.
unfoldable pub detect : Packet → Endpoint → Endpoint
detect p e =
    if not e.remote_peer_detected
    then record e {
      remote_core_id = p.core_id;
      remote_end_point = p.end_point;
      remote_peer_detected = true;
    }
    else e

-- `pb_decode`'s answer as a status.
abbrev pub outcome : {A : Type 0} → Option (HighToLow A) → Outcome A
outcome none = corrupt_message
outcome (some msg) = ok msg

module _ {A : Type 0} (decode : List ℕ → Option (HighToLow A)) (high_to_low_size : ℕ) where
  -- What a packet is read as: the driver copies what fits into the buffer.
  unfoldable pub read_packet : Packet → Outcome A
  read_packet p = outcome (decode (take high_to_low_size p.bytes))

  -- RPMessage_recv, and what follows it.
  unfoldable pub recv : List Packet → Endpoint → Outcome A × Endpoint
  recv [] e = (assertion_failed, e)
  recv (p ∷ ps) e = (read_packet p, detect p (record e { queue = ps }))

  -- `get_msg`: when the semaphore is not given in time there is no message.
  unfoldable pub get_msg : Endpoint → Outcome A × Endpoint
  get_msg e =
      if e.pending_msgs == 0
      then (timeout, e)
      else recv e.queue (record e { pending_msgs = e.pending_msgs - 1 })

-- `send_msg`: `answer` is whether RPMessage_send succeeds.
module _ (encode : LowToHigh → List ℕ) where
  unfoldable pub send_msg : Bool → LowToHigh → Endpoint → Bool × Endpoint
  send_msg answer msg e =
      if not e.remote_peer_detected
      then (false, e)
      else (answer, record e { outgoing = (e.remote_end_point, encode msg) ∷ e.outgoing })
