-- ===== src/Link/Loop.antt =====
-- firmware/main.cpp: the main loop of `main_task`.
use ti_am62x_evse_sdk.Prelude.{ℕ, zero, suc, Bool, ltb}
use ti_am62x_evse_sdk.Prelude.Word.{sub32}
use ti_am62x_evse_sdk.Prelude.State.{State, pure, branch, ◌>>=◌}
use ti_am62x_evse_sdk.Prelude.Floats.{Floats}
use ti_am62x_evse_sdk.Hal.{Hal}
use ti_am62x_evse_sdk.Fsm.Types.{Machine}
use ti_am62x_evse_sdk.Fsm.Defs.{construct}
use ti_am62x_evse_sdk.Fsm.Run.{run}
use ti_am62x_evse_sdk.Link.Messages.{HighToLow}
use ti_am62x_evse_sdk.Link.Firmware.{handle_incoming_message}
use ti_am62x_evse_sdk.Link.Endpoint.{Outcome}
use ti_am62x_evse_sdk.Link.Endpoint

-- `enum class RPMsgRcvStatus`, with the message that comes with `OK`.
pub data Received (A : Type 0) : Type 0 where
  ok : HighToLow A → Received A
  timeout corrupt_message : Received A

-- What the main loop sees of an outcome of `get_msg`; it sees no message where the assertion failed.
abbrev pub received : {A : Type 0} → Outcome A → Received A
received (Endpoint.ok msg) = Received.ok msg
received Endpoint.timeout = Received.timeout
received Endpoint.corrupt_message = Received.corrupt_message
received Endpoint.assertion_failed = Received.timeout

abbrev pub chore_interval_ms : ℕ
chore_interval_ms = 1000

module _ (F : Floats) (h : Hal F.Float) where
  -- The local variables of `main_task`.
  pub record Loop : Type 0 where
    pub machine : Machine F.Float h
    pub chore_interval_ticks : ℕ
    pub last_chore_ts : ℕ

  -- 2. if message, handle it
  unfoldable pub handle : Received F.Float → Machine F.Float h → Machine F.Float h
  handle (ok msg) m = (handle_incoming_message F h msg m).1
  handle timeout m = m
  handle corrupt_message m = m

  -- 4. do chore: the log message is left out, but the signal is read.
  unfoldable pub chore : ℕ → ℕ → State h.World ℕ
  chore chore_interval_ticks last_chore_ts = do
    current_ts ← h.get_current_ticks
    branch (ltb chore_interval_ticks (sub32 current_ts last_chore_ts))
        (do cp_signal ← h.get_cp_signal; pure current_ts) (pure last_chore_ts)

  -- `get_msg` is the endpoint's, over the same hardware.
  module _ (get_msg : State h.World (Received F.Float)) where
    -- The body of the loop.
    unfoldable pub iteration : Loop → Loop
    iteration l =
        let received = get_msg l.machine.hal in
        let m = handle received.0 (record (l.machine) { hal = received.1 }) in
        let n = (run F h m).1 in
        let c = chore l.chore_interval_ticks l.last_chore_ts n.hal in
        record l { machine = record n { hal = c.1 }; last_chore_ts = c.0 }

    -- The loop runs forever: its state after a number of rounds.
    unfoldable pub iterate : ℕ → Loop → Loop
    iterate zero l = l
    iterate (suc n) l = iterate n (iteration l)

  -- The start of the loop, from the hardware that the constructors before left; the interval of the
  -- chore is what the SDK makes of the microseconds.
  unfoldable pub start_loop : ℕ → Bool → h.World → Loop
  start_loop chore_interval_ticks junk w =
      let m = construct F h junk w in
      let now = h.get_current_ticks m.hal in
      record {
        machine = record m { hal = now.1 };
        chore_interval_ticks = chore_interval_ticks;
        last_chore_ts = now.0;
      }
