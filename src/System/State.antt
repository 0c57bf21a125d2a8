-- ===== src/System/State.antt =====
-- The whole client: its threads, what they share, and the history of the queues.
use hft_deribit.Prelude.{ℕ, Bool, false, List, [], ◌∷◌, ◌++◌, Text, if◌then◌else◌}
use hft_deribit.SpscQueue.{SpscQueue, push}
use hft_deribit.RateLimiter
use hft_deribit.RateLimiter.{RateLimiter, allow_request}
use hft_deribit.Websocket.{WebSocketBeast}
use hft_deribit.DeribitClient.{Client, outbound_capacity}

-- Where the caller's thread stands in `connect` and `close`.
pub data Phase : Type 0 where
  -- before `connect`; in it, after the websocket, the receiver and the sender; behind it
  fresh opened receiver_up sender_up up : Phase
  -- in `close`, before each of its statements; its push has loaded a `head`, as the receiver's has;
  -- `slept` is behind the pause
  signal_loaded signal_checked signal_written : ℕ → Phase
  disconnected signalled slept joining_sender sender_joined joining_receiver receiver_joined : Phase
  closed : Phase

-- Where the receiver's thread stands in its loop: it does not run; it is at the loop's condition, at
-- `read`, in `read` behind the test of its flag, at the push of a message, or in that push with the
-- `head` that it has loaded: before the test for room, before the store to the cell, or behind it.
pub data Receiving : Type 0 where
  no_receiver at_loop at_read in_read : Receiving
  at_push : Text → Receiving
  push_loaded push_checked push_written : Text → ℕ → Receiving

-- The sender's: at the loop's condition, in the wait for the limiter, at the pop, at the look whether
-- a request wants a token and there is one, at its insertion, or at `send` with the text to send.
pub data Sending : Type 0 where
  no_sender at_running at_limiter at_pop : Sending
  at_token at_insert at_send : Text → Sending

-- The dispatcher's: in the wait for a message, at the test of a message, or in `dispatch`.
pub data Dispatching : Type 0 where
  no_dispatcher at_wait : Dispatching
  at_test in_dispatch : Text → Dispatching

pub record System (F S U W : Type 0) : Type 0 where
  pub phase : Phase
  pub client : Client F S U
  pub ws : WebSocketBeast W
  -- the receiver's and the sender's flags
  pub receiver_running : Bool
  pub sender_running : Bool
  -- the threads
  pub receiver : Receiving
  pub sender : Sending
  pub dispatcher : Dispatching
  pub sender_limiter : RateLimiter
  -- what was handed to `ws.send`
  pub wire : List Text
  -- history: what each queue took, and what the dispatcher got
  pub accepted : List Text
  pub delivered : List Text
  pub dispatched : List Text
  -- history: how often the caller has connected and called `close`
  pub connects : ℕ
  pub closes : ℕ

-- A queue's history after a push.
abbrev pub logged : ℕ → SpscQueue Text → Text → List Text → List Text
logged n q msg log = if (push n q msg).1 then log ++ msg ∷ [] else log

module _ {F S U W : Type 0} where
  -- A client before `connect`, and its parts; the sender's limiter was made at the time `now`.
  abbrev pub initial : Client F S U → W → ℕ → System F S U W
  initial c stream now = record {
    phase = fresh;
    client = c;
    ws = record { stream = stream; shutting_down = false };
    receiver_running = false;
    sender_running = false;
    receiver = no_receiver;
    sender = no_sender;
    dispatcher = no_dispatcher;
    sender_limiter = RateLimiter.init now;
    wire = [];
    accepted = [];
    delivered = [];
    dispatched = [];
    connects = 0;
    closes = 0;
  }

  -- The history of the outbound queue after a request of the caller.
  abbrev pub accepts : System F S U W → ℕ → Text → List Text
  accepts s now msg =
      if (allow_request s.client.rate_limiter now).1
      then logged outbound_capacity s.client.outbound_queue msg s.accepted
      else s.accepted
