-- ===== src/System.antt =====
-- include/deribit/deribit_client.h with everything it starts: the caller's thread, the sender, the
-- receiver and the dispatcher, which share the client's two queues. A push to the inbound queue,
-- which the receiver and `close` do both, has a step for each access; the other calls of a queue are
-- one step here, and `SpscQueue.Threads` has the accesses below them.
pub mod State
pub mod Flow
pub mod Effects
pub mod Phases
pub mod Requests
pub mod Insertion
pub mod Outbound
pub mod Inbound
pub mod Ending
pub mod Closing
pub mod Session
pub mod Silence
pub mod Tokens
pub mod Delivery
pub mod Leftovers
pub mod Rounds
use hft_deribit.Prelude.{
  ℕ, ◌==◌, set, ◌+◌, ◌&&◌, ◌≡◌, ◌⊎◌, Bool, true, false, not, ◌||◌, List, [], ◌∷◌, ◌++◌, some, none,
  Text, codes, is_empty, if◌then◌else◌,
}
use hft_deribit.System.State.{
  Phase, fresh, opened, receiver_up, sender_up, up, disconnected, signal_loaded, signal_checked,
  signal_written, signalled, slept, joining_sender, sender_joined, joining_receiver,
  receiver_joined, closed, Receiving, no_receiver, at_loop, at_read, in_read, at_push, push_loaded,
  push_checked, push_written, Sending, no_sender, at_running, at_limiter, at_pop, at_token,
  at_insert, at_send, Dispatching, no_dispatcher, at_wait, at_test, in_dispatch, System, logged,
  accepts,
}
use hft_deribit.SpscQueue.{next_index, pop}
use hft_deribit.RateLimiter.{RateLimiter}
use hft_deribit.Json.{Simdjson}
use hft_deribit.Dispatcher.{Dispatcher, Invocation}
use hft_deribit.Dispatcher.Dispatch.{dispatch}
use hft_deribit.Websocket
use hft_deribit.Websocket.{Beast, read_stream}
use hft_deribit.RequestSender.{throttle, contains, rfind, insert_at, token_member}
use hft_deribit.DeribitClient.{
  Client, RpcCallback, UserData, ok, auth_id, inbound_capacity, outbound_capacity, get_access_token,
}
use hft_deribit.DeribitClient.Calls.{
  rpc_message, subscribe_message, send_rpc, subscribe, authenticate, run_callbacks, auth_params,
}

-- The request with the token as its last member, if it has a closing brace.
unfoldable pub insert_token : Text → Text → Text
insert_token token msg = elim (rfind b'}' msg) [
  | none ↦ msg
  | some pos ↦ insert_at msg pos (token_member token)
]

module _ (j : Simdjson) {W : Type 0} (beast : Beast W) where
  module _ {F S U : Type 0} where
    pub data Step (s : System F S U W) : System F S U W → Type 0 where
      -- the caller's calls; registrations go through `get_dispatcher`
      registers :
          (d : Dispatcher (RpcCallback F) S (UserData U))
          → Step s (record s { client = record (s.client) { dispatcher = d } })
      calls :
          (now id : ℕ) (method params : Text)
          → Step s (record s {
            client = (send_rpc s.client now id method params).0;
            accepted = accepts s now (rpc_message id method params);
          })
      subscribes :
          (now : ℕ) (channel : Text)
          → Step s (record s {
            client = subscribe s.client now channel;
            accepted = accepts s now (subscribe_message channel);
          })
      authenticates :
          (now : ℕ) {c : Client F S U}
          → authenticate s.client now ≡ ok c
          → Step s (record s {
            client = c;
            accepted = accepts s now (
                rpc_message auth_id
                  (codes "public/auth")
                  (auth_params s.client.client_id s.client.client_secret));
          })
      -- `connect`
      opens :
          (s.phase ≡ fresh) ⊎ (s.phase ≡ closed)
          → (Websocket.connect beast s.ws.stream).1 ≡ true
          → Step s (record s {
            phase = opened;
            ws = record (s.ws) { stream = (Websocket.connect beast s.ws.stream).0 };
            client = record (s.client) { connected = true };
            connects = s.connects + 1;
          })
      fails_to_open :
          (s.phase ≡ fresh) ⊎ (s.phase ≡ closed)
          → (Websocket.connect beast s.ws.stream).1 ≡ false
          → Step s
              (record s { ws = record (s.ws) { stream = (Websocket.connect beast s.ws.stream).0 } })
      starts_receiver :
          s.phase ≡ opened
          → Step s (record s { phase = receiver_up; receiver_running = true; receiver = at_loop })
      starts_sender :
          s.phase ≡ receiver_up
          → Step s (record s { phase = sender_up; sender_running = true; sender = at_running })
      starts_dispatcher :
          s.phase ≡ sender_up → Step s (record s { phase = up; dispatcher = at_wait })
      -- the receiver's loop; `ws.read` tests its flag before it waits for the stream
      receiver_goes_on :
          s.receiver ≡ at_loop
          → s.receiver_running ≡ true
          → Step s (record s { receiver = at_read })
      receiver_stops :
          s.receiver ≡ at_loop
          → s.receiver_running ≡ false
          → Step s (record s { receiver = no_receiver })
      read_begins :
          s.receiver ≡ at_read
          → s.ws.shutting_down ≡ false
          → Step s (record s { receiver = in_read })
      read_refused :
          s.receiver ≡ at_read
          → s.ws.shutting_down ≡ true
          → Step s (record s { receiver = no_receiver })
      reads :
          s.receiver ≡ in_read
          → Step s (record s {
            ws = (read_stream beast s.ws).0;
            receiver =
                if is_empty (read_stream beast s.ws).1
                then no_receiver
                else at_push (read_stream beast s.ws).1;
          })
      -- the push of the receiver
      push_loads :
          {msg : Text}
          → s.receiver ≡ at_push msg
          → Step s (record s { receiver = push_loaded msg s.client.inbound_queue.head })
      push_refused :
          {msg : Text} {h : ℕ}
          → s.receiver ≡ push_loaded msg h
          → (next_index inbound_capacity h == s.client.inbound_queue.tail) ≡ true
          → Step s (record s { receiver = at_loop })
      push_checks :
          {msg : Text} {h : ℕ}
          → s.receiver ≡ push_loaded msg h
          → (next_index inbound_capacity h == s.client.inbound_queue.tail) ≡ false
          → Step s (record s { receiver = push_checked msg h })
      push_writes :
          {msg : Text} {h : ℕ}
          → s.receiver ≡ push_checked msg h
          → Step s (record s {
            receiver = push_written msg h;
            client = record (s.client) {
              inbound_queue = record (s.client.inbound_queue) {
                buffer = set s.client.inbound_queue.buffer h msg;
              };
            };
          })
      push_publishes :
          {msg : Text} {h : ℕ}
          → s.receiver ≡ push_written msg h
          → Step s (record s {
            receiver = at_loop;
            client = record (s.client) {
              inbound_queue = record (s.client.inbound_queue) {
                head = next_index inbound_capacity h;
              };
            };
            delivered = s.delivered ++ msg ∷ [];
          })
      -- the sender's loop; the limiter is the sender's own
      sender_goes_on :
          s.sender ≡ at_running
          → s.sender_running ≡ true
          → Step s (record s { sender = at_limiter })
      sender_stops :
          s.sender ≡ at_running
          → s.sender_running ≡ false
          → Step s (record s { sender = no_sender })
      sender_waits :
          s.sender ≡ at_limiter
          → (times : List ℕ) {limiter : RateLimiter} {left : List ℕ}
          → throttle s.sender_limiter times ≡ some (limiter, left)
          → Step s (record s { sender = at_pop; sender_limiter = limiter })
      sender_pops :
          {msg : Text}
          → s.sender ≡ at_pop
          → (pop outbound_capacity s.client.outbound_queue).1 ≡ some msg
          → Step s (record s {
            sender = at_token msg;
            client = record (s.client) {
              outbound_queue = (pop outbound_capacity s.client.outbound_queue).0;
            };
          })
      sender_misses :
          s.sender ≡ at_pop
          → (pop outbound_capacity s.client.outbound_queue).1 ≡ none
          → Step s (record s {
            sender = at_running;
            client = record (s.client) {
              outbound_queue = (pop outbound_capacity s.client.outbound_queue).0;
            };
          })
      authorizes :
          {msg : Text}
          → s.sender ≡ at_token msg
          → Step s (record s {
            sender =
                if contains (codes "\"private/") msg && not (is_empty (get_access_token s.client))
                then at_insert msg
                else at_send msg;
          })
      inserts :
          {msg : Text}
          → s.sender ≡ at_insert msg
          → Step s (record s { sender = at_send (insert_token (get_access_token s.client) msg) })
      sends :
          {msg : Text}
          → s.sender ≡ at_send msg
          → Step s (record s {
            sender = at_running;
            ws = Websocket.send beast s.ws msg;
            wire = s.wire ++ msg ∷ [];
          })
      -- the dispatcher's loop; an exception that leaves `dispatch` ends the program
      dispatcher_pops :
          {msg : Text}
          → s.dispatcher ≡ at_wait
          → (pop inbound_capacity s.client.inbound_queue).1 ≡ some msg
          → Step s (record s {
            dispatcher = at_test msg;
            client = record (s.client) {
              inbound_queue = (pop inbound_capacity s.client.inbound_queue).0;
            };
            dispatched = s.dispatched ++ msg ∷ [];
          })
      dispatcher_goes_on :
          {msg : Text}
          → s.dispatcher ≡ at_test msg
          → (not s.client.connected || is_empty msg) ≡ false
          → Step s (record s { dispatcher = in_dispatch msg })
      dispatcher_stops :
          {msg : Text}
          → s.dispatcher ≡ at_test msg
          → (not s.client.connected || is_empty msg) ≡ true
          → Step s (record s { dispatcher = no_dispatcher })
      dispatches :
          {msg : Text} {is : List (Invocation (RpcCallback F) S (UserData U))}
          → s.dispatcher ≡ in_dispatch msg
          → dispatch j s.client.dispatcher msg ≡ some is
          → Step s (record s { dispatcher = at_wait; client = run_callbacks s.client is })
      -- `close`
      disconnects :
          (s.phase ≡ fresh) ⊎ ((s.phase ≡ up) ⊎ (s.phase ≡ closed))
          → Step s (record s {
            phase = disconnected;
            client = record (s.client) { connected = false };
            closes = s.closes + 1;
          })
      signal_loads :
          s.phase ≡ disconnected
          → Step s (record s { phase = signal_loaded s.client.inbound_queue.head })
      signal_refused :
          {h : ℕ}
          → s.phase ≡ signal_loaded h
          → (next_index inbound_capacity h == s.client.inbound_queue.tail) ≡ true
          → Step s (record s { phase = signalled })
      signal_checks :
          {h : ℕ}
          → s.phase ≡ signal_loaded h
          → (next_index inbound_capacity h == s.client.inbound_queue.tail) ≡ false
          → Step s (record s { phase = signal_checked h })
      signal_writes :
          {h : ℕ}
          → s.phase ≡ signal_checked h
          → Step s (record s {
            phase = signal_written h;
            client = record (s.client) {
              inbound_queue = record (s.client.inbound_queue) {
                buffer = set s.client.inbound_queue.buffer h [];
              };
            };
          })
      signal_publishes :
          {h : ℕ}
          → s.phase ≡ signal_written h
          → Step s (record s {
            phase = signalled;
            client = record (s.client) {
              inbound_queue = record (s.client.inbound_queue) {
                head = next_index inbound_capacity h;
              };
            };
            delivered = s.delivered ++ [] ∷ [];
          })
      requests_stop :
          s.phase ≡ signalled → Step s (record s { phase = slept; receiver_running = false })
      stops_sender :
          s.phase ≡ slept → Step s (record s { phase = joining_sender; sender_running = false })
      joins_sender :
          s.phase ≡ joining_sender
          → s.sender ≡ no_sender
          → Step s (record s { phase = sender_joined })
      stops_receiver :
          s.phase ≡ sender_joined
          → Step s (record s {
            phase = joining_receiver;
            receiver_running = false;
            ws = Websocket.close beast s.ws;
          })
      joins_receiver :
          s.phase ≡ joining_receiver
          → s.receiver ≡ no_receiver
          → Step s (record s { phase = receiver_joined })
      joins_dispatcher :
          s.phase ≡ receiver_joined
          → s.dispatcher ≡ no_dispatcher
          → Step s (record s { phase = closed })

    pub data Steps (s : System F S U W) : System F S U W → Type 0 where
      here : Steps s s
      next : {t u : System F S U W} → Steps s t → Step t u → Steps s u
