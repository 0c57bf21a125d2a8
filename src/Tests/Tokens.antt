-- ===== src/Tests/Tokens.antt =====
-- A session in which the answer to the authentication arrives, and a private request follows.
use hft_deribit.Prelude.{
  ℕ, set, ◌&&◌, not, inl, ◌≡◌, refl, true, false, List, [], ◌∷◌, ◌++◌, none, some, Text, codes, map,
  is_empty, if◌then◌else◌,
}
use hft_deribit.SpscQueue.{push, pop, init, next_index}
use hft_deribit.Prelude.Decimal.{to_string}
use hft_deribit.RateLimiter
use hft_deribit.RateLimiter.{allow_request}
use hft_deribit.Json.{field_uint64, field_object, field_raw_json, member_string}
use hft_deribit.ParsedMessage.{new_message}
use hft_deribit.Dispatcher.{Dispatcher, Invocation, call_rpc, rpc_slot, invoke_rpc}
use hft_deribit.Dispatcher.Dispatch.{
  dispatch, dispatch_doc, detect_rpc, detect_subscription, consume_latency, handle_rpc,
  handle_subscription, has_error, read_result,
}
use hft_deribit.RequestSender.{authorize, contains}
use hft_deribit.Websocket.{read_stream, connect}
use hft_deribit.DeribitClient.{
  RpcCallback, auth_success, UserData, self, inbound_capacity, outbound_capacity, blank_client,
}
use hft_deribit.DeribitClient.Calls.{run_callbacks, run_callback, rpc_message, send_rpc, enqueue}
use hft_deribit.DeribitClient.Auth.{auth_handler}
use hft_deribit.System.{
  Steps, here, next, registers, calls, opens, starts_receiver, starts_sender, starts_dispatcher,
  receiver_goes_on, read_begins, reads, push_loads, push_checks, push_writes, push_publishes,
  inserts, insert_token, dispatcher_pops, dispatcher_goes_on, dispatches, sender_goes_on,
  sender_waits, sender_pops, authorizes,
}
use hft_deribit.System.State.{Phase, Receiving, Sending, Dispatching, accepts}
use hft_deribit.System.Outbound.{completed}
use hft_deribit.System.Tokens.{AreGiven, token_used_from_then_on}
use hft_deribit.Tests.Json.{reader}
use hft_deribit.Tests.Requests.{granted}
use hft_deribit.Tests.Reception.{player, traffic}
use hft_deribit.Tests.Sessions.{Session, env, client, made, first, connects, waited, empty_room}

abbrev listening : Dispatcher (RpcCallback ℕ) ℕ (UserData ℕ)
listening = record { rpc_handler = λ _. auth_handler; sub_handler = λ _. none }

abbrev g_up : Session
g_up = record first {
  phase = Phase.up;
  ws = record (first.ws) { stream = (connect player traffic).0 };
  client = record client { dispatcher = listening; connected = true };
  receiver_running = true;
  receiver = Receiving.at_loop;
  sender_running = true;
  sender = Sending.at_running;
  dispatcher = Dispatching.at_wait;
  connects = 1;
}

to_g_up : Steps (reader granted) player first g_up
to_g_up =
    next
      (next
        (next (next (next here (registers listening)) (opens (inl refl) connects))
          (starts_receiver refl))
        (starts_sender refl))
      (starts_dispatcher refl)

abbrev g_queued : Session
g_queued = record g_up {
  ws = (read_stream player g_up.ws).0;
  client = record (g_up.client) {
    inbound_queue = record (g_up.client.inbound_queue) {
      buffer = set g_up.client.inbound_queue.buffer 0 (1 ∷ []);
      head = next_index inbound_capacity 0;
    };
  };
  delivered = [] ++ (1 ∷ []) ∷ [];
}

has_read :
    (if is_empty (read_stream player g_up.ws).1
      then Receiving.no_receiver
      else Receiving.at_push (read_stream player g_up.ws).1)
    ≡ Receiving.at_push (1 ∷ [])
unfolding read_stream connect
has_read = refl

to_g_queued : Steps (reader granted) player first g_queued
unfolding blank_client init
to_g_queued =
    next
      (next
        (next
          (next
            (next (next (next to_g_up (receiver_goes_on refl refl)) (read_begins refl refl))
              (reads refl))
            (push_loads has_read))
          (push_checks refl empty_room))
        (push_writes refl))
      (push_publishes refl)

popped : (pop inbound_capacity g_queued.client.inbound_queue).1 ≡ some (1 ∷ [])
unfolding pop push next_index blank_client init
popped = refl

-- The dispatcher handles the answer.
abbrev answer : List (Invocation (RpcCallback ℕ) ℕ (UserData ℕ))
answer =
    call_rpc auth_success
      (record new_message {
        is_rpc = true;
        id = 9001;
        result = codes "raw";
        access_token = codes "abc";
      })
      (some self)
    ∷ []

answered : dispatch (reader granted) listening (1 ∷ []) ≡ some answer
unfolding dispatch dispatch_doc detect_rpc detect_subscription consume_latency handle_rpc
    handle_subscription has_error read_result field_uint64 field_raw_json field_object member_string
    rpc_slot invoke_rpc
answered = refl

abbrev g_popped : Session
g_popped = record g_queued {
  dispatcher = Dispatching.in_dispatch (1 ∷ []);
  client = record (g_queued.client) {
    inbound_queue = (pop inbound_capacity g_queued.client.inbound_queue).0;
  };
  dispatched = [] ++ (1 ∷ []) ∷ [];
}

abbrev g_granted : Session
g_granted = record g_popped {
  dispatcher = Dispatching.at_wait;
  client = run_callbacks g_popped.client answer;
}

to_granted : Steps (reader granted) player first g_granted
to_granted =
    next (next (next to_g_queued (dispatcher_pops refl popped)) (dispatcher_goes_on refl refl))
      (dispatches refl answered)

has_token : is_empty g_granted.client.access_token ≡ false
unfolding run_callbacks run_callback
has_token = refl

-- Then the caller makes a private request, and the sender completes it.
abbrev request : Text
request = rpc_message 7 (codes "private/x") (codes "{}")

abbrev g_called : Session
g_called = record g_granted {
  client = (send_rpc g_granted.client 5 7 (codes "private/x") (codes "{}")).0;
  accepted = accepts g_granted 5 request;
}

requested : (pop outbound_capacity g_called.client.outbound_queue).1 ≡ some request
unfolding run_callbacks run_callback send_rpc enqueue allow_request push pop next_index blank_client
    RateLimiter.init init
requested = refl

abbrev g_taken : Session
g_taken = record g_called {
  sender = Sending.at_token request;
  sender_limiter = (allow_request (RateLimiter.init 0) 10).0;
  client = record (g_called.client) {
    outbound_queue = (pop outbound_capacity g_called.client.outbound_queue).0;
  };
}

abbrev g_ready : Session
g_ready = record g_taken {
  sender = Sending.at_send (insert_token g_taken.client.access_token request);
}

-- The request is private, and there is a token.
wanted :
    (if contains (codes "\"private/") request && not (is_empty g_taken.client.access_token)
      then Sending.at_insert request
      else Sending.at_send request)
    ≡ Sending.at_insert request
unfolding contains run_callbacks run_callback rpc_message to_string send_rpc enqueue allow_request
    blank_client RateLimiter.init
wanted = refl

to_ready : Steps (reader granted) player g_granted g_ready
to_ready =
    next
      (next
        (next
          (next
            (next (next here (calls 5 7 (codes "private/x") (codes "{}")))
              (sender_goes_on refl refl))
            (sender_waits refl (10 ∷ []) waited))
          (sender_pops refl requested))
        (authorizes refl))
      (inserts wanted)

token_used_from_then_on_example :
    (is_empty g_ready.client.access_token ≡ false)
    × ((handled : List (Text × Text)) × AreGiven handled
        × (g_ready.wire ++ completed g_ready.sender
            ≡ (g_granted.wire ++ completed g_granted.sender)
              ++ map (λ p. authorize p.0 p.1) handled))
token_used_from_then_on_example =
    token_used_from_then_on (reader granted) player env 0 0 client traffic made to_granted has_token
      to_ready
