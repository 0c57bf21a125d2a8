-- ===== src/Tests/Sessions.antt =====
-- The whole client, on the streams of `Reception` and the documents of `Json`.
use hft_deribit.Prelude.{
  ℕ, set, ◌&&◌, not, ◌==◌, ◌≡◌, refl, true, false, List, [], ◌∷◌, ◌++◌, Option, some, Text, codes,
  map, is_empty, if◌then◌else◌, inl,
}
use hft_deribit.SpscQueue.Holds.{Holds}
use hft_deribit.SpscQueue.{next_index, push, pop, init}
use hft_deribit.Prelude.Decimal.{to_string}
use hft_deribit.RateLimiter
use hft_deribit.RateLimiter.{RateLimiter, allow_request}
use hft_deribit.RequestSender.{throttle, authorize, contains}
use hft_deribit.DeribitClient.{
  Client, ok, get_env, load_credentials_from_env, new_client, blank_client, inbound_capacity,
  outbound_capacity,
}
use hft_deribit.DeribitClient.Calls.{rpc_message, send_rpc, enqueue}
use hft_deribit.System.{
  Steps, here, next, calls, opens, starts_receiver, starts_sender, receiver_goes_on, read_begins,
  reads, push_loads, push_checks, push_writes, push_publishes, sender_goes_on, sender_waits,
  sender_pops, authorizes, sends,
}
use hft_deribit.System.State.{System, Phase, Receiving, Sending, accepts, initial}
use hft_deribit.System.Outbound.{taken, completed, requests_in_order}
use hft_deribit.System.Inbound.{messages_in_order}
use hft_deribit.Websocket.{connect, send, read_stream}
use hft_deribit.Tests.Json.{num, reader}
use hft_deribit.Tests.Reception.{player, traffic}

abbrev pub env : Text → Option Text
env var = some (codes "x")

abbrev pub client : Client ℕ ℕ ℕ
client = record (blank_client 0) { client_id = codes "x"; client_secret = codes "x" }

pub made : new_client env 0 ≡ ok client
unfolding new_client load_credentials_from_env get_env
made = refl

abbrev pub Session : Type 0
Session = System ℕ ℕ ℕ (List (Option Text))

abbrev pub first : Session
first = initial client traffic 0

-- The host of the handshake has the port behind it.
pub connects : (connect player traffic).1 ≡ true
unfolding connect to_string
connects = refl

-- A handshake that fails is an exception.
refused : (connect (record player { handshake_tls = λ s. (s, false) }) traffic).1 ≡ false
unfolding connect to_string
refused = refl

abbrev s_opened : Session
s_opened = record first {
  phase = Phase.opened;
  ws = record (first.ws) { stream = (connect player traffic).0 };
  client = record (first.client) { connected = true };
  connects = 1;
}

abbrev pub s_receiver : Session
s_receiver = record s_opened {
  phase = Phase.receiver_up;
  receiver_running = true;
  receiver = Receiving.at_loop;
}

abbrev s_read : Session
s_read = record s_receiver {
  ws = (read_stream player s_receiver.ws).0;
  receiver =
      if is_empty (read_stream player s_receiver.ws).1
      then Receiving.no_receiver
      else Receiving.at_push (read_stream player s_receiver.ws).1;
}

read_message : s_read.receiver ≡ Receiving.at_push (1 ∷ [])
unfolding read_stream connect
read_message = refl

-- The accesses of the push, one after the other.
abbrev pub s_received : Session
s_received = record s_read {
  receiver = Receiving.at_loop;
  client = record (s_read.client) {
    inbound_queue = record (s_read.client.inbound_queue) {
      buffer = set s_read.client.inbound_queue.buffer 0 (1 ∷ []);
      head = next_index inbound_capacity 0;
    };
  };
  delivered = [] ++ (1 ∷ []) ∷ [];
}

pub empty_room : (next_index inbound_capacity 0 == 0) ≡ false
unfolding next_index
empty_room = refl

pub to_received : Steps (reader (num 0)) player first s_received
unfolding blank_client init
to_received =
    next
      (next
        (next
          (next
            (next
              (next
                (next (next (next here (opens (inl refl) connects)) (starts_receiver refl))
                  (receiver_goes_on refl refl))
                (read_begins refl refl))
              (reads refl))
            (push_loads read_message))
          (push_checks refl empty_room))
        (push_writes refl))
      (push_publishes refl)

messages_in_order_example :
    (waiting : List Text) × (s_received.delivered ≡ [] ++ waiting)
    × Holds inbound_capacity s_received.client.inbound_queue waiting
messages_in_order_example =
    messages_in_order (reader (num 0)) player env 0 0 client traffic made to_received refl

-- A request that the caller makes while the sender starts, and that goes out.
abbrev pub ping : Text
ping = rpc_message 7 (codes "public/ping") (codes "{}")

-- It gets no token.
pub ping_public :
    (token : Text)
    → (if contains (codes "\"private/") ping && not (is_empty token)
        then Sending.at_insert ping
        else Sending.at_send ping)
      ≡ Sending.at_send ping
unfolding contains rpc_message to_string
ping_public token = refl

abbrev pub s_called : Session
s_called = record s_receiver {
  phase = Phase.sender_up;
  sender_running = true;
  sender = Sending.at_running;
  client = (send_rpc s_receiver.client 5 7 (codes "public/ping") (codes "{}")).0;
  accepted = accepts s_receiver 5 ping;
}

pub waited :
    throttle (RateLimiter.init 0) (10 ∷ []) ≡ some ((allow_request (RateLimiter.init 0) 10).0, [])
unfolding throttle allow_request RateLimiter.init
waited = refl

pub pinged : (pop outbound_capacity s_called.client.outbound_queue).1 ≡ some ping
unfolding send_rpc enqueue allow_request push pop blank_client RateLimiter.init init
pinged = refl

abbrev s_sent : Session
s_sent = record s_called {
  sender = Sending.at_running;
  sender_limiter = (allow_request (RateLimiter.init 0) 10).0;
  client = record (s_called.client) {
    outbound_queue = (pop outbound_capacity s_called.client.outbound_queue).0;
  };
  ws = send player s_called.ws ping;
  wire = [] ++ ping ∷ [];
}

to_sent : Steps (reader (num 0)) player first s_sent
to_sent =
    next
      (next
        (next
          (next
            (next
              (next
                (next (next (next here (opens (inl refl) connects)) (starts_receiver refl))
                  (starts_sender refl))
                (calls 5 7 (codes "public/ping") (codes "{}")))
              (sender_goes_on refl refl))
            (sender_waits refl (10 ∷ []) waited))
          (sender_pops refl pinged))
        (authorizes refl))
      (sends (ping_public s_called.client.access_token))

requests_in_order_example :
    (handled : List (Text × Text)) × (waiting : List Text) × (s_sent.wire ++ completed s_sent.sender
      ≡ map (λ p. authorize p.0 p.1) handled)
    × (s_sent.accepted ≡ (map (λ p. p.1) handled ++ taken s_sent.sender) ++ waiting)
    × Holds outbound_capacity s_sent.client.outbound_queue waiting
requests_in_order_example =
    requests_in_order (reader (num 0)) player env 0 0 client traffic made to_sent
