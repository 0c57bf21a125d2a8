-- ===== src/Tests/Closings.antt =====
-- The end of a session, on the streams of `Reception` and the documents of `Json`.
use hft_deribit.Prelude.{
  ℕ, set, ◌≡◌, ◌≤◌, ◌+◌, length, refl, arith, true, false, List, [], ◌∷◌, ◌++◌, Option, some, none,
  Text, codes, is_empty, if◌then◌else◌, inl, inr,
}
use hft_deribit.SpscQueue.Holds.{Holds}
use hft_deribit.SpscQueue.{next_index, pop, init}
use hft_deribit.Prelude.Decimal.{to_string}
use hft_deribit.RateLimiter
use hft_deribit.RateLimiter.{RateLimiter, allow_request}
use hft_deribit.DeribitClient.{blank_client, inbound_capacity, outbound_capacity}
use hft_deribit.DeribitClient.Calls.{rpc_message, send_rpc, enqueue}
use hft_deribit.System.{
  Steps, here, next, calls, opens, starts_receiver, starts_sender, starts_dispatcher,
  receiver_goes_on, read_begins, reads, receiver_stops, sender_stops, dispatcher_pops,
  dispatcher_stops, sender_goes_on, sender_waits, sender_pops, authorizes, sends, disconnects,
  signal_loads, signal_checks, signal_writes, signal_publishes, requests_stop, stops_sender,
  joins_sender, stops_receiver, joins_receiver, joins_dispatcher,
}
use hft_deribit.System.State.{Phase, Receiving, Sending, Dispatching, accepts, initial}
use hft_deribit.System.Leftovers.{one_more_at_most}
use hft_deribit.System.Silence.{silent_until_close}
use hft_deribit.Websocket.{connect, close, send, read_stream}
use hft_deribit.System.Closing.{close_can_return, closed_is_quiet}
use hft_deribit.Tests.Json.{num, reader}
use hft_deribit.Tests.Reception.{player, traffic}
use hft_deribit.Tests.Sessions.{
  Session, env, client, made, first, connects, s_receiver, s_received, empty_room, to_received,
  ping, ping_public, s_called, waited, pinged,
}

-- All threads run when the caller closes the client.
abbrev s_up : Session
s_up = record s_received {
  phase = Phase.up;
  sender_running = true;
  sender = Sending.at_running;
  dispatcher = Dispatching.at_wait;
}

abbrev s_closing : Session
s_closing = record s_up {
  phase = Phase.disconnected;
  client = record (s_up.client) { connected = false };
  closes = 1;
}

to_closing : Steps (reader (num 0)) player first s_closing
to_closing =
    next (next (next to_received (starts_sender refl)) (starts_dispatcher refl))
      (disconnects (inr (inl refl)))

close_can_return_example :
    (t : Session) × Steps (reader (num 0)) player s_closing t
    × (t.phase ≡ Phase.closed)
    × (t.sender ≡ Sending.no_sender)
    × (t.receiver ≡ Receiving.no_receiver)
    × (t.dispatcher ≡ Dispatching.no_dispatcher)
close_can_return_example =
    close_can_return (reader (num 0)) player env 0 0 client traffic made to_closing (omega arith)
      (λ msg e. cc)

-- A client that has connected and is closed when no message waits and its threads have just started.
abbrev s_started : Session
s_started = record s_receiver {
  phase = Phase.up;
  sender_running = true;
  sender = Sending.at_running;
  dispatcher = Dispatching.at_wait;
}

to_started : Steps (reader (num 0)) player first s_started
to_started =
    next
      (next (next (next here (opens (inl refl) connects)) (starts_receiver refl))
        (starts_sender refl))
      (starts_dispatcher refl)

-- The message of `close` is in the queue.
abbrev s_signalled : Session
s_signalled = record s_started {
  phase = Phase.signalled;
  client = record (s_started.client) {
    connected = false;
    inbound_queue = record (s_started.client.inbound_queue) {
      buffer = set s_started.client.inbound_queue.buffer 0 [];
      head = next_index inbound_capacity 0;
    };
  };
  closes = 1;
  delivered = [] ++ [] ∷ [];
}

to_signalled : Steps (reader (num 0)) player first s_signalled
unfolding blank_client init
to_signalled =
    next
      (next
        (next (next (next to_started (disconnects (inr (inl refl)))) (signal_loads refl))
          (signal_checks refl empty_room))
        (signal_writes refl))
      (signal_publishes refl)

signal_popped : (pop inbound_capacity s_signalled.client.inbound_queue).1 ≡ some []
unfolding pop next_index blank_client init
signal_popped = refl

abbrev s_closed : Session
s_closed = record s_signalled {
  phase = Phase.closed;
  sender = Sending.no_sender;
  sender_running = false;
  receiver = Receiving.no_receiver;
  receiver_running = false;
  dispatcher = Dispatching.no_dispatcher;
  client = record (s_signalled.client) {
    inbound_queue = (pop inbound_capacity s_signalled.client.inbound_queue).0;
  };
  dispatched = [] ++ [] ∷ [];
  ws = close player s_signalled.ws;
}

to_closed : Steps (reader (num 0)) player first s_closed
to_closed =
    next
      (next
        (next
          (next
            (next
              (next
                (next
                  (next (next (next to_signalled (requests_stop refl)) (stops_sender refl))
                    (sender_stops refl refl))
                  (joins_sender refl refl))
                (stops_receiver refl))
              (receiver_stops refl refl))
            (joins_receiver refl refl))
          (dispatcher_pops refl signal_popped))
        (dispatcher_stops refl refl))
      (joins_dispatcher refl refl)

-- Then a request, and the beginning of another `close`.
abbrev s_called_late : Session
s_called_late = record s_closed {
  client = (send_rpc s_closed.client 5 7 (codes "public/ping") (codes "{}")).0;
  accepted = accepts s_closed 5 (rpc_message 7 (codes "public/ping") (codes "{}"));
}

abbrev s_later : Session
s_later = record s_called_late {
  phase = Phase.disconnected;
  client = record (s_called_late.client) { connected = false };
  closes = 2;
}

closed_is_quiet_example :
    (false ≡ false)
    × (Sending.no_sender ≡ Sending.no_sender)
    × (Receiving.no_receiver ≡ Receiving.no_receiver)
    × (Dispatching.no_dispatcher ≡ Dispatching.no_dispatcher)
    × (s_later.sender ≡ Sending.no_sender)
    × (s_later.receiver ≡ Receiving.no_receiver)
    × (s_later.dispatcher ≡ Dispatching.no_dispatcher)
    × (s_later.client.connected ≡ false)
    × (s_later.wire ≡ s_closed.wire)
    × (s_later.dispatched ≡ s_closed.dispatched)
closed_is_quiet_example =
    closed_is_quiet (reader (num 0)) player env 0 0 client traffic made to_closed refl
      (next (next here (calls 5 7 (codes "public/ping") (codes "{}")))
        (disconnects (inr (inr refl))))
      refl

-- The receiver ends, by an error of the stream, before anything came.
abbrev mute : List (Option Text)
mute = none ∷ []

abbrev m_opened : Session
m_opened = record (initial client mute 0) {
  phase = Phase.opened;
  ws = record ((initial {F = ℕ} {S = ℕ} {U = ℕ} client mute 0).ws) {
    stream = (connect player mute).0;
  };
  client = record client { connected = true };
  connects = 1;
}

abbrev m_receiver : Session
m_receiver = record m_opened {
  phase = Phase.receiver_up;
  receiver_running = true;
  receiver = Receiving.at_loop;
}

abbrev m_ended : Session
m_ended = record m_receiver {
  ws = (read_stream player m_receiver.ws).0;
  receiver =
      if is_empty (read_stream player m_receiver.ws).1
      then Receiving.no_receiver
      else Receiving.at_push (read_stream player m_receiver.ws).1;
}

abbrev m_up : Session
m_up = record m_ended {
  phase = Phase.up;
  sender_running = true;
  sender = Sending.at_running;
  dispatcher = Dispatching.at_wait;
}

m_connects : (connect player mute).1 ≡ true
unfolding connect to_string
m_connects = refl

to_up : Steps (reader (num 0)) player (initial client mute 0) m_up
to_up =
    next
      (next
        (next
          (next
            (next (next (next here (opens (inl refl) m_connects)) (starts_receiver refl))
              (receiver_goes_on refl refl))
            (read_begins refl refl))
          (reads refl))
        (starts_sender refl))
      (starts_dispatcher refl)

m_up_ended : m_up.receiver ≡ Receiving.no_receiver
unfolding read_stream connect
m_up_ended = refl

-- A request is still taken then.
abbrev m_later : Session
m_later = record m_up {
  client = (send_rpc m_up.client 5 7 (codes "public/ping") (codes "{}")).0;
  accepted = accepts m_up 5 (rpc_message 7 (codes "public/ping") (codes "{}"));
}

silent_until_close_example :
    (m_later.phase ≡ Phase.up)
    × (m_later.client.connected ≡ true)
    × (m_later.receiver ≡ Receiving.no_receiver)
    × (m_later.delivered ≡ m_up.delivered)
    × ((waiting : List Text) × (m_up.delivered ≡ [] ++ waiting)
        × Holds inbound_capacity m_later.client.inbound_queue waiting)
silent_until_close_example =
    silent_until_close (reader (num 0)) player env 0 0 client mute made to_up refl m_up_ended
      (next here (calls 5 7 (codes "public/ping") (codes "{}"))) refl

-- The sender has taken a request when `close` tells it to stop.
abbrev l_taken : Session
l_taken = record s_called {
  phase = Phase.up;
  sender = Sending.at_token ping;
  sender_limiter = (allow_request (RateLimiter.init 0) 10).0;
  client = record (s_called.client) {
    outbound_queue = (pop outbound_capacity s_called.client.outbound_queue).0;
  };
  dispatcher = Dispatching.at_wait;
}

abbrev l_closing : Session
l_closing = record l_taken {
  phase = Phase.joining_sender;
  client = record (l_taken.client) {
    connected = false;
    inbound_queue = record (l_taken.client.inbound_queue) {
      buffer = set l_taken.client.inbound_queue.buffer 0 [];
      head = next_index inbound_capacity 0;
    };
  };
  closes = 1;
  delivered = [] ++ [] ∷ [];
  receiver_running = false;
  sender_running = false;
}

to_l_taken : Steps (reader (num 0)) player first l_taken
to_l_taken =
    next
      (next
        (next
          (next
            (next
              (next (next (next here (opens (inl refl) connects)) (starts_receiver refl))
                (starts_sender refl))
              (calls 5 7 (codes "public/ping") (codes "{}")))
            (sender_goes_on refl refl))
          (sender_waits refl (10 ∷ []) waited))
        (sender_pops refl pinged))
      (starts_dispatcher refl)

to_l_closing : Steps (reader (num 0)) player first l_closing
unfolding blank_client init send_rpc enqueue allow_request RateLimiter.init
to_l_closing =
    next
      (next
        (next
          (next
            (next (next (next to_l_taken (disconnects (inr (inl refl)))) (signal_loads refl))
              (signal_checks refl empty_room))
            (signal_writes refl))
          (signal_publishes refl))
        (requests_stop refl))
      (stops_sender refl)

abbrev l_ready : Session
l_ready = record l_closing { sender = Sending.at_send ping }

abbrev l_sent : Session
l_sent = record l_ready {
  sender = Sending.at_running;
  ws = send player l_ready.ws ping;
  wire = [] ++ ping ∷ [];
}

one_more_at_most_example :
    (length l_sent.wire ≤ length l_closing.wire + 1)
    × (length l_sent.delivered ≤ length l_closing.delivered + 1)
    × (length l_sent.dispatched ≤ length l_closing.dispatched + 1)
one_more_at_most_example =
    one_more_at_most (reader (num 0)) player env 0 0 client traffic made to_l_closing (omega arith)
      (next (next here (authorizes refl)) (sends (ping_public l_closing.client.access_token))) refl
      refl
