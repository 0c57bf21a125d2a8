-- ===== src/System/Leftovers.antt =====
-- What the threads still do while `close` stops them: each was told by a flag that it tests once in
-- a round, and finishes the round that it is in.
use hft_deribit.Prelude.{
  ℕ, ◌+◌, ◌≤◌, ◌≡◌, ap, arith, [], ◌∷◌, Option, Text, length, length-append, is_empty, Bool-cases,
  inl, inr,
}
use hft_deribit.Json.{Simdjson}
use hft_deribit.Websocket.{Beast, read_stream}
use hft_deribit.DeribitClient.{Client, ok, new_client}
use hft_deribit.System.{
  Step, Steps, here, next, starts_receiver, starts_sender, starts_dispatcher, receiver_goes_on,
  receiver_stops, read_begins, read_refused, reads, push_loads, push_refused, push_checks,
  push_writes, push_publishes, inserts, sender_goes_on, sender_stops, sender_waits, sender_pops,
  sender_misses, authorizes, sends, dispatcher_pops, dispatcher_goes_on, dispatcher_stops,
  dispatches, signal_refused, signal_publishes,
}
use hft_deribit.System.State.{
  Receiving, no_receiver, at_loop, Sending, no_sender, at_running, Dispatching, no_dispatcher,
  at_test, System, initial,
}
use hft_deribit.System.Effects.{passed_connected}
use hft_deribit.System.Phases.{
  rank, rank_mono, calls_mono, all_calls_mono, IsPhased, Steps-IsPhased, initial-IsPhased,
}

-- How many requests and messages each thread can still move when its flag is cleared.
abbrev sends_left : Sending → ℕ
sends_left no_sender = 0
sends_left at_running = 0
sends_left _ = 1

abbrev pushes_left : Receiving → ℕ
pushes_left no_receiver = 0
pushes_left at_loop = 0
pushes_left _ = 1

abbrev pops_left : Dispatching → ℕ
pops_left no_dispatcher = 0
pops_left (at_test msg) = 0
pops_left _ = 1

record IsBounded {F S U W : Type 0} (a b d : ℕ) (s : System F S U W) : Type 0 where
  late : 8 ≤ rank s.phase
  sending : length s.wire + sends_left s.sender ≤ a
  pushing : length s.delivered + pushes_left s.receiver ≤ b
  popping : length s.dispatched + pops_left s.dispatcher ≤ d

module _ {F S U W : Type 0} (j : Simdjson) (beast : Beast W) (a b d : ℕ) where
  Step-IsBounded :
      {s t : System F S U W}
      → Step j beast s t
      → t.connects ≡ s.connects
      → t.closes ≡ s.closes
      → IsPhased s
      → IsBounded a b d s
      → IsBounded a b d t
  Step-IsBounded (starts_receiver e) ca cl i h = ground (arith, ap rank e)
  Step-IsBounded (starts_sender e) ca cl i h = ground (arith, ap rank e)
  Step-IsBounded (starts_dispatcher e) ca cl i h = ground (arith, ap rank e)
  Step-IsBounded (receiver_goes_on e on) ca cl i h = ground arith
  Step-IsBounded (receiver_stops e off) ca cl i h = ground (arith, ap pushes_left e)
  Step-IsBounded (read_begins e on) ca cl i h = ground (arith, ap pushes_left e)
  Step-IsBounded (read_refused e off) ca cl i h = ground (arith, ap pushes_left e)
  Step-IsBounded {s} (reads e) ca cl i h =
      let held = ap pushes_left e in
      elim (Bool-cases (is_empty (read_stream beast s.ws).1)) [
        | inl nothing ↦ record {
          late = h.late;
          sending = h.sending;
          pushing = rw nothing (omega (arith, h.pushing));
          popping = h.popping;
        }
        | inr something ↦ record {
          late = h.late;
          sending = h.sending;
          pushing = rw something (omega (arith, h.pushing, held));
          popping = h.popping;
        }
      ]
  Step-IsBounded (push_loads e) ca cl i h = ground (arith, ap pushes_left e)
  Step-IsBounded (push_refused e full) ca cl i h = ground (arith, ap pushes_left e)
  Step-IsBounded (push_checks e room) ca cl i h = ground (arith, ap pushes_left e)
  Step-IsBounded (push_writes e) ca cl i h = ground (arith, ap pushes_left e)
  Step-IsBounded {s} (push_publishes {msg} e) ca cl i h =
      ground (arith, ap pushes_left e, length-append s.delivered (msg ∷ []))
  Step-IsBounded (sender_goes_on e on) ca cl i h = ground arith
  Step-IsBounded (sender_stops e off) ca cl i h = ground (arith, ap sends_left e)
  Step-IsBounded (sender_waits e times w) ca cl i h = ground (arith, ap sends_left e)
  Step-IsBounded (sender_pops e found) ca cl i h = ground (arith, ap sends_left e)
  Step-IsBounded (sender_misses e nothing) ca cl i h = ground (arith, ap sends_left e)
  Step-IsBounded (authorizes e) ca cl i h = ground (arith, ap sends_left e)
  Step-IsBounded (inserts e) ca cl i h = ground (arith, ap sends_left e)
  Step-IsBounded {s} (sends {msg} e) ca cl i h =
      ground (arith, ap sends_left e, length-append s.wire (msg ∷ []))
  Step-IsBounded {s} (dispatcher_pops {msg} e found) ca cl i h =
      ground (arith, ap pops_left e, length-append s.dispatched (msg ∷ []))
  Step-IsBounded {s} (dispatcher_goes_on {msg} e passed) ca cl i h =
      ground (arith, passed_connected s.client.connected (is_empty msg) passed)
  Step-IsBounded (dispatcher_stops e failed) ca cl i h = ground (arith, ap pops_left e)
  Step-IsBounded (dispatches e done) ca cl i h = ground (arith, ap pops_left e)
  Step-IsBounded (signal_refused e full) ca cl i h = ground (arith, ap rank e)
  Step-IsBounded (signal_publishes e) ca cl i h = ground (arith, ap rank e)
  Step-IsBounded st ca cl i h = record {
    late = omega (arith, h.late, rank_mono j beast st ca cl);
    sending = h.sending;
    pushing = h.pushing;
    popping = h.popping;
  }

  Steps-IsBounded :
      {s t : System F S U W}
      → Steps j beast s t
      → t.connects ≡ s.connects
      → t.closes ≡ s.closes
      → IsPhased s
      → IsBounded a b d s
      → IsBounded a b d t
  Steps-IsBounded here ca cl i h = h
  Steps-IsBounded {s} {t} (next {t = u} before last) ca cl i h =
      let (more, more') = all_calls_mono j beast before in
      let (last_more, last_more') = calls_mono j beast last in
      let before_ca : u.connects ≡ s.connects = omega arith in
      let before_cl : u.closes ≡ s.closes = omega arith in
      let last_ca : t.connects ≡ u.connects = omega arith in
      let last_cl : t.closes ≡ u.closes = omega arith in
      Step-IsBounded last last_ca last_cl (Steps-IsPhased j beast before i)
        (Steps-IsBounded before before_ca before_cl i h)

sends_left-le : (w : Sending) → sends_left w ≤ 1
sends_left-le no_sender = omega arith
sends_left-le at_running = omega arith
sends_left-le _ = omega arith

pushes_left-le : (w : Receiving) → pushes_left w ≤ 1
pushes_left-le no_receiver = omega arith
pushes_left-le at_loop = omega arith
pushes_left-le _ = omega arith

pops_left-le : (w : Dispatching) → pops_left w ≤ 1
pops_left-le no_dispatcher = omega arith
pops_left-le (at_test msg) = omega arith
pops_left-le _ = omega arith

module _ {F S U W : Type 0} (j : Simdjson) (beast : Beast W) where
  -- Once `close` of a new client has cleared the flags of the receiver and the sender: whatever the
  -- threads do until the caller calls `connect` or `close` again, at most one more request goes to the websocket, at most one more message to the
  -- inbound queue, and at most one more to the dispatcher.
  pub one_more_at_most :
      (env : Text → Option Text) (now start : ℕ) (c : Client F S U) (stream : W)
      {s t : System F S U W}
      → new_client env now ≡ ok c
      → Steps j beast (initial c stream start) s
      → 8 ≤ rank s.phase
      → Steps j beast s t
      → t.connects ≡ s.connects
      → t.closes ≡ s.closes
      → (length t.wire ≤ length s.wire + 1)
        × (length t.delivered ≤ length s.delivered + 1)
        × (length t.dispatched ≤ length s.dispatched + 1)
  one_more_at_most env now start c stream {s} {t} e before late after ca cl =
      let phased = Steps-IsPhased j beast before (initial-IsPhased c stream start) in
      let first : IsBounded (length s.wire + 1) (length s.delivered + 1) (length s.dispatched + 1)
          s =
        record {
          late = late;
          sending = omega (arith, sends_left-le s.sender);
          pushing = omega (arith, pushes_left-le s.receiver);
          popping = omega (arith, pops_left-le s.dispatcher);
        } in
      let last = Steps-IsBounded j beast _ _ _ after ca cl phased first in
      (omega (arith, last.sending), omega (arith, last.pushing), omega (arith, last.popping))
