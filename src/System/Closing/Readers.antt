-- ===== src/System/Closing/Readers.antt =====
-- How the dispatcher and the receiver come to their ends, from every place that they can be at.
use hft_deribit.Prelude.{
  ℕ, ◌==◌, ◌≤◌, ◌≡◌, refl, ap, arith, Bool, true, false, not, ◌||◌, Text, is_empty, Bool-cases, inl,
  inr,
}
use hft_deribit.SpscQueue.{next_index}
use hft_deribit.DeribitClient.{inbound_capacity}
use hft_deribit.Json.{Simdjson}
use hft_deribit.Websocket.{Beast, read_stream}
use hft_deribit.System.{
  here, receiver_stops, read_refused, reads, push_loads, push_refused, push_checks, push_writes,
  push_publishes, dispatcher_pops, dispatcher_stops, joins_receiver, joins_dispatcher,
}
use hft_deribit.System.State.{
  joining_receiver, receiver_joined, Receiving, no_receiver, at_loop, at_read, in_read, at_push,
  push_loaded, push_checked, push_written, Dispatching, no_dispatcher, at_wait, at_test,
  in_dispatch, System,
}
use hft_deribit.System.Phases.{rank}
use hft_deribit.System.Ending.{will_wait, pop_found}
use hft_deribit.System.Closing.Sound.{is_dispatching, Returns, IsAt, step, goes}

-- The test of the dispatcher's loop in a client that is not connected.
off_fails : (connected empty : Bool) → connected ≡ false → (not connected || empty) ≡ true
off_fails false empty e = refl
off_fails true empty e = cc

module _ {F S U W : Type 0} (j : Simdjson) (beast : Beast W) where
  -- The dispatcher
  dispatcher_ended :
      (s : System F S U W)
      → s.dispatcher ≡ no_dispatcher
      → IsAt j beast receiver_joined s
      → Returns j beast s
  dispatcher_ended s e i = step j beast (joins_dispatcher i.at e) i.sound (λ k. (_, here, k, refl))

  dispatcher_tests :
      (s : System F S U W) (msg : Text)
      → s.dispatcher ≡ at_test msg
      → IsAt j beast receiver_joined s
      → Returns j beast s
  dispatcher_tests s msg e i =
      let off = i.sound.phased.off (ground (arith, ap rank i.at)) in
      goes j beast (dispatcher_stops e (off_fails s.client.connected (is_empty msg) off)) i.sound
        i.at refl (dispatcher_ended _ refl)

  dispatcher_waits :
      (s : System F S U W)
      → s.dispatcher ≡ at_wait
      → IsAt j beast receiver_joined s
      → Returns j beast s
  dispatcher_waits s e i =
      let late : 6 ≤ rank s.phase = ground (arith, ap rank i.at) in
      let fed = i.sound.filled in
      let (msg, found) =
        pop_found s.client.inbound_queue fed.size fed.tail_in (fed.filled late (ap will_wait e)) in
      goes j beast (dispatcher_pops e found) i.sound i.at refl (dispatcher_tests _ msg refl)

  from_dispatcher :
      (s : System F S U W) (w : Dispatching)
      → s.dispatcher ≡ w
      → IsAt j beast receiver_joined s
      → Returns j beast s
  from_dispatcher s no_dispatcher e i = dispatcher_ended s e i
  from_dispatcher s at_wait e i = dispatcher_waits s e i
  from_dispatcher s (at_test msg) e i = dispatcher_tests s msg e i
  from_dispatcher s (in_dispatch msg) e i =
      let b = ap is_dispatching e in let f = i.free in absurd cc

  pub from_receiver_joined :
      (s : System F S U W) → IsAt j beast receiver_joined s → Returns j beast s
  from_receiver_joined s i = from_dispatcher s s.dispatcher refl i

  -- The receiver
  receiver_ended :
      (s : System F S U W)
      → s.receiver ≡ no_receiver
      → IsAt j beast joining_receiver s
      → Returns j beast s
  receiver_ended s e i =
      goes j beast (joins_receiver i.at e) i.sound refl i.free (from_receiver_joined _)

  receiver_loops :
      (s : System F S U W)
      → s.receiver ≡ at_loop
      → IsAt j beast joining_receiver s
      → Returns j beast s
  receiver_loops s e i =
      let off = i.sound.phased.receiver_stopped (ground (arith, ap rank i.at)) in
      goes j beast (receiver_stops e off) i.sound i.at i.free (receiver_ended _ refl)

  -- The rest of a push
  receiver_publishes :
      (s : System F S U W) (msg : Text) (h : ℕ)
      → s.receiver ≡ push_written msg h
      → IsAt j beast joining_receiver s
      → Returns j beast s
  receiver_publishes s msg h e i =
      goes j beast (push_publishes e) i.sound i.at i.free (receiver_loops _ refl)

  receiver_writes :
      (s : System F S U W) (msg : Text) (h : ℕ)
      → s.receiver ≡ push_checked msg h
      → IsAt j beast joining_receiver s
      → Returns j beast s
  receiver_writes s msg h e i =
      goes j beast (push_writes e) i.sound i.at i.free (receiver_publishes _ msg h refl)

  receiver_checks :
      (s : System F S U W) (msg : Text) (h : ℕ)
      → s.receiver ≡ push_loaded msg h
      → IsAt j beast joining_receiver s
      → Returns j beast s
  receiver_checks s msg h e i =
      elim (Bool-cases (next_index inbound_capacity h == s.client.inbound_queue.tail)) [
        | inl full ↦ goes j beast (push_refused e full) i.sound i.at i.free (receiver_loops _ refl)
        | inr room ↦
            goes j beast (push_checks e room) i.sound i.at i.free (receiver_writes _ msg h refl)
      ]

  receiver_holds :
      (s : System F S U W) (msg : Text)
      → s.receiver ≡ at_push msg
      → IsAt j beast joining_receiver s
      → Returns j beast s
  receiver_holds s msg e i =
      goes j beast (push_loads e) i.sound i.at i.free (receiver_checks _ msg _ refl)

  receiver_reads :
      (s : System F S U W)
      → s.receiver ≡ in_read
      → IsAt j beast joining_receiver s
      → Returns j beast s
  receiver_reads s e i =
      goes j beast (reads e) i.sound i.at i.free
        (elim (Bool-cases (is_empty (read_stream beast s.ws).1)) [
          | inl nothing ↦ receiver_ended _ (rw nothing refl)
          | inr something ↦ receiver_holds _ (read_stream beast s.ws).1 (rw something refl)
        ])

  from_receiver :
      (s : System F S U W) (w : Receiving)
      → s.receiver ≡ w
      → IsAt j beast joining_receiver s
      → Returns j beast s
  from_receiver s no_receiver e i = receiver_ended s e i
  from_receiver s at_loop e i = receiver_loops s e i
  from_receiver s at_read e i =
      let shut = i.sound.phased.shutting (ground (arith, ap rank i.at)) in
      goes j beast (read_refused e shut) i.sound i.at i.free (receiver_ended _ refl)
  from_receiver s in_read e i = receiver_reads s e i
  from_receiver s (at_push msg) e i = receiver_holds s msg e i
  from_receiver s (push_loaded msg h) e i = receiver_checks s msg h e i
  from_receiver s (push_checked msg h) e i = receiver_writes s msg h e i
  from_receiver s (push_written msg h) e i = receiver_publishes s msg h e i

  pub from_joining_receiver :
      (s : System F S U W) → IsAt j beast joining_receiver s → Returns j beast s
  from_joining_receiver s i = from_receiver s s.receiver refl i
