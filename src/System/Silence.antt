-- ===== src/System/Silence.antt =====
-- What is left of a session whose receiver has ended by an error of the stream or an empty message.
use hft_deribit.Prelude.{
  inl, inr, ℕ, ◌≡◌, refl, sym, ap, ◌∙◌, arith, true, List, ◌++◌, Option, Text,
}
use hft_deribit.SpscQueue.Holds.{Holds}
use hft_deribit.Json.{Simdjson}
use hft_deribit.Websocket.{Beast}
use hft_deribit.DeribitClient.{Client, ok, new_client, inbound_capacity}
use hft_deribit.System.{
  Step, Steps, here, next, opens, starts_receiver, starts_sender, starts_dispatcher,
  receiver_goes_on, receiver_stops, read_begins, read_refused, reads, push_loads, push_refused,
  push_checks, push_writes, push_publishes, disconnects, signal_loads, signal_refused,
  signal_checks, signal_writes, signal_publishes, requests_stop, stops_sender, joins_sender,
  stops_receiver, joins_receiver, joins_dispatcher,
}
use hft_deribit.System.State.{no_receiver, System, up, initial}
use hft_deribit.System.Inbound.{messages_in_order}
use hft_deribit.System.Phases.{rank, calls_mono, Steps-IsPhased, initial-IsPhased}

-- The caller has connected, the receiver has ended, and the inbound queue took no more than `log`.
record IsSilent {F S U W : Type 0} (log : List Text) (s : System F S U W) : Type 0 where
  started : s.phase ≡ up
  ended : s.receiver ≡ no_receiver
  same : s.delivered ≡ log

module _ {F S U W : Type 0} (j : Simdjson) (beast : Beast W) where
  Step-IsSilent :
      (log : List Text) {s t : System F S U W}
      → Step j beast s t
      → t.closes ≡ 0
      → IsSilent log s
      → IsSilent log t
  Step-IsSilent log (opens (inl e) done) live i = ground (arith, ap rank e)
  Step-IsSilent log (opens (inr e) done) live i = ground (arith, ap rank e)
  Step-IsSilent log (starts_receiver e) live i = ground (arith, ap rank e)
  Step-IsSilent log (starts_sender e) live i = ground (arith, ap rank e)
  Step-IsSilent log (starts_dispatcher e) live i = ground (arith, ap rank e)
  Step-IsSilent log (receiver_goes_on e on) live i = ground arith
  Step-IsSilent log (receiver_stops e off) live i = ground arith
  Step-IsSilent log (read_begins e on) live i = ground arith
  Step-IsSilent log (read_refused e off) live i = ground arith
  Step-IsSilent log (reads e) live i = ground arith
  Step-IsSilent log (push_loads e) live i = ground arith
  Step-IsSilent log (push_refused e full) live i = ground arith
  Step-IsSilent log (push_checks e room) live i = ground arith
  Step-IsSilent log (push_writes e) live i = ground arith
  Step-IsSilent log (push_publishes e) live i = ground arith
  Step-IsSilent log (disconnects e) live i = absurd (omega arith)
  Step-IsSilent log (signal_loads e) live i = ground (arith, ap rank e)
  Step-IsSilent log (signal_refused e full) live i = ground (arith, ap rank e)
  Step-IsSilent log (signal_checks e room) live i = ground (arith, ap rank e)
  Step-IsSilent log (signal_writes e) live i = ground (arith, ap rank e)
  Step-IsSilent log (signal_publishes e) live i = ground (arith, ap rank e)
  Step-IsSilent log (requests_stop e) live i = ground (arith, ap rank e)
  Step-IsSilent log (stops_sender e) live i = ground (arith, ap rank e)
  Step-IsSilent log (joins_sender e gone) live i = ground (arith, ap rank e)
  Step-IsSilent log (stops_receiver e) live i = ground (arith, ap rank e)
  Step-IsSilent log (joins_receiver e gone) live i = ground (arith, ap rank e)
  Step-IsSilent log (joins_dispatcher e gone) live i = ground (arith, ap rank e)
  Step-IsSilent log _ live i = record { started = i.started; ended = i.ended; same = i.same }

  Steps-IsSilent :
      (log : List Text) {s t : System F S U W}
      → Steps j beast s t
      → t.closes ≡ 0
      → IsSilent log s
      → IsSilent log t
  Steps-IsSilent log here live i = i
  Steps-IsSilent log (next before last) live i =
      let more = (calls_mono j beast last).1 in
      Step-IsSilent log last live (Steps-IsSilent log before (omega arith) i)

  both : {s t u : System F S U W} → Steps j beast s t → Steps j beast t u → Steps j beast s u
  both before here = before
  both before (next more last) = next (both before more) last

  -- The receiver of a new client that is connected has ended, by an error of the stream or by an
  -- empty message. Whatever the threads do until the caller closes it, the client still counts as
  -- connected, the inbound queue takes no message, and the dispatcher gets at most those that were
  -- there: nothing starts the receiver again.
  pub silent_until_close :
      (env : Text → Option Text) (now start : ℕ) (c : Client F S U) (stream : W)
      {s t : System F S U W}
      → new_client env now ≡ ok c
      → Steps j beast (initial c stream start) s
      → s.phase ≡ up
      → s.receiver ≡ no_receiver
      → Steps j beast s t
      → t.closes ≡ 0
      → (t.phase ≡ up)
        × (t.client.connected ≡ true)
        × (t.receiver ≡ no_receiver)
        × (t.delivered ≡ s.delivered)
        × ((waiting : List Text) × (s.delivered ≡ t.dispatched ++ waiting)
            × Holds inbound_capacity t.client.inbound_queue waiting)
  silent_until_close env now start c stream {s} {t} made before e gone after live =
      let all = both before after in
      let o = Steps-IsPhased j beast all (initial-IsPhased c stream start) in
      let first : IsSilent s.delivered s = record { started = e; ended = gone; same = refl } in
      let q = Steps-IsSilent s.delivered after live first in
      let r : rank t.phase ≡ 4 = ap rank q.started in
      let (waiting, balance, holds) =
        messages_in_order j beast env now start c stream made all live in
      (
        q.started,
        o.on (omega arith) (omega arith),
        q.ended,
        q.same,
        (waiting, sym q.same ∙ balance, holds),
      )
