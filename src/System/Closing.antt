-- ===== src/System/Closing.antt =====
-- What the end of a session promises. Readers and Ways have the steps to the end of `close`.
pub mod Sound
pub mod Readers
pub mod Ways
use hft_deribit.Prelude.{
  ℕ, ◌≤◌, ◌≡◌, refl, ap, ◌∙◌, arith, false, List, Option, some, Text, inl, inr,
}
use hft_deribit.Json.{Simdjson}
use hft_deribit.Websocket.{Beast}
use hft_deribit.Dispatcher.{Invocation}
use hft_deribit.Dispatcher.Dispatch.{dispatch}
use hft_deribit.DeribitClient.{Client, RpcCallback, UserData, ok, new_client}
use hft_deribit.System.{
  Step, Steps, here, next, opens, starts_receiver, starts_sender, starts_dispatcher,
  receiver_goes_on, receiver_stops, read_begins, read_refused, reads, push_loads, push_refused,
  push_checks, push_writes, push_publishes, sender_goes_on, sender_stops, sender_waits, sender_pops,
  sender_misses, authorizes, inserts, sends, dispatcher_pops, dispatcher_goes_on, dispatcher_stops,
  dispatches, disconnects, signal_loads, signal_refused, signal_checks, signal_writes,
  signal_publishes, requests_stop, stops_sender, joins_sender, stops_receiver, joins_receiver,
  joins_dispatcher,
}
use hft_deribit.System.State.{
  closed, no_receiver, no_sender, Dispatching, no_dispatcher, at_wait, at_test, in_dispatch, System,
  initial,
}
use hft_deribit.System.Phases.{rank, calls_mono, all_calls_mono, Steps-IsPhased, initial-IsPhased}
use hft_deribit.System.Ending.{initial-IsFilled}
use hft_deribit.System.Closing.Sound.{is_dispatching, IsSound, Step-IsSound, Returns, step}
use hft_deribit.System.Closing.Ways.{close_goes_on}

-- The threads of a client that is closed.
record IsQuiet {F S U W : Type 0} (s : System F S U W) : Type 0 where
  late : 5 ≤ rank s.phase
  no_sending : s.sender ≡ no_sender
  no_reading : s.receiver ≡ no_receiver
  no_dispatching : s.dispatcher ≡ no_dispatcher

module _ {F S U W : Type 0} (j : Simdjson) (beast : Beast W) where
  initial-IsSound :
      (env : Text → Option Text) (now start : ℕ) (c : Client F S U) (stream : W)
      → new_client env now ≡ ok c
      → IsSound j beast (initial c stream start)
  initial-IsSound env now start c stream e = record {
    phased = initial-IsPhased c stream start;
    filled = initial-IsFilled env now start c stream j beast e;
  }

  Steps-IsSound : {s t : System F S U W} → Steps j beast s t → IsSound j beast s → IsSound j beast t
  Steps-IsSound here i = i
  Steps-IsSound (next before last) i = Step-IsSound j beast last (Steps-IsSound before i)

  -- A message that is dispatched is finished first.
  returns :
      (s : System F S U W) (w : Dispatching)
      → s.dispatcher ≡ w
      → ((msg : Text)
          → w ≡ in_dispatch msg
          → (is : List (Invocation (RpcCallback F) S (UserData U))) × (dispatch j
                s.client.dispatcher msg
              ≡ some is))
      → 5 ≤ rank s.phase
      → IsSound j beast s
      → Returns j beast s
  returns s (in_dispatch msg) e ends late i =
      let (is, d) = ends msg refl in
      step j beast (dispatches e d) i
        (λ k. close_goes_on j beast _ s.phase late (record { at = refl; sound = k; free = refl }))
  returns s no_dispatcher e ends late i =
      close_goes_on j beast s s.phase late
        (record { at = refl; sound = i; free = ap is_dispatching e })
  returns s at_wait e ends late i =
      close_goes_on j beast s s.phase late
        (record { at = refl; sound = i; free = ap is_dispatching e })
  returns s (at_test msg) e ends late i =
      close_goes_on j beast s s.phase late
        (record { at = refl; sound = i; free = ap is_dispatching e })

  -- `close` cannot hang for want of a step: from every state of a new client's threads in which the
  -- caller is inside `close`, some steps lead to its return, with all three threads ended. If the
  -- dispatcher is in `dispatch` then, no exception leaves that call. That `ws.read` returns and no
  -- notification is lost is taken for granted.
  pub close_can_return :
      (env : Text → Option Text) (now start : ℕ) (c : Client F S U) (stream : W)
      {s : System F S U W}
      → new_client env now ≡ ok c
      → Steps j beast (initial c stream start) s
      → 5 ≤ rank s.phase
      → ((msg : Text)
          → s.dispatcher ≡ in_dispatch msg
          → (is : List (Invocation (RpcCallback F) S (UserData U))) × (dispatch j
                s.client.dispatcher msg
              ≡ some is))
      → (t : System F S U W) × Steps j beast s t
        × (t.phase ≡ closed)
        × (t.sender ≡ no_sender)
        × (t.receiver ≡ no_receiver)
        × (t.dispatcher ≡ no_dispatcher)
  close_can_return env now start c stream {s} e steps closing ends =
      let sound = Steps-IsSound steps (initial-IsSound env now start c stream e) in
      let (t, rest, k, done) = returns s s.dispatcher refl ends closing sound in
      (
        t,
        rest,
        done,
        k.phased.sender_gone (ground (arith, ap rank done)),
        k.phased.receiver_gone (ground (arith, ap rank done)),
        k.phased.dispatcher_gone (ground (arith, ap rank done)),
      )

  -- Only the sender hands anything to the websocket, and only the dispatcher takes messages.
  sends_wire : {s t : System F S U W} → Step j beast s t → s.sender ≡ no_sender → t.wire ≡ s.wire
  sends_wire (sends e) gone = cc
  sends_wire _ gone = refl

  pops_dispatched :
      {s t : System F S U W}
      → Step j beast s t
      → s.dispatcher ≡ no_dispatcher
      → t.dispatched ≡ s.dispatched
  pops_dispatched (dispatcher_pops e found) gone = cc
  pops_dispatched _ gone = refl

  -- From the beginning of `close` on, the caller can leave `close` and call it again, but only
  -- `connect` starts a session.
  late_stays :
      {s t : System F S U W}
      → Step j beast s t
      → t.connects ≡ s.connects
      → 5 ≤ rank s.phase
      → 5 ≤ rank t.phase
  late_stays (opens e done) same late = absurd (omega arith)
  late_stays (starts_receiver e) same late = omega (arith, ap rank e)
  late_stays (starts_sender e) same late = omega (arith, ap rank e)
  late_stays (starts_dispatcher e) same late = omega (arith, ap rank e)
  late_stays (disconnects e) same late = omega arith
  late_stays (signal_loads e) same late = omega arith
  late_stays (signal_refused e full) same late = omega arith
  late_stays (signal_checks e room) same late = omega arith
  late_stays (signal_writes e) same late = omega arith
  late_stays (signal_publishes e) same late = omega arith
  late_stays (requests_stop e) same late = omega arith
  late_stays (stops_sender e) same late = omega arith
  late_stays (joins_sender e gone) same late = omega arith
  late_stays (stops_receiver e) same late = omega arith
  late_stays (joins_receiver e gone) same late = omega arith
  late_stays (joins_dispatcher e gone) same late = omega arith
  late_stays _ same late = omega arith

  Step-IsQuiet :
      {s t : System F S U W} → Step j beast s t → t.connects ≡ s.connects → IsQuiet s → IsQuiet t
  Step-IsQuiet (starts_receiver e) same q = absurd (omega (arith, ap rank e, q.late))
  Step-IsQuiet (starts_sender e) same q = absurd (omega (arith, ap rank e, q.late))
  Step-IsQuiet (starts_dispatcher e) same q = absurd (omega (arith, ap rank e, q.late))
  Step-IsQuiet (receiver_goes_on e on) same q = let no = q.no_reading in absurd cc
  Step-IsQuiet (receiver_stops e off) same q = let no = q.no_reading in absurd cc
  Step-IsQuiet (read_begins e on) same q = let no = q.no_reading in absurd cc
  Step-IsQuiet (read_refused e shut) same q = let no = q.no_reading in absurd cc
  Step-IsQuiet (reads e) same q = let no = q.no_reading in absurd cc
  Step-IsQuiet (push_loads e) same q = let no = q.no_reading in absurd cc
  Step-IsQuiet (push_refused e full) same q = let no = q.no_reading in absurd cc
  Step-IsQuiet (push_checks e room) same q = let no = q.no_reading in absurd cc
  Step-IsQuiet (push_writes e) same q = let no = q.no_reading in absurd cc
  Step-IsQuiet (push_publishes e) same q = let no = q.no_reading in absurd cc
  Step-IsQuiet (sender_goes_on e on) same q = let no = q.no_sending in absurd cc
  Step-IsQuiet (sender_stops e off) same q = let no = q.no_sending in absurd cc
  Step-IsQuiet (sender_waits e times w) same q = let no = q.no_sending in absurd cc
  Step-IsQuiet (sender_pops e found) same q = let no = q.no_sending in absurd cc
  Step-IsQuiet (sender_misses e nothing) same q = let no = q.no_sending in absurd cc
  Step-IsQuiet (authorizes e) same q = let no = q.no_sending in absurd cc
  Step-IsQuiet (inserts e) same q = let no = q.no_sending in absurd cc
  Step-IsQuiet (sends e) same q = let no = q.no_sending in absurd cc
  Step-IsQuiet (dispatcher_pops e found) same q = let no = q.no_dispatching in absurd cc
  Step-IsQuiet (dispatcher_goes_on e passed) same q = let no = q.no_dispatching in absurd cc
  Step-IsQuiet (dispatcher_stops e failed) same q = let no = q.no_dispatching in absurd cc
  Step-IsQuiet (dispatches e done) same q = let no = q.no_dispatching in absurd cc
  Step-IsQuiet st same q = record {
    late = late_stays st same q.late;
    no_sending = q.no_sending;
    no_reading = q.no_reading;
    no_dispatching = q.no_dispatching;
  }

  Steps-IsQuiet :
      {s t : System F S U W}
      → Steps j beast s t
      → t.connects ≡ s.connects
      → IsQuiet s
      → IsQuiet t × (t.wire ≡ s.wire) × (t.dispatched ≡ s.dispatched)
  Steps-IsQuiet here same q = (q, refl, refl)
  Steps-IsQuiet {s} {t} (next {t = u} before last) same q =
      let more = (all_calls_mono j beast before).0 in
      let last_more = (calls_mono j beast last).0 in
      let before_same : u.connects ≡ s.connects = omega arith in
      let last_same : t.connects ≡ u.connects = omega arith in
      let (k, sent, got) = Steps-IsQuiet before before_same q in
      (
        Step-IsQuiet last last_same k,
        sends_wire last k.no_sending ∙ sent,
        pops_dispatched last k.no_dispatching ∙ got,
      )

  -- When `close` of a new client has returned, all three threads have ended and the client is not
  -- connected. Whatever the caller does from there but connecting again, another `close` included,
  -- no thread is started, and nothing more goes to the websocket or to the dispatcher.
  pub closed_is_quiet :
      (env : Text → Option Text) (now start : ℕ) (c : Client F S U) (stream : W)
      {s t : System F S U W}
      → new_client env now ≡ ok c
      → Steps j beast (initial c stream start) s
      → s.phase ≡ closed
      → Steps j beast s t
      → t.connects ≡ s.connects
      → (s.client.connected ≡ false)
        × (s.sender ≡ no_sender)
        × (s.receiver ≡ no_receiver)
        × (s.dispatcher ≡ no_dispatcher)
        × (t.sender ≡ no_sender)
        × (t.receiver ≡ no_receiver)
        × (t.dispatcher ≡ no_dispatcher)
        × (t.client.connected ≡ false)
        × (t.wire ≡ s.wire)
        × (t.dispatched ≡ s.dispatched)
  closed_is_quiet env now start c stream {s} {t} e before done after same =
      let k = Steps-IsPhased j beast before (initial-IsPhased c stream start) in
      let l = Steps-IsPhased j beast after k in
      let over : rank s.phase ≡ 12 = ap rank done in
      let first : IsQuiet s = record {
        late = omega arith;
        no_sending = k.sender_gone (omega arith);
        no_reading = k.receiver_gone (omega arith);
        no_dispatching = k.dispatcher_gone (omega arith);
      } in
      let (q, sent, got) = Steps-IsQuiet after same first in
      (
        k.off (omega arith),
        first.no_sending,
        first.no_reading,
        first.no_dispatching,
        q.no_sending,
        q.no_reading,
        q.no_dispatching,
        l.off q.late,
        sent,
        got,
      )
