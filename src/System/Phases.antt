-- ===== src/System/Phases.antt =====
-- What `connect` and `close` have brought about, by the phase that the caller's thread is in.
use hft_deribit.Prelude.{ℕ, ◌≤◌, ◌≡◌, ap, arith, true, false, inl, inr}
use hft_deribit.Json.{Simdjson}
use hft_deribit.Websocket
use hft_deribit.Websocket.{Beast}
use hft_deribit.DeribitClient.{Client}
use hft_deribit.DeribitClient.Calls.{send_rpc, subscribe, rpc_message, subscribe_message}
use hft_deribit.System.{
  Step, Steps, here, next, registers, calls, subscribes, authenticates, opens, fails_to_open,
  starts_receiver, starts_sender, starts_dispatcher, receiver_goes_on, receiver_stops, read_begins,
  read_refused, reads, push_loads, push_refused, push_checks, push_writes, push_publishes,
  sender_goes_on, sender_stops, sender_waits, sender_pops, sender_misses, authorizes, inserts,
  sends, dispatcher_pops, dispatcher_goes_on, dispatcher_stops, dispatches, disconnects,
  signal_loads, signal_refused, signal_checks, signal_writes, signal_publishes, requests_stop,
  stops_sender, joins_sender, stops_receiver, joins_receiver, joins_dispatcher,
}
use hft_deribit.System.State.{
  Phase, fresh, opened, receiver_up, sender_up, up, disconnected, signal_loaded, signal_checked,
  signal_written, signalled, slept, joining_sender, sender_joined, joining_receiver,
  receiver_joined, closed, no_receiver, no_sender, no_dispatcher, System, initial,
}
use hft_deribit.System.Effects.{run_callbacks_kept, read_stream_kept}
use hft_deribit.System.Requests.{enqueue_kept, authenticate_effect}

-- How far the caller's thread is.
abbrev pub rank : Phase → ℕ
rank fresh = 0
rank opened = 1
rank receiver_up = 2
rank sender_up = 3
rank up = 4
rank disconnected = 5
rank (signal_loaded h) = 5
rank (signal_checked h) = 5
rank (signal_written h) = 5
rank signalled = 6
rank slept = 7
rank joining_sender = 8
rank sender_joined = 9
rank joining_receiver = 10
rank receiver_joined = 11
rank closed = 12

pub record IsPhased {F S U W : Type 0} (s : System F S U W) : Type 0 where
  pub on : 1 ≤ rank s.phase → rank s.phase ≤ 4 → s.client.connected ≡ true
  pub was_closed : 5 ≤ rank s.phase → 1 ≤ s.closes
  pub off : 5 ≤ rank s.phase → s.client.connected ≡ false
  pub receiver_stopped : 7 ≤ rank s.phase → s.receiver_running ≡ false
  pub sender_stopped : 8 ≤ rank s.phase → s.sender_running ≡ false
  pub shutting : 10 ≤ rank s.phase → s.ws.shutting_down ≡ true
  pub sender_later : rank s.phase ≤ 2 → s.sender ≡ no_sender
  pub sender_gone : 9 ≤ rank s.phase → s.sender ≡ no_sender
  pub receiver_gone : 11 ≤ rank s.phase → s.receiver ≡ no_receiver
  pub dispatcher_gone : 12 ≤ rank s.phase → s.dispatcher ≡ no_dispatcher

module _ {F S U W : Type 0} (j : Simdjson) (beast : Beast W) where
  -- The histories of the caller's calls only grow.
  pub calls_mono :
      {s t : System F S U W} → Step j beast s t → (s.connects ≤ t.connects) × (s.closes ≤ t.closes)
  calls_mono (opens e done) = (omega arith, omega arith)
  calls_mono (disconnects e) = (omega arith, omega arith)
  calls_mono _ = (omega arith, omega arith)

  pub all_calls_mono :
      {s t : System F S U W} → Steps j beast s t → (s.connects ≤ t.connects) × (s.closes ≤ t.closes)
  all_calls_mono here = (omega arith, omega arith)
  all_calls_mono (next before last) = (
    omega (arith, (all_calls_mono before).0, (calls_mono last).0),
    omega (arith, (all_calls_mono before).1, (calls_mono last).1),
  )

  -- The caller goes back by another call only.
  pub rank_mono :
      {s t : System F S U W}
      → Step j beast s t
      → t.connects ≡ s.connects
      → t.closes ≡ s.closes
      → rank s.phase ≤ rank t.phase
  rank_mono (opens (inl e) done) a b = omega (arith, ap rank e)
  rank_mono (opens (inr e) done) a b = omega (arith, ap rank e)
  rank_mono (starts_receiver e) a b = omega (arith, ap rank e)
  rank_mono (starts_sender e) a b = omega (arith, ap rank e)
  rank_mono (starts_dispatcher e) a b = omega (arith, ap rank e)
  rank_mono (disconnects (inl e)) a b = omega (arith, ap rank e)
  rank_mono (disconnects (inr (inl e))) a b = omega (arith, ap rank e)
  rank_mono (disconnects (inr (inr e))) a b = omega (arith, ap rank e)
  rank_mono (signal_loads e) a b = omega (arith, ap rank e)
  rank_mono (signal_refused e full) a b = omega (arith, ap rank e)
  rank_mono (signal_checks e free) a b = omega (arith, ap rank e)
  rank_mono (signal_writes e) a b = omega (arith, ap rank e)
  rank_mono (signal_publishes e) a b = omega (arith, ap rank e)
  rank_mono (requests_stop e) a b = omega (arith, ap rank e)
  rank_mono (stops_sender e) a b = omega (arith, ap rank e)
  rank_mono (joins_sender e gone) a b = omega (arith, ap rank e)
  rank_mono (stops_receiver e) a b = omega (arith, ap rank e)
  rank_mono (joins_receiver e gone) a b = omega (arith, ap rank e)
  rank_mono (joins_dispatcher e gone) a b = omega (arith, ap rank e)
  rank_mono _ a b = omega arith

  pub Step-IsPhased : {s t : System F S U W} → Step j beast s t → IsPhased s → IsPhased t
  unfolding send_rpc subscribe Websocket.send Websocket.close
  Step-IsPhased (registers d) i = ground arith
  Step-IsPhased {s} (calls now id method params) i =
      ground (arith, (enqueue_kept s.client now (rpc_message id method params)).1)
  Step-IsPhased {s} (subscribes now channel) i =
      ground (arith, (enqueue_kept s.client now (subscribe_message channel)).1)
  Step-IsPhased {s} (authenticates now e) i = ground (arith, (authenticate_effect s.client now e).1)
  Step-IsPhased (opens (inl e) done) i = ground (arith, ap rank e)
  Step-IsPhased (opens (inr e) done) i = ground (arith, ap rank e)
  Step-IsPhased (fails_to_open (inl e) failed) i = ground (arith, ap rank e)
  Step-IsPhased (fails_to_open (inr e) failed) i = ground (arith, ap rank e)
  Step-IsPhased (starts_receiver e) i = ground (arith, ap rank e)
  Step-IsPhased (starts_sender e) i = ground (arith, ap rank e)
  Step-IsPhased (starts_dispatcher e) i = ground (arith, ap rank e)
  Step-IsPhased (receiver_goes_on e on) i = ground arith
  Step-IsPhased (receiver_stops e off) i = ground arith
  Step-IsPhased (read_begins e on) i = ground arith
  Step-IsPhased (read_refused e off) i = ground arith
  Step-IsPhased {s} (reads e) i = ground (arith, read_stream_kept beast s.ws)
  Step-IsPhased (push_loads e) i = ground arith
  Step-IsPhased (push_refused e full) i = ground arith
  Step-IsPhased (push_checks e free) i = ground arith
  Step-IsPhased (push_writes e) i = ground arith
  Step-IsPhased (push_publishes e) i = ground arith
  Step-IsPhased (sender_goes_on e on) i = ground arith
  Step-IsPhased (sender_stops e off) i = ground arith
  Step-IsPhased (sender_waits e times w) i = ground arith
  Step-IsPhased (sender_pops e found) i = ground arith
  Step-IsPhased (sender_misses e nothing) i = ground arith
  Step-IsPhased (authorizes e) i = ground arith
  Step-IsPhased (inserts e) i = ground arith
  Step-IsPhased (sends e) i = ground arith
  Step-IsPhased (dispatcher_pops e found) i = ground arith
  Step-IsPhased (dispatcher_goes_on e passed) i = ground arith
  Step-IsPhased (dispatcher_stops e failed) i = ground arith
  Step-IsPhased {s} (dispatches {is = is} e d) i =
      ground (arith, (run_callbacks_kept s.client is).2)
  Step-IsPhased (disconnects (inl e)) i = ground (arith, ap rank e)
  Step-IsPhased (disconnects (inr (inl e))) i = ground (arith, ap rank e)
  Step-IsPhased (disconnects (inr (inr e))) i = ground (arith, ap rank e)
  Step-IsPhased (signal_loads e) i = ground (arith, ap rank e)
  Step-IsPhased (signal_refused e full) i = ground (arith, ap rank e)
  Step-IsPhased (signal_checks e free) i = ground (arith, ap rank e)
  Step-IsPhased (signal_writes e) i = ground (arith, ap rank e)
  Step-IsPhased (signal_publishes e) i = ground (arith, ap rank e)
  Step-IsPhased (requests_stop e) i = ground (arith, ap rank e)
  Step-IsPhased (stops_sender e) i = ground (arith, ap rank e)
  Step-IsPhased (joins_sender e gone) i = ground (arith, ap rank e)
  Step-IsPhased (stops_receiver e) i = ground (arith, ap rank e)
  Step-IsPhased (joins_receiver e gone) i = ground (arith, ap rank e)
  Step-IsPhased (joins_dispatcher e gone) i = ground (arith, ap rank e)

  pub Steps-IsPhased : {s t : System F S U W} → Steps j beast s t → IsPhased s → IsPhased t
  Steps-IsPhased here i = i
  Steps-IsPhased (next before last) i = Step-IsPhased last (Steps-IsPhased before i)

pub initial-IsPhased :
    {F S U W : Type 0} (c : Client F S U) (stream : W) (start : ℕ)
    → IsPhased (initial c stream start)
initial-IsPhased c stream start = ground arith
