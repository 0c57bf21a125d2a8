-- ===== src/System/Ending.antt =====
-- Behind the message of `close` the dispatcher finds a message to end on, though the receiver may push
-- at the same time.
use hft_deribit.Prelude.{
  [], none, ℕ, ◌+◌, ◌<◌, ◌≤◌, ◌≡◌, refl, ap, ◌∙◌, arith, Bool, true, false, Option, some, Text,
  Bool-cases, inl, inr, is_empty, length, get_elem?-some, length-set, ◌==◌, if◌then◌else◌,
  length-replicate,
}
use hft_deribit.SpscQueue.{SpscQueue, next_index, pop, init}
use hft_deribit.SpscQueue.Holds.{next_index_lem}
use hft_deribit.Json.{Simdjson}
use hft_deribit.Websocket.{Beast, read_stream}
use hft_deribit.DeribitClient.{Client, ok, new_client, inbound_capacity}
use hft_deribit.DeribitClient.Calls.{send_rpc, subscribe, rpc_message, subscribe_message}
use hft_deribit.DeribitClient.Shutdown.{inbound_IsCapacity}
use hft_deribit.System.{
  Step, calls, subscribes, authenticates, opens, starts_receiver, starts_sender, starts_dispatcher,
  receiver_goes_on, receiver_stops, read_begins, read_refused, reads, push_loads, push_refused,
  push_checks, push_writes, push_publishes, dispatcher_pops, dispatcher_goes_on, dispatcher_stops,
  dispatches, disconnects, signal_loads, signal_refused, signal_checks, signal_writes,
  signal_publishes, requests_stop, stops_sender, joins_sender, stops_receiver, joins_receiver,
  joins_dispatcher,
}
use hft_deribit.System.State.{
  Phase, signal_loaded, signal_checked, signal_written, Receiving, no_receiver, at_push,
  push_loaded, push_checked, push_written, Dispatching, at_wait, in_dispatch, System, initial,
}
use hft_deribit.System.Effects.{run_callbacks_kept, passed_connected, pop_kept}
use hft_deribit.System.Requests.{enqueue_kept, authenticate_effect, new_client_effect}
use hft_deribit.System.Phases.{rank, IsPhased}

-- Whether the dispatcher waits for a message, or will, before it tests one again.
abbrev pub will_wait : Dispatching → Bool
will_wait at_wait = true
will_wait (in_dispatch msg) = true
will_wait _ = false

-- The `head` that a push has loaded, and how far it is: not in it, before its test, or behind.
abbrev loaded_head : Receiving → ℕ
loaded_head (push_loaded msg h) = h
loaded_head (push_checked msg h) = h
loaded_head (push_written msg h) = h
loaded_head _ = 0

abbrev progress : Receiving → ℕ
progress (push_loaded msg h) = 1
progress (push_checked msg h) = 2
progress (push_written msg h) = 2
progress _ = 0

abbrev signal_head : Phase → ℕ
signal_head (signal_loaded h) = h
signal_head (signal_checked h) = h
signal_head (signal_written h) = h
signal_head _ = 0

abbrev signal_progress : Phase → ℕ
signal_progress (signal_loaded h) = 1
signal_progress (signal_checked h) = 2
signal_progress (signal_written h) = 2
signal_progress _ = 0

-- The index behind one in range.
after :
    (i : ℕ)
    → i < 4096
    → (next_index 4096 i < 4096) × (next_index 4096 i ≡ (if i + 1 == 4096 then 0 else i + 1))
after i h = next_index_lem inbound_IsCapacity i h

-- The indices of the inbound queue, and the pushes to it. While the dispatcher is yet to wait, `tail`
-- stands still, so that what a push has found free stays free.
pub record IsFed (q : SpscQueue Text) (receiver : Receiving) (phase : Phase) (waits : Bool)
    : Type 0 where
  pub size : length q.buffer ≡ 4096
  pub head_in : q.head < 4096
  pub tail_in : q.tail < 4096
  pub loaded_in : loaded_head receiver < 4096
  pub signal_in : signal_head phase < 4096
  pub alone : rank phase ≤ 5 → 1 ≤ progress receiver → loaded_head receiver ≡ q.head
  pub free_early :
      rank phase ≤ 5
      → 2 ≤ progress receiver
      → (next_index 4096 (loaded_head receiver) == q.tail) ≡ false
  pub free :
      waits ≡ true
      → 2 ≤ progress receiver
      → (next_index 4096 (loaded_head receiver) == q.tail) ≡ false
  pub signal_last :
      1 ≤ signal_progress phase
      → waits ≡ true
      → (q.head == q.tail) ≡ true
      → signal_head phase ≡ q.head
  pub signal_free :
      2 ≤ signal_progress phase
      → waits ≡ true
      → (next_index 4096 (signal_head phase) == q.tail) ≡ false
  pub filled : 6 ≤ rank phase → waits ≡ true → (q.head == q.tail) ≡ false

-- A receiver that is in no push.
idle-IsFed :
    {q : SpscQueue Text} {r : Receiving} {p : Phase} {waits : Bool} (w : Receiving)
    → progress w ≡ 0
    → loaded_head w ≡ 0
    → IsFed q r p waits
    → IsFed q w p waits
idle-IsFed w far low h = ground arith

read_idle :
    (nothing : Bool) (msg : Text)
    → (progress (if nothing then no_receiver else at_push msg) ≡ 0)
      × (loaded_head (if nothing then no_receiver else at_push msg) ≡ 0)
read_idle true msg = (refl, refl)
read_idle false msg = (refl, refl)

-- A push is made in one phase.
signal-rank : (p : Phase) → 1 ≤ signal_progress p → rank p ≡ 5
signal-rank (signal_loaded h) one = refl
signal-rank (signal_checked h) one = refl
signal-rank (signal_written h) one = refl
signal-rank _ one = absurd (omega arith)

-- A pop that finds a message moves `tail` on.
pop-tail :
    (q : SpscQueue Text) {msg : Text}
    → (pop inbound_capacity q).1 ≡ some msg
    → ((q.head == q.tail) ≡ false) × ((pop inbound_capacity q).0.tail ≡ next_index 4096 q.tail)
unfolding pop
pop-tail q e = elim (Bool-cases (q.tail == q.head)) [
  | inl same ↦ let no : none ≡ some _ = rw same at e in cc
  | inr apart ↦ (ground arith, rw apart refl)
]

pub pop_found :
    (q : SpscQueue Text)
    → length q.buffer ≡ 4096
    → q.tail < 4096
    → (q.head == q.tail) ≡ false
    → (msg : Text) × ((pop inbound_capacity q).1 ≡ some msg)
unfolding pop
pop_found q size low ne =
    let (msg, e) = get_elem?-some q.buffer q.tail (omega arith) in
    let apart : (q.tail == q.head) ≡ false = ground arith in (msg, rw apart e)

module _ {F S U W : Type 0} (j : Simdjson) (beast : Beast W) where
  abbrev pub IsFilled : System F S U W → Type 0
  IsFilled s = IsFed s.client.inbound_queue s.receiver s.phase (will_wait s.dispatcher)

  pub Step-IsFilled :
      {s t : System F S U W} → Step j beast s t → IsPhased s → IsFilled s → IsFilled t
  unfolding send_rpc subscribe
  Step-IsFilled {s} (calls now id method params) i h =
      rw (enqueue_kept s.client now (rpc_message id method params)).0 h
  Step-IsFilled {s} (subscribes now channel) i h =
      rw (enqueue_kept s.client now (subscribe_message channel)).0 h
  Step-IsFilled {s} (authenticates now e) i h = rw (authenticate_effect s.client now e).0 h
  Step-IsFilled {s} (dispatches {is = is} e d) i h =
      rw (run_callbacks_kept s.client is).1 (ground (arith, ap will_wait e))
  Step-IsFilled {s} (opens (inl e) done) i h = ground (arith, ap rank e, ap signal_progress e)
  Step-IsFilled {s} (opens (inr e) done) i h =
      ground (arith, ap progress (i.receiver_gone (ground (arith, ap rank e))))
  Step-IsFilled {s} (starts_receiver e) i h = ground (arith, ap rank e)
  Step-IsFilled {s} (starts_sender e) i h = ground (arith, ap rank e)
  Step-IsFilled {s} (starts_dispatcher e) i h = ground (arith, ap rank e)
  Step-IsFilled {s} (receiver_goes_on e on) i h = ground arith
  Step-IsFilled {s} (receiver_stops e off) i h = ground arith
  Step-IsFilled {s} (read_begins e on) i h = ground arith
  Step-IsFilled {s} (read_refused e off) i h = ground arith
  Step-IsFilled {s} (reads e) i h =
      let (far, low) = read_idle (is_empty (read_stream beast s.ws).1) (read_stream beast s.ws).1 in
      idle-IsFed _ far low h
  Step-IsFilled {s} (push_loads e) i h = ground arith
  Step-IsFilled {s} (push_refused e full) i h = ground arith
  Step-IsFilled {s} (push_checks e free) i h = ground (arith, ap loaded_head e, ap progress e)
  Step-IsFilled {s} (push_writes {msg} {h = k} e) i h =
      ground
        (arith, ap loaded_head e, ap progress e, length-set s.client.inbound_queue.buffer k msg)
  Step-IsFilled {s} (push_publishes {msg} {h = k} e) i h =
      let at = ap loaded_head e in
      ground (arith, at, ap progress e, after k (omega (arith, h.loaded_in, at)))
  Step-IsFilled {s} (dispatcher_pops e found) i h =
      let q = s.client.inbound_queue in
      ground (
        arith,
        pop_kept inbound_capacity q,
        pop-tail q found,
        after q.tail h.tail_in,
        after (loaded_head s.receiver) h.loaded_in,
      )
  Step-IsFilled {s} (dispatcher_goes_on {msg} e passed) i h =
      ground (
        arith,
        passed_connected s.client.connected (is_empty msg) passed,
        i.off,
        signal-rank s.phase,
      )
  Step-IsFilled {s} (dispatcher_stops e failed) i h = ground arith
  Step-IsFilled {s} (disconnects (inl e)) i h = ground (arith, ap rank e)
  Step-IsFilled {s} (disconnects (inr (inl e))) i h = ground (arith, ap rank e)
  Step-IsFilled {s} (disconnects (inr (inr e))) i h =
      ground (arith, ap progress (i.receiver_gone (ground (arith, ap rank e))))
  Step-IsFilled {s} (signal_loads e) i h = ground (arith, ap rank e)
  Step-IsFilled {s} (signal_refused {h = k} e full) i h = ground (
    arith,
    ap rank e,
    ap signal_progress e,
    ap signal_head e,
    after k (omega (arith, h.signal_in, ap signal_head e)),
  )
  Step-IsFilled {s} (signal_checks e free) i h =
      ground (arith, ap rank e, ap signal_progress e, ap signal_head e)
  Step-IsFilled {s} (signal_writes {h = k} e) i h = ground (
    arith,
    ap rank e,
    ap signal_progress e,
    ap signal_head e,
    length-set s.client.inbound_queue.buffer k [],
  )
  Step-IsFilled {s} (signal_publishes {h = k} e) i h = ground (
    arith,
    ap rank e,
    ap signal_progress e,
    ap signal_head e,
    after k (omega (arith, h.signal_in, ap signal_head e)),
  )
  Step-IsFilled {s} (requests_stop e) i h = ground (arith, ap rank e)
  Step-IsFilled {s} (stops_sender e) i h = ground (arith, ap rank e)
  Step-IsFilled {s} (joins_sender e gone) i h = ground (arith, ap rank e)
  Step-IsFilled {s} (stops_receiver e) i h = ground (arith, ap rank e)
  Step-IsFilled {s} (joins_receiver e gone) i h = ground (arith, ap rank e)
  Step-IsFilled {s} (joins_dispatcher e gone) i h = ground (arith, ap rank e)
  Step-IsFilled _ i h = h

pub initial-IsFilled :
    {F S U W : Type 0} (env : Text → Option Text) (now start : ℕ) (c : Client F S U) (stream : W)
    (j : Simdjson) (beast : Beast W)
    → new_client env now ≡ ok c
    → IsFilled j beast (initial c stream start)
unfolding init
initial-IsFilled env now start c stream j beast e =
    let same = (new_client_effect env now e).1 in
    let size : length c.inbound_queue.buffer ≡ 4096 =
      ap (λ q. length q.buffer) same ∙ length-replicate {A = Text} 4096 [] in
    let first : c.inbound_queue.head ≡ 0 = ap (λ q. q.head) same in
    let last : c.inbound_queue.tail ≡ 0 = ap (λ q. q.tail) same in ground arith
