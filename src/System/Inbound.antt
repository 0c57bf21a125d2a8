-- ===== src/System/Inbound.antt =====
-- From the websocket to the dispatcher, until `close` is called: up to then the receiver alone pushes.
use hft_deribit.Prelude.{
  ℕ, ◌-◌, ◌<◌, ◌≡◌, refl, sym, ap, ◌∙◌, subst, arith, List, [], ◌∷◌, ◌++◌, append_assoc, Option,
  some, Text, length, get_elem?, set, ◌==◌, Bool, true, false, if◌then◌else◌,
}
use hft_deribit.SpscQueue.{SpscQueue, next_index, pop}
use hft_deribit.SpscQueue.Holds.{Holds, init-Holds, full_test, write-Holds, written, advance-Holds}
use hft_deribit.SpscQueue.Fifo
use hft_deribit.SpscQueue.Refine.{pop_refines}
use hft_deribit.Json.{Simdjson}
use hft_deribit.Websocket.{Beast}
use hft_deribit.DeribitClient.{Client, ok, new_client, inbound_capacity}
use hft_deribit.DeribitClient.Calls.{send_rpc, subscribe, rpc_message, subscribe_message}
use hft_deribit.DeribitClient.Shutdown.{inbound_IsCapacity}
use hft_deribit.System.{
  Step, Steps, here, next, calls, subscribes, authenticates, starts_receiver, receiver_goes_on,
  receiver_stops, read_begins, read_refused, reads, push_loads, push_refused, push_checks,
  push_writes, push_publishes, dispatcher_pops, dispatches, disconnects, signal_loads,
  signal_writes, signal_publishes,
}
use hft_deribit.System.State.{
  Receiving, no_receiver, at_loop, at_read, in_read, at_push, push_loaded, push_checked,
  push_written, System, initial,
}
use hft_deribit.System.Effects.{run_callbacks_kept, pop_kept}
use hft_deribit.System.Phases.{rank, IsPhased, Step-IsPhased, initial-IsPhased}
use hft_deribit.System.Requests.{enqueue_kept, authenticate_effect, new_client_effect}

-- What the receiver's push knows of a queue that holds `held`.
abbrev IsPushing : SpscQueue Text → List Text → Receiving → Type 0
IsPushing q held (push_loaded msg h) = h ≡ q.head
IsPushing q held (push_checked msg h) = (h ≡ q.head) × (length held < inbound_capacity - 1)
IsPushing q held (push_written msg h) =
    (h ≡ q.head) × (length held < inbound_capacity - 1) × (get_elem? q.buffer h ≡ some msg)
IsPushing q held _ = Unit

-- What went in is what came out and what is held.
record Flowing (q : SpscQueue Text) (receiver : Receiving) (went_in came_out : List Text)
    : Type 0 where
  held : List Text
  holds : Holds inbound_capacity q held
  balance : went_in ≡ came_out ++ held
  pushing : IsPushing q held receiver

-- A pop leaves the receiver's push as it is.
pop-IsPushing :
    (q : SpscQueue Text) (x : Text) (xs : List Text) (w : Receiving)
    → IsPushing q (x ∷ xs) w
    → IsPushing (pop inbound_capacity q).0 xs w
pop-IsPushing q x xs (push_loaded msg h) p = p ∙ sym (pop_kept inbound_capacity q).0
pop-IsPushing q x xs (push_checked msg h) p =
    (p.0 ∙ sym (pop_kept inbound_capacity q).0, omega (arith, p.1))
pop-IsPushing q x xs (push_written msg h) p = (
  p.0 ∙ sym (pop_kept inbound_capacity q).0,
  omega (arith, p.1),
  ap (λ b. get_elem? b h) (pop_kept inbound_capacity q).1 ∙ p.2,
)
pop-IsPushing q x xs no_receiver p = tt
pop-IsPushing q x xs at_loop p = tt
pop-IsPushing q x xs at_read p = tt
pop-IsPushing q x xs in_read p = tt
pop-IsPushing q x xs (at_push msg) p = tt

popped :
    {q : SpscQueue Text} {w : Receiving} {v : Text} (went_in came_out : List Text)
    (held : List Text)
    → Holds inbound_capacity q held
    → went_in ≡ came_out ++ held
    → IsPushing q held w
    → (pop inbound_capacity q).1 ≡ some v
    → Flowing (pop inbound_capacity q).0 w went_in (came_out ++ v ∷ [])
unfolding Fifo.pop
popped _ _ [] holds b p e = let (answer, kept) = pop_refines inbound_IsCapacity [] holds in cc
popped {q} {w} {v} went_in came_out (x ∷ xs) holds b p e =
    let (answer, kept) = pop_refines inbound_IsCapacity (x ∷ xs) holds in
    let same : x ≡ v = cc in
    record {
      held = xs;
      holds = kept;
      balance = b ∙ ap (λ y. came_out ++ y ∷ xs) same ∙ sym (append_assoc came_out (v ∷ []) xs);
      pushing = pop-IsPushing q x xs w p;
    }

quietly :
    {q : SpscQueue Text} {w : Receiving} {went_in came_out : List Text} (v : Receiving)
    → ((held : List Text) → IsPushing q held v)
    → Flowing q w went_in came_out
    → Flowing q v went_in came_out
quietly v p f = record { held = f.held; holds = f.holds; balance = f.balance; pushing = p f.held }

read-IsPushing :
    (q : SpscQueue Text) (held : List Text) (nothing : Bool) (msg : Text)
    → IsPushing q held (if nothing then no_receiver else at_push msg)
read-IsPushing q held true msg = tt
read-IsPushing q held false msg = tt

module _ {F S U W : Type 0} where
  abbrev IsFlowing : System F S U W → Type 0
  IsFlowing s = s.closes ≡ 0 → Flowing s.client.inbound_queue s.receiver s.delivered s.dispatched

  -- The same for a receiver that is known to stand at a place.
  stands :
      (s : System F S U W) {w : Receiving}
      → s.receiver ≡ w
      → Flowing s.client.inbound_queue s.receiver s.delivered s.dispatched
      → Flowing s.client.inbound_queue w s.delivered s.dispatched
  stands s e f = subst (λ w. Flowing s.client.inbound_queue w s.delivered s.dispatched) e f

  module _ (j : Simdjson) (beast : Beast W) where
    Step-IsFlowing :
        {s t : System F S U W} → Step j beast s t → IsPhased s → IsFlowing s → IsFlowing t
    unfolding send_rpc subscribe
    Step-IsFlowing {s} (calls now id method params) i f = λ live.
        subst (λ q. Flowing q s.receiver s.delivered s.dispatched)
          (sym (enqueue_kept s.client now (rpc_message id method params)).0) (f live)
    Step-IsFlowing {s} (subscribes now channel) i f = λ live.
        subst (λ q. Flowing q s.receiver s.delivered s.dispatched)
          (sym (enqueue_kept s.client now (subscribe_message channel)).0) (f live)
    Step-IsFlowing {s} (authenticates now e) i f = λ live.
        subst (λ q. Flowing q s.receiver s.delivered s.dispatched)
          (sym (authenticate_effect s.client now e).0) (f live)
    Step-IsFlowing {s} (dispatches {is = is} e d) i f = λ live.
        subst (λ q. Flowing q s.receiver s.delivered s.dispatched)
          (sym (run_callbacks_kept s.client is).1) (f live)
    Step-IsFlowing (starts_receiver e) i f = λ live. quietly at_loop (λ held. tt) (f live)
    Step-IsFlowing (receiver_goes_on e on) i f = λ live. quietly at_read (λ held. tt) (f live)
    Step-IsFlowing (receiver_stops e off) i f = λ live. quietly no_receiver (λ held. tt) (f live)
    Step-IsFlowing (read_begins e on) i f = λ live. quietly in_read (λ held. tt) (f live)
    Step-IsFlowing (read_refused e off) i f = λ live. quietly no_receiver (λ held. tt) (f live)
    Step-IsFlowing {s} (reads e) i f =
        λ live. quietly _ (λ held. read-IsPushing s.client.inbound_queue held _ _) (f live)
    Step-IsFlowing (push_loads {msg} e) i f = λ live. quietly _ (λ held. refl) (f live)
    Step-IsFlowing (push_refused e full) i f = λ live. quietly at_loop (λ held. tt) (f live)
    Step-IsFlowing {s} (push_checks {msg} {h} e free) i f = λ live.
        let g = stands s e (f live) in
        let room = full_test inbound_IsCapacity g.holds in
        let at = ap (λ k. next_index inbound_capacity k == s.client.inbound_queue.tail) g.pushing in
        record {
          held = g.held;
          holds = g.holds;
          balance = g.balance;
          pushing = (g.pushing, ground (arith, room, at, free));
        }
    Step-IsFlowing {s} (push_writes {msg} {h} e) i f = λ live.
        let g = stands s e (f live) in
        let q = s.client.inbound_queue in
        let at = sym g.pushing.0 in
        record {
          held = g.held;
          holds =
              subst (λ k. Holds inbound_capacity (record q { buffer = set q.buffer k msg }) g.held)
                at (write-Holds inbound_IsCapacity g.holds msg);
          balance = g.balance;
          pushing = (
            g.pushing.0,
            g.pushing.1,
            subst (λ k. get_elem? (set q.buffer k msg) k ≡ some msg) at
                (written inbound_IsCapacity g.holds msg),
          );
        }
    Step-IsFlowing {s} (push_publishes {msg} {h} e) i f = λ live.
        let g = stands s e (f live) in
        let q = s.client.inbound_queue in
        let at = sym g.pushing.0 in
        record {
          held = g.held ++ msg ∷ [];
          holds =
              subst
                (λ k.
                  Holds inbound_capacity (record q { head = next_index inbound_capacity k })
                    (g.held ++ msg ∷ []))
                at
                (advance-Holds inbound_IsCapacity g.holds msg
                  (subst (λ k. get_elem? q.buffer k ≡ some msg) g.pushing.0 g.pushing.2)
                  g.pushing.1);
          balance = ap (λ l. l ++ msg ∷ []) g.balance ∙ append_assoc s.dispatched g.held (msg ∷ []);
          pushing = tt;
        }
    Step-IsFlowing {s} (dispatcher_pops e found) i f = λ live.
        let g = f live in popped s.delivered s.dispatched g.held g.holds g.balance g.pushing found
    Step-IsFlowing (disconnects e) i f = λ live. absurd (omega arith)
    Step-IsFlowing (signal_loads e) i f = f
    Step-IsFlowing (signal_writes e) i f =
        λ live. absurd (omega (arith, i.was_closed (ground (arith, ap rank e))))
    Step-IsFlowing (signal_publishes e) i f =
        λ live. absurd (omega (arith, i.was_closed (ground (arith, ap rank e))))
    Step-IsFlowing _ i f = f

    Steps-IsFlowing :
        {s t : System F S U W}
        → Steps j beast s t
        → IsPhased s × IsFlowing s
        → IsPhased t × IsFlowing t
    Steps-IsFlowing here k = k
    Steps-IsFlowing (next before last) k =
        let (i, f) = Steps-IsFlowing before k in
        (Step-IsPhased j beast last i, Step-IsFlowing last i f)

    -- Whatever the threads of a new client do, in any order, until `close` is called for the first
    -- time: the dispatcher got, in order, the messages that the receiver published to the inbound
    -- queue, up to those that are still queued. None of them is lost, repeated or overtaken.
    pub messages_in_order :
        (env : Text → Option Text) (now start : ℕ) (c : Client F S U) (stream : W)
        {t : System F S U W}
        → new_client env now ≡ ok c
        → Steps j beast (initial c stream start) t
        → t.closes ≡ 0
        → (waiting : List Text) × (t.delivered ≡ t.dispatched ++ waiting)
          × Holds inbound_capacity t.client.inbound_queue waiting
    messages_in_order env now start c stream e steps live =
        let first : Flowing c.inbound_queue no_receiver [] [] = record {
          held = [];
          holds =
              subst (λ q. Holds inbound_capacity q []) (sym (new_client_effect env now e).1)
                (init-Holds inbound_IsCapacity []);
          balance = refl;
          pushing = tt;
        } in
        let f = (Steps-IsFlowing steps (initial-IsPhased c stream start, λ live'. first)).1 live in
        (f.held, f.balance, f.holds)
