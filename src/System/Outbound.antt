-- ===== src/System/Outbound.antt =====
-- From the caller's requests to the websocket.
use mathlib.Core.List.{map-append}
use hft_deribit.Prelude.{
  ℕ, codes, not, ◌&&◌, is_empty, ◌≡◌, refl, sym, ap, ◌∙◌, subst, arith, List, [], ◌∷◌, ◌++◌,
  append-nil, Option, some, Text, map, if◌then◌else◌, Bool-cases, inl, inr,
}
use hft_deribit.SpscQueue.{SpscQueue, pop, init}
use hft_deribit.SpscQueue.Holds.{Holds}
use hft_deribit.RateLimiter.{allow_request}
use hft_deribit.Json.{Simdjson}
use hft_deribit.Websocket.{Beast}
use hft_deribit.RequestSender.{authorize, contains}
use hft_deribit.DeribitClient.{Client, ok, new_client, outbound_capacity, get_access_token}
use hft_deribit.DeribitClient.Calls.{enqueue, send_rpc, subscribe, rpc_message, subscribe_message}
use hft_deribit.DeribitClient.Requests.{outbound_IsCapacity}
use hft_deribit.System.{
  Step, Steps, here, next, calls, subscribes, authenticates, starts_sender, sender_goes_on,
  sender_stops, sender_waits, sender_pops, sender_misses, authorizes, inserts, sends, dispatches,
}
use hft_deribit.System.State.{
  Sending, at_token, at_insert, at_send, System, initial, logged, accepts,
}
use hft_deribit.System.Flow.{Flow, init-Flow, push-Flow, pop-Flow, missed-Flow}
use hft_deribit.System.Effects.{run_callbacks_kept}
use hft_deribit.System.Phases.{rank, IsPhased}
use hft_deribit.System.Insertion.{
  authorize-skips, authorize-inserts, IsInserting, Steps-IsInserting, initial-IsInserting,
}
use hft_deribit.System.Requests.{
  enqueue-outbound_queue, authenticate_effect, auth_request, new_client_effect,
}

-- The request that the sender has taken and not completed yet, and the one that it is to send.
unfoldable pub taken : Sending → List Text
taken (at_token msg) = msg ∷ []
taken (at_insert msg) = msg ∷ []
taken _ = []

unfoldable pub completed : Sending → List Text
completed (at_send msg) = msg ∷ []
completed _ = []

-- `handled` are the requests that `authorize` has completed, each with the token it met; the sender
-- has taken `held` and is to send `ready`.
record Ordered (q : SpscQueue Text) (held ready accepted wire : List Text) : Type 0 where
  handled : List (Text × Text)
  on_wire : wire ++ ready ≡ map (λ p. authorize p.0 p.1) handled
  flow : Flow outbound_capacity q accepted (map (λ p. p.1) handled ++ held)

module _ {F S U : Type 0} where
  enqueued :
      (c : Client F S U) (now : ℕ) (msg : Text) (held ready accepted wire : List Text)
      → Ordered c.outbound_queue held ready accepted wire
      → Ordered
          (enqueue c now msg).0.outbound_queue
          held
          ready
          (if (allow_request c.rate_limiter now).1
            then logged outbound_capacity c.outbound_queue msg accepted
            else accepted)
          wire
  enqueued c now msg held ready accepted wire o =
      elim (Bool-cases (allow_request c.rate_limiter now).1) [
        | inl e ↦
            rw (enqueue-outbound_queue c now msg, e)
              (record {
                handled = o.handled;
                on_wire = o.on_wire;
                flow = push-Flow outbound_IsCapacity msg o.flow;
              })
        | inr e ↦ rw (enqueue-outbound_queue c now msg, e) o
      ]

module _ {q : SpscQueue Text} {accepted wire : List Text} where
  popped :
      (msg : Text)
      → (pop outbound_capacity q).1 ≡ some msg
      → Ordered q [] [] accepted wire
      → Ordered (pop outbound_capacity q).0 (msg ∷ []) [] accepted wire
  popped msg found o = record {
    handled = o.handled;
    on_wire = o.on_wire;
    flow =
        subst (λ l. Flow outbound_capacity (pop outbound_capacity q).0 accepted (l ++ msg ∷ []))
          (append-nil (map (λ p. p.1) o.handled)) (pop-Flow outbound_IsCapacity found o.flow);
  }

  authorized :
      (token msg : Text)
      → Ordered q (msg ∷ []) [] accepted wire
      → Ordered q [] (authorize token msg ∷ []) accepted wire
  authorized token msg o = record {
    handled = o.handled ++ (token, msg) ∷ [];
    on_wire =
        ap (λ l. l ++ authorize token msg ∷ []) (sym (append-nil wire) ∙ o.on_wire)
        ∙ sym (map-append (λ p. authorize p.0 p.1) o.handled ((token, msg) ∷ []));
    flow =
        subst (Flow outbound_capacity q accepted)
          (sym (map-append (λ p. p.1) o.handled ((token, msg) ∷ [])) ∙ sym (append-nil _)) o.flow;
  }

  sent :
      (msg : Text)
      → Ordered q [] (msg ∷ []) accepted wire
      → Ordered q [] [] accepted (wire ++ msg ∷ [])
  sent msg o = record {
    handled = o.handled;
    on_wire = append-nil (wire ++ msg ∷ []) ∙ o.on_wire;
    flow = o.flow;
  }

module _ {F S U W : Type 0} where
  abbrev IsOrdered : System F S U W → Type 0
  IsOrdered s =
      Ordered s.client.outbound_queue (taken s.sender) (completed s.sender) s.accepted s.wire

  -- The same for a sender that is known to stand at a place.
  stands :
      (s : System F S U W) {w : Sending}
      → s.sender ≡ w
      → IsOrdered s
      → Ordered s.client.outbound_queue (taken w) (completed w) s.accepted s.wire
  stands s e o =
      subst (λ w. Ordered s.client.outbound_queue (taken w) (completed w) s.accepted s.wire) e o

  module _ (j : Simdjson) (beast : Beast W) where
    Step-IsOrdered :
        {s t : System F S U W}
        → Step j beast s t
        → IsPhased s × IsInserting s
        → IsOrdered s
        → IsOrdered t
    unfolding send_rpc subscribe taken completed
    Step-IsOrdered {s} (calls now id method params) i o =
        enqueued s.client now (rpc_message id method params) _ _ s.accepted s.wire o
    Step-IsOrdered {s} (subscribes now channel) i o =
        enqueued s.client now (subscribe_message channel) _ _ s.accepted s.wire o
    Step-IsOrdered {s} (authenticates now e) i o =
        subst
          (λ q.
            Ordered q (taken s.sender) (completed s.sender) (accepts s now (auth_request s.client))
              s.wire)
          (sym (authenticate_effect s.client now e).2)
          (enqueued s.client now (auth_request s.client) _ _ s.accepted s.wire o)
    Step-IsOrdered {s} (starts_sender e) i o =
        stands s (i.0.sender_later (ground (arith, ap rank e))) o
    Step-IsOrdered {s} (sender_goes_on e on) i o = stands s e o
    Step-IsOrdered {s} (sender_stops e off) i o = stands s e o
    Step-IsOrdered {s} (sender_waits e times w) i o = stands s e o
    Step-IsOrdered {s} (sender_pops {msg} e found) i o = popped msg found (stands s e o)
    Step-IsOrdered {s} (sender_misses e nothing) i o =
        let here = stands s e o in
        record {
          handled = here.handled;
          on_wire = here.on_wire;
          flow = missed-Flow outbound_IsCapacity nothing here.flow;
        }
    Step-IsOrdered {s} (authorizes {msg} e) i o =
        let now = stands s e o in
        let token = get_access_token s.client in
        let at : Sending → Type 0 =
          λ w. Ordered s.client.outbound_queue (taken w) (completed w) s.accepted s.wire in
        elim (Bool-cases (contains (codes "\"private/") msg && not (is_empty token))) [
          | inl wanted ↦
              subst at (ap (λ b. if b then at_insert msg else at_send msg) (sym wanted)) now
          | inr not_wanted ↦
              subst at (ap (λ b. if b then at_insert msg else at_send msg) (sym not_wanted)) (
                subst (λ m. Ordered s.client.outbound_queue [] (m ∷ []) s.accepted s.wire)
                  (authorize-skips token msg not_wanted) (authorized token msg now))
        ]
    Step-IsOrdered {s} (inserts {msg} e) i o =
        let token = get_access_token s.client in
        let (private, given) = i.1 msg e in
        subst (λ m. Ordered s.client.outbound_queue [] (m ∷ []) s.accepted s.wire)
          (authorize-inserts token msg private given) (authorized token msg (stands s e o))
    Step-IsOrdered {s} (sends {msg} e) i o = sent msg (stands s e o)
    Step-IsOrdered {s} (dispatches {is = is} e d) i o =
        subst (λ q. Ordered q (taken s.sender) (completed s.sender) s.accepted s.wire)
          (sym (run_callbacks_kept s.client is).0) o
    Step-IsOrdered _ i o = o

    Steps-IsOrdered :
        {s t : System F S U W}
        → Steps j beast s t
        → IsPhased s × IsInserting s
        → IsOrdered s
        → IsOrdered t
    Steps-IsOrdered here i o = o
    Steps-IsOrdered (next before last) i o =
        Step-IsOrdered last (Steps-IsInserting j beast before i) (Steps-IsOrdered before i o)

    -- Whatever the threads of a new client do, in any order: the websocket got, and is to get next,
    -- in the order in which the outbound queue took them, the requests in front of the one that the
    -- sender is about to complete and those that are still queued, each completed by `authorize`
    -- with some token. None is lost, repeated or overtaken.
    pub requests_in_order :
        (env : Text → Option Text) (now start : ℕ) (c : Client F S U) (stream : W)
        {t : System F S U W}
        → new_client env now ≡ ok c
        → Steps j beast (initial c stream start) t
        → (handled : List (Text × Text)) × (waiting : List Text) × (t.wire ++ completed t.sender
            ≡ map (λ p. authorize p.0 p.1) handled)
          × (t.accepted ≡ (map (λ p. p.1) handled ++ taken t.sender) ++ waiting)
          × Holds outbound_capacity t.client.outbound_queue waiting
    unfolding taken completed
    requests_in_order env now start c stream e steps =
        let empty : Ordered (init outbound_capacity []) [] [] [] [] = record {
          handled = [];
          on_wire = refl;
          flow = init-Flow outbound_IsCapacity [];
        } in
        let first =
          subst (λ q. Ordered q [] [] [] []) (sym (new_client_effect env now e).0) empty in
        let o = Steps-IsOrdered steps (initial-IsInserting c stream start) first in
        (o.handled, o.flow.held, o.on_wire, o.flow.balance, o.flow.holds)
