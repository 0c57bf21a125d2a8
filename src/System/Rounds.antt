-- ===== src/System/Rounds.antt =====
-- The loops of `RequestSender`, `Receiver` and `DeribitClient.Calls`, each round of which is a run of
-- the steps here in which no other thread acts.
use hft_deribit.Prelude.{
  codes, ◌==◌, sym, ◌∙◌, ℕ, ◌≡◌, refl, ap, Bool, true, false, not, ◌||◌, List, [], ◌∷◌, ◌++◌, none,
  some, Text, is_empty, if◌then◌else◌, Bool-cases, Option-cases, inl, inr,
}
use hft_deribit.SpscQueue.{next_index, push, pop}
use hft_deribit.Json.{Simdjson}
use hft_deribit.Dispatcher.Dispatch.{dispatch}
use hft_deribit.Websocket.{Beast, read, read_stream}
use hft_deribit.Receiver.{Receiver, receive}
use hft_deribit.RequestSender.{Sender, round, throttle, authorize, contains}
use hft_deribit.DeribitClient.{Client, inbound_capacity, outbound_capacity, get_access_token}
use hft_deribit.DeribitClient.Calls.{dispatch_message, run_callbacks}
use hft_deribit.System.{
  Steps, here, next, receiver_goes_on, receiver_stops, read_begins, read_refused, reads, push_loads,
  push_refused, push_checks, push_writes, push_publishes, sender_goes_on, sender_waits, sender_pops,
  sender_misses, authorizes, inserts, sends, dispatcher_goes_on, dispatcher_stops, dispatches,
}
use hft_deribit.System.State.{
  no_receiver, at_loop, at_read, at_running, at_pop, at_push, at_token, no_dispatcher, at_wait,
  at_test, System,
}
use hft_deribit.System.Insertion.{authorize-skips, authorize-inserts}

module _ {F S U W : Type 0} where
  -- The sender and the receiver, which refer to the client's queues.
  abbrev pub sender_of : System F S U W → Sender
  sender_of s = record {
    queue = s.client.outbound_queue;
    limiter = s.sender_limiter;
    sent = s.wire;
  }

  abbrev pub receiver_of : System F S U W → Receiver W
  receiver_of s = record { running = s.receiver_running; ws = s.ws; queue = s.client.inbound_queue }

module _ {F S U W : Type 0} (j : Simdjson) (beast : Beast W) (s u : System F S U W) (msg : Text)
    (before : Steps j beast s u) where
  -- The steps of the receiver's push, one after the other, are `push`.
  push_run :
      u.receiver ≡ at_push msg
      → (t : System F S U W) × Steps j beast s t
        × (t.receiver ≡ at_loop)
        × (receiver_of t ≡ record (receiver_of u) {
          queue = (push inbound_capacity u.client.inbound_queue msg).0;
        })
  unfolding push
  push_run at =
      let q = u.client.inbound_queue in
      let loaded = next before (push_loads at) in
      elim (Bool-cases (next_index inbound_capacity q.head == q.tail)) [
        | inl full ↦ (_, next loaded (push_refused refl full), refl, rw full refl)
        | inr room ↦ (
          _,
          next (next (next loaded (push_checks refl room)) (push_writes refl))
              (push_publishes refl),
          refl,
          rw room refl,
        )
      ]

  -- The steps of the sender with a request are `authorize` and `send`.
  send_run :
      u.sender ≡ at_token msg
      → (t : System F S U W) × Steps j beast s t
        × (t.sender ≡ at_running)
        × (sender_of t ≡ record (sender_of u) {
          sent = u.wire ++ authorize (get_access_token u.client) msg ∷ [];
        })
  send_run at =
      let token = get_access_token u.client in
      let sent : Text → Sender = λ m. record (sender_of u) { sent = u.wire ++ m ∷ [] } in
      let looked = next before (authorizes at) in
      elim (Bool-cases (contains (codes "\"private/") msg)) [
        | inr c ↦ (
          _,
          next looked (sends {msg = msg} (rw c refl)),
          refl,
          ap sent (sym (authorize-skips token msg (rw c refl))),
        )
        | inl c ↦ elim (Bool-cases (is_empty token)) [
          | inl e ↦ (
            _,
            next looked (sends {msg = msg} (rw (c, e) refl)),
            refl,
            ap sent (sym (authorize-skips token msg (rw (c, e) refl))),
          )
          | inr e ↦ (
            _,
            next (next looked (inserts {msg = msg} (rw (c, e) refl))) (sends refl),
            refl,
            ap sent (sym (authorize-inserts token msg c e)),
          )
        ]
      ]

module _ {F S U W : Type 0} (j : Simdjson) (beast : Beast W) (s : System F S U W) where
  -- Each round of the sender, with the times at which its limiter is asked, can be run.
  round_run :
      (times : List ℕ) {r : Sender}
      → s.sender ≡ at_running
      → s.sender_running ≡ true
      → round outbound_capacity (sender_of s) (get_access_token s.client) times ≡ some r
      → (t : System F S U W) × Steps j beast s t × (t.sender ≡ at_running) × (sender_of t ≡ r)
  unfolding round
  round_run times {r} at on e = elim (Option-cases (throttle s.sender_limiter times)) [
    | inl stuck ↦
        let nothing : round outbound_capacity (sender_of s) (get_access_token s.client) times
            ≡ none =
          rw (round, stuck) refl in
        cc
    | inr ((limiter, _), t) ↦
        let asked : Steps j beast s (record s { sender = at_pop; sender_limiter = limiter }) =
          next (next here (sender_goes_on at on)) (sender_waits refl times t) in
        elim (Option-cases (pop outbound_capacity s.client.outbound_queue).1) [
          | inl nothing ↦
              let last : Sender = record (sender_of s) {
                queue = (pop outbound_capacity s.client.outbound_queue).0;
                limiter = limiter;
              } in
              let result : round outbound_capacity (sender_of s) (get_access_token s.client) times
                  ≡ some last =
                rw (round, t, nothing) refl in
              let same : last ≡ r = cc in (_, next asked (sender_misses refl nothing), refl, same)
          | inr (msg, found) ↦
              let last : Sender = record {
                queue = (pop outbound_capacity s.client.outbound_queue).0;
                limiter = limiter;
                sent = s.wire ++ authorize (get_access_token s.client) msg ∷ [];
              } in
              let result : round outbound_capacity (sender_of s) (get_access_token s.client) times
                  ≡ some last =
                rw (round, t, found) refl in
              let same : last ≡ r = cc in
              let (u, steps, over, sent) =
                send_run j beast s _ msg (next asked (sender_pops refl found)) refl in
              (u, steps, over, sent ∙ same)
        ]
  ]

  -- Each test of the receiver's condition with the body can be run.
  receive_run :
      s.receiver ≡ at_loop
      → (t : System F S U W) × Steps j beast s t
        × (t.receiver
            ≡ (if (receive beast inbound_capacity (receiver_of s)).1 then at_loop else no_receiver))
        × (receiver_of t ≡ (receive beast inbound_capacity (receiver_of s)).0)
  unfolding receive read
  receive_run at = elim (Bool-cases s.receiver_running) [
    | inr off ↦ (_, next here (receiver_stops at off), rw off refl, rw off refl)
    | inl on ↦
        let tests : Steps j beast s (record s { receiver = at_read }) =
          next here (receiver_goes_on at on) in
        elim (Bool-cases s.ws.shutting_down) [
          | inl shut ↦
              (_, next tests (read_refused refl shut), rw (on, shut) refl, rw (on, shut) refl)
          | inr live ↦
              let has_read = next (next tests (read_begins refl live)) (reads refl) in
              elim (Bool-cases (is_empty (read_stream beast s.ws).1)) [
                | inl e ↦ (
                  _,
                  has_read,
                  simp (receive, read, on, live, e),
                  simp (receive, read, on, live, e),
                )
                | inr e ↦
                    let (u, steps, over, queued) =
                      push_run j beast s _ (read_stream beast s.ws).1 has_read (rw e refl) in
                    (
                      u,
                      steps,
                      over ∙ sym (simp (receive, read, on, live, e)),
                      queued ∙ sym (simp (receive, read, on, live, e)),
                    )
              ]
        ]
  ]

  -- What the dispatcher does with a message can be run.
  dispatch_run :
      {msg : Text} {again : Bool} {c : Client F S U}
      → s.dispatcher ≡ at_test msg
      → dispatch_message j s.client msg ≡ some (again, c)
      → (t : System F S U W) × Steps j beast s t
        × (t.dispatcher ≡ (if again then at_wait else no_dispatcher))
        × (t.client ≡ c)
  unfolding dispatch_message
  dispatch_run {msg} {again} {c} at e = elim (Bool-cases (not s.client.connected || is_empty msg)) [
    | inl ends ↦
        let result : dispatch_message j s.client msg ≡ some (false, s.client) = rw ends refl in
        let over : false ≡ again = cc in
        (
          _,
          next here (dispatcher_stops at ends),
          ap (λ b. if b then at_wait else no_dispatcher) over,
          cc,
        )
    | inr passed ↦ elim (Option-cases (dispatch j s.client.dispatcher msg)) [
      | inl thrown ↦
          let result : dispatch_message j s.client msg ≡ none = rw (passed, thrown) refl in cc
      | inr (is, d) ↦
          let result : dispatch_message j s.client msg ≡ some (true, run_callbacks s.client is) =
            rw (passed, d) refl in
          let on : true ≡ again = cc in
          (
            _,
            next (next here (dispatcher_goes_on at passed)) (dispatches refl d),
            ap (λ b. if b then at_wait else no_dispatcher) on,
            cc,
          )
    ]
  ]
