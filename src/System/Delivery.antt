-- ===== src/System/Delivery.antt =====
-- A notification from the stream to the callback of its channel.
use hft_deribit.Prelude.{
  arith, set, ◌≡◌, refl, ap, ◌∙◌, true, false, not, ◌||◌, List, [], ◌∷◌, none, some, Text, is_empty,
  if◌then◌else◌,
}
use hft_deribit.SpscQueue.{SpscQueue, next_index, pop}
use hft_deribit.SpscQueue.Fifo
use hft_deribit.SpscQueue.Holds.{Holds, full_test, publish-Holds}
use hft_deribit.SpscQueue.Refine.{pop_refines}
use hft_deribit.Json.{Simdjson}
use hft_deribit.Dispatcher.{new_dispatcher, invoke_sub}
use hft_deribit.Dispatcher.Dispatch.{dispatch}
use hft_deribit.Dispatcher.Tables.{Registration, register_all, latest_sub}
use hft_deribit.Dispatcher.Notices.{
  HasNoId, is_notification, notice, method, notification, notification_to_latest,
}
use hft_deribit.Websocket.{Beast, WebSocketBeast, read_stream}
use hft_deribit.DeribitClient.{RpcCallback, UserData, inbound_capacity}
use hft_deribit.DeribitClient.Shutdown.{inbound_IsCapacity}
use hft_deribit.System.{
  Steps, here, next, receiver_goes_on, read_begins, reads, push_loads, push_checks, push_writes,
  push_publishes, dispatcher_pops, dispatcher_goes_on,
}
use hft_deribit.System.State.{at_loop, at_push, no_receiver, at_wait, in_dispatch, System}

-- What a read that delivers a message returns.
read_stream-some :
    {W : Type 0} (beast : Beast W) (ws : WebSocketBeast W) {msg : Text}
    → (beast.read_message ws.stream).1 ≡ some msg
    → (read_stream beast ws).1 ≡ msg
unfolding read_stream
read_stream-some beast ws e = rw (read_stream, e) refl

-- What is published to an empty queue comes out next.
pop-publish :
    {q : SpscQueue Text} (v : Text)
    → Holds inbound_capacity q []
    → (pop inbound_capacity
        (record q { buffer = set q.buffer q.head v; head = next_index inbound_capacity q.head })).1
      ≡ some v
unfolding Fifo.pop
pop-publish {q} v holds =
    (pop_refines inbound_IsCapacity (v ∷ [])
      (publish-Holds inbound_IsCapacity holds v (omega arith))).0

-- A client whose threads wait: the receiver before its loop's test, the dispatcher for a message.
pub record IsWaiting {F S U W : Type 0} (s : System F S U W) : Type 0 where
  pub receiver : s.receiver ≡ at_loop
  pub running : s.receiver_running ≡ true
  pub live : s.ws.shutting_down ≡ false
  pub dispatcher : s.dispatcher ≡ at_wait
  pub connected : s.client.connected ≡ true
  pub queue : Holds inbound_capacity s.client.inbound_queue []

module _ {F S U W : Type 0} (j : Simdjson) (beast : Beast W) where
  -- A message that the stream delivers to such a client comes to `dispatch`.
  message_run :
      (s : System F S U W) {msg : Text}
      → IsWaiting s
      → (beast.read_message s.ws.stream).1 ≡ some msg
      → is_empty msg ≡ false
      → (t : System F S U W) × Steps j beast s t
        × (t.dispatcher ≡ in_dispatch msg)
        × (t.client.dispatcher ≡ s.client.dispatcher)
  message_run s {msg} i e full =
      let got = (read_stream beast s.ws).1 in
      let same : got ≡ msg = read_stream-some beast s.ws e in
      let some_text : is_empty got ≡ false = ap is_empty same ∙ full in
      let on : (if is_empty got then no_receiver else at_push got) ≡ at_push got =
        ap (λ b. if b then no_receiver else at_push got) some_text in
      let room = full_test inbound_IsCapacity i.queue in
      let passed : (not s.client.connected || is_empty got) ≡ false =
        ap (λ b. not b || is_empty got) i.connected ∙ some_text in
      (
        _,
        next
            (next
              (next
                (next
                  (next
                    (next
                      (next
                        (next (next here (receiver_goes_on i.receiver i.running))
                          (read_begins refl i.live))
                        (reads refl))
                      (push_loads {msg = got} on))
                    (push_checks {msg = got} refl room))
                  (push_writes {msg = got} refl))
                (push_publishes {msg = got} refl))
              (dispatcher_pops {msg = got} i.dispatcher (pop-publish got i.queue)))
            (dispatcher_goes_on {msg = got} refl passed),
        ap in_dispatch same,
        refl,
      )

  -- The receiver of a connected client runs, nothing is queued, and the dispatcher waits. If the
  -- stream delivers a notification next, some steps bring it to `dispatch`, and that call calls the
  -- callback registered last for the slot of the channel, if there is one, with the channel and the
  -- data, and no other.
  pub notification_delivered :
      (s : System F S U W) (rs : List (Registration (RpcCallback F) S (UserData U))) (msg : Text)
      {doc : j.Doc} (channel payload : Text)
      → IsWaiting s
      → s.client.dispatcher ≡ register_all new_dispatcher rs
      → (beast.read_message s.ws.stream).1 ≡ some msg
      → is_empty msg ≡ false
      → j.iterate msg ≡ some doc
      → HasNoId j doc
      → is_notification j doc ≡ true
      → notice j (method j doc).0 ≡ some (channel, payload)
      → (t : System F S U W) × Steps j beast s t
        × (t.dispatcher ≡ in_dispatch msg)
        × (dispatch j t.client.dispatcher msg
            ≡ some (invoke_sub (latest_sub channel none rs) (notification j channel payload)))
  notification_delivered s rs msg channel payload i registered e full parsed no_id kind found =
      let (t, steps, at, kept) = message_run s i e full in
      (
        t,
        steps,
        at,
        ap (λ d. dispatch j d msg) (kept ∙ registered)
            ∙ notification_to_latest j rs msg channel payload parsed no_id kind found,
      )
