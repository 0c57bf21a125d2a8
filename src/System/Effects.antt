-- ===== src/System/Effects.antt =====
-- What a read, and the dispatcher's work on a message, do to the flags and the queues.
use hft_deribit.SpscQueue.{SpscQueue, pop}
use hft_deribit.Prelude.{
  ℕ, ◌==◌, ◌≡◌, refl, ap, Bool, true, false, not, ◌||◌, List, [], ◌∷◌, none, some, is_empty,
  Bool-cases, Option-cases, inl, inr,
}
use hft_deribit.Websocket.{Beast, WebSocketBeast, read_stream}
use hft_deribit.Dispatcher.{Invocation, call_rpc, call_sub}
use hft_deribit.DeribitClient.{
  Client, RpcCallback, auth_success, auth_error, user, UserData, self, other,
}
use hft_deribit.DeribitClient.Calls.{run_callback, run_callbacks}
use hft_deribit.DeribitClient.Callbacks.{run_callbacks-token}

-- Callbacks keep what `close` and the queues are about.
pub run_callbacks_kept :
    {F S U : Type 0} (c : Client F S U) (is : List (Invocation (RpcCallback F) S (UserData U)))
    → ((run_callbacks c is).outbound_queue ≡ c.outbound_queue)
      × ((run_callbacks c is).inbound_queue ≡ c.inbound_queue)
      × ((run_callbacks c is).connected ≡ c.connected)
run_callbacks_kept c is =
    let kept = run_callbacks-token c is in
    (ap (λ c. c.outbound_queue) kept, ap (λ c. c.inbound_queue) kept, ap (λ c. c.connected) kept)

-- A read of the stream leaves the websocket's flag alone.
pub read_stream_kept :
    {W : Type 0} (beast : Beast W) (ws : WebSocketBeast W)
    → (read_stream beast ws).0.shutting_down ≡ ws.shutting_down
unfolding read_stream
read_stream_kept beast ws = elim (Option-cases (beast.read_message ws.stream).1) [
  | inl e ↦ rw (read_stream, e) refl
  | inr (msg, e) ↦ rw (read_stream, e) refl
]

-- A message passes the dispatcher's test in a connected client only.
pub passed_connected :
    (connected empty : Bool) → (not connected || empty) ≡ false → connected ≡ true
passed_connected true empty e = refl
passed_connected false empty e = cc

-- No callback takes a token away.
callback_given :
    {F S U : Type 0} (c : Client F S U) (i : Invocation (RpcCallback F) S (UserData U))
    → is_empty c.access_token ≡ false
    → is_empty (run_callback c i).access_token ≡ false
unfolding run_callback
callback_given c (call_rpc auth_success pm (some self)) g =
    elim (Bool-cases (is_empty pm.access_token)) [ inl e ↦ rw e g | inr e ↦ simp e ]
callback_given c (call_rpc auth_success pm (some (other u))) g = g
callback_given c (call_rpc auth_success pm none) g = g
callback_given c (call_rpc auth_error pm u) g = g
callback_given c (call_rpc (user f) pm u) g = g
callback_given c (call_sub f pm) g = g

pub callbacks_given :
    {F S U : Type 0} (c : Client F S U) (is : List (Invocation (RpcCallback F) S (UserData U)))
    → is_empty c.access_token ≡ false
    → is_empty (run_callbacks c is).access_token ≡ false
unfolding run_callbacks
callbacks_given c [] g = g
callbacks_given c (i ∷ is) g = callbacks_given (run_callback c i) is (callback_given c i g)

-- A pop moves `tail` alone.
pub pop_kept :
    {A : Type 0} (n : ℕ) (q : SpscQueue A)
    → ((pop n q).0.head ≡ q.head) × ((pop n q).0.buffer ≡ q.buffer)
unfolding pop
pop_kept n q = elim (Bool-cases (q.tail == q.head)) [
  | inl e ↦ rw e (refl, refl)
  | inr e ↦ rw e (refl, refl)
]
