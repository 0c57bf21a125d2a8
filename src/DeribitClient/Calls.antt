-- ===== src/DeribitClient/Calls.antt =====
-- include/deribit/deribit_client.h: the requests, the authentication and the dispatch loop.
use hft_deribit.Prelude.{
  ℕ, Bool, true, false, not, ◌||◌, List, [], ◌∷◌, ◌++◌, Option, none, some, Text, codes, is_empty,
  if◌then◌else◌,
}
use hft_deribit.Prelude.Decimal.{to_string}
use hft_deribit.SpscQueue.{push}
use hft_deribit.RateLimiter.{allow_request}
use hft_deribit.Json.{Simdjson}
use hft_deribit.Dispatcher.{register_rpc, register_subscription, Invocation, call_rpc}
use hft_deribit.Dispatcher.Dispatch.{dispatch}
use hft_deribit.DeribitClient.{
  inbound_capacity, outbound_capacity, auth_id, RpcCallback, auth_success, auth_error, UserData,
  self, Result, ok, throws, credentials_not_loaded, Client,
}

-- The text of a request.
unfoldable pub rpc_message : ℕ → Text → Text → Text
rpc_message id method params =
    codes "{\"jsonrpc\":\"2.0\",\"id\":"
    ++ (to_string id
        ++ (codes ",\"method\":\""
            ++ (method ++ (codes "\",\"params\":" ++ (params ++ codes "}")))))

-- The text of a subscription, its line breaks and blanks included.
unfoldable pub subscribe_message : Text → Text
subscribe_message channel =
    codes
      "{\n            \"jsonrpc\": \"2.0\",\n            \"id\": 1001,\n            \"method\": \"public/subscribe\",\n            \"params\": { \"channels\": [\""
    ++ (channel ++ codes "\"] }\n        }")

-- The parameters of `public/auth`.
unfoldable pub auth_params : Text → Text → Text
auth_params id secret =
    codes "{\"grant_type\":\"client_credentials\",\"client_id\":\""
    ++ (id ++ (codes "\",\"client_secret\":\"" ++ (secret ++ codes "\"}")))

module _ {F S U : Type 0} where
  -- Both `send_rpc` and `subscribe` ask the limiter, and then push; the result of the push is not
  -- looked at.
  unfoldable pub enqueue : Client F S U → ℕ → Text → Client F S U × Bool
  enqueue c now msg =
      let (limiter, allowed) = allow_request c.rate_limiter now in
      if allowed
      then (
        record c {
          rate_limiter = limiter;
          outbound_queue = (push outbound_capacity c.outbound_queue msg).0;
        },
        true,
      )
      else (record c { rate_limiter = limiter }, false)

  unfoldable pub send_rpc : Client F S U → ℕ → ℕ → Text → Text → Client F S U × Bool
  send_rpc c now id method params = enqueue c now (rpc_message id method params)

  unfoldable pub subscribe : Client F S U → ℕ → Text → Client F S U
  subscribe c now channel = (enqueue c now (subscribe_message channel)).0

  unfoldable pub authenticate : Client F S U → ℕ → Result (Client F S U)
  authenticate c now =
      if is_empty c.client_id || is_empty c.client_secret
      then throws credentials_not_loaded
      else (let registered = record c {
        dispatcher =
            register_rpc c.dispatcher auth_id (some auth_success) (some auth_error) (some self);
      } in
          ok
            (send_rpc registered now auth_id (codes "public/auth")
              (auth_params c.client_id c.client_secret)).0)

  -- `connect` once the websocket is connected; the threads it starts have models of their own.
  unfoldable pub connect : Client F S U → ℕ → Result (Client F S U)
  connect c now = authenticate (record c { connected = true }) now

  -- `close` before it waits for the other threads: the dispatcher's loop is told to end.
  unfoldable pub close : Client F S U → Client F S U
  close c = record c {
    connected = false;
    inbound_queue = (push inbound_capacity c.inbound_queue []).0;
  }

  -- `DeribitClient::register_subscription`
  unfoldable pub subscribe_callback : Client F S U → Text → Option S → Client F S U
  subscribe_callback c channel cb = record c {
    dispatcher = register_subscription c.dispatcher channel cb;
  }

  -- The effect of a callback on the client: a successful authentication stores its token. What the
  -- caller's own callbacks do is not the client's.
  unfoldable pub run_callback :
      Client F S U → Invocation (RpcCallback F) S (UserData U) → Client F S U
  run_callback c (call_rpc auth_success pm (some self)) =
      if is_empty pm.access_token then c else record c { access_token = pm.access_token }
  run_callback c _ = c

  unfoldable pub run_callbacks :
      Client F S U → List (Invocation (RpcCallback F) S (UserData U)) → Client F S U
  run_callbacks c [] = c
  run_callbacks c (i ∷ is) = run_callbacks (run_callback c i) is

module _ (j : Simdjson) {F S U : Type 0} where
  -- The body of the dispatch loop after `wait_and_pop` returned `msg`: whether the loop goes on,
  -- and the client. `none`: an exception of the dispatcher ends the program.
  unfoldable pub dispatch_message : Client F S U → Text → Option (Bool × Client F S U)
  dispatch_message c msg =
      if not c.connected || is_empty msg
      then some (false, c)
      else (elim (dispatch j c.dispatcher msg) [
        | none ↦ none
        | some calls ↦ some (true, run_callbacks c calls)
      ])

  -- The loop over the messages that `wait_and_pop` returns, in order; it leaves the messages after
  -- the one that ends it.
  unfoldable pub dispatch_loop : Client F S U → List Text → Option (Client F S U × List Text)
  dispatch_loop c [] = some (c, [])
  dispatch_loop c (msg ∷ msgs) = elim (dispatch_message c msg) [
    | none ↦ none
    | some (true, c') ↦ dispatch_loop c' msgs
    | some (false, c') ↦ some (c', msgs)
  ]
