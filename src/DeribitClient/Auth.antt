-- ===== src/DeribitClient/Auth.antt =====
-- The authentication: what is sent for it, and what its reply does.
use hft_deribit.Prelude.{
  ℕ, ◌≡◌, ◌≢◌, refl, ap, ◌∙◌, arith, Bool, true, false, not, ◌&&◌, ◌||◌, List, [], ◌∷◌, ◌++◌, some,
  Text, codes, is_empty, length, ltb, if◌then◌else◌, ◌⊎◌, inl, inr, Bool-cases,
}
use hft_deribit.SpscQueue.Holds.{Holds}
use hft_deribit.RateLimiter.{allow_request}
use hft_deribit.Json.{Simdjson}
use hft_deribit.ParsedMessage.{RpcHandler}
use hft_deribit.Dispatcher.{rpc_slot, register_rpc, invoke_rpc, Invocation}
use hft_deribit.Dispatcher.Dispatch.{dispatch}
use hft_deribit.Dispatcher.Routing.{IsResponse}
use hft_deribit.Dispatcher.Success.{
  IsSuccess, HasToken, success_message, success_token, success_routed,
}
use hft_deribit.DeribitClient.{
  Client, outbound_capacity, auth_id, RpcCallback, auth_success, auth_error, UserData, self, ok,
  throws, credentials_not_loaded,
}
use hft_deribit.DeribitClient.Calls.{
  rpc_message, auth_params, send_rpc, authenticate, run_callback, run_callbacks, dispatch_message,
}
use hft_deribit.DeribitClient.Requests.{send_rpc_queues}

-- The handler of the authentication.
abbrev pub auth_handler : {F U : Type 0} → RpcHandler (RpcCallback F) (UserData U)
auth_handler = record {
  on_success = some auth_success;
  on_error = some auth_error;
  user_data = some self;
}

module _ {F S U : Type 0} where
  -- The client with the handler in place, and after the request.
  abbrev registered : Client F S U → Client F S U
  registered c = record c {
    dispatcher =
        register_rpc c.dispatcher auth_id (some auth_success) (some auth_error) (some self);
  }

  abbrev requested : Client F S U → ℕ → Client F S U
  requested c now =
      (send_rpc (registered c) now auth_id (codes "public/auth")
        (auth_params c.client_id c.client_secret)).0

  abbrev is_loaded : Client F S U → Bool
  is_loaded c = not (is_empty c.client_id || is_empty c.client_secret)

  authenticate-loaded :
      (c : Client F S U) (now : ℕ)
      → (is_empty c.client_id || is_empty c.client_secret) ≡ false
      → authenticate c now ≡ ok (requested c now)
  unfolding authenticate
  authenticate-loaded c now e = rw e refl

  authenticate-empty :
      (c : Client F S U) (now : ℕ)
      → (is_empty c.client_id || is_empty c.client_secret) ≡ true
      → authenticate c now ≡ throws credentials_not_loaded
  unfolding authenticate
  authenticate-empty c now e = rw e refl

  registered-slot :
      (c : Client F S U) → (registered c).dispatcher.rpc_handler (rpc_slot auth_id) ≡ auth_handler
  unfolding register_rpc
  registered-slot c = ground arith

  registered-other :
      (c : Client F S U) (i : ℕ)
      → i ≢ rpc_slot auth_id
      → (registered c).dispatcher.rpc_handler i ≡ c.dispatcher.rpc_handler i
  unfolding register_rpc
  registered-other c i ne = ground arith

  -- If the outbound queue holds a list: without credentials `authenticate` throws. With them it
  -- returns, its handler is in the slot of its id and no other slot changes, and the request is put
  -- behind the list if the limiter allows it and fewer than 1023 are queued.
  pub authenticate_lem :
      (c : Client F S U) (now : ℕ) {xs : List Text}
      → Holds outbound_capacity c.outbound_queue xs
      → let msg =
          rpc_message auth_id (codes "public/auth") (auth_params c.client_id c.client_secret) in
        ((is_loaded c ≡ false) × (authenticate c now ≡ throws credentials_not_loaded))
        ⊎ ((is_loaded c ≡ true)
            × ((c' : Client F S U) × (authenticate c now ≡ ok c')
                × (c'.dispatcher.rpc_handler (rpc_slot auth_id) ≡ auth_handler)
                × ((i : ℕ)
                    → i ≢ rpc_slot auth_id
                    → c'.dispatcher.rpc_handler i ≡ c.dispatcher.rpc_handler i)
                × Holds outbound_capacity c'.outbound_queue (
                    if (allow_request c.rate_limiter now).1 && ltb (length xs) 1023
                    then xs ++ msg ∷ []
                    else xs)))
  authenticate_lem c now {xs} v =
      elim (Bool-cases (is_empty c.client_id || is_empty c.client_secret)) [
        | inl e ↦ inl (ap not e, authenticate-empty c now e)
        | inr e ↦
            let (answer, queued, same) =
              send_rpc_queues (registered c) now auth_id (codes "public/auth")
                (auth_params c.client_id c.client_secret) v in
            let slot : (i : ℕ)
                → (requested c now).dispatcher.rpc_handler i
                  ≡ (registered c).dispatcher.rpc_handler i =
              λ i. ap (λ d. d.dispatcher.rpc_handler i) same in
            inr (
              ap not e,
              (
                requested c now,
                authenticate-loaded c now e,
                slot (rpc_slot auth_id) ∙ registered-slot c,
                λ i ne. slot i ∙ registered-other c i ne,
                queued,
              ),
            )
      ]

  dispatch_message-calls :
      (j : Simdjson) (c : Client F S U) (json : Text)
      {calls : List (Invocation (RpcCallback F) S (UserData U))}
      → c.connected ≡ true
      → is_empty json ≡ false
      → dispatch j c.dispatcher json ≡ some calls
      → dispatch_message j c json ≡ some (true, run_callbacks c calls)
  unfolding dispatch_message
  dispatch_message-calls j c json up nonempty e = ground arith

  -- If the client is connected, the handler of the authentication is in its slot, and the message
  -- is a response to it without an error and with a token in its result: the loop goes on, the
  -- token is the client's access token, and nothing else changes. An empty token changes nothing at
  -- all.
  pub token_stored :
      (j : Simdjson) (c : Client F S U) (json : Text) {doc : j.Doc} (token : Text)
      → c.dispatcher.rpc_handler (rpc_slot auth_id) ≡ auth_handler
      → c.connected ≡ true
      → is_empty json ≡ false
      → j.iterate json ≡ some doc
      → IsResponse j doc auth_id
      → IsSuccess j doc auth_id
      → HasToken j doc auth_id token
      → dispatch_message j c json
        ≡ some (true, if is_empty token then c else record c { access_token = token })
  unfolding invoke_rpc run_callbacks run_callback
  token_stored j c json {doc} token handler up nonempty parsed h success has =
      dispatch_message-calls j c json up nonempty (
        success_routed j doc auth_id c.dispatcher json parsed h success
        ∙ ap (λ g. some (invoke_rpc g.on_success (success_message j doc auth_id) g.user_data))
            handler)
      ∙ ap (λ t. some (true, if is_empty t then c else record c { access_token = t }))
          (success_token j doc auth_id token has)
