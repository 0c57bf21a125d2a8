-- ===== src/System/Requests.antt =====
-- What the caller's requests, and the making of a client, do to its queues and flags.
use hft_deribit.Prelude.{
  ℕ, ◌≡◌, refl, sym, ap, subst, ◌∙◌, false, ◌||◌, ◌⊎◌, [], Option, some, Text, codes, is_empty,
  if◌then◌else◌, Bool-cases, inl, inr,
}
use hft_deribit.SpscQueue.{init, push}
use hft_deribit.RateLimiter.{allow_request}
use hft_deribit.Dispatcher.{register_rpc}
use hft_deribit.DeribitClient.{
  Client, auth_success, auth_error, self, Result, ok, throws, Error, credentials_not_loaded,
  auth_id, inbound_capacity, outbound_capacity, new_client, blank_client, load_credentials_from_env,
  get_env,
}
use hft_deribit.DeribitClient.Calls.{enqueue, send_rpc, authenticate, auth_params, rpc_message}

-- A request leaves the rest of the client alone.
pub enqueue_kept :
    {F S U : Type 0} (c : Client F S U) (now : ℕ) (msg : Text)
    → ((enqueue c now msg).0.inbound_queue ≡ c.inbound_queue)
      × ((enqueue c now msg).0.connected ≡ c.connected)
      × ((enqueue c now msg).0.access_token ≡ c.access_token)
unfolding enqueue
enqueue_kept c now msg = elim (Bool-cases (allow_request c.rate_limiter now).1) [
  | inl e ↦ rw e (refl, refl, refl)
  | inr e ↦ rw e (refl, refl, refl)
]

pub enqueue-outbound_queue :
    {F S U : Type 0} (c : Client F S U) (now : ℕ) (msg : Text)
    → (enqueue c now msg).0.outbound_queue ≡ (
        if (allow_request c.rate_limiter now).1
        then (push outbound_capacity c.outbound_queue msg).0
        else c.outbound_queue)
unfolding enqueue
enqueue-outbound_queue c now msg = elim (Bool-cases (allow_request c.rate_limiter now).1) [
  | inl e ↦ rw e refl
  | inr e ↦ rw e refl
]

-- The request of `authenticate`.
abbrev pub auth_request : {F S U : Type 0} → Client F S U → Text
auth_request c = rpc_message auth_id (codes "public/auth") (auth_params c.client_id c.client_secret)

-- When `authenticate` returns, it has changed the queues as that request does.
pub authenticate_effect :
    {F S U : Type 0} (c : Client F S U) (now : ℕ) {c' : Client F S U}
    → authenticate c now ≡ ok c'
    → (c'.inbound_queue ≡ c.inbound_queue)
      × (c'.connected ≡ c.connected)
      × (c'.outbound_queue ≡ (enqueue c now (auth_request c)).0.outbound_queue)
      × (c'.access_token ≡ c.access_token)
unfolding authenticate send_rpc
authenticate_effect c now {c'} e =
    elim (Bool-cases (is_empty c.client_id || is_empty c.client_secret)) [
      | inl empty ↦
          let result : authenticate c now ≡ throws credentials_not_loaded =
            rw (authenticate, empty) refl in
          cc
      | inr loaded ↦
          let d =
            register_rpc c.dispatcher auth_id (some auth_success) (some auth_error) (some self) in
          let x : Client _ _ _ = record c { dispatcher = d } in
          let y = (enqueue x now (auth_request c)).0 in
          let result : authenticate c now ≡ ok y = rw (authenticate, loaded) refl in
          let same : c' ≡ y = cc in
          (
            ap (λ c. c.inbound_queue) same ∙ (enqueue_kept x now (auth_request c)).0,
            ap (λ c. c.connected) same ∙ (enqueue_kept x now (auth_request c)).1,
            ap (λ c. c.outbound_queue) same
                ∙ enqueue-outbound_queue x now (auth_request c)
                ∙ sym (enqueue-outbound_queue c now (auth_request c)),
            ap (λ c. c.access_token) same ∙ (enqueue_kept x now (auth_request c)).2,
          )
    ]

Result-cases : {A : Type 0} (r : Result A) → ((x : Error) × (r ≡ throws x)) ⊎ ((a : A) × (r ≡ ok a))
Result-cases (throws x) = inl (x, refl)
Result-cases (ok a) = inr (a, refl)

-- Loading the credentials changes nothing else.
load_effect :
    {F S U : Type 0} (env : Text → Option Text) (x : Client F S U) {c : Client F S U}
    → load_credentials_from_env env x ≡ ok c
    → c ≡ record x { client_id = c.client_id; client_secret = c.client_secret }
unfolding load_credentials_from_env
load_effect env x {c} e = elim (Result-cases (get_env env (codes "DERIBIT_CLIENT_ID"))) [
  | inl (err, no_id) ↦
      let result : load_credentials_from_env env x ≡ throws err =
        rw (load_credentials_from_env, no_id) refl in
      cc
  | inr (id, has_id) ↦ elim (Result-cases (get_env env (codes "DERIBIT_CLIENT_SECRET"))) [
    | inl (err, no_secret) ↦
        let result : load_credentials_from_env env x ≡ throws err =
          rw (load_credentials_from_env, has_id, no_secret) refl in
        cc
    | inr (secret, has_secret) ↦
        let y : Client _ _ _ = record x { client_id = id; client_secret = secret } in
        let result : load_credentials_from_env env x ≡ ok y =
          rw (load_credentials_from_env, has_id, has_secret) refl in
        let same : c ≡ y = cc in
        subst (λ d. d ≡ record x { client_id = d.client_id; client_secret = d.client_secret })
          (sym same) refl
  ]
]

-- A new client has empty queues and is not connected.
pub new_client_effect :
    {F S U : Type 0} (env : Text → Option Text) (now : ℕ) {c : Client F S U}
    → new_client env now ≡ ok c
    → (c.outbound_queue ≡ init outbound_capacity [])
      × (c.inbound_queue ≡ init inbound_capacity [])
      × (c.connected ≡ false)
unfolding new_client blank_client
new_client_effect env now {c} e =
    let same = load_effect env (blank_client now) e in
    (ap (λ d. d.outbound_queue) same, ap (λ d. d.inbound_queue) same, ap (λ d. d.connected) same)
