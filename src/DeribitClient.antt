-- ===== src/DeribitClient.antt =====
-- include/deribit/deribit_client.h and include/deribit/env.h: the client that ties the parts
-- together. `Calls` models its methods.
pub mod Calls
pub mod Callbacks
pub mod Requests
pub mod Auth
pub mod Shutdown
use hft_deribit.Prelude.{
  ℕ, ◌+◌, Bool, true, false, ◌||◌, List, [], ◌∷◌, ◌++◌, Option, none, some, Text, codes, is_empty,
  if◌then◌else◌,
}
use hft_deribit.Prelude.Decimal.{to_string}
use hft_deribit.SpscQueue.{SpscQueue, push, init}
use hft_deribit.RateLimiter
use hft_deribit.RateLimiter.{RateLimiter, allow_request}
use hft_deribit.ParsedMessage.{ParsedMessage}
use hft_deribit.Dispatcher.{
  Dispatcher, new_dispatcher, register_rpc, Invocation, call_rpc, call_sub,
}

-- The capacities of the two queues.
abbrev pub inbound_capacity : ℕ
inbound_capacity = 4096

abbrev pub outbound_capacity : ℕ
outbound_capacity = 1024

abbrev pub auth_id : ℕ
auth_id = 9001

-- The callbacks of requests: the two that `authenticate` registers, or one of the caller.
pub data RpcCallback (F : Type 0) : Type 0 where
  auth_success : RpcCallback F
  auth_error : RpcCallback F
  user : F → RpcCallback F

-- What `user_data` points to: the client itself, or something of the caller.
pub data UserData (U : Type 0) : Type 0 where
  self : UserData U
  other : U → UserData U

-- The exceptions that the methods throw.
pub data Error : Type 0 where
  missing_variable : Text → Error
  credentials_not_loaded : Error

pub data Result {ℓ} (A : Type ℓ) : Type ℓ where
  ok : A → Result A
  throws : Error → Result A

-- `DeribitClient`; the websocket and the threads are in `WebSocket`, `Receiver` and `RequestSender`.
pub record Client (F S U : Type 0) : Type 0 where
  pub client_id : Text
  pub client_secret : Text
  pub access_token : Text
  pub dispatcher : Dispatcher (RpcCallback F) S (UserData U)
  pub inbound_queue : SpscQueue Text
  pub outbound_queue : SpscQueue Text
  pub connected : Bool
  pub rate_limiter : RateLimiter

-- `get_env`, of the environment's variables.
unfoldable pub get_env : (Text → Option Text) → Text → Result Text
get_env env var = elim (env var) [ none ↦ throws (missing_variable var) | some val ↦ ok val ]

module _ {F S U : Type 0} where
  unfoldable pub load_credentials_from_env :
      (Text → Option Text) → Client F S U → Result (Client F S U)
  unfolding get_env
  load_credentials_from_env env c = elim (get_env env (codes "DERIBIT_CLIENT_ID")) [
    | throws e ↦ throws e
    | ok id ↦ elim (get_env env (codes "DERIBIT_CLIENT_SECRET")) [
      | throws e ↦ throws e
      | ok secret ↦ ok (record c { client_id = id; client_secret = secret })
    ]
  ]

  -- The members before the constructor's body.
  unfoldable pub blank_client : ℕ → Client F S U
  blank_client now = record {
    client_id = [];
    client_secret = [];
    access_token = [];
    dispatcher = new_dispatcher;
    inbound_queue = init inbound_capacity [];
    outbound_queue = init outbound_capacity [];
    connected = false;
    rate_limiter = RateLimiter.init now;
  }

  -- The constructor, at the time `now`.
  unfoldable pub new_client : (Text → Option Text) → ℕ → Result (Client F S U)
  unfolding load_credentials_from_env
  new_client env now = load_credentials_from_env env (blank_client now)

  abbrev pub get_access_token : Client F S U → Text
  get_access_token c = c.access_token
