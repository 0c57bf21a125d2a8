-- ===== src/Tests/Requests.antt =====
-- Requests of the client, from the call to the wire.
use hft_deribit.Prelude.{
  ℕ, ◌≡◌, ◌≢◌, ◌⊎◌, refl, arith, true, false, ◌&&◌, [], ◌∷◌, ◌++◌, none, some, Text, codes,
  if◌then◌else◌,
}
use hft_deribit.Prelude.Decimal.{to_string}
use hft_deribit.SpscQueue.{init}
use hft_deribit.SpscQueue.Holds.{Holds, init-Holds}
use hft_deribit.RateLimiter
use hft_deribit.RateLimiter.{allow_request}
use hft_deribit.Json.{field_uint64, field_object, field_raw_json, member_string}
use hft_deribit.Dispatcher.{rpc_slot}
use hft_deribit.Dispatcher.Dispatch.{has_error, detect_rpc, consume_latency}
use hft_deribit.RequestSender.{
  Sender, rounds, authorize, token_member, contains, starts_with, rfind, insert_at,
}
use hft_deribit.DeribitClient.{
  get_access_token, Client, outbound_capacity, auth_id, ok, throws, credentials_not_loaded,
}
use hft_deribit.DeribitClient.Calls.{
  rpc_message, auth_params, send_rpc, authenticate, dispatch_message, connect,
}
use hft_deribit.DeribitClient.Requests.{
  outbound_IsCapacity, before_brace, send_rpc_queues, private_rpc_authorized,
}
use hft_deribit.DeribitClient.Auth.{auth_handler, authenticate_lem, token_stored}
use hft_deribit.System.Session.{IsGrant, private_request_sent}
use hft_deribit.Tests.Limiter.{polls}
use hft_deribit.Tests.Json.{Tree, num, str, obj, end, field, reader}

abbrev ping : Text
ping = codes "public/ping"

ping_message :
    rpc_message 7 ping (codes "{}")
    ≡ codes "{\"jsonrpc\":\"2.0\",\"id\":7,\"method\":\"public/ping\",\"params\":{}}"
unfolding rpc_message to_string
ping_message = refl

private_message :
    authorize (codes "T") (rpc_message 9367 (codes "private/x") (codes "{\"count\":2}"))
    ≡ codes
        "{\"jsonrpc\":\"2.0\",\"id\":9367,\"method\":\"private/x\",\"params\":{\"count\":2},\"access_token\":\"T\"}"
unfolding rpc_message to_string authorize contains starts_with rfind insert_at
private_message = refl

abbrev client : Client ℕ ℕ ℕ
client = record {
  client_id = codes "me";
  client_secret = codes "secret";
  access_token = [];
  dispatcher = record { rpc_handler = λ _. auth_handler; sub_handler = λ _. none };
  inbound_queue = init 4096 [];
  outbound_queue = init 1024 [];
  connected = true;
  rate_limiter = RateLimiter.init 0;
}

private_rpc_authorized_example :
    authorize (codes "T") (rpc_message 5 (codes "private/" ++ codes "x") (codes "{}"))
    ≡ (codes "{\"jsonrpc\":\"2.0\",\"id\":"
        ++ (to_string 5
            ++ (codes ",\"method\":\"private/"
                ++ (codes "x" ++ (codes "\",\"params\":" ++ codes "{}")))))
      ++ token_member (codes "T")
      ++ codes "}"
private_rpc_authorized_example = private_rpc_authorized 5 (codes "x") (codes "{}") (codes "T") refl

send_rpc_queues_example :
    let allowed = (allow_request (RateLimiter.init 0) 3).1 in
    let (c', answer) = send_rpc client 3 7 ping (codes "{}") in
    (answer ≡ allowed)
    × Holds outbound_capacity c'.outbound_queue
        (if allowed && true then rpc_message 7 ping (codes "{}") ∷ [] else [])
    × (c' ≡ record client {
      outbound_queue = c'.outbound_queue;
      rate_limiter = (allow_request (RateLimiter.init 0) 3).0;
    })
send_rpc_queues_example =
    send_rpc_queues client 3 7 ping (codes "{}") (init-Holds outbound_IsCapacity [])

authenticate_lem_example :
    let msg =
      rpc_message auth_id (codes "public/auth") (auth_params (codes "me") (codes "secret")) in
    ((true ≡ false) × (authenticate client 3 ≡ throws credentials_not_loaded))
    ⊎ ((true ≡ true)
        × ((c' : Client ℕ ℕ ℕ) × (authenticate client 3 ≡ ok c')
            × (c'.dispatcher.rpc_handler (rpc_slot auth_id) ≡ auth_handler)
            × ((i : ℕ) → i ≢ rpc_slot auth_id → c'.dispatcher.rpc_handler i ≡ auth_handler)
            × Holds outbound_capacity c'.outbound_queue
                (if (allow_request (RateLimiter.init 0) 3).1 && true then msg ∷ [] else [])))
authenticate_lem_example = authenticate_lem client 3 (init-Holds outbound_IsCapacity [])

-- {"id":9001,"result":{"access_token":"abc"}}
abbrev pub granted : Tree
granted = obj (
    field (codes "id") (num 9001)
      (field (codes "result") (obj (field (codes "access_token") (str (codes "abc")) end)) end))

token_stored_example :
    dispatch_message (reader granted) client (codes "text")
    ≡ some (true, record client { access_token = codes "abc" })
unfolding field_uint64 field_object field_raw_json member_string has_error detect_rpc
    consume_latency
token_stored_example =
    token_stored (reader granted) client (codes "text") (codes "abc") refl refl refl refl refl refl
      (_, refl, refl)

-- Without a secret `connect` throws.
connect_unloaded : connect (record client { client_secret = [] }) 3 ≡ throws credentials_not_loaded
unfolding connect authenticate
connect_unloaded = refl

grant : IsGrant (reader granted) client (codes "text") granted (codes "abc")
unfolding field_uint64 field_object field_raw_json member_string has_error detect_rpc
    consume_latency
grant = record {
  handler = refl;
  up = refl;
  nonempty = refl;
  parsed = refl;
  response = refl;
  success = refl;
  has = (_, refl, refl);
  given = refl;
}

private_request_sent_example :
    (c' : Client ℕ ℕ ℕ) × (dispatch_message (reader granted) client (codes "text")
      ≡ some (true, c'))
    × ((send_rpc c' 5 7 (codes "private/x") (codes "{}")).1 ≡ true)
    × ((r : Sender) × (rounds outbound_capacity
            (record {
              queue = (send_rpc c' 5 7 (codes "private/x") (codes "{}")).0.outbound_queue;
              limiter = RateLimiter.init 0;
              sent = [];
            })
            ((get_access_token c', polls 10 202) ∷ [])
          ≡ some r)
        × (r.sent
            ≡ (before_brace 7 (codes "x") (codes "{}") ++ token_member (codes "abc") ++ codes "}")
              ∷ []))
unfolding allow_request RateLimiter.init
private_request_sent_example =
    private_request_sent (reader granted) client (codes "text") granted (codes "abc") 5 7
      (codes "x") (codes "{}") (RateLimiter.init 0) 10 (polls 10 202) grant
      (init-Holds outbound_IsCapacity []) refl (omega arith) (omega arith)
