-- ===== src/Tests/Messages.antt =====
-- Messages through the dispatcher, for callbacks and data that are numbers.
use hft_deribit.Prelude.{
  ℕ, ◌+◌, ◌-◌, ◌^◌, ◌<◌, ◌≡◌, refl, arith, true, List, [], ◌∷◌, none, some, Text, codes, ltb,
  if◌then◌else◌,
}
use hft_deribit.Prelude.Int.{pos, negsuc}
use hft_deribit.FastHash.{fast_hash}
use hft_deribit.Json.{
  field_uint64, field_string, field_raw_json, field_object, member_string, member_raw_json,
  inner_int64,
}
use hft_deribit.ParsedMessage.{ParsedMessage, new_message, RpcHandler}
use hft_deribit.Dispatcher.{
  Invocation, call_rpc, rpc_slot, sub_slot, new_dispatcher, no_handler, register_rpc, invoke_rpc,
  invoke_sub,
}
use hft_deribit.Dispatcher.Dispatch.{
  detect_rpc, detect_subscription, consume_latency, read_error, read_result, has_error, handle_rpc,
  handle_subscription, dispatch_doc, dispatch,
}
use hft_deribit.Dispatcher.Tables.{
  Registration, for_rpc, for_channel, register, register_all, latest_rpc, latest_sub,
}
use hft_deribit.Dispatcher.Routing.{Answers, response_to_latest}
use hft_deribit.Dispatcher.Notices.{notice, notification, notification_to_latest}
use hft_deribit.Dispatcher.ErrorCode.{stored_error_code}
use hft_deribit.Tests.Json.{Tree, nothing, num, signed, str, obj, end, field, reader}

abbrev json : Text
json = codes "text"

-- {"id":9001,"result":{"access_token":"abc"}}
abbrev reply : Tree
reply = obj (
    field (codes "id") (num 9001)
      (field (codes "result") (obj (field (codes "access_token") (str (codes "abc")) end)) end))

-- {"id":7,"error":{"code":-32602,"message":"bad"}}
abbrev error_value : Tree
error_value =
    obj (
      field (codes "code") (signed (negsuc 32601))
        (field (codes "message") (str (codes "bad")) end))

abbrev failure : Tree
failure = obj (field (codes "id") (num 7) (field (codes "error") error_value end))

-- {"method":"subscription","params":{"channel":"c","data":null}}
abbrev pub tick : Tree
tick = obj (
    field (codes "method") (str (codes "subscription")) (
      field (codes "params")
        (obj (field (codes "channel") (str (codes "c")) (field (codes "data") nothing end))) end))

abbrev handler_of : ℕ → RpcHandler ℕ ℕ
handler_of n = record { on_success = some n; on_error = some (n + 1); user_data = some (n + 2) }

-- The ids 9001 and 809 share a slot, so the second registration replaces the first.
abbrev filled : List (Registration ℕ ℕ ℕ)
filled =
    for_rpc 9001 (handler_of 10)
    ∷ for_channel (codes "c") (some 5)
    ∷ for_rpc 809 (handler_of 20)
    ∷ []

replaced : latest_rpc 9001 (handler_of 0) filled ≡ handler_of 20
unfolding latest_rpc
replaced = refl

reply_calls :
    dispatch
      (reader reply)
      (register_rpc {F = ℕ} {S = ℕ} {U = ℕ} new_dispatcher 9001 (some 1) (some 2) (some 3))
      json
    ≡ some (
        call_rpc 1
          (record new_message {
            is_rpc = true;
            id = 9001;
            result = codes "raw";
            access_token = codes "abc";
          })
          (some 3)
        ∷ [])
unfolding dispatch dispatch_doc detect_rpc detect_subscription consume_latency handle_rpc
    handle_subscription has_error read_result field_uint64 field_raw_json field_object member_string
    rpc_slot invoke_rpc register_rpc
reply_calls = refl

abbrev reply_message : ParsedMessage
reply_message = record new_message {
  is_rpc = true;
  id = 9001;
  result = codes "raw";
  access_token = codes "abc";
}

response_to_latest_example :
    Answers {S = ℕ}
      (latest_rpc 9001 no_handler filled)
      9001
      (call_rpc 20 reply_message (some 22) ∷ [])
unfolding dispatch dispatch_doc detect_rpc detect_subscription consume_latency handle_rpc
    handle_subscription has_error read_result field_uint64 field_string field_raw_json field_object
    member_string member_raw_json rpc_slot sub_slot fast_hash invoke_rpc invoke_sub register_all
    register
response_to_latest_example = response_to_latest (reader reply) filled json 9001 refl refl refl

notification_to_latest_example :
    dispatch (reader tick) (register_all {F = ℕ} {S = ℕ} {U = ℕ} new_dispatcher filled) json
    ≡ some (
        invoke_sub
          (latest_sub (codes "c") none filled)
          (notification (reader tick) (codes "c") (codes "raw")))
unfolding dispatch dispatch_doc detect_rpc detect_subscription consume_latency handle_rpc
    handle_subscription has_error read_result field_uint64 field_string field_raw_json field_object
    member_string member_raw_json rpc_slot sub_slot fast_hash invoke_rpc invoke_sub register_all
    register notice
notification_to_latest_example =
    notification_to_latest (reader tick) filled json (codes "c") (codes "raw") refl refl refl refl

abbrev calls : List (Invocation ℕ ℕ ℕ)
calls = call_rpc 20 reply_message (some 22) ∷ []

stored_error_code_example :
    let e = (read_error (reader failure) failure error_value new_message).1.error_code in
    (e < 2 ^ 64) × (negsuc 32601 ≡ (if ltb e (2 ^ 63) then pos e else negsuc (2 ^ 64 - 1 - e)))
unfolding inner_int64
stored_error_code_example =
    stored_error_code (reader failure) failure error_value new_message (negsuc 32601) (omega arith)
      refl
