-- ===== src/Dispatcher/Success.antt =====
-- A response without an error: what its callback is given, the access token in particular.
use hft_deribit.Prelude.{ℕ, ◌≡◌, refl, ap, ◌∙◌, arith, true, List, some, none, Text, codes}
use hft_deribit.Json.{Simdjson, field_raw_json, field_object, member_string}
use hft_deribit.ParsedMessage.{ParsedMessage, new_message}
use hft_deribit.Dispatcher.{Dispatcher, Invocation, rpc_slot, invoke_rpc}
use hft_deribit.Dispatcher.Routing.{
  IsResponse, read_result-IsReply, calls_of, calls_alone, dispatch_doc-calls_of, dispatch-parsed,
}
use hft_deribit.Dispatcher.Dispatch.{
  detect_rpc, consume_latency, read_result, has_error, handle_rpc, dispatch,
}

-- The token that `read_result` stores.
read_result-token :
    (j : Simdjson) (doc : j.Doc) (pm : ParsedMessage) (token : Text) (o : j.Object)
    → (field_object j (field_raw_json j doc (codes "result")).0 (codes "result")).1 ≡ some o
    → (member_string j
        (field_object j (field_raw_json j doc (codes "result")).0 (codes "result")).0
        o
        (codes "access_token")).1
      ≡ some token
    → (read_result j doc pm).1.access_token ≡ token
unfolding read_result
read_result-token j doc pm token o found member = ground arith

-- A response that carries no error, and the message that its callback is then given.
module _ (j : Simdjson) (doc : j.Doc) (id : ℕ) where
  -- The document when the error is looked for, and after that.
  abbrev pub at_error : j.Doc
  at_error =
      consume_latency j (detect_rpc j doc new_message).0
        (record new_message { is_rpc = true; id = id })

  abbrev pub at_result : j.Doc
  at_result = (has_error j at_error).0

  abbrev pub IsSuccess : Type 0
  IsSuccess = (has_error j at_error).1 ≡ some none

  abbrev pub success_message : ParsedMessage
  success_message = (read_result j at_result (record new_message { is_rpc = true; id = id })).1

  -- The result is an object with the access token `token`.
  abbrev pub HasToken : Text → Type 0
  HasToken token =
      (o : j.Object) × ((field_object j (field_raw_json j at_result (codes "result")).0
          (codes "result")).1
        ≡ some o)
      × ((member_string j
            (field_object j (field_raw_json j at_result (codes "result")).0 (codes "result")).0 o
            (codes "access_token")).1
          ≡ some token)

  pub success_token : (token : Text) → HasToken token → success_message.access_token ≡ token
  success_token token (o, found, member) =
      read_result-token j at_result (record new_message { is_rpc = true; id = id }) token o found
        member

  abbrev reply : ParsedMessage
  reply = record new_message { is_rpc = true; id = id }

  abbrev called : {F S U : Type 0} → Dispatcher F S U → List (Invocation F S U)
  called d =
      invoke_rpc (d.rpc_handler (rpc_slot id)).on_success success_message
        (d.rpc_handler (rpc_slot id)).user_data

  handle_success :
      {F S U : Type 0} (d : Dispatcher F S U)
      → IsSuccess
      → handle_rpc j d at_error reply
        ≡ some ((read_result j at_result reply).0, success_message, called d)
  unfolding handle_rpc
  handle_success d ok = rw ok refl

  -- It calls `on_success` of the id's slot and nothing else, and no exception leaves `dispatch`.
  pub success_routed :
      {F S U : Type 0} (d : Dispatcher F S U) (json : Text)
      → j.iterate json ≡ some doc
      → IsResponse j doc id
      → IsSuccess
      → dispatch j d json
        ≡ some (
            invoke_rpc
              (d.rpc_handler (rpc_slot id)).on_success
              success_message
              (d.rpc_handler (rpc_slot id)).user_data)
  success_routed d json parsed h ok =
      dispatch-parsed j d json parsed
      ∙ dispatch_doc-calls_of j d doc id h
      ∙ ap (calls_of j d) (handle_success d ok)
      ∙ ap some (
          calls_alone j d (called d) (read_result j at_result reply).0 success_message
            (read_result-IsReply j at_result id).no_subscription)
