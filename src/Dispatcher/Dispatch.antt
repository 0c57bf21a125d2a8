-- ===== src/Dispatcher/Dispatch.antt =====
-- include/deribit/dispatcher.h, `dispatch`: what is read from a message, and which callback is called.
use hft_deribit.Prelude.{
  true, not, List, [], ◌++◌, Option, none, some, Text, codes, bytes_eq, if◌then◌else◌,
}
use hft_deribit.Prelude.Int.{pos, to_u64}
use hft_deribit.Json.{
  Simdjson, field_uint64, field_string, field_raw_json, field_object, member_string,
  member_raw_json, inner_int64, inner_string,
}
use hft_deribit.ParsedMessage.{ParsedMessage, new_message}
use hft_deribit.Dispatcher.{Dispatcher, Invocation, rpc_slot, sub_slot, invoke_rpc, invoke_sub}

-- `T()` where a result is missing.
abbrev pub or_default {ℓ} : {A : Type ℓ} → Option A → A → A
or_default none d = d
or_default (some a) d = a

module _ (j : Simdjson) where
  open j use {Doc, Value, iterate, find_field, is_null}

  -- Lines 118 to 121: a message with an unsigned "id" is a response.
  unfoldable pub detect_rpc : Doc → ParsedMessage → Doc × ParsedMessage
  detect_rpc doc pm =
      let r = field_uint64 j doc (codes "id") in
      elim r.1 [ none ↦ (r.0, pm) | some i ↦ (r.0, record pm { is_rpc = true; id = i }) ]

  -- Lines 126 to 132: otherwise one whose "method" is "subscription" is a notification.
  unfoldable pub detect_subscription : Doc → ParsedMessage → Doc × ParsedMessage
  detect_subscription doc pm =
      if pm.is_rpc
      then (doc, pm)
      else let r = field_string j doc (codes "method") in
        (
          r.0,
          if bytes_eq (or_default r.1 []) (codes "subscription")
              then record pm { is_subscription = true }
              else pm,
        )

  -- Lines 137 to 142: the latency fields of a response are read into a temporary.
  unfoldable pub consume_latency : Doc → ParsedMessage → Doc
  consume_latency doc pm =
      if pm.is_rpc
      then (let a = field_uint64 j doc (codes "usIn") in
          let b = field_uint64 j a.0 (codes "usOut") in (field_uint64 j b.0 (codes "usDiff")).0)
      else doc

  -- Lines 153 to 159: the error code is stored as `uint64_t`.
  unfoldable pub read_error : Doc → Value → ParsedMessage → Doc × ParsedMessage
  read_error doc err pm =
      let code = inner_int64 j doc err (codes "code") in
      let message = inner_string j code.0 err (codes "message") in
      (
        message.0,
        record pm {
          is_error = true;
          error_code = to_u64 (or_default code.1 (pos 0));
          error_msg = or_default message.1 [];
        },
      )

  -- Lines 166 to 177: the raw result, and the access token if the result is an object with one.
  unfoldable pub read_result : Doc → ParsedMessage → Doc × ParsedMessage
  read_result doc pm =
      let raw = field_raw_json j doc (codes "result") in
      let pm' = record pm { result = or_default raw.1 pm.result } in
      let res = field_object j raw.0 (codes "result") in
      elim res.1 [
        | none ↦ (res.0, pm')
        | some o ↦
            let tok = member_string j res.0 o (codes "access_token") in
            (tok.0, record pm' { access_token = or_default tok.1 pm.access_token })
      ]

  -- Whether the response carries an error: the field is there and is not null. `none` for the
  -- exception of the conversion.
  unfoldable pub has_error : Doc → Doc × Option (Option Value)
  has_error doc =
      let err = find_field doc (codes "error") in
      elim err.1 [
        | none ↦ (err.0, some none)
        | some v ↦
            let null = is_null err.0 v in
            (null.0, elim null.1 [ none ↦ none | some b ↦ some (if b then none else some v) ])
      ]

  module _ {F S U : Type 0} (d : Dispatcher F S U) where
    -- Lines 146 to 182. `none`: an exception leaves the function.
    unfoldable pub handle_rpc :
        Doc → ParsedMessage → Option (Doc × ParsedMessage × List (Invocation F S U))
    handle_rpc doc pm =
        if not pm.is_rpc
        then some (doc, pm, [])
        else let h = d.rpc_handler (rpc_slot pm.id) in
          let err = has_error doc in
          elim err.1 [
            | none ↦ none
            | some (some v) ↦
                let r = read_error err.0 v pm in
                some (r.0, r.1, invoke_rpc h.on_error r.1 h.user_data)
            | some none ↦
                let r = read_result err.0 pm in
                some (r.0, r.1, invoke_rpc h.on_success r.1 h.user_data)
          ]

    -- Lines 185 to 207.
    unfoldable pub handle_subscription : Doc → ParsedMessage → List (Invocation F S U)
    handle_subscription doc pm =
        if not pm.is_subscription
        then []
        else let params = field_object j doc (codes "params") in
          elim params.1 [
            | none ↦ []
            | some o ↦
                let ch = member_string j params.0 o (codes "channel") in
                elim ch.1 [
                  | none ↦ []
                  | some channel ↦
                      let raw = member_raw_json j ch.0 o (codes "data") in
                      elim raw.1 [
                        | none ↦ []
                        | some payload ↦
                            invoke_sub (d.sub_handler (sub_slot channel))
                              (record pm { channel = channel; payload = payload })
                      ]
                ]
          ]

    -- The calls that a message causes, in order; `none` if an exception leaves the function.
    unfoldable pub dispatch_doc : Doc → Option (List (Invocation F S U))
    dispatch_doc doc =
        let (doc1, pm1) = detect_rpc doc new_message in
        let (doc2, pm2) = detect_subscription doc1 pm1 in
        let doc3 = consume_latency doc2 pm2 in
        elim (handle_rpc doc3 pm2) [
          | none ↦ none
          | some (doc4, pm4, calls) ↦ some (calls ++ handle_subscription doc4 pm4)
        ]

    -- `dispatch`
    unfoldable pub dispatch : Text → Option (List (Invocation F S U))
    dispatch json = elim (iterate json) [ none ↦ some [] | some doc ↦ dispatch_doc doc ]
