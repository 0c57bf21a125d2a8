-- ===== src/Dispatcher/Routing.antt =====
-- Which callback a message reaches, and with what.
use hft_deribit.Prelude.{
  ℕ, ◌≡◌, refl, ap, ◌∙◌, subst, arith, Bool, true, false, List, [], ◌++◌, Option, some, none, Text,
  codes, append-nil, inl, inr, Option-cases,
}
use hft_deribit.Json.{Simdjson, field_uint64}
use hft_deribit.ParsedMessage.{ParsedMessage, new_message, RpcHandler}
use hft_deribit.Dispatcher.{
  Dispatcher, Invocation, rpc_slot, invoke_rpc, new_dispatcher, no_handler,
}
use hft_deribit.Dispatcher.Tables.{Registration, register_all, latest_rpc, rpc_handler-register_all}
use hft_deribit.Dispatcher.Dispatch.{
  detect_rpc, detect_subscription, consume_latency, read_error, read_result, has_error, handle_rpc,
  handle_subscription, dispatch_doc, dispatch,
}

-- What a callback of a response is given: the id, and latency fields that were never stored.
pub record IsReply (id : ℕ) (error : Bool) (pm : ParsedMessage) : Type 0 where
  pub rpc : pm.is_rpc ≡ true
  pub no_subscription : pm.is_subscription ≡ false
  pub same_id : pm.id ≡ id
  pub error_flag : pm.is_error ≡ error
  no_latency : (pm.us_in ≡ 0) × (pm.us_out ≡ 0) × (pm.us_diff ≡ 0)

module _ {F S U : Type 0} (h : RpcHandler F U) (id : ℕ) where
  -- The calls are those of one callback of the handler: `on_error` for an error, `on_success`
  -- otherwise; none if that callback is null.
  pub data Answers (calls : List (Invocation F S U)) : Type 0 where
    failed :
        (pm : ParsedMessage)
        → IsReply id true pm
        → calls ≡ invoke_rpc h.on_error pm h.user_data
        → Answers calls
    succeeded :
        (pm : ParsedMessage)
        → IsReply id false pm
        → calls ≡ invoke_rpc h.on_success pm h.user_data
        → Answers calls

module _ (j : Simdjson) where
  open j use {Doc, Value, iterate}

  -- A document whose "id" is the unsigned number `id`.
  abbrev pub IsResponse : Doc → ℕ → Type 0
  IsResponse doc id = (field_uint64 j doc (codes "id")).1 ≡ some id

  abbrev response : ℕ → ParsedMessage
  response id = record new_message { is_rpc = true; id = id }

  detect_response :
      (doc : Doc) (id : ℕ) → IsResponse doc id → (detect_rpc j doc new_message).1 ≡ response id
  unfolding detect_rpc field_uint64
  detect_response doc id h = ground arith

  read_error-IsReply :
      (doc : Doc) (err : Value) (id : ℕ) → IsReply id true (read_error j doc err (response id)).1
  unfolding read_error
  read_error-IsReply doc err id = ground arith

  pub read_result-IsReply :
      (doc : Doc) (id : ℕ) → IsReply id false (read_result j doc (response id)).1
  unfolding read_result
  read_result-IsReply doc id = ground arith

  -- A message that is no notification calls no subscription.
  no_subscription_call :
      {F S U : Type 0} (d : Dispatcher F S U) (doc : Doc) (pm : ParsedMessage)
      → pm.is_subscription ≡ false
      → handle_subscription j d doc pm ≡ []
  unfolding handle_subscription
  no_subscription_call d doc pm h = rw h refl

  pub calls_alone :
      {F S U : Type 0} (d : Dispatcher F S U) (calls : List (Invocation F S U)) (doc : Doc)
      (pm : ParsedMessage)
      → pm.is_subscription ≡ false
      → calls ++ handle_subscription j d doc pm ≡ calls
  calls_alone d calls doc pm h =
      ap (λ more. calls ++ more) (no_subscription_call d doc pm h) ∙ append-nil calls

  module _ {F S U : Type 0} (d : Dispatcher F S U) where
    -- The calls of a response, unless an exception leaves the function.
    abbrev pub calls_of :
        Option (Doc × ParsedMessage × List (Invocation F S U)) → Option (List (Invocation F S U))
    calls_of none = none
    calls_of (some r) = some (r.2 ++ handle_subscription j d r.0 r.1)

    abbrev Answered : ℕ → Option (List (Invocation F S U)) → Type 0
    Answered id none = Unit
    Answered id (some calls) = Answers (d.rpc_handler (rpc_slot id)) id calls

    handle_response :
        (doc : Doc) (id : ℕ) → Answered id (calls_of (handle_rpc j d doc (response id)))
    unfolding handle_rpc
    handle_response doc id = elim (Option-cases (has_error j doc).1) [
      | inl e ↦ rw e tt
      | inr (some v, e) ↦
          let reply : IsReply id true (read_error j (has_error j doc).0 v (response id)).1 =
            read_error-IsReply (has_error j doc).0 v id in
          rw e (
            failed (read_error j (has_error j doc).0 v (response id)).1 reply
              (calls_alone d _ _ _ reply.no_subscription))
      | inr (none, e) ↦
          let reply : IsReply id false (read_result j (has_error j doc).0 (response id)).1 =
            read_result-IsReply (has_error j doc).0 id in
          rw e (
            succeeded (read_result j (has_error j doc).0 (response id)).1 reply
              (calls_alone d _ _ _ reply.no_subscription))
    ]

    pub dispatch_doc-calls_of :
        (doc : Doc) (id : ℕ)
        → IsResponse doc id
        → dispatch_doc j d doc
          ≡ calls_of (
              handle_rpc j d
                (consume_latency j (detect_rpc j doc new_message).0 (response id))
                (response id))
    unfolding dispatch_doc detect_subscription
    dispatch_doc-calls_of doc id h =
        ap
          (λ pm.
            let r = detect_subscription j (detect_rpc j doc new_message).0 pm in
            calls_of (handle_rpc j d (consume_latency j r.0 r.1) r.1))
          (detect_response doc id h)

    pub dispatch-parsed :
        (json : Text) {doc : Doc}
        → iterate json ≡ some doc
        → dispatch j d json ≡ dispatch_doc j d doc
    unfolding dispatch
    dispatch-parsed json e = rw (e, dispatch) refl

    -- A response reaches the handler in its id's slot, and no other callback, whichever fields it
    -- has, unless an exception leaves `dispatch`.
    pub response_routed :
        (json : Text) {doc : Doc} (id : ℕ)
        → iterate json ≡ some doc
        → IsResponse doc id
        → {calls : List (Invocation F S U)} → dispatch j d json ≡ some calls
        → Answers (d.rpc_handler (rpc_slot id)) id calls
    response_routed json {doc} id parsed h {calls} e =
        let answered : Answered id (dispatch j d json) =
          rw (dispatch-parsed json parsed, dispatch_doc-calls_of doc id h)
            (handle_response (consume_latency j (detect_rpc j doc new_message).0 (response id))
              id) in
        subst (Answered id) e answered

-- After any registrations, if a message parses, its "id" is an unsigned number, and no exception
-- leaves `dispatch`: the calls are those of one callback of the handler that was registered last
-- for the id, or for an id with the same remainder modulo 4096: `on_error` or `on_success`, with
-- that handler's user data, or none if that callback is null. Without such a registration nothing
-- is called.
pub response_to_latest :
    {F S U : Type 0} (j : Simdjson) (rs : List (Registration F S U)) (json : Text) {doc : j.Doc}
    (id : ℕ)
    → j.iterate json ≡ some doc
    → IsResponse j doc id
    → {calls : List (Invocation F S U)}
    → dispatch j (register_all new_dispatcher rs) json ≡ some calls
    → Answers (latest_rpc id no_handler rs) id calls
response_to_latest j rs json id parsed h {calls} e =
    subst (λ g. Answers g id calls) (rpc_handler-register_all new_dispatcher rs id)
      (response_routed j (register_all new_dispatcher rs) json id parsed h e)
