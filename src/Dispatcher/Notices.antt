-- ===== src/Dispatcher/Notices.antt =====
-- Notifications, and messages that are neither response nor notification.
use hft_deribit.Prelude.{
  ℕ, ◌≤◌, ◌≡◌, refl, ap, ◌∙◌, sym, subst, arith, Bool, true, false, List, [], Option, some, none,
  Text, codes, bytes_eq, length, if◌then◌else◌, ◌⊎◌, inl, inr, Option-cases, Bool-cases,
}
use hft_deribit.Json.{
  Simdjson, field_uint64, field_string, field_object, member_string, member_raw_json,
}
use hft_deribit.ParsedMessage.{ParsedMessage, new_message}
use hft_deribit.Dispatcher.{Dispatcher, Invocation, rpc_slot, sub_slot, invoke_rpc, invoke_sub}
use hft_deribit.Dispatcher.{new_dispatcher}
use hft_deribit.Dispatcher.Tables.{Registration, register_all, latest_sub, sub_handler-register_all}
use hft_deribit.Dispatcher.Dispatch.{
  or_default, detect_rpc, detect_subscription, consume_latency, handle_rpc, handle_subscription,
  dispatch_doc, dispatch,
}
use hft_deribit.Dispatcher.Routing.{
  Answers, failed, succeeded, response_routed, dispatch-parsed, calls_of,
}

module _ (j : Simdjson) where
  open j use {Doc, iterate}

  -- The document after the look for an "id", and the "method" found then.
  abbrev pub after_id : Doc → Doc
  after_id doc = (field_uint64 j doc (codes "id")).0

  abbrev pub method : Doc → Doc × Option Text
  method doc = field_string j (after_id doc) (codes "method")

  -- A document without an unsigned "id".
  abbrev pub HasNoId : Doc → Type 0
  HasNoId doc = (field_uint64 j doc (codes "id")).1 ≡ none

  abbrev pub is_notification : Doc → Bool
  is_notification doc = bytes_eq (or_default (method doc).1 []) (codes "subscription")

  -- The channel and the raw data of a notification, if its "params" is an object that has both.
  unfoldable pub notice : Doc → Option (Text × Text)
  notice doc =
      let params = field_object j doc (codes "params") in
      elim params.1 [
        | none ↦ none
        | some o ↦
            let ch = member_string j params.0 o (codes "channel") in
            elim ch.1 [
              | none ↦ none
              | some channel ↦ elim (member_raw_json j ch.0 o (codes "data")).1 [
                | none ↦ none
                | some payload ↦ some (channel, payload)
              ]
            ]
      ]

  abbrev pub notification : Text → Text → ParsedMessage
  notification channel payload = record new_message {
    is_subscription = true;
    channel = channel;
    payload = payload;
  }

  module _ {F S U : Type 0} (d : Dispatcher F S U) where
    -- The call that a notice asks for.
    abbrev pub notified : Option (Text × Text) → List (Invocation F S U)
    notified none = []
    notified (some (channel, payload)) =
        invoke_sub (d.sub_handler (sub_slot channel)) (notification channel payload)

    handle_notice :
        (doc : Doc)
        → handle_subscription j d doc (record new_message { is_subscription = true })
          ≡ notified (notice doc)
    unfolding handle_subscription notice
    handle_notice doc = ground arith

    detect_no_rpc :
        (doc : Doc) → HasNoId doc → detect_rpc j doc new_message ≡ (after_id doc, new_message)
    unfolding detect_rpc field_uint64
    detect_no_rpc doc h = ground arith

    -- The rest of the function, from a message that is no response.
    abbrev go_on : Doc → ParsedMessage → Option (List (Invocation F S U))
    go_on doc pm = calls_of j d (handle_rpc j d (consume_latency j doc pm) pm)

    go_on-notice :
        (doc : Doc)
        → go_on doc (record new_message { is_subscription = true }) ≡ some (notified (notice doc))
    unfolding handle_rpc consume_latency
    go_on-notice doc = ap some (handle_notice doc)

    go_on-other : (doc : Doc) → go_on doc new_message ≡ some []
    unfolding handle_rpc consume_latency handle_subscription
    go_on-other doc = refl

    dispatch_without_id :
        (doc : Doc)
        → HasNoId doc
        → dispatch_doc j d doc
          ≡ some (if is_notification doc then notified (notice (method doc).0) else [])
    unfolding dispatch_doc detect_subscription
    dispatch_without_id doc h =
        ap (λ p. let r = detect_subscription j p.0 p.1 in go_on r.0 r.1) (detect_no_rpc doc h)
        ∙ elim (Bool-cases (is_notification doc)) [
          | inl e ↦ rw (e) (go_on-notice (method doc).0)
          | inr e ↦ rw (e) (go_on-other (method doc).0)
        ]

    -- A notification reaches the callback in its channel's slot, with its channel and data, and
    -- nothing is called if one of those is missing. No exception leaves `dispatch`.
    notification_routed :
        (json : Text) {doc : Doc}
        → iterate json ≡ some doc
        → HasNoId doc
        → is_notification doc ≡ true
        → dispatch j d json ≡ some (notified (notice (method doc).0))
    notification_routed json {doc} parsed h e =
        dispatch-parsed j d json parsed ∙ dispatch_without_id doc h ∙ (rw e refl)

    notified-le_one : (o : Option (Text × Text)) → length (notified o) ≤ 1
    unfolding invoke_sub
    notified-le_one none = omega arith
    notified-le_one (some (c, p)) = ground arith

    Answers-le_one :
        (id : ℕ) {calls : List (Invocation F S U)}
        → Answers (d.rpc_handler (rpc_slot id)) id calls
        → length calls ≤ 1
    unfolding invoke_rpc
    Answers-le_one id (failed pm reply e) = rw e (ground arith)
    Answers-le_one id (succeeded pm reply e) = rw e (ground arith)

    unnamed-le_one :
        (doc : Doc)
        → length (if is_notification doc then notified (notice (method doc).0) else []) ≤ 1
    unnamed-le_one doc = elim (Bool-cases (is_notification doc)) [
      | inl e ↦ rw e (notified-le_one (notice (method doc).0))
      | inr e ↦ rw e (omega arith)
    ]

    dispatch-unparsed : (json : Text) → iterate json ≡ none → dispatch j d json ≡ some []
    unfolding dispatch
    dispatch-unparsed json e = rw (e, dispatch) refl

    -- A message that does not parse, and one that has no unsigned "id" and whose "method" is not
    -- "subscription", call nothing, and no exception leaves `dispatch`.
    other_ignored :
        (json : Text)
        → (iterate json ≡ none)
          ⊎ ((doc : Doc) × (iterate json ≡ some doc) × HasNoId doc × (is_notification doc ≡ false))
        → dispatch j d json ≡ some []
    other_ignored json (inl bad) = dispatch-unparsed json bad
    other_ignored json (inr (doc, parsed, h, e)) =
        dispatch-parsed j d json parsed ∙ dispatch_without_id doc h ∙ (rw e refl)

    -- If no exception leaves `dispatch`, a message makes at most one call.
    one_call_at_most :
        (json : Text) {calls : List (Invocation F S U)}
        → dispatch j d json ≡ some calls
        → length calls ≤ 1
    one_call_at_most json e = elim (Option-cases (iterate json)) [
      | inl bad ↦
          subst (λ o. length (or_default o []) ≤ 1) (sym (dispatch-unparsed json bad) ∙ e)
            (omega arith)
      | inr (doc, parsed) ↦ elim (Option-cases (field_uint64 j doc (codes "id")).1) [
        | inl none_found ↦
            subst (λ o. length (or_default o []) ≤ 1)
              (sym (dispatch-parsed j d json parsed ∙ dispatch_without_id doc none_found) ∙ e)
              (unnamed-le_one doc)
        | inr (id, found) ↦ Answers-le_one id (response_routed j d json id parsed found e)
      ]
    ]

-- After any registrations, a message without an unsigned "id", of method "subscription", with a
-- channel and data: the callback registered last for the channel, or for one whose hash leaves the
-- same remainder modulo 4096, is called with it, if it is not null; nothing else is called.
pub notification_to_latest :
    {F S U : Type 0} (j : Simdjson) (rs : List (Registration F S U)) (json : Text) {doc : j.Doc}
    (channel payload : Text)
    → j.iterate json ≡ some doc
    → HasNoId j doc
    → is_notification j doc ≡ true
    → notice j (method j doc).0 ≡ some (channel, payload)
    → dispatch j (register_all {F = F} {S = S} {U = U} new_dispatcher rs) json
      ≡ some (invoke_sub (latest_sub channel none rs) (notification j channel payload))
notification_to_latest j rs json {doc} channel payload parsed h e found =
    notification_routed j (register_all new_dispatcher rs) json parsed h e
    ∙ ap (λ o. some (notified j (register_all new_dispatcher rs) o)) found
    ∙ ap (λ f. some (invoke_sub f (notification j channel payload)))
        (sub_handler-register_all new_dispatcher rs channel)
