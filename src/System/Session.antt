-- ===== src/System/Session.antt =====
-- A session from the answer to the authentication to a private request on the wire.
use hft_deribit.Prelude.{
  ℕ, ◌≤◌, ◌≡◌, ap, ◌∙◌, subst, Bool, true, false, ◌&&◌, List, [], ◌∷◌, ◌++◌, some, Text, codes,
  is_empty, if◌then◌else◌,
}
use hft_deribit.SpscQueue.Holds.{Holds}
use hft_deribit.RateLimiter.{RateLimiter, allow_request}
use hft_deribit.Json.{Simdjson}
use hft_deribit.Dispatcher.{rpc_slot}
use hft_deribit.Dispatcher.Routing.{IsResponse}
use hft_deribit.Dispatcher.Success.{IsSuccess, HasToken}
use hft_deribit.RequestSender.{Sender, rounds, token_member}
use hft_deribit.RequestSender.Rounds.{IsSchedule, rounds_send, sent_by}
use hft_deribit.DeribitClient.{Client, auth_id, get_access_token, outbound_capacity}
use hft_deribit.DeribitClient.Calls.{send_rpc, dispatch_message, rpc_message}
use hft_deribit.DeribitClient.Requests.{
  outbound_IsCapacity, send_rpc_queues, before_brace, private_rpc_authorized,
}
use hft_deribit.DeribitClient.Auth.{auth_handler, token_stored}

module _ {F S U : Type 0} (j : Simdjson) (c : Client F S U) (json : Text) (doc : j.Doc)
    (token : Text) where
  -- The answer that grants the token to a connected client.
  pub record IsGrant : Type 0 where
    pub handler : c.dispatcher.rpc_handler (rpc_slot auth_id) ≡ auth_handler
    pub up : c.connected ≡ true
    pub nonempty : is_empty json ≡ false
    pub parsed : j.iterate json ≡ some doc
    pub response : IsResponse j doc auth_id
    pub success : IsSuccess j doc auth_id
    pub has : HasToken j doc auth_id token
    pub given : is_empty token ≡ false

  -- The dispatcher gets the answer that grants a token, the caller makes a private request that the
  -- limiter allows, and the sender does a round, its limiter asked often enough. If nothing else was
  -- queued, the request goes out with that token as its last member.
  pub private_request_sent :
      (now id : ℕ) (method params : Text) (limiter : RateLimiter) (t : ℕ) (times : List ℕ)
      → IsGrant
      → Holds outbound_capacity c.outbound_queue []
      → (allow_request c.rate_limiter now).1 ≡ true
      → limiter.last_refill ≤ t
      → IsSchedule t ((token, times) ∷ [])
      → (c' : Client F S U) × (dispatch_message j c json ≡ some (true, c'))
        × ((send_rpc c' now id (codes "private/" ++ method) params).1 ≡ true)
        × ((r : Sender) × (rounds outbound_capacity
                (record {
                  queue = (send_rpc c' now id (codes "private/" ++ method) params).0.outbound_queue;
                  limiter = limiter;
                  sent = [];
                })
                ((get_access_token c', times) ∷ [])
              ≡ some r)
            × (r.sent ≡ (before_brace id method params ++ token_member token ++ codes "}") ∷ []))
  unfolding sent_by
  private_request_sent now id method params limiter t times g held allowed late schedule =
      let granted : Client F S U = record c { access_token = token } in
      let msg = rpc_message id (codes "private/" ++ method) params in
      let stored =
        token_stored j c json token g.handler g.up g.nonempty g.parsed g.response g.success g.has
        ∙ ap (λ b. some (true, if b then c else granted)) g.given in
      let (answer, queued, rest) =
        send_rpc_queues granted now id (codes "private/" ++ method) params held in
      let waiting : Bool → List Text = λ b. if b && true then msg ∷ [] else [] in
      let sends =
        rounds_send outbound_IsCapacity ((token, times) ∷ []) _ t (msg ∷ [])
          (subst
            (λ b.
              Holds outbound_capacity
                (send_rpc granted now id (codes "private/" ++ method) params).0.outbound_queue
                (waiting b))
            allowed queued)
          late schedule in
      (
        granted,
        stored,
        answer ∙ allowed,
        (
          sends.last,
          sends.ends,
          sends.sent ∙ ap (λ m. m ∷ []) (private_rpc_authorized id method params token g.given),
        ),
      )
