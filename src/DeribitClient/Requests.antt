-- ===== src/DeribitClient/Requests.antt =====
-- What a request becomes on its way: queued by the client, completed by the sender.
use hft_deribit.Prelude.{
  ℕ, ◌^◌, ◌<◌, ◌≡◌, refl, sym, ap, ◌∙◌, subst, arith, true, false, List, [], ◌∷◌, ◌++◌, Text, codes,
  append_assoc, length, drop, ltb, ◌&&◌, is_empty, Bool-cases, inl, inr, if◌then◌else◌,
}
use hft_deribit.Prelude.Decimal.{to_string, read_digits, read_digits-to_string}
use hft_deribit.SpscQueue.{push}
use hft_deribit.SpscQueue.Fifo
use hft_deribit.SpscQueue.Holds.{IsCapacity, Holds}
use hft_deribit.SpscQueue.Refine.{push_refines}
use hft_deribit.RateLimiter.{allow_request}
use hft_deribit.RequestSender.{contains, token_member, authorize}
use hft_deribit.RequestSender.Authorize.{contains-append, authorize_private}
use hft_deribit.DeribitClient.{Client, outbound_capacity}
use hft_deribit.DeribitClient.Calls.{rpc_message, enqueue, send_rpc}

pub outbound_IsCapacity : IsCapacity outbound_capacity
outbound_IsCapacity = record { pos = omega arith; small = omega arith; power = refl }

push_if :
    (cap : ℕ) (xs : List Text) (v : Text)
    → (Fifo.push cap xs v).0 ≡ (if ltb (length xs) cap then xs ++ v ∷ [] else xs)
unfolding Fifo.push
push_if cap xs v = ground arith

-- If the outbound queue holds a list, `send_rpc` answers as the limiter does. If it is allowed the
-- request is put behind those that are queued, unless 1023 are queued already: then it is dropped,
-- and the answer is still true. If it is not allowed the queue holds the same list. Nothing else of
-- the client changes but the limiter.
pub send_rpc_queues :
    {F S U : Type 0} (c : Client F S U) (now id : ℕ) (method params : Text) {xs : List Text}
    → Holds outbound_capacity c.outbound_queue xs
    → let allowed = (allow_request c.rate_limiter now).1 in
      let (c', answer) = send_rpc c now id method params in
      (answer ≡ allowed)
      × Holds outbound_capacity c'.outbound_queue
          (if allowed && ltb (length xs) 1023 then xs ++ rpc_message id method params ∷ [] else xs)
      × (c' ≡ record c {
        outbound_queue = c'.outbound_queue;
        rate_limiter = (allow_request c.rate_limiter now).0;
      })
unfolding send_rpc enqueue
send_rpc_queues c now id method params {xs} v =
    elim (Bool-cases (allow_request c.rate_limiter now).1) [
      | inl allowed ↦ rw allowed (refl, queued allowed, refl)
      | inr denied ↦ rw denied (refl, v, refl)
    ]
  where
    msg : Text
    msg = rpc_message id method params

    queued :
        (allow_request c.rate_limiter now).1 ≡ true
        → Holds outbound_capacity
            (push outbound_capacity c.outbound_queue (rpc_message id method params)).0
            (if ltb (length xs) 1023 then xs ++ rpc_message id method params ∷ [] else xs)
    queued e =
        subst (Holds outbound_capacity (push outbound_capacity c.outbound_queue msg).0)
          (push_if 1023 xs msg) (push_refines outbound_IsCapacity msg v).1

abbrev id_prefix : Text
id_prefix = codes "{\"jsonrpc\":\"2.0\",\"id\":"

-- The number that is read back from where a request has its id is the id, for every id below 2 ^
-- 64.
rpc_message-id :
    (id : ℕ) (method params : Text)
    → id < 2 ^ 64
    → (read_digits 0 (drop (length id_prefix) (rpc_message id method params))).0 ≡ id
unfolding rpc_message
rpc_message-id id method params h = ap (λ p. p.0) (read_digits-to_string id b',' _ h refl)

-- A private request, cut before the word by which the sender knows it, and before its last brace.
module _ (id : ℕ) (method params : Text) where
  abbrev private_rpc : Text
  private_rpc = rpc_message id (codes "private/" ++ method) params

  abbrev pub before_brace : Text
  before_brace =
      codes "{\"jsonrpc\":\"2.0\",\"id\":"
      ++ (to_string id
          ++ (codes ",\"method\":\"private/" ++ (method ++ (codes "\",\"params\":" ++ params))))

  private_rpc-brace : private_rpc ≡ before_brace ++ b'}' ∷ []
  unfolding rpc_message
  private_rpc-brace = simp append_assoc

  private_rpc-found : contains (codes "\"private/") private_rpc ≡ true
  unfolding rpc_message
  private_rpc-found =
      subst (λ s. contains (codes "\"private/") s ≡ true) (simp append_assoc)
        (contains-append
          (codes "{\"jsonrpc\":\"2.0\",\"id\":" ++ (to_string id ++ codes ",\"method\":"))
          (codes "\"private/") (method ++ (codes "\",\"params\":" ++ (params ++ codes "}"))))

  -- With a token that is not empty, a request of the client whose method begins with "private/"
  -- leaves the sender with the token as its last member, directly behind the parameters.
  pub private_rpc_authorized :
      (token : Text)
      → is_empty token ≡ false
      → authorize token private_rpc ≡ before_brace ++ token_member token ++ codes "}"
  private_rpc_authorized token h =
      ap (authorize token) private_rpc-brace
      ∙ authorize_private token before_brace []
          (ap (contains (codes "\"private/")) (sym private_rpc-brace) ∙ private_rpc-found) h tt
