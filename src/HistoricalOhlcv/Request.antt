-- ===== src/HistoricalOhlcv/Request.antt =====
-- One request of the download, through the client.
use hft_deribit.Prelude.{
  ℕ, ◌≡◌, subst, arith, Bool, ◌&&◌, List, [], ◌∷◌, ◌++◌, some, Text, codes, ltb, length,
  if◌then◌else◌, Bool-cases, inl, inr,
}
use hft_deribit.SpscQueue.Holds.{Holds}
use hft_deribit.RateLimiter.{allow_request}
use hft_deribit.Json.{Simdjson}
use hft_deribit.ParsedMessage.{RpcHandler}
use hft_deribit.Dispatcher.{rpc_slot, register_rpc, Invocation}
use hft_deribit.Dispatcher.Dispatch.{dispatch}
use hft_deribit.Dispatcher.Routing.{IsResponse, Answers, response_routed}
use hft_deribit.DeribitClient.{Client, RpcCallback, user, UserData, other, outbound_capacity}
use hft_deribit.DeribitClient.Calls.{rpc_message, enqueue, send_rpc}
use hft_deribit.DeribitClient.Requests.{send_rpc_queues}
use hft_deribit.Helpers.Csv.{show_int}
use hft_deribit.HistoricalOhlcv.{Window}

-- `0xC0FFEE`
abbrev pub fetch_id : ℕ
fetch_id = 12_648_430

-- The two callbacks, and the context that they are given.
pub data FetchCallback : Type 0 where
  on_success on_error : FetchCallback

pub data FetchContext : Type 0 where
  ctx : FetchContext

-- The text of the parameters.
unfoldable pub fetch_params : Text → Text → Window → Text
fetch_params instrument resolution w =
    codes "{\"instrument_name\":\""
    ++ (instrument
        ++ (codes "\",\"resolution\":\""
            ++ (resolution
                ++ (codes "\",\"start_timestamp\":"
                    ++ (show_int w.start_timestamp
                        ++ (codes ",\"end_timestamp\":"
                            ++ (show_int w.end_timestamp ++ codes "}")))))))

-- What the request registers.
abbrev pub fetch_handler : RpcHandler (RpcCallback FetchCallback) (UserData FetchContext)
fetch_handler = record {
  on_success = some (user on_success);
  on_error = some (user on_error);
  user_data = some (other ctx);
}

module _ {S : Type 0} where
  -- The registration of the callbacks, and the request; the answer of `send_rpc`.
  unfoldable pub fetch_request :
      Client FetchCallback S FetchContext
      → ℕ
      → Text
      → Text
      → Window
      → Client FetchCallback S FetchContext × Bool
  fetch_request c now instrument resolution w =
      let registered : Client FetchCallback S FetchContext = record c {
        dispatcher =
            register_rpc c.dispatcher fetch_id (some (user on_success)) (some (user on_error))
              (some (other ctx));
      } in
      send_rpc registered now fetch_id (codes "public/get_tradingview_chart_data")
        (fetch_params instrument resolution w)

  pub handler-fetch_request :
      (c : Client FetchCallback S FetchContext) (now : ℕ) (instrument resolution : Text)
      (w : Window)
      → (fetch_request c now instrument resolution w).0.dispatcher.rpc_handler (rpc_slot fetch_id)
        ≡ fetch_handler
  unfolding fetch_request send_rpc enqueue register_rpc
  handler-fetch_request c now instrument resolution w =
      elim (Bool-cases (allow_request c.rate_limiter now).1) [
        | inl e ↦ rw e (ground arith)
        | inr e ↦ rw e (ground arith)
      ]

  -- If the outbound queue holds a list, a request of the download is answered as the limiter says,
  -- and is put behind the list if it is allowed and fewer than 1023 are queued. A response to its id
  -- that the dispatcher then gets calls, if no exception leaves `dispatch`, one of the two callbacks
  -- of the download with its context.
  fetch_request_lem :
      (c : Client FetchCallback S FetchContext) (now : ℕ) (instrument resolution : Text)
      (w : Window) {xs : List Text}
      → Holds outbound_capacity c.outbound_queue xs
      → let (c', answer) = fetch_request c now instrument resolution w in
        (answer ≡ (allow_request c.rate_limiter now).1)
        × Holds outbound_capacity c'.outbound_queue (
            if (allow_request c.rate_limiter now).1 && ltb (length xs) 1023
            then xs
              ++ rpc_message fetch_id
                  (codes "public/get_tradingview_chart_data")
                  (fetch_params instrument resolution w)
                ∷ []
            else xs)
        × ((j : Simdjson) (json : Text) (doc : j.Doc)
              (calls : List (Invocation (RpcCallback FetchCallback) S (UserData FetchContext)))
            → j.iterate json ≡ some doc
            → IsResponse j doc fetch_id
            → dispatch j c'.dispatcher json ≡ some calls
            → Answers fetch_handler fetch_id calls)
  unfolding fetch_request
  fetch_request_lem c now instrument resolution w held =
      let (answer, queued, rest) =
        send_rpc_queues _ now fetch_id (codes "public/get_tradingview_chart_data")
          (fetch_params instrument resolution w) held in
      (
        answer,
        queued,
        λ j json doc calls parsed h e.
            subst (λ g. Answers g fetch_id calls)
              (handler-fetch_request c now instrument resolution w)
              (response_routed j _ json fetch_id parsed h e),
      )
