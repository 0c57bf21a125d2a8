-- ===== src/HistoricalOhlcv/Download/Answer.antt =====
-- A download that one answer serves: from the request to the candles that are returned.
use mathlib.Core.List.{Perm}
use hft_deribit.Prelude.{
  ℕ, ◌≤◌, ◌<◌, ◌≡◌, refl, sym, ap, ◌∙◌, subst, arith, true, false, List, [], ◌∷◌, ◌++◌, Option,
  some, Text, is_empty, length, leb, ltb,
}
use hft_deribit.Prelude.Int.{ℤ}
use hft_deribit.Ohlcv.{Ohlcv}
use hft_deribit.Json.{Simdjson}
use hft_deribit.RateLimiter.{allow_request}
use hft_deribit.ParsedMessage.{ParsedMessage}
use hft_deribit.Dispatcher.{Invocation, call_rpc, invoke_rpc}
use hft_deribit.Dispatcher.Dispatch.{dispatch}
use hft_deribit.Dispatcher.Routing.{IsResponse}
use hft_deribit.Dispatcher.Success.{IsSuccess, success_message, success_routed}
use hft_deribit.DeribitClient.{Client, RpcCallback, user, UserData, other}
use hft_deribit.DeribitClient.Calls.{run_callbacks, send_rpc, enqueue}
use hft_deribit.HistoricalOhlcv.{
  Columns, on_ohlcv_success, minus, Window, window, res_ms, sort, trim,
}
use hft_deribit.HistoricalOhlcv.Parsing.{AreFilled, on_ohlcv_success_lem}
use hft_deribit.HistoricalOhlcv.Newest.{IsSorted, sort-IsSorted, sort-Perm, length-sort, trim_lem}
use hft_deribit.HistoricalOhlcv.Request.{
  FetchCallback, on_success, FetchContext, ctx, fetch_id, fetch_request, handler-fetch_request,
}
use hft_deribit.HistoricalOhlcv.Download.{
  Context, Download, fetch_of, run_fetch_callback, run_fetch_callbacks, deliver, deliver_all,
  after_wait, download_round, download_loop, begin_download, download,
}

-- A request that the limiter allows is answered by true, and leaves the client connected.
pub fetch_request_sent :
    {S : Type 0} (c : Client FetchCallback S FetchContext) (now : ℕ) (instrument resolution : Text)
    (w : Window)
    → (allow_request c.rate_limiter now).1 ≡ true
    → ((fetch_request c now instrument resolution w).1 ≡ true)
      × ((fetch_request c now instrument resolution w).0.connected ≡ c.connected)
unfolding fetch_request send_rpc enqueue
fetch_request_sent c now instrument resolution w e = rw e (refl, refl)

-- What the callback of an answer does to the context.
answer_called :
    {D : Type 0} (S : Type 0) (columns : Text → Option (Columns D)) (pm : ParsedMessage)
    (k : Context D) {cols : Columns D} {cs : List (Ohlcv D)}
    → columns pm.result ≡ some cols
    → on_ohlcv_success cols ≡ some cs
    → run_fetch_callbacks {S = S} columns (call_rpc (user on_success) pm (some (other ctx)) ∷ []) k
      ≡ some (record { out = k.out ++ cs; done = true })
unfolding run_fetch_callbacks run_fetch_callback
answer_called S columns pm k {cols} {cs} result read =
    let one : run_fetch_callback {S = S} columns (call_rpc (user on_success) pm (some (other ctx)))
          k
        ≡ some (record { out = k.out ++ cs; done = true }) =
      rw (run_fetch_callback, result, read) refl in
    rw (run_fetch_callbacks, one) refl

-- The answer, and what its result holds.
pub record IsAnswer {D : Type 0} (columns : Text → Option (Columns D)) (j : Simdjson) (json : Text)
    (doc : j.Doc) (cols : Columns D) : Type 0 where
  pub nonempty : is_empty json ≡ false
  pub parsed : j.iterate json ≡ some doc
  pub response : IsResponse j doc fetch_id
  pub success : IsSuccess j doc fetch_id
  pub result : columns (success_message j doc fetch_id).result ≡ some cols
  pub filled : AreFilled cols

module _ {D S : Type 0} (columns : Text → Option (Columns D)) (j : Simdjson) (json : Text)
    (doc : j.Doc) (cols : Columns D) (a : IsAnswer columns j json doc cols) where
  -- The calls that the answer makes, once the request has registered the callbacks.
  abbrev pub calls : List (Invocation (RpcCallback FetchCallback) S (UserData FetchContext))
  calls = call_rpc (user on_success) (success_message j doc fetch_id) (some (other ctx)) ∷ []

  -- The dispatcher gives the answer to the callback of the download.
  pub answer_delivered :
      (d : Download D S) (cs : List (Ohlcv D))
      → d.dispatching ≡ true
      → d.client.connected ≡ true
      → dispatch j d.client.dispatcher json ≡ some calls
      → on_ohlcv_success cols ≡ some cs
      → deliver columns j d json
        ≡ some (record d {
          client = run_callbacks d.client calls;
          context = record { out = d.context.out ++ cs; done = true };
        })
  unfolding deliver
  answer_delivered d cs on live routed read = simp (
    deliver,
    on,
    live,
    a.nonempty,
    routed,
    answer_called S columns (success_message j doc fetch_id) d.context a.result read,
  )

  pub answer_routed :
      (c : Client FetchCallback S FetchContext) (now : ℕ) (instrument resolution : Text)
      (w : Window)
      → dispatch j (fetch_request c now instrument resolution w).0.dispatcher json ≡ some calls
  unfolding invoke_rpc
  answer_routed c now instrument resolution w =
      success_routed j doc fetch_id (fetch_request c now instrument resolution w).0.dispatcher json
        a.parsed a.response a.success
      ∙ ap (λ g. some (invoke_rpc g.on_success (success_message j doc fetch_id) g.user_data))
          (handler-fetch_request c now instrument resolution w)

  module _ (c : Client FetchCallback S FetchContext) (now : ℕ) (instrument resolution : Text)
      (n_candles res : ℕ) (start : ℤ) where
    abbrev pub asked_for : Window
    asked_for = window n_candles res (fetch_of {D = D} (begin_download c start))

    abbrev requested : Client FetchCallback S FetchContext
    requested = (fetch_request c now instrument resolution asked_for).0

    -- In the wait, and behind it.
    abbrev pub in_wait : Download D S
    in_wait = record (begin_download c start) { client = requested; asked = asked_for ∷ [] }

    abbrev served : List (Ohlcv D) → Download D S
    served cs = record in_wait {
      client = run_callbacks requested calls;
      context = record { out = cs; done = true };
      current_end_ts = minus asked_for.start_timestamp 1;
      last_size = length cs;
    }

    answer_moves :
        (cs : List (Ohlcv D))
        → 0 < length cs
        → after_wait asked_for (record in_wait {
          client = run_callbacks requested calls;
          context = record { out = cs; done = true };
        })
          ≡ (served cs, true)
    unfolding after_wait
    answer_moves cs above = ground arith

    round_answered :
        (cs : List (Ohlcv D))
        → (allow_request c.rate_limiter now).1 ≡ true
        → c.connected ≡ true
        → on_ohlcv_success cols ≡ some cs
        → 0 < length cs
        → download_round columns j n_candles res instrument resolution
            (begin_download c start)
            (record { now = now; messages = json ∷ [] })
          ≡ some (served cs, true)
    unfolding download_round deliver_all
    round_answered cs allowed up read found =
        let (sent, live) = fetch_request_sent c now instrument resolution asked_for allowed in
        let got =
          answer_delivered in_wait cs refl (live ∙ up)
            (answer_routed c now instrument resolution asked_for) read in
        let delivered : deliver_all columns j in_wait (json ∷ [])
            ≡ some (record in_wait {
              client = run_callbacks requested calls;
              context = record { out = cs; done = true };
            }) =
          rw (deliver_all, got) refl in
        rw (download_round, sent, delivered) (ap some (answer_moves cs found))

    loop_answered :
        (cs : List (Ohlcv D))
        → (allow_request c.rate_limiter now).1 ≡ true
        → c.connected ≡ true
        → on_ohlcv_success cols ≡ some cs
        → 0 < n_candles
        → n_candles ≤ length cs
        → download_loop columns j n_candles res instrument resolution
            (begin_download c start)
            (record { now = now; messages = json ∷ [] } ∷ [])
          ≡ some (served cs, true)
    unfolding download_loop
    loop_answered cs allowed up read above enough =
        let room : ltb 0 n_candles ≡ true = ground arith in
        let full : leb n_candles (length cs) ≡ true = ground arith in
        rw (download_loop, room, round_answered cs allowed up read (omega arith), full) refl

  -- The client is connected, its limiter allows the request, and the answer arrives in the wait,
  -- parses, and has no error, at least `n_candles` ticks, and arrays that are no shorter: one request
  -- is enough. `fetch_n_ohlcv` returns the newest `n_candles` of the answer, one candle a tick, in
  -- order of time; what it leaves out is not later. For a resolution in minutes, and `n_candles`
  -- above zero.
  pub download_answered :
      (c : Client FetchCallback S FetchContext) (now : ℕ) (instrument resolution : Text)
      (n_candles : ℕ) (start : ℤ) {res : ℕ}
      → res_ms resolution ≡ some res
      → (allow_request c.rate_limiter now).1 ≡ true
      → c.connected ≡ true
      → 0 < n_candles
      → n_candles ≤ length cols.ticks
      → (candles older cs : List (Ohlcv D)) × (on_ohlcv_success cols ≡ some candles)
        × (length candles ≡ length cols.ticks)
        × (download columns j c instrument resolution n_candles start
              (record { now = now; messages = json ∷ [] } ∷ [])
            ≡ some cs)
        × (length cs ≡ n_candles)
        × IsSorted (older ++ cs)
        × Perm (older ++ cs) candles
  unfolding download
  download_answered c now instrument resolution n_candles start {res} minutes allowed up above
        enough =
      let (candles, read, ticks, each) = on_ohlcv_success_lem a.filled in
      let fits : n_candles ≤ length candles = omega (arith, ticks) in
      let loop =
        loop_answered c now instrument resolution n_candles res start candles allowed up read above
          fits in
      let (older, split_, size) = trim_lem n_candles (sort candles) in
      let returned : download columns j c instrument resolution n_candles start
            (record { now = now; messages = json ∷ [] } ∷ [])
          ≡ some (trim n_candles (sort candles)) =
        rw (download, minutes, loop) refl in
      (
        candles,
        older,
        trim n_candles (sort candles),
        read,
        ticks,
        returned,
        ground (arith, size, length-sort candles, fits),
        subst IsSorted (sym split_) (sort-IsSorted candles),
        subst (λ (xs : List (Ohlcv D)). Perm xs candles) (sym split_) (sort-Perm candles),
      )
