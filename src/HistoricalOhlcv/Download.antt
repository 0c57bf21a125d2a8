-- ===== src/HistoricalOhlcv/Download.antt =====
-- `fetch_n_ohlcv` through a client: the requests, the dispatcher's calls of the two callbacks, and
-- the context that they share with the loop.
pub mod Waits
pub mod Rounds
pub mod Loop
pub mod Answer
pub mod Late
use hft_deribit.Prelude.{
  ℕ, Bool, true, false, not, ◌||◌, List, [], ◌∷◌, ◌++◌, Option, none, some, Text, is_empty, length,
  leb, ltb, ◌==◌, if◌then◌else◌, ◌>>=◌,
}
use hft_deribit.Prelude.Int.{ℤ}
use hft_deribit.Ohlcv.{Ohlcv}
use hft_deribit.Json.{Simdjson}
use hft_deribit.Dispatcher.{Invocation, call_rpc, call_sub}
use hft_deribit.Dispatcher.Dispatch.{dispatch}
use hft_deribit.DeribitClient.{Client, RpcCallback, user, auth_success, auth_error, UserData, other}
use hft_deribit.DeribitClient.Calls.{run_callbacks}
use hft_deribit.HistoricalOhlcv.{
  Columns, on_ohlcv_success, Window, Fetch, window, minus, sort, trim, res_ms,
}
use hft_deribit.HistoricalOhlcv.Request.{
  FetchCallback, on_success, on_error, FetchContext, ctx, fetch_request,
}

-- `OHLCVContext`: the variables that it points to.
pub record Context (D : Type 0) : Type 0 where
  pub out : List (Ohlcv D)
  pub done : Bool

unfoldable pub on_ohlcv_error : {D : Type 0} → Context D → Context D
on_ohlcv_error k = record k { done = true }

-- The variables of the loop, the client, and whether the dispatcher's loop goes on.
pub record Download (D S : Type 0) : Type 0 where
  pub client : Client FetchCallback S FetchContext
  pub dispatching : Bool
  pub context : Context D
  pub current_end_ts : ℤ
  pub last_size : ℕ
  -- history: the windows that were asked for
  pub asked : List Window

-- What the loop alone works on.
abbrev pub fetch_of : {D S : Type 0} → Download D S → Fetch D
fetch_of d = record {
  out = d.context.out;
  current_end_ts = d.current_end_ts;
  last_size = d.last_size;
  asked = d.asked;
}

-- A round's time, and the messages that the dispatcher gets until the round goes on: the wait is
-- over, or its five seconds are. Those of a round whose request is refused are the next round's.
pub record Attempt : Type 0 where
  pub now : ℕ
  pub messages : List Text

-- The round after the wait, for the window that was asked for; and whether the loop does not
-- leave by `break`.
unfoldable pub after_wait : {D S : Type 0} → Window → Download D S → Download D S × Bool
after_wait w d =
    if not d.context.done
    then (d, false)
    else if length d.context.out == d.last_size
    then (d, false)
    else (
      record d { current_end_ts = minus w.start_timestamp 1; last_size = length d.context.out },
      true,
    )

abbrev pub begin_download : {D S : Type 0} → Client FetchCallback S FetchContext → ℤ → Download D S
begin_download c start = record {
  client = c;
  dispatching = true;
  context = record { out = []; done = false };
  current_end_ts = start;
  last_size = 0;
  asked = [];
}

module _ {D S : Type 0} (columns : Text → Option (Columns D)) where
  -- A call of a callback; `columns` parses a result and converts its arrays, `none` being an
  -- exception. `none` here: that, the exception of `at`, or a user pointer that is no context.
  unfoldable pub run_fetch_callback :
      Invocation (RpcCallback FetchCallback) S (UserData FetchContext)
      → Context D
      → Option (Context D)
  run_fetch_callback (call_rpc (user on_success) pm (some (other ctx))) k = do
    cols ← columns pm.result
    cs ← on_ohlcv_success cols
    some (record { out = k.out ++ cs; done = true })
  run_fetch_callback (call_rpc (user on_error) pm (some (other ctx))) k = some (on_ohlcv_error k)
  run_fetch_callback (call_rpc (user f) pm u) k = none
  run_fetch_callback (call_rpc auth_success pm u) k = some k
  run_fetch_callback (call_rpc auth_error pm u) k = some k
  run_fetch_callback (call_sub f pm) k = some k

  unfoldable pub run_fetch_callbacks :
      List (Invocation (RpcCallback FetchCallback) S (UserData FetchContext))
      → Context D
      → Option (Context D)
  run_fetch_callbacks [] k = some k
  run_fetch_callbacks (i ∷ is) k = elim (run_fetch_callback i k) [
    | none ↦ none
    | some k' ↦ run_fetch_callbacks is k'
  ]

  module _ (j : Simdjson) where
    -- The dispatcher's work on a message, as `dispatch_message` has it, with what the callbacks do
    -- to the context; after its loop has ended, nothing.
    unfoldable pub deliver : Download D S → Text → Option (Download D S)
    deliver d msg =
        if not d.dispatching
        then some d
        else if not d.client.connected || is_empty msg
        then some (record d { dispatching = false })
        else (elim (dispatch j d.client.dispatcher msg) [
          | none ↦ none
          | some calls ↦ (elim (run_fetch_callbacks calls d.context) [
            | none ↦ none
            | some k ↦ some (record d { client = run_callbacks d.client calls; context = k })
          ])
        ])

    unfoldable pub deliver_all : Download D S → List Text → Option (Download D S)
    deliver_all d [] = some d
    deliver_all d (msg ∷ msgs) = elim (deliver d msg) [
      | none ↦ none
      | some d' ↦ deliver_all d' msgs
    ]

    module _ (n_candles res : ℕ) (instrument resolution : Text) where
      -- The body of the loop.
      unfoldable pub download_round : Download D S → Attempt → Option (Download D S × Bool)
      download_round d a =
          let w = window n_candles res (fetch_of d) in
          let (c, answer) = fetch_request d.client a.now instrument resolution w in
          let reset = record d { client = c; context = record (d.context) { done = false } } in
          if answer
          then (elim (deliver_all (record reset { asked = d.asked ++ w ∷ [] }) a.messages) [
            | none ↦ none
            | some d' ↦ some (after_wait w d')
          ])
          else some (reset, true)

      -- The loop, and whether it has ended when the attempts are used up.
      unfoldable pub download_loop : Download D S → List Attempt → Option (Download D S × Bool)
      download_loop d [] = some (d, leb n_candles (length d.context.out))
      download_loop d (a ∷ more) =
          if ltb (length d.context.out) n_candles
          then (elim (download_round d a) [
            | none ↦ none
            | some (d', true) ↦ download_loop d' more
            | some (d', false) ↦ some (d', true)
          ])
          else some (d, true)

    -- The whole function at the time `start`. `none`: an exception, or the attempts are used up.
    unfoldable pub download :
        Client FetchCallback S FetchContext
        → Text
        → Text
        → ℕ
        → ℤ
        → List Attempt
        → Option (List (Ohlcv D))
    download c instrument resolution n_candles start attempts = elim (res_ms resolution) [
      | none ↦ none
      | some res ↦
          (elim (download_loop n_candles res instrument resolution (begin_download c start)
            attempts) [
              | none ↦ none
              | some (d, true) ↦ some (trim n_candles (sort d.context.out))
              | some (d, false) ↦ none
            ])
    ]
