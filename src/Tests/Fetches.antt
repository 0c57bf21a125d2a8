-- ===== src/Tests/Fetches.antt =====
-- The download through a client, on the documents of `Json`, with whole numbers for doubles.
use mathlib.Core.List.{Perm}
use hft_deribit.Prelude.{
  ℕ, ◌≡◌, ◌⊎◌, refl, arith, true, List, [], ◌∷◌, ◌++◌, Option, none, some, Text, codes, length,
}
use hft_deribit.Prelude.Int.{pos}
use hft_deribit.Prelude.Decimal.{read_digits}
use hft_deribit.RateLimiter
use hft_deribit.RateLimiter.{allow_request, run}
use hft_deribit.Ohlcv.{Ohlcv}
use hft_deribit.Json.{field_uint64}
use hft_deribit.Dispatcher.Dispatch.{has_error, detect_rpc, consume_latency}
use hft_deribit.DeribitClient.{Client, blank_client}
use hft_deribit.HistoricalOhlcv.{
  Columns, Outcome, on_ohlcv_success, res_ms, fetch_loop, begin_fetch, sort, trim,
}
use hft_deribit.HistoricalOhlcv.Newest.{IsSorted}
use hft_deribit.HistoricalOhlcv.Request.{FetchCallback, FetchContext, fetch_id}
use hft_deribit.HistoricalOhlcv.Download.{
  Attempt, Download, fetch_of, deliver, download_loop, begin_download, download,
}
use hft_deribit.HistoricalOhlcv.Download.Loop.{download_refines}
use hft_deribit.HistoricalOhlcv.Download.Answer.{IsAnswer, download_answered}
use hft_deribit.HistoricalOhlcv.Download.Late.{late_answer}
use hft_deribit.Tests.Json.{Tree, num, str, obj, end, field, reader}
use hft_deribit.Tests.Download.{answer, answer_filled}

abbrev client : Client FetchCallback ℕ FetchContext
client = record (blank_client 0) { connected = true }

-- {"id":12648430,"result":"x"}
abbrev document : Tree
document = obj (field (codes "id") (num fetch_id) (field (codes "result") (str (codes "x")) end))

-- Every result holds the same arrays.
abbrev columns : Text → Option (Columns ℕ)
columns text = some answer

served : IsAnswer columns (reader document) (codes "text") document answer
unfolding field_uint64 has_error detect_rpc consume_latency
served = record {
  nonempty = refl;
  parsed = refl;
  response = refl;
  success = refl;
  result = refl;
  filled = answer_filled;
}

-- One attempt, in whose wait the answer arrives, and one without.
abbrev in_time : Attempt
in_time = record { now = 5; messages = codes "text" ∷ [] }

abbrev silent : Attempt
silent = record { now = 5; messages = [] }

download_answered_example :
    (candles older cs : List (Ohlcv ℕ)) × (on_ohlcv_success answer ≡ some candles)
    × (length candles ≡ 2)
    × (download columns
          (reader document)
          client
          (codes "BTC")
          (codes "60")
          1
          (pos 900)
          (in_time ∷ [])
        ≡ some cs)
    × (length cs ≡ 1)
    × IsSorted (older ++ cs)
    × Perm (older ++ cs) candles
unfolding allow_request RateLimiter.init res_ms read_digits blank_client
download_answered_example =
    download_answered columns (reader document) (codes "text") document answer served client 5
      (codes "BTC") (codes "60") 1 (pos 900) refl refl refl (omega arith) (omega arith)

late_answer_example :
    (d : Download ℕ ℕ) × (d' : Download ℕ ℕ) × (candles : List (Ohlcv ℕ)) × (download_loop columns
        (reader document)
        1
        3_600_000
        (codes "BTC")
        (codes "60")
        (begin_download client (pos 900))
        (silent ∷ [])
      ≡ some (d, true))
    × (download columns
          (reader document)
          client
          (codes "BTC")
          (codes "60")
          1
          (pos 900)
          (silent ∷ [])
        ≡ some [])
    × (deliver columns (reader document) d (codes "text") ≡ some d')
    × (on_ohlcv_success answer ≡ some candles)
    × (d'.context.out ≡ candles)
unfolding allow_request RateLimiter.init res_ms read_digits blank_client
late_answer_example =
    late_answer columns (reader document) (codes "text") document answer served client 5
      (codes "BTC") (codes "60") 1 (pos 900) refl refl refl (omega arith)

download_refines_example :
    (download_loop columns
        (reader document)
        1
        3_600_000
        (codes "BTC")
        (codes "60")
        (begin_download client (pos 900))
        (in_time ∷ [])
      ≡ none)
    ⊎ ((d : Download ℕ ℕ) × (os : List (Outcome ℕ)) × (fetch_loop 1 3_600_000
            (begin_fetch (pos 900))
            os
          ≡ (fetch_of d, true))
        × (download_loop columns
              (reader document)
              1
              3_600_000
              (codes "BTC")
              (codes "60")
              (begin_download client (pos 900))
              (in_time ∷ [])
            ≡ some (d, true))
        × (download columns
              (reader document)
              client
              (codes "BTC")
              (codes "60")
              1
              (pos 900)
              (in_time ∷ [])
            ≡ some (trim 1 (sort d.context.out))))
unfolding allow_request RateLimiter.init res_ms read_digits blank_client run
download_refines_example =
    download_refines columns (reader document) client (codes "BTC") (codes "60") 1 (pos 900)
      (in_time ∷ []) refl (omega arith)
