-- ===== src/Tests/Download.antt =====
-- The download of candles, with whole numbers in place of doubles.
use hft_deribit.Prelude.{ℕ, ◌≡◌, refl, arith, List, [], ◌∷◌, some, none, codes}
use hft_deribit.Prelude.Int.{pos, negsuc}
use hft_deribit.Prelude.Decimal.{read_digits}
use hft_deribit.Ohlcv.{Ohlcv}
use hft_deribit.HistoricalOhlcv.{
  Columns, candle_at, read_candles, on_ohlcv_success, Outcome, refused, timed_out, answered,
  fetch_loop, fetch_round, window, batch_size, minus, begin_fetch, fetch_n_ohlcv, res_ms, trim,
  sort, insert, before,
}
use hft_deribit.HistoricalOhlcv.Parsing.{AreFilled}
use hft_deribit.HistoricalOhlcv.Windows.{IsTiled, windows-IsTiled}

abbrev at_time : ℕ → Ohlcv ℕ
at_time t = record {
  ts_ms = pos t;
  open_ = 1;
  high = 4;
  low = 1;
  close = 2;
  volume = 30;
  cost = 60;
}

-- A refusal, two answers, and an error.
abbrev outcomes : List (Outcome ℕ)
outcomes =
    refused
    ∷ answered (at_time 600_000 ∷ at_time 660_000 ∷ [])
    ∷ answered (at_time 540_000 ∷ at_time 480_000 ∷ [])
    ∷ answered []
    ∷ []

-- Three candles are asked for, then one, a millisecond before the first window; four came.
run_outcomes :
    fetch_n_ohlcv 3 60_000 (pos 660_000) outcomes
    ≡ some (at_time 540_000 ∷ at_time 600_000 ∷ at_time 660_000 ∷ [])
unfolding fetch_n_ohlcv fetch_loop fetch_round window batch_size minus trim sort insert before
run_outcomes = refl

-- A window may begin before the epoch.
before_epoch : minus (pos 5) 7 ≡ negsuc 1
unfolding minus
before_epoch = refl

-- A number that is out of range, or whose milliseconds are.
too_many : res_ms (codes "153722867280913") ≡ none
unfolding res_ms read_digits
too_many = refl

-- A text that begins with a letter makes `stoll` throw.
no_number : res_ms (codes "D1") ≡ none
unfolding res_ms read_digits
no_number = refl

-- Without an answer the download gives up, with what it has.
run_timed_out :
    fetch_n_ohlcv 3 60_000 (pos 660_000) (answered (at_time 7 ∷ []) ∷ timed_out ∷ [])
    ≡ some (at_time 7 ∷ [])
unfolding fetch_n_ohlcv fetch_loop fetch_round window batch_size minus trim sort insert before
run_timed_out = refl

windows-IsTiled_example :
    IsTiled
      (pos 660_000)
      60_000
      0
      (fetch_loop 3 60_000 (begin_fetch (pos 660_000)) outcomes).0.asked
windows-IsTiled_example = windows-IsTiled 3 60_000 (pos 660_000) outcomes

abbrev pub answer : Columns ℕ
answer = record {
  ticks = pos 1 ∷ pos 2 ∷ [];
  opens = 10 ∷ 11 ∷ [];
  highs = 20 ∷ 21 ∷ [];
  lows = 5 ∷ 6 ∷ [];
  closes = 12 ∷ 13 ∷ [];
  volumes = 100 ∷ 101 ∷ 102 ∷ [];
  costs = 7 ∷ 8 ∷ [];
}

pub answer_filled : AreFilled answer
answer_filled = record {
  opens = omega arith;
  highs = omega arith;
  lows = omega arith;
  closes = omega arith;
  volumes = omega arith;
  costs = omega arith;
}

-- An array that is too short makes `at` throw.
short_answer : on_ohlcv_success (record answer { lows = 5 ∷ [] }) ≡ none
unfolding on_ohlcv_success read_candles candle_at
short_answer = refl
