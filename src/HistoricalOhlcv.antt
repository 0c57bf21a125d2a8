-- ===== src/HistoricalOhlcv.antt =====
-- include/deribit/historical_ohlcv.h: the candles of an answer, and the download in windows.
pub mod Parsing
pub mod Request
pub mod Download
pub mod Rounds
pub mod Windows
pub mod Progress
pub mod Newest
use hft_deribit.Prelude.{
  ℕ, zero, suc, ◌+◌, ◌-◌, ◌*◌, Bool, true, false, List, [], ◌∷◌, ◌++◌, Option, none, some, Text,
  codes, length, get_elem?, drop, bytes_eq, min, leb, ltb, ◌==◌, ◌||◌, not, ◌^◌, if◌then◌else◌,
  ◌>>=◌,
}
use hft_deribit.Prelude.Int.{ℤ, pos, negsuc}
use hft_deribit.Prelude.Decimal.{read_digits}
use hft_deribit.Ohlcv.{Ohlcv}

-- The arrays of an answer, after the conversions of their elements.
pub record Columns (D : Type 0) : Type 0 where
  pub ticks : List ℤ
  pub opens : List D
  pub highs : List D
  pub lows : List D
  pub closes : List D
  pub volumes : List D
  pub costs : List D

module _ {D : Type 0} where
  -- The body of the loop of `on_ohlcv_success`; `none` is the exception of `at`.
  unfoldable pub candle_at : Columns D → ℕ → Option (Ohlcv D)
  candle_at cols i = do
    t ← get_elem? cols.ticks i
    o ← get_elem? cols.opens i
    h ← get_elem? cols.highs i
    l ← get_elem? cols.lows i
    c ← get_elem? cols.closes i
    v ← get_elem? cols.volumes i
    k ← get_elem? cols.costs i
    some (record { ts_ms = t; open_ = o; high = h; low = l; close = c; volume = v; cost = k })

  -- The loop, with `k` rounds left at index `i`.
  unfoldable pub read_candles : Columns D → ℕ → ℕ → Option (List (Ohlcv D))
  read_candles cols zero i = some []
  read_candles cols (suc k) i = do
    c ← candle_at cols i
    cs ← read_candles cols k (suc i)
    some (c ∷ cs)

  -- What `on_ohlcv_success` appends to `out`.
  unfoldable pub on_ohlcv_success : Columns D → Option (List (Ohlcv D))
  on_ohlcv_success cols = read_candles cols (length cols.ticks) 0

-- `t - n` for a natural number n.
unfoldable pub minus : ℤ → ℕ → ℤ
minus (pos m) n = if leb n m then pos (m - n) else negsuc (n - m - 1)
minus (negsuc m) n = negsuc (m + n)

-- `a < b`
unfoldable pub before : ℤ → ℤ → Bool
before (pos m) (pos n) = ltb m n
before (pos m) (negsuc n) = false
before (negsuc m) (pos n) = true
before (negsuc m) (negsuc n) = ltb n m

abbrev pub chunk_size : ℕ
chunk_size = 1000

-- `stoll(resolution == "1D" ? "1440" : resolution) * 60 * 1000`, for a text with no blank or sign
-- in front; `none` for the exceptions of `stoll`, where no digit comes first or the number is out of
-- range, and for a product that overflows, which is undefined behaviour.
unfoldable pub res_ms : Text → Option ℕ
res_ms resolution =
    let res_val = if bytes_eq resolution (codes "1D") then codes "1440" else resolution in
    let (n, rest) = read_digits 0 res_val in
    if length rest == length res_val || not (ltb (n * 60 * 1000) (2 ^ 63))
    then none
    else some (n * 60 * 1000)

-- What becomes of a request: `send_rpc` refuses it, no answer comes in five seconds, or an answer
-- comes, with the candles that its callback appends; an error is an answer without candles.
pub data Outcome (D : Type 0) : Type 0 where
  refused : Outcome D
  timed_out : Outcome D
  answered : List (Ohlcv D) → Outcome D

pub record Window : Type 0 where
  pub start_timestamp : ℤ
  pub end_timestamp : ℤ

-- The variables of the loop, and the windows that were asked for.
pub record Fetch (D : Type 0) : Type 0 where
  pub out : List (Ohlcv D)
  pub current_end_ts : ℤ
  pub last_size : ℕ
  pub asked : List Window

module _ {D : Type 0} (n_candles res : ℕ) where
  unfoldable pub batch_size : Fetch D → ℕ
  batch_size f = min (n_candles - length f.out) chunk_size

  unfoldable pub window : Fetch D → Window
  unfolding batch_size
  window f = record {
    start_timestamp = minus f.current_end_ts ((batch_size f - 1) * res);
    end_timestamp = f.current_end_ts;
  }

  -- The body of the loop, and whether it does not leave by `break`.
  unfoldable pub fetch_round : Fetch D → Outcome D → Fetch D × Bool
  unfolding window
  fetch_round f refused = (f, true)
  fetch_round f timed_out = (record f { asked = f.asked ++ window f ∷ [] }, false)
  fetch_round f (answered cs) =
      let out = f.out ++ cs in
      let asked = f.asked ++ window f ∷ [] in
      if length out == f.last_size then (record f { out = out; asked = asked }, false) else (
        record {
          out = out;
          current_end_ts = minus (window f).start_timestamp 1;
          last_size = length out;
          asked = asked;
        },
        true,
      )

  -- The loop over what becomes of the requests, and whether it has ended when that is used up.
  unfoldable pub fetch_loop : Fetch D → List (Outcome D) → Fetch D × Bool
  unfolding fetch_round
  fetch_loop f [] = (f, leb n_candles (length f.out))
  fetch_loop f (o ∷ os) =
      let (f', again) = fetch_round f o in
      let rest = fetch_loop f' os in
      if ltb (length f.out) n_candles then (if again then rest else (f', true)) else (f, true)

module _ {D : Type 0} where
  -- `std::ranges::sort` by timestamp; the order of equal timestamps is one that it may choose.
  unfoldable pub insert : Ohlcv D → List (Ohlcv D) → List (Ohlcv D)
  insert c [] = c ∷ []
  insert c (x ∷ xs) = if before x.ts_ms c.ts_ms then x ∷ insert c xs else c ∷ x ∷ xs

  unfoldable pub sort : List (Ohlcv D) → List (Ohlcv D)
  sort [] = []
  sort (c ∷ cs) = insert c (sort cs)

  -- The trim at the end: the first candles are erased if there are too many.
  unfoldable pub trim : ℕ → List (Ohlcv D) → List (Ohlcv D)
  trim n_candles out = if ltb n_candles (length out) then drop (length out - n_candles) out else out

  abbrev pub begin_fetch : ℤ → Fetch D
  begin_fetch now = record { out = []; current_end_ts = now; last_size = 0; asked = [] }

  -- `fetch_n_ohlcv` from the time `now` on: what it returns, once its loop has ended.
  unfoldable pub fetch_n_ohlcv : ℕ → ℕ → ℤ → List (Outcome D) → Option (List (Ohlcv D))
  fetch_n_ohlcv n_candles res now os =
      let (f, ended) = fetch_loop n_candles res (begin_fetch now) os in
      if ended then some (trim n_candles (sort f.out)) else none
