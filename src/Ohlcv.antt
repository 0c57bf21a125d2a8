-- ===== src/Ohlcv.antt =====
-- include/deribit/ohlcv.h: a candle.
use hft_deribit.Prelude.{ℕ, ◌≡◌, List, [], ◌∷◌, Text, length}
use hft_deribit.Prelude.Int.{ℤ, pos, IsInt64}

-- `D` stands for `double`.
pub record Ohlcv (D : Type 0) : Type 0 where
  pub ts_ms : ℤ
  pub open_ : D
  pub high : D
  pub low : D
  pub close : D
  pub volume : D
  pub cost : D

-- `sizeof(OHLCV)`: seven words, aligned to 64 bytes.
abbrev pub ohlcv_size : ℕ
ohlcv_size = 64

-- The compiler's object representation of a candle, and the candle that is zero in every field.
pub record Layout (D : Type 0) : Type 0 where
  pub to_bytes : Ohlcv D → Text
  pub of_bytes : Text → Ohlcv D
  pub zeroed : Ohlcv D

-- Every candle takes its size, and its bytes hold all of it.
pub record IsLayout {D : Type 0} (l : Layout D) : Type 0 where
  pub size : (c : Ohlcv D) → length (l.to_bytes c) ≡ ohlcv_size
  pub back : (c : Ohlcv D) → IsInt64 c.ts_ms → l.of_bytes (l.to_bytes c) ≡ c
  pub zero_ts : l.zeroed.ts_ms ≡ pos 0

-- Every timestamp is an `int64_t`.
abbrev pub AreInt64 : {D : Type 0} → List (Ohlcv D) → Type 0
AreInt64 [] = Unit
AreInt64 (c ∷ cs) = IsInt64 c.ts_ms × AreInt64 cs
