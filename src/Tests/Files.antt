-- ===== src/Tests/Files.antt =====
-- The binary files, with whole numbers in place of doubles, each field a byte.
use hft_deribit.Prelude.{
  ℕ, zero, suc, map, ◌≡◌, ◌+◌, ◌*◌, ◌++◌, refl, arith, true, [], ◌∷◌, some, Text, codes, length,
  take, replicate,
}
use hft_deribit.Prelude.Int.{ℤ, pos, negsuc}
use hft_deribit.Ohlcv.{Ohlcv, Layout, IsLayout}
use hft_deribit.Helpers.{load_from_bin, save_to_bin, contents}
use hft_deribit.Prelude.Decimal.{to_string}
use hft_deribit.Helpers.Csv.{show_int, save_to_csv, split, column_names, IsPlain, cells-save_to_csv}
use hft_deribit.Helpers.Binary.{load_from_bin-save_to_bin, load_truncated}

abbrev timestamp : ℤ → Text
timestamp (pos n) = 0 ∷ n ∷ []
timestamp (negsuc n) = 1 ∷ n ∷ []

-- Two cells for the timestamp, six for the other fields, and the padding.
abbrev written : Ohlcv ℕ → Text
written c =
    timestamp c.ts_ms ++ (c.open_ ∷ c.high ∷ c.low ∷ c.close ∷ c.volume ∷ c.cost ∷ replicate 56 0)

abbrev stamp : ℕ → ℕ → ℤ
stamp zero n = pos n
stamp (suc _) n = negsuc n

abbrev zero_candle : Ohlcv ℕ
zero_candle = record {
  ts_ms = pos 0;
  open_ = 0;
  high = 0;
  low = 0;
  close = 0;
  volume = 0;
  cost = 0;
}

abbrev parsed : Text → Ohlcv ℕ
parsed (s ∷ n ∷ o ∷ h ∷ l ∷ c ∷ v ∷ k ∷ _) = record {
  ts_ms = stamp s n;
  open_ = o;
  high = h;
  low = l;
  close = c;
  volume = v;
  cost = k;
}
parsed _ = zero_candle

abbrev plain : Layout ℕ
plain = record { to_bytes = written; of_bytes = parsed; zeroed = zero_candle }

size_lem :
    (t : ℤ) (o h l c v k : ℕ)
    → length (timestamp t ++ (o ∷ h ∷ l ∷ c ∷ v ∷ k ∷ replicate 56 0)) ≡ 64
size_lem (pos n) o h l c v k = refl
size_lem (negsuc n) o h l c v k = refl

back_lem :
    (t : ℤ) (o h l c v k : ℕ)
    → parsed (timestamp t ++ (o ∷ h ∷ l ∷ c ∷ v ∷ k ∷ replicate 56 0))
      ≡ record { ts_ms = t; open_ = o; high = h; low = l; close = c; volume = v; cost = k }
back_lem (pos n) o h l c v k = refl
back_lem (negsuc n) o h l c v k = refl

plain_laws : IsLayout plain
plain_laws = record {
  size = λ c. size_lem c.ts_ms c.open_ c.high c.low c.close c.volume c.cost;
  back = λ c _. back_lem c.ts_ms c.open_ c.high c.low c.close c.volume c.cost;
  zero_ts = refl;
}

abbrev candle : ℕ → Ohlcv ℕ
candle n = record {
  ts_ms = pos n;
  open_ = 1;
  high = 9;
  low = 1;
  close = 5;
  volume = 70;
  cost = 300;
}

abbrev old_candle : Ohlcv ℕ
old_candle = record {
  ts_ms = negsuc 4;
  open_ = 2;
  high = 3;
  low = 1;
  close = 2;
  volume = 8;
  cost = 16;
}

load_from_bin-save_to_bin_example :
    load_from_bin plain 1000 (save_to_bin plain true (old_candle ∷ candle 7 ∷ [])).0
    ≡ some (old_candle ∷ candle 7 ∷ [])
load_from_bin-save_to_bin_example =
    load_from_bin-save_to_bin plain_laws 1000 (old_candle ∷ candle 7 ∷ [])
      (omega arith, (omega arith, tt)) (omega arith) (omega arith)

load_truncated_example :
    load_from_bin plain 1000
      (some (take (8 + 64 * 1) (contents plain (old_candle ∷ candle 7 ∷ candle 8 ∷ []))))
    ≡ some (old_candle ∷ zero_candle ∷ zero_candle ∷ [])
load_truncated_example =
    load_truncated plain_laws 1000 (old_candle ∷ []) (candle 7 ∷ candle 8 ∷ []) (omega arith, tt)
      (omega arith) (omega arith)

abbrev stamp_only : ℕ → Text
stamp_only n = codes "7.5"

plain_digits : IsPlain stamp_only
plain_digits d = (
  ((omega arith), ((omega arith), ((omega arith), tt))),
  ((omega arith), ((omega arith), ((omega arith), tt))),
)

cells-save_to_csv_example :
    (file : Text) × (save_to_csv stamp_only true (old_candle ∷ []) ≡ (some file, true))
    × (map (split b',') (split b'\n' file)
        ≡ column_names
          ∷ (show_int (negsuc 4)
              ∷ codes "7.5"
              ∷ codes "7.5"
              ∷ codes "7.5"
              ∷ codes "7.5"
              ∷ codes "7.5"
              ∷ codes "7.5"
              ∷ [])
          ∷ ([] ∷ [])
          ∷ [])
cells-save_to_csv_example = cells-save_to_csv stamp_only plain_digits (old_candle ∷ [])

negative_stamp : show_int (negsuc 4) ≡ codes "-5"
unfolding show_int to_string
negative_stamp = refl
