-- ===== src/Helpers.antt =====
-- include/deribit/helpers.h: the binary files of candles, and the lengths of the resolutions.
-- A file is what it holds. Writes to an open file succeed, as the source assumes.
pub mod Binary
pub mod Csv
pub mod Timestamp
use hft_deribit.Prelude.{
  ℕ, zero, suc, ◌+◌, ◌*◌, ◌/◌, ◌%◌, ◌^◌, Bool, true, false, List, [], ◌∷◌, ◌++◌, Option, none, some,
  Text, codes, length, take, drop, replicate, bytes_eq, leb, if◌then◌else◌,
}
use hft_deribit.Ohlcv.{Ohlcv, Layout, ohlcv_size}

-- `none` for the exception "Unsupported resolution".
unfoldable pub resolution_to_ms : Text → Option ℕ
resolution_to_ms r =
    if bytes_eq r (codes "1")
    then some 60_000
    else if bytes_eq r (codes "5")
    then some (5 * 60_000)
    else if bytes_eq r (codes "15")
    then some (15 * 60_000)
    else if bytes_eq r (codes "60")
    then some (60 * 60_000)
    else if bytes_eq r (codes "1D")
    then some (24 * 60 * 60_000)
    else none

-- The `k` bytes of a number, the lowest first, and the number of such bytes.
unfoldable pub to_le : ℕ → ℕ → Text
to_le zero n = []
to_le (suc k) n = n % 256 ∷ to_le k (n / 256)

unfoldable pub of_le : Text → ℕ
of_le [] = 0
of_le (b ∷ bs) = b + 256 * of_le bs

-- `file.read(buf, n)` for a buffer of n bytes: what the file lacks stays as it was.
unfoldable pub read_over : Text → Text → Text
read_over buf bytes = take (length buf) bytes ++ drop (length bytes) buf

module _ {D : Type 0} (l : Layout D) where
  -- The bytes of a vector of candles.
  unfoldable pub raw : List (Ohlcv D) → Text
  raw [] = []
  raw (c ∷ cs) = l.to_bytes c ++ raw cs

  -- The first `k` candles of a buffer.
  unfoldable pub of_raw : ℕ → Text → List (Ohlcv D)
  of_raw zero bytes = []
  of_raw (suc k) bytes = l.of_bytes (take ohlcv_size bytes) ∷ of_raw k (drop ohlcv_size bytes)

  abbrev pub contents : List (Ohlcv D) → Text
  contents cs = to_le 8 (length cs) ++ raw cs

  -- Whether the file could be opened, and what it holds then; and what is returned.
  unfoldable pub save_to_bin : Bool → List (Ohlcv D) → Option Text × Bool
  save_to_bin opens cs = if opens then (some (contents cs), true) else (none, false)

  -- `none` if the vector cannot be allocated, for more than `most` candles; a file that cannot be
  -- opened holds `none`.
  unfoldable pub load_from_bin : ℕ → Option Text → Option (List (Ohlcv D))
  load_from_bin most none = some []
  load_from_bin most (some bytes) =
      let count = of_le (read_over (to_le 8 0) bytes) in
      if leb count most
      then some (of_raw count (read_over (raw (replicate count l.zeroed)) (drop 8 bytes)))
      else none
