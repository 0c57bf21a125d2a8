-- ===== src/Helpers/Csv.antt =====
-- include/deribit/helpers.h: `save_to_csv`, and what a reader of its file finds.
use hft_deribit.Prelude.{
  ℕ, zero, suc, ◌+◌, ◌/◌, ◌%◌, ◌<◌, ◌≡◌, refl, ap, ap₂, ◌∙◌, arith, Bool, true, false, List, [],
  ◌∷◌, ◌++◌, Option, some, none, Text, codes, map, HasNo, ◌==◌, ltb, if◌then◌else◌, Bool-cases, inl,
  inr,
}
use hft_deribit.Prelude.Int.{ℤ, pos, negsuc}
use hft_deribit.Prelude.Decimal.{show, to_string}
use hft_deribit.Ohlcv.{Ohlcv}

-- `file << n` for an `int64_t`.
unfoldable pub show_int : ℤ → Text
show_int (pos n) = to_string n
show_int (negsuc n) = b'-' ∷ to_string (n + 1)

-- The first line of the file, without its end.
abbrev pub csv_header : Text
csv_header = codes "ts_ms,open,high,low,close,volume,cost"

module _ {D : Type 0} (show_double : D → Text) where
  -- A round of the loop, without the end of the line.
  unfoldable pub csv_row : Ohlcv D → Text
  csv_row c =
      show_int c.ts_ms
      ++ (b','
          ∷ (show_double c.open_
              ++ (b','
                  ∷ (show_double c.high
                      ++ (b','
                          ∷ (show_double c.low
                              ++ (b','
                                  ∷ (show_double c.close
                                      ++ (b','
                                          ∷ (show_double c.volume
                                              ++ (b',' ∷ show_double c.cost)))))))))))

  unfoldable pub csv_rows : List (Ohlcv D) → Text
  csv_rows [] = []
  csv_rows (c ∷ cs) = csv_row c ++ (b'\n' ∷ csv_rows cs)

  -- Whether the file could be opened, and what it holds then; and what is returned.
  unfoldable pub save_to_csv : Bool → List (Ohlcv D) → Option Text × Bool
  save_to_csv opens cs =
      if opens then (some (csv_header ++ (b'\n' ∷ csv_rows cs)), true) else (none, false)

-- A byte in front of the first part.
abbrev pub in_front : ℕ → List Text → List Text
in_front x [] = (x ∷ []) ∷ []
in_front x (p ∷ ps) = (x ∷ p) ∷ ps

-- The parts of a text between separators.
unfoldable pub split : ℕ → Text → List Text
split sep [] = [] ∷ []
split sep (x ∷ s) = let rest = split sep s in if x == sep then [] ∷ rest else in_front x rest

split-part : (sep : ℕ) (p s : Text) → HasNo sep p → split sep (p ++ (sep ∷ s)) ≡ p ∷ split sep s
unfolding split
split-part sep [] s h = ground arith
split-part sep (x ∷ p) s h = ground (arith, split-part sep p s h.1, h.0)

split_last : (sep : ℕ) (p : Text) → HasNo sep p → split sep p ≡ p ∷ []
unfolding split
split_last sep [] h = refl
split_last sep (x ∷ p) h = ground (arith, split_last sep p h.1, h.0)

-- Digits are no separators.
show-HasNo : (sep f n : ℕ) (acc : Text) → sep < 48 → HasNo sep acc → HasNo sep (show f n acc)
unfolding show
show-HasNo sep zero n acc low h = h
show-HasNo sep (suc f) n acc low h = elim (Bool-cases (ltb n 10)) [
  | inl small ↦ rw small ((λ e. omega arith), h)
  | inr large ↦
      rw large (show-HasNo sep f (n / 10) ((48 + n % 10) ∷ acc) low ((λ e. omega arith), h))
]

show_int-HasNo : (sep : ℕ) (t : ℤ) → sep < 45 → HasNo sep (show_int t)
unfolding show_int to_string
show_int-HasNo sep (pos n) low = show-HasNo sep 20 n [] (omega arith) tt
show_int-HasNo sep (negsuc n) low =
    ((λ e. omega arith), show-HasNo sep 20 (n + 1) [] (omega arith) tt)

HasNo-append : (sep : ℕ) (p q : Text) → HasNo sep p → HasNo sep q → HasNo sep (p ++ q)
HasNo-append sep [] q h k = k
HasNo-append sep (x ∷ p) q h k = (h.0, HasNo-append sep p q h.1 k)

abbrev pub column_names : List Text
column_names =
    codes "ts_ms"
    ∷ codes "open"
    ∷ codes "high"
    ∷ codes "low"
    ∷ codes "close"
    ∷ codes "volume"
    ∷ codes "cost"
    ∷ []

-- A row without its end is the text of seven fields.
module _ {D : Type 0} (show_double : D → Text) where
  abbrev pub fields : Ohlcv D → List Text
  fields c =
      show_int c.ts_ms
      ∷ show_double c.open_
      ∷ show_double c.high
      ∷ show_double c.low
      ∷ show_double c.close
      ∷ show_double c.volume
      ∷ show_double c.cost
      ∷ []

  -- A double is written without a comma and without an end of line.
  abbrev pub IsPlain : Type 0
  IsPlain = (d : D) → HasNo b',' (show_double d) × HasNo b'\n' (show_double d)

  module _ (plain : IsPlain) where
    cell :
        (d : D) (rest : Text) (cells : List Text)
        → split b',' rest ≡ cells
        → split b',' (show_double d ++ (b',' ∷ rest)) ≡ show_double d ∷ cells
    cell d rest cells e = split-part b',' (show_double d) rest (plain d).0 ∙ ap (show_double d ∷◌) e

    split-csv_row : (c : Ohlcv D) → split b',' (csv_row show_double c) ≡ fields c
    unfolding csv_row
    split-csv_row c =
        split-part b',' (show_int c.ts_ms) _ (show_int-HasNo b',' c.ts_ms (omega arith))
        ∙ ap (show_int c.ts_ms ∷◌) (
            cell c.open_ _ _ (
              cell c.high _ _ (
                cell c.low _ _ (
                  cell c.close _ _
                    (cell c.volume _ _ (split_last b',' (show_double c.cost) (plain c.cost).0))))))

    next_cell :
        (d : D) (rest : Text) → HasNo b'\n' rest → HasNo b'\n' (show_double d ++ (b',' ∷ rest))
    next_cell d rest h =
        HasNo-append b'\n' (show_double d) (b',' ∷ rest) (plain d).1 ((λ e. omega arith), h)

    csv_row-HasNo : (c : Ohlcv D) → HasNo b'\n' (csv_row show_double c)
    unfolding csv_row
    csv_row-HasNo c =
        HasNo-append b'\n' (show_int c.ts_ms) _ (show_int-HasNo b'\n' c.ts_ms (omega arith)) (
          (λ e. omega arith),
          next_cell c.open_ _ (
              next_cell c.high _
                (next_cell c.low _ (next_cell c.close _ (next_cell c.volume _ (plain c.cost).1)))),
        )

    split-csv_rows :
        (cs : List (Ohlcv D))
        → split b'\n' (csv_rows show_double cs) ≡ map (csv_row show_double) cs ++ ([] ∷ [])
    unfolding csv_rows split
    split-csv_rows [] = refl
    split-csv_rows (c ∷ cs) =
        split-part b'\n' (csv_row show_double c) (csv_rows show_double cs) (csv_row-HasNo c)
        ∙ ap (csv_row show_double c ∷◌) (split-csv_rows cs)

    split-map :
        (cs : List (Ohlcv D))
        → map (split b',') (map (csv_row show_double) cs ++ ([] ∷ []))
          ≡ map fields cs ++ (([] ∷ []) ∷ [])
    unfolding split
    split-map [] = refl
    split-map (c ∷ cs) = ap₂ ◌∷◌ (split-csv_row c) (split-map cs)

    -- Where doubles are written without commas and ends of lines: the file that `save_to_csv`
    -- writes to a file that could be opened, cut at ends of lines and each line at commas, is the
    -- seven names, then the seven fields of each candle in order, and nothing behind them but the
    -- empty line that ends the file.
    pub cells-save_to_csv :
        (cs : List (Ohlcv D))
        → (file : Text) × (save_to_csv show_double true cs ≡ (some file, true))
          × (map (split b',') (split b'\n' file) ≡ column_names ∷ map fields cs ++ (([] ∷ []) ∷ []))
    unfolding save_to_csv split
    cells-save_to_csv cs = (
      csv_header ++ (b'\n' ∷ csv_rows show_double cs),
      refl,
      ap (λ ls. column_names ∷ map (split b',') ls) (split-csv_rows cs)
          ∙ ap (column_names ∷◌) (split-map cs),
    )
