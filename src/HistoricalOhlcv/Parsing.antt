-- ===== src/HistoricalOhlcv/Parsing.antt =====
-- The candles of an answer, and the length of one.
use hft_deribit.Prelude.{
  get_elem?-some, ℕ, zero, suc, ◌+◌, ◌≤◌, ◌<◌, ◌≡◌, refl, sym, ap, ◌∙◌, arith, true, false, Bool,
  ◌&&◌, ap₂, subst, ◌==◌, if◌then◌else◌, Bool-cases, inl, inr, List, [], ◌∷◌, Option, none, some,
  Text, codes, bytes_eq, length, get_elem?,
}
use hft_deribit.Prelude.Decimal.{read_digits}
use hft_deribit.Ohlcv.{Ohlcv}
use hft_deribit.Helpers.{resolution_to_ms}
use hft_deribit.HistoricalOhlcv.{Columns, candle_at, read_candles, on_ohlcv_success, res_ms}

-- Every array is as long as `ticks` or longer.
pub record AreFilled {D : Type 0} (cols : Columns D) : Type 0 where
  pub opens : length cols.ticks ≤ length cols.opens
  pub highs : length cols.ticks ≤ length cols.highs
  pub lows : length cols.ticks ≤ length cols.lows
  pub closes : length cols.ticks ≤ length cols.closes
  pub volumes : length cols.ticks ≤ length cols.volumes
  pub costs : length cols.ticks ≤ length cols.costs

module _ {D : Type 0} {cols : Columns D} (w : AreFilled cols) where
  candle_at-some : (i : ℕ) → i < length cols.ticks → (c : Ohlcv D) × (candle_at cols i ≡ some c)
  unfolding candle_at
  candle_at-some i h =
      let (t, et) = get_elem?-some cols.ticks i h in
      let (o, eo) = get_elem?-some cols.opens i (omega (arith, w.opens)) in
      let (hi, eh) = get_elem?-some cols.highs i (omega (arith, w.highs)) in
      let (l, el) = get_elem?-some cols.lows i (omega (arith, w.lows)) in
      let (c, ec) = get_elem?-some cols.closes i (omega (arith, w.closes)) in
      let (v, ev) = get_elem?-some cols.volumes i (omega (arith, w.volumes)) in
      let (k, ek) = get_elem?-some cols.costs i (omega (arith, w.costs)) in
      (
        record { ts_ms = t; open_ = o; high = hi; low = l; close = c; volume = v; cost = k },
        rw (et, eo, eh, el, ec, ev, ek) refl,
      )

  abbrev Reads : (k i : ℕ) → Type 0
  Reads k i =
      (cs : List (Ohlcv D)) × (read_candles cols k i ≡ some cs)
      × (length cs ≡ k)
      × ((j : ℕ) → j < k → get_elem? cs j ≡ candle_at cols (i + j))

  shifted :
      (k i : ℕ) (c : Ohlcv D) (cs : List (Ohlcv D))
      → candle_at cols i ≡ some c
      → ((j : ℕ) → j < k → get_elem? cs j ≡ candle_at cols (suc i + j))
      → (j : ℕ) → j < suc k
      → get_elem? (c ∷ cs) j ≡ candle_at cols (i + j)
  shifted k i c cs e more zero h = sym e ∙ ap (candle_at cols) {y = i + 0} (omega arith)
  shifted k i c cs e more (suc j) h =
      more j (omega arith) ∙ ap (candle_at cols) {y = i + suc j} (omega arith)

  reads : (k i : ℕ) → i + k ≡ length cols.ticks → Reads k i
  unfolding read_candles
  reads zero i e = ([], refl, refl, λ j h. elim h [ ])
  reads (suc k) i e =
      let (c, ec) = candle_at-some i (omega (arith, e)) in
      let (cs, er, el, eg) = reads k (suc i) (omega (arith, e)) in
      (c ∷ cs, rw (ec, er) refl, ap suc el, shifted k i c cs ec eg)

  -- If every array of an answer is as long as `ticks`, or longer, the callback throws nothing and
  -- appends one candle a tick, the i-th from the i-th element of each array.
  pub on_ohlcv_success_lem :
      (cs : List (Ohlcv D)) × (on_ohlcv_success cols ≡ some cs)
      × (length cs ≡ length cols.ticks)
      × ((i : ℕ) → i < length cols.ticks → get_elem? cs i ≡ candle_at cols i)
  unfolding on_ohlcv_success
  on_ohlcv_success_lem =
      let (cs, er, el, eg) = reads (length cols.ticks) 0 (omega arith) in
      (cs, er, el, λ j h. eg j h ∙ ap (candle_at cols) {y = j} (omega arith))

both : (a b : Bool) → (a && b) ≡ true → (a ≡ true) × (b ≡ true)
both true b e = (refl, e)
both false b e = cc

bytes_eq-eq : (s t : Text) → bytes_eq s t ≡ true → s ≡ t
bytes_eq-eq [] [] e = refl
bytes_eq-eq [] (y ∷ ys) e = cc
bytes_eq-eq (x ∷ xs) [] e = cc
bytes_eq-eq (x ∷ xs) (y ∷ ys) e =
    let (h, t) = both (x == y) (bytes_eq xs ys) e in
    let first : x ≡ y = ground arith in ap₂ ◌∷◌ first (bytes_eq-eq xs ys t)

-- One resolution of the list.
agrees_on :
    (r t : Text) (a : ℕ) (rest : Option ℕ) (ms : ℕ)
    → res_ms t ≡ some a
    → (rest ≡ some ms → res_ms r ≡ some ms)
    → (if bytes_eq r t then some a else rest) ≡ some ms
    → res_ms r ≡ some ms
agrees_on r t a rest ms here others e = elim (Bool-cases (bytes_eq r t)) [
  | inl h ↦
      ap res_ms (bytes_eq-eq r t h) ∙ here ∙ subst (λ b. (if b then some a else rest) ≡ some ms) h e
  | inr h ↦ others (subst (λ b. (if b then some a else rest) ≡ some ms) h e)
]

-- The download takes each supported resolution for as long as `resolution_to_ms` does.
res_ms-resolution_to_ms : (r : Text) (ms : ℕ) → resolution_to_ms r ≡ some ms → res_ms r ≡ some ms
unfolding resolution_to_ms res_ms read_digits
res_ms-resolution_to_ms r ms = agrees_on r (codes "1") 60_000 _ ms refl (
    agrees_on r (codes "5") 300_000 _ ms refl (
      agrees_on r (codes "15") 900_000 _ ms refl (
        agrees_on r (codes "60") 3_600_000 _ ms refl
          (agrees_on r (codes "1D") 86_400_000 none ms refl (λ e. cc)))))
