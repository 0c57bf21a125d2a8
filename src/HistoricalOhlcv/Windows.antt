-- ===== src/HistoricalOhlcv/Windows.antt =====
-- The windows that the download asks for.
use native.Mathlib.Nat.{mul-le-mul_right}
use hft_deribit.Prelude.{
  ℕ, suc, ◌+◌, ◌-◌, ◌*◌, ◌≤◌, ◌≡◌, refl, ap, ◌∙◌, sym, subst, arith, true, List, [], ◌∷◌, ◌++◌, min,
  append_assoc, append-nil, length, ltb, ◌==◌, Bool-cases, inl, inr,
}
use hft_deribit.Prelude.Int.{ℤ, pos, negsuc}
use hft_deribit.HistoricalOhlcv.{
  minus, Window, Fetch, Outcome, refused, timed_out, answered, batch_size, window, fetch_round,
  fetch_loop, begin_fetch,
}
use hft_deribit.HistoricalOhlcv.Rounds.{
  loop_done, loop_break, loop_again, stayed, moved, loop_stayed, loop_moved,
}

minus-minus : (t : ℤ) (a b : ℕ) → minus (minus t a) b ≡ minus t (a + b)
unfolding minus
minus-minus (pos m) a b = ground arith
minus-minus (negsuc m) a b = ap negsuc (omega arith)

minus-zero : (t : ℤ) → minus t 0 ≡ t
unfolding minus
minus-zero (pos m) = ground arith
minus-zero (negsuc m) = ap negsuc (omega arith)

-- Each window ends a millisecond before the one in front of it starts, the first `lo` milliseconds
-- before `now`, and is at most 999 candles of `res` milliseconds wide.
abbrev pub IsTiled : ℤ → ℕ → ℕ → List Window → Type 0
IsTiled now res lo [] = Unit
IsTiled now res lo (w ∷ ws) =
    (hi : ℕ) × (w.end_timestamp ≡ minus now lo)
    × (w.start_timestamp ≡ minus now hi)
    × (lo ≤ hi)
    × (hi ≤ lo + 999 * res)
    × IsTiled now res (suc hi) ws

module _ {D : Type 0} (n_candles res : ℕ) (now : ℤ) where
  abbrev Asks : ℕ → Fetch D → List (Outcome D) → Type 0
  Asks lo f os =
      (ws : List Window) × ((fetch_loop n_candles res f os).0.asked ≡ f.asked ++ ws)
      × IsTiled now res lo ws

  narrow : (f : Fetch D) (lo : ℕ) → lo + (batch_size n_candles res f - 1) * res ≤ lo + 999 * res
  unfolding batch_size
  narrow f lo =
      let few : min (n_candles - length f.out) 1000 - 1 ≤ 999 = omega arith in
      omega (arith, mul-le-mul_right res few)

  next_end :
      (lo : ℕ) (f : Fetch D)
      → f.current_end_ts ≡ minus now lo
      → minus (window n_candles res f).start_timestamp 1
        ≡ minus now (suc (lo + (batch_size n_candles res f - 1) * res))
  unfolding window
  next_end lo f e =
      let d = (batch_size n_candles res f - 1) * res in
      ap (λ (t : ℤ). minus (minus t d) 1) e
      ∙ ap (λ (t : ℤ). minus t 1) (minus-minus now lo d)
      ∙ minus-minus now (lo + d) 1
      ∙ ap (minus now) (omega arith)

  -- One more window in front.
  Asks-one :
      (lo : ℕ) (f g : Fetch D) (ws : List Window)
      → f.current_end_ts ≡ minus now lo
      → g.asked ≡ (f.asked ++ window n_candles res f ∷ []) ++ ws
      → IsTiled now res (suc (lo + (batch_size n_candles res f - 1) * res)) ws
      → (vs : List Window) × (g.asked ≡ f.asked ++ vs) × IsTiled now res lo vs
  unfolding window
  Asks-one lo f g ws e a t = (
    window n_candles res f ∷ ws,
    a ∙ append_assoc f.asked (window n_candles res f ∷ []) ws,
    (
      lo + (batch_size n_candles res f - 1) * res,
      e,
      ap (λ (t : ℤ). minus t ((batch_size n_candles res f - 1) * res)) e
          ∙ minus-minus now lo ((batch_size n_candles res f - 1) * res),
      omega arith,
      narrow f lo,
      t,
    ),
  )

  Asks-on :
      (lo : ℕ) (f : Fetch D) (o : Outcome D) (os : List (Outcome D))
      → f.current_end_ts ≡ minus now lo
      → ltb (length f.out) n_candles ≡ true
      → ((hi : ℕ) (g : Fetch D) → g.current_end_ts ≡ minus now hi → Asks hi g os)
      → Asks lo f (o ∷ os)
  unfolding fetch_round
  Asks-on lo f refused os e room more =
      rw (loop_again n_candles res f refused os room refl) (more lo f e)
  Asks-on lo f timed_out os e room more =
      rw (loop_break n_candles res f timed_out os room refl)
        (Asks-one lo f (fetch_round n_candles res f timed_out).0 [] e (sym (append-nil _)) tt)
  Asks-on lo f (answered cs) os e room more =
      elim (Bool-cases (length (f.out ++ cs) == f.last_size)) [
        | inl same ↦
            rw (loop_stayed n_candles res f cs os room same)
              (Asks-one lo f (stayed n_candles res f cs) [] e (sym (append-nil _)) tt)
        | inr grown ↦
            let hi = lo + (batch_size n_candles res f - 1) * res in
            let (ws, a, t) = more (suc hi) (moved n_candles res f cs) (next_end lo f e) in
            rw (loop_moved n_candles res f cs os room grown)
              (Asks-one lo f (fetch_loop n_candles res (moved n_candles res f cs) os).0 ws e a t)
      ]

  asks :
      (lo : ℕ) (f : Fetch D) (os : List (Outcome D))
      → f.current_end_ts ≡ minus now lo
      → Asks lo f os
  unfolding fetch_loop
  asks lo f [] e = ([], sym (append-nil f.asked), tt)
  asks lo f (o ∷ os) e = elim (Bool-cases (ltb (length f.out) n_candles)) [
    | inl room ↦ Asks-on lo f o os e room (λ hi g. asks hi g os)
    | inr full ↦ rw (loop_done n_candles res f o os full) ([], sym (append-nil f.asked), tt)
  ]

  -- Whatever becomes of the requests, the windows that `fetch_n_ohlcv` asks for after the time
  -- `now`, in order, are tiled: none overlaps another, no millisecond between two of them is left
  -- out, and each spans at most a thousand candles.
  pub windows-IsTiled :
      (os : List (Outcome D))
      → IsTiled now res 0 (fetch_loop n_candles res (begin_fetch now) os).0.asked
  windows-IsTiled os =
      let (ws, a, t) = asks 0 (begin_fetch now) os (sym (minus-zero now)) in
      subst (IsTiled now res 0) (sym a) t
