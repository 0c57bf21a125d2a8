-- ===== src/HistoricalOhlcv/Progress.antt =====
-- The end of the download.
use hft_deribit.Prelude.{
  ℕ, suc, ◌+◌, ◌≤◌, ◌≡◌, refl, arith, true, false, List, [], ◌∷◌, ◌++◌, length, ltb, ◌==◌,
  Bool-cases, inl, inr, length-append,
}
use hft_deribit.Prelude.Int.{ℤ}
use hft_deribit.Ohlcv.{Ohlcv}
use hft_deribit.HistoricalOhlcv.{
  Fetch, Outcome, refused, timed_out, answered, fetch_round, fetch_loop, begin_fetch,
}
use hft_deribit.HistoricalOhlcv.Rounds.{
  loop_done, loop_break, loop_again, moved, loop_stayed, loop_moved,
}

-- How many requests are not refused.
abbrev pub attempts : {D : Type 0} → List (Outcome D) → ℕ
attempts [] = 0
attempts (refused ∷ os) = attempts os
attempts (timed_out ∷ os) = suc (attempts os)
attempts (answered cs ∷ os) = suc (attempts os)

module _ {D : Type 0} (n_candles res : ℕ) where
  grows :
      (f : Fetch D) (cs : List (Ohlcv D))
      → f.last_size ≡ length f.out
      → (length (f.out ++ cs) == f.last_size) ≡ false
      → suc (length f.out) ≤ length (f.out ++ cs)
  grows f cs e g = ground (arith, length-append f.out cs)

  ends_on :
      (f : Fetch D) (o : Outcome D) (os : List (Outcome D))
      → f.last_size ≡ length f.out
      → n_candles ≤ length f.out + attempts (o ∷ os)
      → ltb (length f.out) n_candles ≡ true
      → ((g : Fetch D)
          → g.last_size ≡ length g.out
          → n_candles ≤ length g.out + attempts os
          → (fetch_loop n_candles res g os).1 ≡ true)
      → (fetch_loop n_candles res f (o ∷ os)).1 ≡ true
  unfolding fetch_round
  ends_on f refused os e h room more =
      rw (loop_again n_candles res f refused os room refl) (more f e h)
  ends_on f timed_out os e h room more = rw (loop_break n_candles res f timed_out os room refl) refl
  ends_on f (answered cs) os e h room more =
      elim (Bool-cases (length (f.out ++ cs) == f.last_size)) [
        | inl same ↦ rw (loop_stayed n_candles res f cs os room same) refl
        | inr grown ↦
            rw (loop_moved n_candles res f cs os room grown)
              (more (moved n_candles res f cs) refl (omega (arith, h, grows f cs e grown)))
      ]

  ends :
      (f : Fetch D) (os : List (Outcome D))
      → f.last_size ≡ length f.out
      → n_candles ≤ length f.out + attempts os
      → (fetch_loop n_candles res f os).1 ≡ true
  unfolding fetch_loop
  ends f [] e h = ground arith
  ends f (o ∷ os) e h = elim (Bool-cases (ltb (length f.out) n_candles)) [
    | inl room ↦ ends_on f o os e h room (λ g. ends g os)
    | inr full ↦ rw (loop_done n_candles res f o os full) refl
  ]

  -- The loop ends once `n_candles` requests were not refused, whatever became of them.
  pub fetch_ends :
      (now : ℤ) (os : List (Outcome D))
      → n_candles ≤ attempts os
      → (fetch_loop n_candles res (begin_fetch now) os).1 ≡ true
  fetch_ends now os h = ends (begin_fetch now) os refl (omega (arith, h))
