-- ===== src/HistoricalOhlcv/Rounds.antt =====
-- How the loop goes from one round to the next.
use hft_deribit.Prelude.{
  ◌≡◌, refl, ap, ◌∙◌, Bool, true, false, List, [], ◌∷◌, ◌++◌, length, ltb, ◌==◌, ℕ,
}
use hft_deribit.Ohlcv.{Ohlcv}
use hft_deribit.HistoricalOhlcv.{minus, Fetch, Outcome, answered, window, fetch_round, fetch_loop}

module _ {D : Type 0} (n_candles res : ℕ) (f : Fetch D) (o : Outcome D)
    (os : List (Outcome D)) where
  pub loop_done :
      ltb (length f.out) n_candles ≡ false → fetch_loop n_candles res f (o ∷ os) ≡ (f, true)
  unfolding fetch_loop
  loop_done full = rw (full) refl

  pub loop_break :
      ltb (length f.out) n_candles ≡ true
      → (fetch_round n_candles res f o).1 ≡ false
      → fetch_loop n_candles res f (o ∷ os) ≡ ((fetch_round n_candles res f o).0, true)
  unfolding fetch_loop
  loop_break room e = rw (room, e) refl

  pub loop_again :
      ltb (length f.out) n_candles ≡ true
      → (fetch_round n_candles res f o).1 ≡ true
      → fetch_loop n_candles res f (o ∷ os)
        ≡ fetch_loop n_candles res (fetch_round n_candles res f o).0 os
  unfolding fetch_loop
  loop_again room e = rw (room, e) refl

module _ {D : Type 0} (n_candles res : ℕ) (f : Fetch D) (cs : List (Ohlcv D)) where
  -- After an answer without candles, and after one with some.
  abbrev pub stayed : Fetch D
  stayed = record f { out = f.out ++ cs; asked = f.asked ++ window n_candles res f ∷ [] }

  abbrev pub moved : Fetch D
  moved = record {
    out = f.out ++ cs;
    current_end_ts = minus (window n_candles res f).start_timestamp 1;
    last_size = length (f.out ++ cs);
    asked = f.asked ++ window n_candles res f ∷ [];
  }

  pub round_stayed :
      (length (f.out ++ cs) == f.last_size) ≡ true
      → fetch_round n_candles res f (answered cs) ≡ (stayed, false)
  unfolding fetch_round
  round_stayed e = rw e refl

  pub round_moved :
      (length (f.out ++ cs) == f.last_size) ≡ false
      → fetch_round n_candles res f (answered cs) ≡ (moved, true)
  unfolding fetch_round
  round_moved e = rw e refl

  -- What the loop does with an answer while candles are missing.
  pub loop_stayed :
      (os : List (Outcome D))
      → ltb (length f.out) n_candles ≡ true
      → (length (f.out ++ cs) == f.last_size) ≡ true
      → fetch_loop n_candles res f (answered cs ∷ os) ≡ (stayed, true)
  loop_stayed os room e =
      loop_break n_candles res f (answered cs) os room
        (ap (λ (r : Fetch D × Bool). r.1) (round_stayed e))
      ∙ ap (λ (r : Fetch D × Bool). (r.0, true)) (round_stayed e)

  pub loop_moved :
      (os : List (Outcome D))
      → ltb (length f.out) n_candles ≡ true
      → (length (f.out ++ cs) == f.last_size) ≡ false
      → fetch_loop n_candles res f (answered cs ∷ os) ≡ fetch_loop n_candles res moved os
  loop_moved os room e =
      loop_again n_candles res f (answered cs) os room
        (ap (λ (r : Fetch D × Bool). r.1) (round_moved e))
      ∙ ap (λ (r : Fetch D × Bool). fetch_loop n_candles res r.0 os) (round_moved e)
