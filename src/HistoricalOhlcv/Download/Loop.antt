-- ===== src/HistoricalOhlcv/Download/Loop.antt =====
-- The download through a client is the loop alone, for the outcomes that the client makes.
use hft_deribit.Prelude.{
  ℕ, ◌≡◌, refl, sym, ap, ◌∙◌, subst, arith, Bool, true, false, List, [], ◌∷◌, Option, none, some,
  Text, length, leb, ltb, Bool-cases, Option-cases, inl, inr,
}
use hft_deribit.Prelude.Int.{ℤ}
use hft_deribit.Json.{Simdjson}
use hft_deribit.DeribitClient.{Client}
use hft_deribit.HistoricalOhlcv.{
  Columns, Fetch, Outcome, refused, timed_out, answered, fetch_loop, begin_fetch,
}
use hft_deribit.HistoricalOhlcv.Rounds.{loop_done, loop_break, loop_again}
use hft_deribit.HistoricalOhlcv.Request.{FetchCallback, FetchContext}
use hft_deribit.HistoricalOhlcv.Download.{
  Download, fetch_of, Attempt, download_round, download_loop, begin_download,
}
use hft_deribit.RateLimiter.{run}
use hft_deribit.HistoricalOhlcv.Progress.{attempts, fetch_ends}
use hft_deribit.HistoricalOhlcv.Download.Rounds.{download_round-IsRound}
use hft_deribit.HistoricalOhlcv.Download.{download}
use hft_deribit.HistoricalOhlcv.{res_ms, sort, trim}
use hft_deribit.Prelude.{◌⊎◌, ◌+◌, ◌≤◌, ap₂}

-- The times at which the limiter is asked.
abbrev pub times : List Attempt → List ℕ
times [] = []
times (a ∷ more) = a.now ∷ times more

attempts_split :
    {D : Type 0} (o : Outcome D) (os : List (Outcome D))
    → attempts (o ∷ os) ≡ attempts (o ∷ []) + attempts os
attempts_split refused os = omega arith
attempts_split timed_out os = omega arith
attempts_split (answered cs) os = omega arith

module _ {D S : Type 0} (columns : Text → Option (Columns D)) (j : Simdjson) where
  module _ (n_candles res : ℕ) (instrument resolution : Text) where
    -- The loop's run is one of the loop alone; while it has not ended, every request that the
    -- limiter allowed was tried.
    record IsRun (d d' : Download D S) (more : List Attempt) (ended : Bool) : Type 0 where
      outcomes : List (Outcome D)
      same_run : fetch_loop n_candles res (fetch_of d) outcomes ≡ (fetch_of d', ended)
      tries : ended ≡ false → attempts outcomes ≡ (run d.client.rate_limiter (times more)).1

    download_loop-IsRun :
        (d : Download D S) (more : List Attempt) {d' : Download D S} {ended : Bool}
        → download_loop columns j n_candles res instrument resolution d more ≡ some (d', ended)
        → IsRun d d' more ended
    unfolding download_loop fetch_loop run
    download_loop-IsRun d [] {d'} {ended} e =
        let same : (d', ended) ≡ (d, leb n_candles (length d.context.out)) = cc in
        record {
          outcomes = [];
          same_run = ap (λ (r : Download D S × Bool). (fetch_of r.0, r.1)) (sym same);
          tries = λ goes. refl;
        }
    download_loop-IsRun d (a ∷ more) {d'} {ended} e =
        elim (Bool-cases (ltb (length d.context.out) n_candles)) [
          | inr full ↦
              let result : download_loop columns j n_candles res instrument resolution d (a ∷ more)
                  ≡ some (d, true) =
                rw (download_loop, full) refl in
              let same : (d', ended) ≡ (d, true) = cc in
              let over : ended ≡ true = cc in
              record {
                outcomes = refused ∷ [];
                same_run =
                    loop_done n_candles res (fetch_of d) refused [] full
                    ∙ ap (λ (r : Download D S × Bool). (fetch_of r.0, r.1)) (sym same);
                tries = λ goes. cc;
              }
          | inl room ↦
              elim (Option-cases
                (download_round columns j n_candles res instrument resolution d a)) [
                  | inl thrown ↦
                      let nothing : download_loop columns j n_candles res instrument resolution d
                            (a ∷ more)
                          ≡ none =
                        rw (download_loop, room, thrown) refl in
                      cc
                  | inr ((x, false), went) ↦
                      let result : download_loop columns j n_candles res instrument resolution d
                            (a ∷ more)
                          ≡ some (x, true) =
                        rw (download_loop, room, went) refl in
                      let same : (d', ended) ≡ (x, true) = cc in
                      let over : ended ≡ true = cc in
                      let r =
                        download_round-IsRound columns j n_candles res instrument resolution d a
                          went in
                      record {
                        outcomes = r.outcome ∷ [];
                        same_run =
                            loop_break n_candles res (fetch_of d) r.outcome [] room
                              (ap (λ p. p.1) r.same_round)
                            ∙ ap (λ (f : Fetch D). (f, true)) (ap (λ p. p.0) r.same_round)
                            ∙ ap (λ (r : Download D S × Bool). (fetch_of r.0, r.1)) (sym same);
                        tries = λ goes. cc;
                      }
                  | inr ((x, true), went) ↦
                      let rest : download_loop columns j n_candles res instrument resolution x more
                          ≡ some (d', ended) =
                        sym (rw (download_loop, room, went) refl) ∙ e in
                      let r =
                        download_round-IsRound columns j n_candles res instrument resolution d a
                          went in
                      let l = download_loop-IsRun x more rest in
                      record {
                        outcomes = r.outcome ∷ l.outcomes;
                        same_run =
                            loop_again n_candles res (fetch_of d) r.outcome l.outcomes room
                              (ap (λ p. p.1) r.same_round)
                            ∙ ap (λ (f : Fetch D). fetch_loop n_candles res f l.outcomes)
                                (ap (λ p. p.0) r.same_round)
                            ∙ l.same_run;
                        tries = λ goes.
                            attempts_split r.outcome l.outcomes
                            ∙ ap₂ ◌+◌ r.tries
                                (l.tries goes ∙ ap (λ b. (run b (times more)).1) r.limiter);
                      }
                ]
        ]

  -- A download through the client, with a resolution in minutes, and attempts of which the client's
  -- limiter allows `n_candles`: either an exception leaves its loop, or it returns the newest candles
  -- of its context. Its windows, and the candles and variables in the end, are then those that the
  -- loop alone has for some outcomes of the requests.
  pub download_refines :
      (c : Client FetchCallback S FetchContext) (instrument resolution : Text) (n_candles : ℕ)
      (start : ℤ) (more : List Attempt) {res : ℕ}
      → res_ms resolution ≡ some res
      → n_candles ≤ (run c.rate_limiter (times more)).1
      → (download_loop columns j n_candles res instrument resolution (begin_download c start) more
          ≡ none)
        ⊎ ((d : Download D S) × (os : List (Outcome D)) × (fetch_loop n_candles res
                (begin_fetch start)
                os
              ≡ (fetch_of d, true))
            × (download_loop columns j n_candles res instrument resolution
                  (begin_download c start)
                  more
                ≡ some (d, true))
            × (download columns j c instrument resolution n_candles start more
                ≡ some (trim n_candles (sort d.context.out))))
  unfolding download
  download_refines c instrument resolution n_candles start more {res} minutes enough =
      let first = begin_download c start in
      elim (Option-cases (download_loop columns j n_candles res instrument resolution first more)) [
        | inl thrown ↦ inl thrown
        | inr ((d, true), e) ↦
            let r = download_loop-IsRun n_candles res instrument resolution first more e in
            let returned : download columns j c instrument resolution n_candles start more
                ≡ some (trim n_candles (sort d.context.out)) =
              rw (download, minutes, e) refl in
            inr (d, r.outcomes, r.same_run, e, returned)
        | inr ((d, false), e) ↦
            let r = download_loop-IsRun n_candles res instrument resolution first more e in
            let late =
              fetch_ends n_candles res start r.outcomes
                (subst (λ (k : ℕ). n_candles ≤ k) (sym (r.tries refl)) enough) in
            let early : (fetch_loop n_candles res (begin_fetch start) r.outcomes).1 ≡ false =
              ap (λ p. p.1) r.same_run in
            cc
      ]
