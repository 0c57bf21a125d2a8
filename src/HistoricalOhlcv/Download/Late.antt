-- ===== src/HistoricalOhlcv/Download/Late.antt =====
-- An answer that comes after the download has returned.
use hft_deribit.Prelude.{
  ℕ, ◌<◌, ◌≡◌, refl, ◌∙◌, arith, true, false, List, [], ◌∷◌, Option, some, Text, ltb,
}
use hft_deribit.Prelude.Int.{ℤ}
use hft_deribit.Ohlcv.{Ohlcv}
use hft_deribit.Json.{Simdjson}
use hft_deribit.RateLimiter.{allow_request}
use hft_deribit.DeribitClient.{Client}
use hft_deribit.HistoricalOhlcv.{Columns, on_ohlcv_success, res_ms, sort, trim}
use hft_deribit.HistoricalOhlcv.Parsing.{on_ohlcv_success_lem}
use hft_deribit.HistoricalOhlcv.Request.{FetchCallback, FetchContext}
use hft_deribit.HistoricalOhlcv.Download.Answer.{
  IsAnswer, fetch_request_sent, asked_for, in_wait, answer_delivered, answer_routed,
}
use hft_deribit.HistoricalOhlcv.Download.{
  Download, Attempt, deliver, deliver_all, after_wait, download_round, download_loop,
  begin_download, download,
}

module _ {D S : Type 0} (columns : Text → Option (Columns D)) (j : Simdjson) (json : Text)
    (doc : j.Doc) (cols : Columns D) (a : IsAnswer columns j json doc cols) where
  -- No answer arrives in the wait: the download returns without candles. The answer that the
  -- dispatcher gets after that still calls the callback, which appends its candles to the variable of
  -- the function that has returned. For a connected client whose limiter allows the request, a
  -- resolution in minutes, and `n_candles` above zero.
  pub late_answer :
      (c : Client FetchCallback S FetchContext) (now : ℕ) (instrument resolution : Text)
      (n_candles : ℕ) (start : ℤ) {res : ℕ}
      → res_ms resolution ≡ some res
      → (allow_request c.rate_limiter now).1 ≡ true
      → c.connected ≡ true
      → 0 < n_candles
      → (d : Download D S) × (d' : Download D S) × (candles : List (Ohlcv D)) × (download_loop
            columns j n_candles res instrument resolution
            (begin_download c start)
            (record { now = now; messages = [] } ∷ [])
          ≡ some (d, true))
        × (download columns j c instrument resolution n_candles start
              (record { now = now; messages = [] } ∷ [])
            ≡ some [])
        × (deliver columns j d json ≡ some d')
        × (on_ohlcv_success cols ≡ some candles)
        × (d'.context.out ≡ candles)
  unfolding download_loop download_round deliver_all after_wait download trim sort
  late_answer c now instrument resolution n_candles start {res} minutes allowed up above =
      let w = asked_for columns j json doc cols a c now instrument resolution n_candles res start in
      let waits =
        in_wait columns j json doc cols a c now instrument resolution n_candles res start in
      let a0 : Attempt = record { now = now; messages = [] } in
      let (candles, read, ticks, each) = on_ohlcv_success_lem a.filled in
      let (sent, live) = fetch_request_sent c now instrument resolution w allowed in
      let room : ltb 0 n_candles ≡ true = ground arith in
      let few : ltb n_candles 0 ≡ false = ground arith in
      let round : download_round columns j n_candles res instrument resolution
            (begin_download c start) a0
          ≡ some (waits, false) =
        rw (download_round, sent) refl in
      let loop : download_loop columns j n_candles res instrument resolution
            (begin_download c start) (a0 ∷ [])
          ≡ some (waits, true) =
        rw (download_loop, room, round) refl in
      let returned : download columns j c instrument resolution n_candles start (a0 ∷ [])
          ≡ some [] =
        rw (download, minutes, loop, few) refl in
      let got =
        answer_delivered columns j json doc cols a waits candles refl (live ∙ up)
          (answer_routed columns j json doc cols a c now instrument resolution w) read in
      (waits, _, candles, loop, returned, got, read, refl)
