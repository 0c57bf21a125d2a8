-- ===== src/HistoricalOhlcv/Download/Rounds.antt =====
-- A round of the download through a client, as a round of the loop alone.
use hft_deribit.Prelude.{
  ℕ, ◌≡◌, refl, sym, ap, ◌∙◌, subst, arith, Bool, true, false, [], ◌∷◌, ◌++◌, Option, none, some,
  Text, length, ◌==◌, if◌then◌else◌, Bool-cases, Option-cases, inl, inr,
}
use hft_deribit.Json.{Simdjson}
use hft_deribit.RateLimiter.{allow_request}
use hft_deribit.DeribitClient.{Client}
use hft_deribit.HistoricalOhlcv.{
  Columns, Window, window, Outcome, refused, timed_out, answered, fetch_round,
}
use hft_deribit.HistoricalOhlcv.Rounds.{round_stayed, round_moved}
use hft_deribit.HistoricalOhlcv.Request.{FetchCallback, FetchContext, fetch_request}
use hft_deribit.HistoricalOhlcv.Download.{
  Download, fetch_of, Attempt, deliver_all, after_wait, download_round,
}
use hft_deribit.HistoricalOhlcv.Progress.{attempts}
use hft_deribit.HistoricalOhlcv.Download.Waits.{Grown, deliver_all-Waited}
use hft_deribit.DeribitClient.Calls.{send_rpc, enqueue}

-- A request is answered as the limiter says.
fetch_request-limiter :
    {S : Type 0} (c : Client FetchCallback S FetchContext) (now : ℕ) (instrument resolution : Text)
    (w : Window)
    → ((fetch_request c now instrument resolution w).1 ≡ (allow_request c.rate_limiter now).1)
      × ((fetch_request c now instrument resolution w).0.rate_limiter
          ≡ (allow_request c.rate_limiter now).0)
unfolding fetch_request send_rpc enqueue
fetch_request-limiter c now instrument resolution w =
    elim (Bool-cases (allow_request c.rate_limiter now).1) [
      | inl e ↦ rw e (refl, refl)
      | inr e ↦ rw e (refl, refl)
    ]

after_wait-limiter :
    {D S : Type 0} (w : Window) (d : Download D S)
    → (after_wait w d).0.client.rate_limiter ≡ d.client.rate_limiter
unfolding after_wait
after_wait-limiter w d = ground arith

module _ {D S : Type 0} (columns : Text → Option (Columns D)) (j : Simdjson) where
  module _ (n_candles res : ℕ) (instrument resolution : Text) where
    abbrev asks : Download D S → Window
    asks d = window n_candles res (fetch_of d)

    -- The state in front of the wait.
    abbrev waiting : Download D S → Attempt → Download D S
    waiting d a = record d {
      client = (fetch_request d.client a.now instrument resolution (asks d)).0;
      context = record (d.context) { done = false };
      asked = d.asked ++ asks d ∷ [];
    }

    -- What a wait for the window of `d` came to: `y` has what changed in it.
    waited_outcome :
        (d y : Download D S)
        → Grown (record (d.context) { done = false }) y.context
        → let x = record d {
          client = y.client;
          dispatching = y.dispatching;
          context = y.context;
          asked = d.asked ++ asks d ∷ [];
        } in
          (o : Outcome D) × (fetch_round n_candles res (fetch_of d) o
            ≡ (fetch_of (after_wait (asks d) x).0, (after_wait (asks d) x).1))
          × (attempts (o ∷ []) ≡ 1)
    unfolding after_wait fetch_round
    waited_outcome d y g = elim (Bool-cases y.context.done) [
      | inr off ↦ (timed_out, rw (off, (g.waits off).1) refl, refl)
      | inl on ↦ elim (Bool-cases (length y.context.out == d.last_size)) [
        | inl same ↦
            let e : (length (d.context.out ++ g.more) == d.last_size) ≡ true =
              subst (λ l. (length l == d.last_size) ≡ true) g.out same in
            (
              answered g.more,
              round_stayed n_candles res (fetch_of d) g.more e ∙ rw (on, same, g.out) refl,
              refl,
            )
        | inr grown ↦
            let e : (length (d.context.out ++ g.more) == d.last_size) ≡ false =
              subst (λ l. (length l == d.last_size) ≡ false) g.out grown in
            (
              answered g.more,
              round_moved n_candles res (fetch_of d) g.more e ∙ rw (on, grown, g.out) refl,
              refl,
            )
      ]
    ]

    -- A round through the client is one of the loop alone, for an outcome that is a refusal exactly
    -- if the limiter refuses.
    pub record IsRound (d d' : Download D S) (a : Attempt) (again : Bool) : Type 0 where
      pub outcome : Outcome D
      pub same_round : fetch_round n_candles res (fetch_of d) outcome ≡ (fetch_of d', again)
      pub tries :
          attempts (outcome ∷ []) ≡ (if (allow_request d.client.rate_limiter a.now).1 then 1 else 0)
      pub limiter : d'.client.rate_limiter ≡ (allow_request d.client.rate_limiter a.now).0

    pub download_round-IsRound :
        (d : Download D S) (a : Attempt) {d' : Download D S} {again : Bool}
        → download_round columns j n_candles res instrument resolution d a ≡ some (d', again)
        → IsRound d d' a again
    unfolding download_round fetch_round
    download_round-IsRound d a {d'} {again} e =
        let (asked, charged) =
          fetch_request-limiter d.client a.now instrument resolution (asks d) in
        elim (Bool-cases (fetch_request d.client a.now instrument resolution (asks d)).1) [
          | inr denied ↦
              let last : Download D S = record d {
                client = (fetch_request d.client a.now instrument resolution (asks d)).0;
                context = record (d.context) { done = false };
              } in
              let result : download_round columns j n_candles res instrument resolution d a
                  ≡ some (last, true) =
                rw (download_round, denied) refl in
              let same : (d', again) ≡ (last, true) = cc in
              record {
                outcome = refused;
                same_round = ap (λ (r : Download D S × Bool). (fetch_of r.0, r.1)) (sym same);
                tries = ap (λ b. if b then 1 else 0) (sym denied ∙ asked);
                limiter = ap (λ (r : Download D S × Bool). r.0.client.rate_limiter) same ∙ charged;
              }
          | inl sent ↦ elim (Option-cases (deliver_all columns j (waiting d a) a.messages)) [
            | inl thrown ↦
                let nothing : download_round columns j n_candles res instrument resolution d a
                    ≡ none =
                  rw (download_round, sent, thrown) refl in
                cc
            | inr (x, waited) ↦
                let result : download_round columns j n_candles res instrument resolution d a
                    ≡ some (after_wait (asks d) x) =
                  rw (download_round, sent, waited) refl in
                let same : (d', again) ≡ after_wait (asks d) x = cc in
                let w = deliver_all-Waited columns j (waiting d a) a.messages waited in
                let (o, e, tried) = waited_outcome d x w.context in
                record {
                  outcome = o;
                  same_round =
                      e
                      ∙ ap
                          (λ (x : Download D S).
                            (fetch_of (after_wait (asks d) x).0, (after_wait (asks d) x).1))
                          (sym w.kept)
                      ∙ ap (λ (r : Download D S × Bool). (fetch_of r.0, r.1)) (sym same);
                  tries = tried ∙ ap (λ b. if b then 1 else 0) (sym sent ∙ asked);
                  limiter =
                      ap (λ (r : Download D S × Bool). r.0.client.rate_limiter) same
                      ∙ after_wait-limiter (asks d) x
                      ∙ w.limiter
                      ∙ charged;
                }
          ]
        ]
