-- ===== src/HistoricalOhlcv/Download/Waits.antt =====
-- What the client makes of the requests of a download: the outcomes that the loop alone is given.
use hft_deribit.Prelude.{
  ◌≡◌, refl, sym, ap, ◌∙◌, subst, true, false, not, ◌||◌, List, [], ◌∷◌, ◌++◌, Option, none, some,
  Text, is_empty, Bool-cases, Option-cases, inl, inr, append-nil, append_assoc,
}
use hft_deribit.Ohlcv.{Ohlcv}
use hft_deribit.Json.{Simdjson}
use hft_deribit.DeribitClient.Callbacks.{run_callbacks-token}
use hft_deribit.Dispatcher.{Invocation, call_rpc, call_sub}
use hft_deribit.Dispatcher.Dispatch.{dispatch}
use hft_deribit.DeribitClient.{RpcCallback, user, auth_success, auth_error, UserData, self, other}
use hft_deribit.DeribitClient.Calls.{run_callbacks}
use hft_deribit.HistoricalOhlcv.{Columns, on_ohlcv_success}
use hft_deribit.HistoricalOhlcv.Request.{FetchCallback, on_success, on_error, FetchContext, ctx}
use hft_deribit.HistoricalOhlcv.Download.{
  Context, on_ohlcv_error, Download, run_fetch_callback, run_fetch_callbacks, deliver, deliver_all,
}

-- The callbacks only append, and set `done` when they do.
pub record Grown {D : Type 0} (k k' : Context D) : Type 0 where
  pub more : List (Ohlcv D)
  pub out : k'.out ≡ k.out ++ more
  pub waits : k'.done ≡ false → (k.done ≡ false) × (k'.out ≡ k.out)

Grown-refl : {D : Type 0} (k : Context D) → Grown k k
Grown-refl k = record { more = []; out = sym (append-nil k.out); waits = λ w. (w, refl) }

Grown-trans : {D : Type 0} {a b c : Context D} → Grown a b → Grown b c → Grown a c
Grown-trans {a = a} g h = record {
  more = g.more ++ h.more;
  out = h.out ∙ ap (λ l. l ++ h.more) g.out ∙ append_assoc a.out g.more h.more;
  waits = λ w. let (u, e) = h.waits w in let (v, f) = g.waits u in (v, e ∙ f);
}

module _ {D S : Type 0} (columns : Text → Option (Columns D)) where
  callback-Grown :
      (i : Invocation (RpcCallback FetchCallback) S (UserData FetchContext)) (k : Context D)
      {k' : Context D}
      → run_fetch_callback columns i k ≡ some k'
      → Grown k k'
  unfolding run_fetch_callback on_ohlcv_error
  callback-Grown (call_rpc (user on_success) pm (some (other ctx))) k {k'} e =
      elim (Option-cases (columns pm.result)) [
        | inl thrown ↦
            let nothing : run_fetch_callback {S = S} columns
                  (call_rpc (user on_success) pm (some (other ctx))) k
                ≡ none =
              rw (run_fetch_callback, thrown) refl in
            cc
        | inr (cols, parsed) ↦ elim (Option-cases (on_ohlcv_success cols)) [
          | inl thrown ↦
              let nothing : run_fetch_callback {S = S} columns
                    (call_rpc (user on_success) pm (some (other ctx))) k
                  ≡ none =
                rw (run_fetch_callback, parsed, thrown) refl in
              cc
          | inr (cs, read) ↦
              let last : Context D = record { out = k.out ++ cs; done = true } in
              let result : run_fetch_callback {S = S} columns
                    (call_rpc (user on_success) pm (some (other ctx))) k
                  ≡ some last =
                rw (run_fetch_callback, parsed, read) refl in
              let same : k' ≡ last = cc in
              subst (Grown k) (sym same)
                (record { more = cs; out = refl; waits = λ (w : true ≡ false). cc })
        ]
      ]
  callback-Grown (call_rpc (user on_error) pm (some (other ctx))) k {k'} e =
      let same : k' ≡ record k { done = true } = cc in
      subst (Grown k) (sym same)
        (record { more = []; out = sym (append-nil k.out); waits = λ (w : true ≡ false). cc })
  callback-Grown (call_rpc (user on_success) pm (some self)) k e = cc
  callback-Grown (call_rpc (user on_success) pm none) k e = cc
  callback-Grown (call_rpc (user on_error) pm (some self)) k e = cc
  callback-Grown (call_rpc (user on_error) pm none) k e = cc
  callback-Grown (call_rpc auth_success pm u) k {k'} e =
      let same : k' ≡ k = cc in subst (Grown k) (sym same) (Grown-refl k)
  callback-Grown (call_rpc auth_error pm u) k {k'} e =
      let same : k' ≡ k = cc in subst (Grown k) (sym same) (Grown-refl k)
  callback-Grown (call_sub f pm) k {k'} e =
      let same : k' ≡ k = cc in subst (Grown k) (sym same) (Grown-refl k)

  callbacks-Grown :
      (is : List (Invocation (RpcCallback FetchCallback) S (UserData FetchContext))) (k : Context D)
      {k' : Context D}
      → run_fetch_callbacks columns is k ≡ some k'
      → Grown k k'
  unfolding run_fetch_callbacks
  callbacks-Grown [] k {k'} e = let same : k' ≡ k = cc in subst (Grown k) (sym same) (Grown-refl k)
  callbacks-Grown (i ∷ is) k {k'} e = elim (Option-cases (run_fetch_callback columns i k)) [
    | inl thrown ↦
        let nothing : run_fetch_callbacks columns (i ∷ is) k ≡ none =
          rw (run_fetch_callbacks, thrown) refl in
        cc
    | inr (next, called) ↦
        let rest : run_fetch_callbacks columns is next ≡ some k' =
          sym (rw (run_fetch_callbacks, called) refl) ∙ e in
        Grown-trans (callback-Grown i k called) (callbacks-Grown is next rest)
  ]

-- While the loop waits, its own variables stay.
pub record Waited {D S : Type 0} (d d' : Download D S) : Type 0 where
  pub context : Grown d.context d'.context
  pub kept :
      d' ≡ record d { client = d'.client; dispatching = d'.dispatching; context = d'.context }
  pub limiter : d'.client.rate_limiter ≡ d.client.rate_limiter

Waited-refl : {D S : Type 0} (d : Download D S) → Waited d d
Waited-refl d = record { context = Grown-refl d.context; kept = refl; limiter = refl }

Waited-trans : {D S : Type 0} {a b c : Download D S} → Waited a b → Waited b c → Waited a c
Waited-trans {D} {S} {c = c} v w = record {
  context = Grown-trans v.context w.context;
  kept =
      w.kept
      ∙ ap
          (λ (x : Download D S). record x {
            client = c.client;
            dispatching = c.dispatching;
            context = c.context;
          })
          v.kept;
  limiter = w.limiter ∙ v.limiter;
}

module _ {D S : Type 0} (columns : Text → Option (Columns D)) (j : Simdjson) where
  deliver-Waited :
      (d : Download D S) (msg : Text) {d' : Download D S}
      → deliver columns j d msg ≡ some d'
      → Waited d d'
  unfolding deliver
  deliver-Waited d msg {d'} e = elim (Bool-cases d.dispatching) [
    | inr off ↦
        let result : deliver columns j d msg ≡ some d = rw (deliver, off) refl in
        let same : d' ≡ d = cc in subst (Waited d) (sym same) (Waited-refl d)
    | inl on ↦ elim (Bool-cases (not d.client.connected || is_empty msg)) [
      | inl over ↦
          let last : Download D S = record d { dispatching = false } in
          let result : deliver columns j d msg ≡ some last = rw (deliver, on, over) refl in
          let same : d' ≡ last = cc in
          subst (Waited d) (sym same)
            (record { context = Grown-refl d.context; kept = refl; limiter = refl })
      | inr live ↦ elim (Option-cases (dispatch j d.client.dispatcher msg)) [
        | inl thrown ↦
            let nothing : deliver columns j d msg ≡ none = rw (deliver, on, live, thrown) refl in cc
        | inr (calls, called) ↦ elim (Option-cases (run_fetch_callbacks columns calls d.context)) [
          | inl thrown ↦
              let nothing : deliver columns j d msg ≡ none =
                rw (deliver, on, live, called, thrown) refl in
              cc
          | inr (k, ran) ↦
              let last : Download D S = record d {
                client = run_callbacks d.client calls;
                context = k;
              } in
              let result : deliver columns j d msg ≡ some last =
                simp (deliver, on, live, called, ran) in
              let same : d' ≡ last = cc in
              subst (Waited d) (sym same) (record {
                context = callbacks-Grown columns calls d.context ran;
                kept = refl;
                limiter = ap (λ c. c.rate_limiter) (run_callbacks-token d.client calls);
              })
        ]
      ]
    ]
  ]

  pub deliver_all-Waited :
      (d : Download D S) (msgs : List Text) {d' : Download D S}
      → deliver_all columns j d msgs ≡ some d'
      → Waited d d'
  unfolding deliver_all
  deliver_all-Waited d [] {d'} e =
      let same : d' ≡ d = cc in subst (Waited d) (sym same) (Waited-refl d)
  deliver_all-Waited d (msg ∷ msgs) {d'} e = elim (Option-cases (deliver columns j d msg)) [
    | inl thrown ↦
        let nothing : deliver_all columns j d (msg ∷ msgs) ≡ none = rw (deliver_all, thrown) refl in
        cc
    | inr (next, done) ↦
        let rest : deliver_all columns j next msgs ≡ some d' =
          sym (rw (deliver_all, done) refl) ∙ e in
        Waited-trans (deliver-Waited d msg done) (deliver_all-Waited next msgs rest)
  ]
