-- ===== src/System/Insertion.antt =====
-- The two looks that the sender takes at the access token agree with `authorize`.
use hft_deribit.Prelude.{
  ℕ, ◌≡◌, refl, ap, ◌∙◌, subst, true, false, not, ◌&&◌, Text, codes, is_empty, Bool-cases, inl, inr,
}
use hft_deribit.Json.{Simdjson}
use hft_deribit.Websocket.{Beast}
use hft_deribit.RequestSender.{authorize, contains}
use hft_deribit.DeribitClient.{Client}
use hft_deribit.DeribitClient.Calls.{send_rpc, subscribe, rpc_message, subscribe_message}
use hft_deribit.System.{
  insert_token, Step, Steps, here, next, calls, subscribes, authenticates, starts_sender,
  sender_goes_on, sender_stops, sender_waits, sender_pops, sender_misses, authorizes, inserts,
  sends, dispatches,
}
use hft_deribit.System.State.{at_insert, at_send, System, initial}
use hft_deribit.System.Phases.{IsPhased, Step-IsPhased, initial-IsPhased}
use hft_deribit.System.Effects.{callbacks_given}
use hft_deribit.System.Requests.{enqueue_kept, authenticate_effect}

pub authorize-skips :
    (token msg : Text)
    → (contains (codes "\"private/") msg && not (is_empty token)) ≡ false
    → authorize token msg ≡ msg
unfolding authorize
authorize-skips token msg h = elim (Bool-cases (contains (codes "\"private/") msg)) [
  | inr c ↦ rw (authorize, c) refl
  | inl c ↦ elim (Bool-cases (is_empty token)) [
    | inl e ↦ rw (authorize, c, e) refl
    | inr e ↦ let no : (true && not false) ≡ false = rw (c, e) at h in cc
  ]
]

pub authorize-inserts :
    (token msg : Text)
    → contains (codes "\"private/") msg ≡ true
    → is_empty token ≡ false
    → authorize token msg ≡ insert_token token msg
unfolding authorize insert_token
authorize-inserts token msg c e = rw (authorize, c, e) refl

-- A request that waits for the insertion is private, and the client has a token.
module _ {F S U W : Type 0} where
  abbrev pub IsInserting : System F S U W → Type 0
  IsInserting s =
      (msg : Text)
      → s.sender ≡ at_insert msg
      → (contains (codes "\"private/") msg ≡ true) × (is_empty s.client.access_token ≡ false)

  module _ (j : Simdjson) (beast : Beast W) where
    Step-IsInserting : {s t : System F S U W} → Step j beast s t → IsInserting s → IsInserting t
    unfolding send_rpc subscribe
    Step-IsInserting {s} (calls now id method params) h = λ msg at. (
      (h msg at).0,
      ap is_empty (enqueue_kept s.client now (rpc_message id method params)).2 ∙ (h msg at).1,
    )
    Step-IsInserting {s} (subscribes now channel) h = λ msg at. (
      (h msg at).0,
      ap is_empty (enqueue_kept s.client now (subscribe_message channel)).2 ∙ (h msg at).1,
    )
    Step-IsInserting {s} (authenticates now e) h =
        λ msg at. ((h msg at).0, ap is_empty (authenticate_effect s.client now e).3 ∙ (h msg at).1)
    Step-IsInserting {s} (dispatches {is = is} e d) h =
        λ msg at. ((h msg at).0, callbacks_given s.client is (h msg at).1)
    Step-IsInserting {s} (authorizes {msg} e) h = λ msg' at.
        elim (Bool-cases (contains (codes "\"private/") msg)) [
          | inr c ↦ let skipped : at_send msg ≡ at_insert msg' = rw c at at in cc
          | inl c ↦ elim (Bool-cases (is_empty s.client.access_token)) [
            | inl n ↦ let skipped : at_send msg ≡ at_insert msg' = rw (c, n) at at in cc
            | inr g ↦
                let same : at_insert msg ≡ at_insert msg' = rw (c, g) at at in
                let m : msg ≡ msg' = cc in
                (subst (λ m. contains (codes "\"private/") m ≡ true) m c, g)
          ]
        ]
    Step-IsInserting (starts_sender e) h = λ msg at. cc
    Step-IsInserting (sender_goes_on e on) h = λ msg at. cc
    Step-IsInserting (sender_stops e off) h = λ msg at. cc
    Step-IsInserting (sender_waits e times w) h = λ msg at. cc
    Step-IsInserting (sender_pops e found) h = λ msg at. cc
    Step-IsInserting (sender_misses e nothing) h = λ msg at. cc
    Step-IsInserting (inserts e) h = λ msg at. cc
    Step-IsInserting (sends e) h = λ msg at. cc
    Step-IsInserting _ h = h

    pub Steps-IsInserting :
        {s t : System F S U W}
        → Steps j beast s t
        → IsPhased s × IsInserting s
        → IsPhased t × IsInserting t
    Steps-IsInserting here i = i
    Steps-IsInserting (next before last) i =
        let (p, h) = Steps-IsInserting before i in
        (Step-IsPhased j beast last p, Step-IsInserting last h)

  pub initial-IsInserting :
      (c : Client F S U) (stream : W) (start : ℕ)
      → IsPhased (initial c stream start) × IsInserting (initial c stream start)
  initial-IsInserting c stream start = (initial-IsPhased c stream start, λ msg at. cc)
