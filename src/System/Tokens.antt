-- ===== src/System/Tokens.antt =====
-- Requests behind the answer to the authentication: a token that was stored stays, or is replaced by
-- another one.
use mathlib.Core.List.{map-append}
use hft_deribit.Prelude.{
  ℕ, ◌≡◌, sym, ap, ◌∙◌, subst, arith, false, not, ◌&&◌, List, [], ◌∷◌, ◌++◌, append-nil,
  append_assoc, Option, Text, codes, map, is_empty, if◌then◌else◌, Bool-cases, inl, inr,
}
use hft_deribit.Json.{Simdjson}
use hft_deribit.Websocket.{Beast}
use hft_deribit.RequestSender.{authorize, contains}
use hft_deribit.DeribitClient.{Client, ok, new_client, get_access_token}
use hft_deribit.DeribitClient.Calls.{send_rpc, subscribe, rpc_message, subscribe_message}
use hft_deribit.System.{
  Step, Steps, here, next, calls, subscribes, authenticates, starts_sender, sender_goes_on,
  sender_stops, sender_waits, sender_pops, sender_misses, authorizes, inserts, sends, dispatches,
}
use hft_deribit.System.State.{Sending, at_insert, at_send, System, initial}
use hft_deribit.System.Outbound.{completed}
use hft_deribit.System.Phases.{rank, IsPhased}
use hft_deribit.System.Effects.{callbacks_given}
use hft_deribit.System.Insertion.{
  authorize-skips, authorize-inserts, IsInserting, Steps-IsInserting, initial-IsInserting,
}
use hft_deribit.System.Requests.{enqueue_kept, authenticate_effect}

-- Requests that were completed with tokens that are not empty.
abbrev pub AreGiven : List (Text × Text) → Type 0
AreGiven [] = Unit
AreGiven (p ∷ ps) = (is_empty p.0 ≡ false) × AreGiven ps

AreGiven-append :
    (ps : List (Text × Text)) (token msg : Text)
    → AreGiven ps
    → is_empty token ≡ false
    → AreGiven (ps ++ (token, msg) ∷ [])
AreGiven-append [] token msg a g = (g, tt)
AreGiven-append (p ∷ ps) token msg a g = (a.0, AreGiven-append ps token msg a.1 g)

-- Since the sender had handed on `base`, it has completed requests with such tokens only.
record Authorized (base : List Text) (token : Text) (ready wire : List Text) : Type 0 where
  given : is_empty token ≡ false
  handled : List (Text × Text)
  tokens : AreGiven handled
  on_wire : wire ++ ready ≡ base ++ map (λ p. authorize p.0 p.1) handled

-- One more request, completed with the token that the client has.
grown :
    {base : List Text} (wire : List Text) (token msg : Text)
    → Authorized base token [] wire
    → Authorized base token (authorize token msg ∷ []) wire
grown {base} wire token msg now = record {
  given = now.given;
  handled = now.handled ++ (token, msg) ∷ [];
  tokens = AreGiven-append now.handled token msg now.tokens now.given;
  on_wire =
      ap (λ l. l ++ authorize token msg ∷ []) (sym (append-nil wire) ∙ now.on_wire)
      ∙ append_assoc base (map (λ p. authorize p.0 p.1) now.handled) (authorize token msg ∷ [])
      ∙ ap (λ l. base ++ l)
          (sym (map-append (λ p. authorize p.0 p.1) now.handled ((token, msg) ∷ [])));
}

module _ {F S U W : Type 0} (j : Simdjson) (beast : Beast W) (base : List Text) where
  abbrev IsAuthorized : System F S U W → Type 0
  IsAuthorized s = Authorized base s.client.access_token (completed s.sender) s.wire

  stands :
      (s : System F S U W) {w : Sending}
      → s.sender ≡ w
      → IsAuthorized s
      → Authorized base s.client.access_token (completed w) s.wire
  stands s e o = subst (λ w. Authorized base s.client.access_token (completed w) s.wire) e o

  tokened :
      (s : System F S U W) {token : Text}
      → is_empty token ≡ false
      → IsAuthorized s
      → Authorized base token (completed s.sender) s.wire
  tokened s g o = record { given = g; handled = o.handled; tokens = o.tokens; on_wire = o.on_wire }

  Step-IsAuthorized :
      {s t : System F S U W}
      → Step j beast s t
      → IsPhased s × IsInserting s
      → IsAuthorized s
      → IsAuthorized t
  unfolding send_rpc subscribe completed
  Step-IsAuthorized {s} (calls now id method params) i o =
      tokened s (ap is_empty (enqueue_kept s.client now (rpc_message id method params)).2 ∙ o.given)
        o
  Step-IsAuthorized {s} (subscribes now channel) i o =
      tokened s (ap is_empty (enqueue_kept s.client now (subscribe_message channel)).2 ∙ o.given) o
  Step-IsAuthorized {s} (authenticates now e) i o =
      tokened s (ap is_empty (authenticate_effect s.client now e).3 ∙ o.given) o
  Step-IsAuthorized {s} (dispatches {is = is} e d) i o =
      tokened s (callbacks_given s.client is o.given) o
  Step-IsAuthorized {s} (starts_sender e) i o =
      stands s (i.0.sender_later (ground (arith, ap rank e))) o
  Step-IsAuthorized {s} (sender_goes_on e on) i o = stands s e o
  Step-IsAuthorized {s} (sender_stops e off) i o = stands s e o
  Step-IsAuthorized {s} (sender_waits e times w) i o = stands s e o
  Step-IsAuthorized {s} (sender_pops e found) i o = stands s e o
  Step-IsAuthorized {s} (sender_misses e nothing) i o = stands s e o
  Step-IsAuthorized {s} (authorizes {msg} e) i o =
      let now = stands s e o in
      let token = get_access_token s.client in
      elim (Bool-cases (contains (codes "\"private/") msg && not (is_empty token))) [
        | inl wanted ↦
            subst (λ w. Authorized base token (completed w) s.wire)
              (ap (λ b. if b then at_insert msg else at_send msg) (sym wanted)) now
        | inr not_wanted ↦
            subst (λ w. Authorized base token (completed w) s.wire)
              (ap (λ b. if b then at_insert msg else at_send msg) (sym not_wanted))
              (subst (λ m. Authorized base token (m ∷ []) s.wire)
                (authorize-skips token msg not_wanted) (grown s.wire token msg now))
      ]
  Step-IsAuthorized {s} (inserts {msg} e) i o =
      let now = stands s e o in
      let token = get_access_token s.client in
      let (private, given) = i.1 msg e in
      subst (λ m. Authorized base token (m ∷ []) s.wire) (authorize-inserts token msg private given)
        (grown s.wire token msg now)
  Step-IsAuthorized {s} (sends {msg} e) i o =
      let now = stands s e o in
      record {
        given = now.given;
        handled = now.handled;
        tokens = now.tokens;
        on_wire = append-nil (s.wire ++ msg ∷ []) ∙ now.on_wire;
      }
  Step-IsAuthorized _ i o = o

  Steps-IsAuthorized :
      {s t : System F S U W}
      → Steps j beast s t
      → IsPhased s × IsInserting s
      → IsAuthorized s
      → IsAuthorized t
  Steps-IsAuthorized here i o = o
  Steps-IsAuthorized (next before last) i o =
      Step-IsAuthorized last (Steps-IsInserting j beast before i) (Steps-IsAuthorized before i o)

module _ {F S U W : Type 0} (j : Simdjson) (beast : Beast W) where
  -- Once a new client has an access token that is not empty: whatever the threads do from there, it
  -- has one from there on, and every request that the sender completes from there is completed with
  -- a token that is not empty. Those requests, in order, are what the websocket gets behind what it
  -- got before and the text that the sender was to send then, up to the text that it is to send now.
  pub token_used_from_then_on :
      (env : Text → Option Text) (now start : ℕ) (c : Client F S U) (stream : W)
      {s t : System F S U W}
      → new_client env now ≡ ok c
      → Steps j beast (initial c stream start) s
      → is_empty s.client.access_token ≡ false
      → Steps j beast s t
      → (is_empty t.client.access_token ≡ false)
        × ((handled : List (Text × Text)) × AreGiven handled
            × (t.wire ++ completed t.sender
                ≡ (s.wire ++ completed s.sender) ++ map (λ p. authorize p.0 p.1) handled))
  token_used_from_then_on env now start c stream {s} e before given after =
      let phased = Steps-IsInserting j beast before (initial-IsInserting c stream start) in
      let first : Authorized (s.wire ++ completed s.sender) s.client.access_token
          (completed s.sender) s.wire =
        record {
          given = given;
          handled = [];
          tokens = tt;
          on_wire = sym (append-nil (s.wire ++ completed s.sender));
        } in
      let last = Steps-IsAuthorized j beast (s.wire ++ completed s.sender) after phased first in
      (last.given, (last.handled, last.tokens, last.on_wire))
