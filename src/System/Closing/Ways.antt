-- ===== src/System/Closing/Ways.antt =====
-- How the sender comes to its end, and `close` behind it.
use hft_deribit.Prelude.{
  Bool-cases, ◌==◌, ◌&&◌, not, codes, is_empty, if◌then◌else◌, ℕ, suc, ◌+◌, ◌≤◌, ◌≡◌, refl, ap,
  arith, List, ◌∷◌, [], Text, length, Option-cases, inl, inr,
}
use hft_deribit.SpscQueue.{next_index, pop}
use hft_deribit.Json.{Simdjson}
use hft_deribit.Websocket.{Beast}
use hft_deribit.RequestSender.{throttle, contains}
use hft_deribit.RequestSender.Throttle.{millisecond, IsPolling, throttle_ends}
use hft_deribit.DeribitClient.{inbound_capacity, outbound_capacity}
use hft_deribit.System.{
  here, sender_stops, sender_waits, sender_pops, sender_misses, authorizes, inserts, sends,
  signal_loads, signal_refused, signal_checks, signal_writes, signal_publishes, requests_stop,
  stops_sender, joins_sender, stops_receiver,
}
use hft_deribit.System.State.{
  Phase, disconnected, signal_loaded, signal_checked, signal_written, signalled, slept,
  joining_sender, sender_joined, joining_receiver, receiver_joined, closed, Sending, no_sender,
  at_running, at_limiter, at_pop, at_token, at_insert, at_send, System,
}
use hft_deribit.System.Phases.{rank}
use hft_deribit.System.Closing.Sound.{Returns, IsAt, goes}
use hft_deribit.System.Closing.Readers.{from_receiver_joined, from_joining_receiver}

-- The limiter is asked `n` times from `t` on.
unfoldable polls : ℕ → ℕ → List ℕ
polls t ℕ.zero = []
polls t (suc n) = t ∷ polls (t + millisecond) n

polls-IsPolling : (t n : ℕ) → IsPolling t (polls (t + millisecond) n)
unfolding polls
polls-IsPolling t ℕ.zero = tt
polls-IsPolling t (suc n) = (omega arith, polls-IsPolling (t + millisecond) n)

length-polls : (t n : ℕ) → length (polls t n) ≡ n
unfolding polls
length-polls t ℕ.zero = refl
length-polls t (suc n) = ap suc (length-polls (t + millisecond) n)

module _ {F S U W : Type 0} (j : Simdjson) (beast : Beast W) where
  from_sender_joined : (s : System F S U W) → IsAt j beast sender_joined s → Returns j beast s
  from_sender_joined s i =
      goes j beast (stops_receiver i.at) i.sound refl i.free (from_joining_receiver j beast _)

  -- The sender
  sender_ended :
      (s : System F S U W)
      → s.sender ≡ no_sender
      → IsAt j beast joining_sender s
      → Returns j beast s
  sender_ended s e i = goes j beast (joins_sender i.at e) i.sound refl i.free (from_sender_joined _)

  sender_loops :
      (s : System F S U W)
      → s.sender ≡ at_running
      → IsAt j beast joining_sender s
      → Returns j beast s
  sender_loops s e i =
      let off = i.sound.phased.sender_stopped (ground (arith, ap rank i.at)) in
      goes j beast (sender_stops e off) i.sound i.at i.free (sender_ended _ refl)

  sender_sends :
      (s : System F S U W) (msg : Text)
      → s.sender ≡ at_send msg
      → IsAt j beast joining_sender s
      → Returns j beast s
  sender_sends s msg e i = goes j beast (sends e) i.sound i.at i.free (sender_loops _ refl)

  sender_inserts :
      (s : System F S U W) (msg : Text)
      → s.sender ≡ at_insert msg
      → IsAt j beast joining_sender s
      → Returns j beast s
  sender_inserts s msg e i = goes j beast (inserts e) i.sound i.at i.free (sender_sends _ _ refl)

  sender_authorizes :
      (s : System F S U W) (msg : Text)
      → s.sender ≡ at_token msg
      → IsAt j beast joining_sender s
      → Returns j beast s
  sender_authorizes s msg e i =
      let wanted = contains (codes "\"private/") msg && not (is_empty s.client.access_token) in
      goes j beast (authorizes e) i.sound i.at i.free (elim (Bool-cases wanted) [
        | inl w ↦ sender_inserts _ msg (ap (λ b. if b then at_insert msg else at_send msg) w)
        | inr w ↦ sender_sends _ msg (ap (λ b. if b then at_insert msg else at_send msg) w)
      ])

  sender_takes :
      (s : System F S U W) → s.sender ≡ at_pop → IsAt j beast joining_sender s → Returns j beast s
  sender_takes s e i = elim (Option-cases (pop outbound_capacity s.client.outbound_queue).1) [
    | inl nothing ↦ goes j beast (sender_misses e nothing) i.sound i.at i.free (sender_loops _ refl)
    | inr (msg, found) ↦
        goes j beast (sender_pops e found) i.sound i.at i.free (sender_authorizes _ msg refl)
  ]

  -- 202 questions of the limiter are enough.
  sender_polls :
      (s : System F S U W)
      → s.sender ≡ at_limiter
      → IsAt j beast joining_sender s
      → Returns j beast s
  unfolding polls
  sender_polls s e i =
      let t = s.sender_limiter.last_refill in
      elim (Option-cases (throttle s.sender_limiter (polls t 202))) [
        | inl stuck ↦ absurd (
            throttle_ends s.sender_limiter (polls t 202) (omega arith, polls-IsPolling t 201)
              (omega (arith, length-polls t 202)) stuck)
        | inr ((limiter, left), found) ↦
            goes j beast (sender_waits e (polls t 202) found) i.sound i.at i.free
              (sender_takes _ refl)
      ]

  from_sender :
      (s : System F S U W) (w : Sending)
      → s.sender ≡ w
      → IsAt j beast joining_sender s
      → Returns j beast s
  from_sender s no_sender e i = sender_ended s e i
  from_sender s at_running e i = sender_loops s e i
  from_sender s at_limiter e i = sender_polls s e i
  from_sender s at_pop e i = sender_takes s e i
  from_sender s (at_token msg) e i = sender_authorizes s msg e i
  from_sender s (at_insert msg) e i = sender_inserts s msg e i
  from_sender s (at_send msg) e i = sender_sends s msg e i

  from_joining_sender : (s : System F S U W) → IsAt j beast joining_sender s → Returns j beast s
  from_joining_sender s i = from_sender s s.sender refl i

  -- The caller
  from_slept : (s : System F S U W) → IsAt j beast slept s → Returns j beast s
  from_slept s i = goes j beast (stops_sender i.at) i.sound refl i.free (from_joining_sender _)

  from_signalled : (s : System F S U W) → IsAt j beast signalled s → Returns j beast s
  from_signalled s i = goes j beast (requests_stop i.at) i.sound refl i.free (from_slept _)

  -- The push of `close`
  signal_published :
      (s : System F S U W) (h : ℕ) → IsAt j beast (signal_written h) s → Returns j beast s
  signal_published s h i =
      goes j beast (signal_publishes i.at) i.sound refl i.free (from_signalled _)

  signal_stored :
      (s : System F S U W) (h : ℕ) → IsAt j beast (signal_checked h) s → Returns j beast s
  signal_stored s h i = goes j beast (signal_writes i.at) i.sound refl i.free (signal_published _ h)

  signal_tested :
      (s : System F S U W) (h : ℕ) → IsAt j beast (signal_loaded h) s → Returns j beast s
  signal_tested s h i =
      elim (Bool-cases (next_index inbound_capacity h == s.client.inbound_queue.tail)) [
        | inl full ↦ goes j beast (signal_refused i.at full) i.sound refl i.free (from_signalled _)
        | inr room ↦ goes j beast (signal_checks i.at room) i.sound refl i.free (signal_stored _ h)
      ]

  pub close_goes_on :
      (s : System F S U W) (p : Phase) → 5 ≤ rank p → IsAt j beast p s → Returns j beast s
  close_goes_on s disconnected h i =
      goes j beast (signal_loads i.at) i.sound refl i.free (signal_tested _ _)
  close_goes_on s (signal_loaded k) h i = signal_tested s k i
  close_goes_on s (signal_checked k) h i = signal_stored s k i
  close_goes_on s (signal_written k) h i = signal_published s k i
  close_goes_on s signalled h i = from_signalled s i
  close_goes_on s slept h i = from_slept s i
  close_goes_on s joining_sender h i = from_joining_sender s i
  close_goes_on s sender_joined h i = from_sender_joined s i
  close_goes_on s joining_receiver h i = from_joining_receiver j beast s i
  close_goes_on s receiver_joined h i = from_receiver_joined j beast s i
  close_goes_on s closed h i = (s, here, i.sound, i.at)
  close_goes_on s _ h i = absurd (omega arith)
