-- ===== src/RequestSender/Rounds.antt =====
-- What the worker sends, and in which order.
use hft_deribit.Prelude.{
  ℕ, ◌≤◌, ◌≡◌, refl, sym, ap, ◌∙◌, subst, arith, List, [], ◌∷◌, ◌++◌, some, Text, append-nil,
  append_assoc, Option-cases, inl, inr, length,
}
use hft_deribit.SpscQueue.{pop}
use hft_deribit.SpscQueue.Fifo
use hft_deribit.SpscQueue.Holds.{IsCapacity, Holds}
use hft_deribit.SpscQueue.Refine.{pop_refines}
use hft_deribit.RateLimiter.{RateLimiter}
use hft_deribit.RequestSender.{authorize, throttle, Sender, round, rounds}
use hft_deribit.RequestSender.Throttle.{IsWait, throttle_ends, throttle-last_refill}
use hft_deribit.RateLimiter.Bound.{end}

-- The requests that the worker takes, one a round while there are any, each with the token of its
-- round.
unfoldable pub sent_by : List Text → List (Text × List ℕ) → List Text
sent_by xs [] = []
sent_by [] ((token, times) ∷ more) = sent_by [] more
sent_by (x ∷ xs) ((token, times) ∷ more) = authorize token x ∷ sent_by xs more

-- What is left in the queue after so many rounds.
pub left_by : List Text → List (Text × List ℕ) → List Text
left_by xs [] = xs
left_by [] (r ∷ more) = []
left_by (x ∷ xs) (r ∷ more) = left_by xs more

left_by-nil : (env : List (Text × List ℕ)) → left_by [] env ≡ []
unfolding left_by
left_by-nil [] = refl
left_by-nil (r ∷ more) = refl

-- The rounds in order of time, each with calls enough for its wait to end.
abbrev pub IsSchedule : ℕ → List (Text × List ℕ) → Type 0
IsSchedule t [] = Unit
IsSchedule t ((token, times) ∷ more) =
    IsWait t times × (202 ≤ length times) × IsSchedule (end t times) more

IsWait-mono : (t u : ℕ) (times : List ℕ) → t ≤ u → IsWait u times → IsWait t times
IsWait-mono t u [] h w = tt
IsWait-mono t u (now ∷ times) h w = (omega arith, w.1)

-- What the rounds end in, from a queue that holds `xs`.
pub record Sends (n : ℕ) (s : Sender) (xs : List Text) (env : List (Text × List ℕ)) : Type 0 where
  pub last : Sender
  pub ends : rounds n s env ≡ some last
  pub sent : last.sent ≡ s.sent ++ sent_by xs env
  pub holds : Holds n last.queue (left_by xs env)

module _ {n : ℕ} (c : IsCapacity n) where
  -- The worker after a round that found nothing, or the request `x`.
  abbrev idle : Sender → RateLimiter → Sender
  idle s limiter = record s { queue = (pop n s.queue).0; limiter = limiter }

  abbrev served : Sender → RateLimiter → Text → Text → Sender
  served s limiter token x = record {
    queue = (pop n s.queue).0;
    limiter = limiter;
    sent = s.sent ++ authorize token x ∷ [];
  }

  round-idle :
      (s : Sender) (token : Text) (times : List ℕ) {p : RateLimiter × List ℕ}
      → Holds n s.queue []
      → throttle s.limiter times ≡ some p
      → round n s token times ≡ some (idle s p.0)
  unfolding round Fifo.pop
  round-idle s token times v e = ground (arith, pop_refines c [] v)

  round-served :
      (s : Sender) (token : Text) (times : List ℕ) {p : RateLimiter × List ℕ} (x : Text)
      (xs : List Text)
      → Holds n s.queue (x ∷ xs)
      → throttle s.limiter times ≡ some p
      → round n s token times ≡ some (served s p.0 token x)
  unfolding round Fifo.pop
  round-served s token times x xs v e = ground (arith, (pop_refines c (x ∷ xs) v).0)

  -- One round followed by the others.
  Sends-cons :
      {s s' : Sender} {xs ys : List Text} {token : Text} {times : List ℕ}
      {more : List (Text × List ℕ)} (out : List Text)
      → round n s token times ≡ some s'
      → s'.sent ≡ s.sent ++ out
      → sent_by xs ((token, times) ∷ more) ≡ out ++ sent_by ys more
      → left_by xs ((token, times) ∷ more) ≡ left_by ys more
      → Sends n s' ys more
      → Sends n s xs ((token, times) ∷ more)
  unfolding rounds
  Sends-cons {s} {s'} {xs} {ys} {token} {times} {more} out e grown split left rest = record {
    last = rest.last;
    ends = rw (e, rounds) rest.ends;
    sent =
        rest.sent
        ∙ ap (λ o. o ++ sent_by ys more) grown
        ∙ append_assoc s.sent out (sent_by ys more)
        ∙ ap (λ o. s.sent ++ o) (sym split);
    holds = subst (Holds n rest.last.queue) (sym left) rest.holds;
  }

  -- For a queue that holds a list, and a schedule of rounds that gives the limiter in each the
  -- times it needs: every round ends, the requests are sent in order, one a round, each as
  -- `authorize` makes it with the token of its round, and the queue holds the rest.
  pub rounds_send :
      (env : List (Text × List ℕ)) (s : Sender) (t : ℕ) (xs : List Text)
      → Holds n s.queue xs
      → s.limiter.last_refill ≤ t
      → IsSchedule t env
      → Sends n s xs env
  unfolding rounds sent_by left_by Fifo.pop
  rounds_send [] s t xs v h sch = record {
    last = s;
    ends = refl;
    sent = sym (append-nil s.sent);
    holds = v;
  }
  rounds_send ((token, times) ∷ more) s t [] v h sch =
      elim (Option-cases (throttle s.limiter times)) [
        | inl stuck ↦ absurd (
            throttle_ends s.limiter times (IsWait-mono s.limiter.last_refill t times h sch.0) sch.1
              stuck)
        | inr (p, e) ↦
            Sends-cons [] (round-idle s token times v e) (sym (append-nil s.sent)) refl
              (sym (left_by-nil more))
              (rounds_send more (idle s p.0) (end t times) [] (pop_refines c [] v).1
                (throttle-last_refill s.limiter t times sch.0 e) sch.2)
      ]
  rounds_send ((token, times) ∷ more) s t (x ∷ xs) v h sch =
      elim (Option-cases (throttle s.limiter times)) [
        | inl stuck ↦ absurd (
            throttle_ends s.limiter times (IsWait-mono s.limiter.last_refill t times h sch.0) sch.1
              stuck)
        | inr (p, e) ↦
            Sends-cons (authorize token x ∷ []) (round-served s token times x xs v e) refl refl refl
              (rounds_send more (served s p.0 token x) (end t times) xs (pop_refines c (x ∷ xs) v).1
                (throttle-last_refill s.limiter t times sch.0 e) sch.2)
      ]
