-- ===== src/Tests/Limiter.antt =====
-- The token bucket, and the sender that waits for it.
use hft_deribit.Prelude.{
  ℕ, ◌+◌, ◌*◌, ◌≡◌, ◌≢◌, ◌≤◌, refl, arith, List, [], ◌∷◌, none, Text, codes, replicate,
}
use hft_deribit.SpscQueue.{SpscQueue, init, push}
use hft_deribit.SpscQueue.Holds.{IsCapacity, Holds, init-Holds}
use hft_deribit.SpscQueue.Refine.{push_refines}
use hft_deribit.SpscQueue.Fifo
use hft_deribit.RateLimiter
use hft_deribit.RateLimiter.{
  token, max_tokens, refill_rate, RateLimiter, refilled, allow_request, run,
}
use hft_deribit.RateLimiter.Bound.{burst_bound}
use hft_deribit.RequestSender.{throttle, Sender}
use hft_deribit.RequestSender.Throttle.{throttle_ends}
use hft_deribit.RequestSender.Rounds.{rounds_send, Sends}

-- Twenty-one calls at once: the last is refused.
abbrev at_once : List ℕ
at_once = replicate 21 5

burst : (run (RateLimiter.init 5) at_once).1 ≡ 20
unfolding run RateLimiter.init allow_request
burst = refl

burst_bound_example : token * (run (RateLimiter.init 5) at_once).1 ≤ max_tokens + refill_rate * 0
burst_bound_example = burst_bound 5 at_once (omega arith)

abbrev drained : RateLimiter
drained = record { tokens = 0; last_refill = 100 }

-- A call every millisecond from `t` on.
abbrev pub polls : ℕ → ℕ → List ℕ
polls t ℕ.zero = []
polls t (ℕ.suc n) = t ∷ polls (t + 1_000_000) n

throttle_ends_example : throttle drained (polls 100 202) ≢ none
throttle_ends_example = throttle_ends drained (polls 100 202) (omega arith) (omega arith)

four : IsCapacity 4
four = record { pos = omega arith; small = omega arith; power = refl }

abbrev one_request : SpscQueue Text
one_request = (push 4 (init 4 []) (codes "{\"private/x\"}")).0

one_request-Holds : Holds 4 one_request (codes "{\"private/x\"}" ∷ [])
unfolding Fifo.push
one_request-Holds = (push_refines four (codes "{\"private/x\"}") (init-Holds four [])).1

abbrev worker : Sender
worker = record { queue = one_request; limiter = RateLimiter.init 0; sent = [] }

abbrev env : List (Text × List ℕ)
env = (codes "t", polls 0 202) ∷ (codes "t", polls 300_000_000 202) ∷ []

rounds_send_example : Sends 4 worker (codes "{\"private/x\"}" ∷ []) env
unfolding RateLimiter.init
rounds_send_example =
    rounds_send four env worker 0 (codes "{\"private/x\"}" ∷ []) one_request-Holds (omega arith)
      (omega arith)
