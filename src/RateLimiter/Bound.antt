-- ===== src/RateLimiter/Bound.antt =====
-- How many requests the bucket allows in a stretch of time, and when it allows one.
use hft_deribit.Prelude.{
  ℕ, ◌+◌, ◌-◌, ◌*◌, ◌≤◌, ◌≡◌, refl, Bool, true, List, [], ◌∷◌, arith, if◌then◌else◌, ◌↔◌,
}
use hft_deribit.RateLimiter.{
  token, max_tokens, refill_rate, RateLimiter, init, refilled, allow_request, run,
}

-- The times of the calls do not go back.
abbrev pub IsSteady : ℕ → List ℕ → Type 0
IsSteady t [] = Unit
IsSteady t (now ∷ times) = (t ≤ now) × IsSteady now times

-- The time of the last call.
abbrev pub end : ℕ → List ℕ → ℕ
end t [] = t
end t (now ∷ times) = end now times

-- The balance never exceeds the burst capacity.
allow_request-le : (r : RateLimiter) (now : ℕ) → (allow_request r now).0.tokens ≤ max_tokens
unfolding allow_request
allow_request-le r now = ground arith

-- A call is allowed exactly if a whole token is there after the refill, and then takes one token;
-- a refused call takes none. Either way the refill is booked up to now.
pub allow_request_lem :
    (r : RateLimiter) (now : ℕ)
    → (((allow_request r now).1 ≡ true) ↔ (token ≤ refilled r now))
      × ((allow_request r now).0.tokens + (if (allow_request r now).1 then token else 0)
          ≡ refilled r now)
      × ((allow_request r now).0.last_refill ≡ now)
unfolding allow_request
allow_request_lem r now = ground arith

-- One call is paid by the balance and by the time since the last one.
call_paid :
    (r : RateLimiter) (now : ℕ)
    → r.last_refill ≤ now
    → (if (allow_request r now).1 then token else 0)
        + (allow_request r now).0.tokens
        + refill_rate * r.last_refill
      ≤ r.tokens + refill_rate * now
unfolding refilled
call_paid r now h = omega (arith, (allow_request_lem r now).1)

priced :
    (b : Bool) (count : ℕ)
    → token * ((if b then 1 else 0) + count) ≡ (if b then token else 0) + token * count
priced b count = ground arith

run_paid_from :
    (times : List ℕ) (r : RateLimiter) (t : ℕ)
    → r.last_refill ≡ t
    → IsSteady t times
    → token * (run r times).1 + (run r times).0.tokens + refill_rate * t
      ≤ r.tokens + refill_rate * end t times
unfolding run
run_paid_from [] r t e h = omega arith
run_paid_from (now ∷ times) r t e h = omega (
  arith,
  call_paid r now (omega arith),
  priced (allow_request r now).1 (run (allow_request r now).0 times).1,
  run_paid_from times (allow_request r now).0 now (allow_request_lem r now).2 h.1,
)

-- In any sequence of calls, what was allowed, with what is left, is paid by the balance at the
-- start and by the time that passed.
run_paid :
    (times : List ℕ) (r : RateLimiter)
    → IsSteady r.last_refill times
    → token * (run r times).1 + (run r times).0.tokens + refill_rate * r.last_refill
      ≤ r.tokens + refill_rate * end r.last_refill times
run_paid times r h = run_paid_from times r r.last_refill refl h

-- Of calls to a new limiter at times that never go back, no more are allowed than 20 and five for
-- each second up to the last call.
pub burst_bound :
    (start : ℕ) (times : List ℕ)
    → IsSteady start times
    → token * (run (init start) times).1 ≤ max_tokens + refill_rate * (end start times - start)
unfolding init
burst_bound start times h = omega (arith, run_paid times (init start) h)

-- A call is allowed if the last one is a fifth of a second ago or more.
allowed_after_pause :
    (r : RateLimiter) (now : ℕ) → r.last_refill + 200_000_000 ≤ now → (allow_request r now).1 ≡ true
unfolding allow_request refilled
allowed_after_pause r now h = ground arith
