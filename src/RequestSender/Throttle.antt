-- ===== src/RequestSender/Throttle.antt =====
-- How long the worker waits for the rate limiter.
use hft_deribit.Prelude.{
  ℕ, suc, ◌+◌, ◌*◌, ◌≤◌, ◌<◌, ◌≡◌, ◌≢◌, arith, false, List, [], ◌∷◌, none, some, length, Bool-cases,
  inl, inr,
}
use hft_deribit.RateLimiter.{token, refill_rate, RateLimiter, refilled, allow_request}
use hft_deribit.RateLimiter.Bound.{allow_request_lem, end}
use hft_deribit.RequestSender.{throttle}

-- A millisecond, in nanoseconds.
abbrev pub millisecond : ℕ
millisecond = 1_000_000

-- The limiter is asked again after a sleep of a millisecond or more.
abbrev pub IsPolling : ℕ → List ℕ → Type 0
IsPolling t [] = Unit
IsPolling t (now ∷ times) = (t + millisecond ≤ now) × IsPolling now times

-- A refused call leaves what the refill gave.
refused :
    (r : RateLimiter) (now : ℕ)
    → (allow_request r now).1 ≡ false
    → ((allow_request r now).0.tokens ≡ refilled r now)
      × (refilled r now < token)
      × ((allow_request r now).0.last_refill ≡ now)
unfolding allow_request
refused r now h = ground arith

-- Each refusal leaves the balance richer by what a millisecond brings.
waits-le :
    (times : List ℕ) (r : RateLimiter) (t k : ℕ)
    → r.last_refill ≡ t
    → IsPolling t times
    → refill_rate * millisecond * k ≤ r.tokens
    → k ≤ 200
    → throttle r times ≡ none
    → length times + k ≤ 200
unfolding throttle refilled
waits-le [] r t k e p rich small h = omega arith
waits-le (now ∷ times) r t k e p rich small h = elim (Bool-cases (allow_request r now).1) [
  | inl allowed ↦ absurd (ground arith)
  | inr denied ↦
      let (kept, low, booked) = refused r now denied in
      omega (
        arith,
        waits-le times (allow_request r now).0 now (suc k) booked p.1 (omega arith) (omega arith)
            (rw denied at h),
      )
]

-- A wait that begins at the time `t` or later: the limiter is asked, and again after each sleep.
abbrev pub IsWait : ℕ → List ℕ → Type 0
IsWait t [] = Unit
IsWait t (now ∷ times) = (t ≤ now) × IsPolling now times

-- The wait ends if the limiter is asked at least 202 times, the first no earlier than the limiter's
-- last refill and each at least a millisecond after the one before it.
pub throttle_ends :
    (r : RateLimiter) (times : List ℕ)
    → IsWait r.last_refill times
    → 202 ≤ length times
    → throttle r times ≢ none
unfolding throttle
throttle_ends r [] w h e = absurd (omega arith)
throttle_ends r (now ∷ times) w h e = elim (Bool-cases (allow_request r now).1) [
  | inl allowed ↦ absurd (ground arith)
  | inr denied ↦
      let (kept, low, booked) = refused r now denied in
      absurd (
        omega (
          arith,
          waits-le times (allow_request r now).0 now 0 booked w.1 (omega arith) (omega arith)
              (rw denied at e),
        ))
]

IsPolling-end : (t : ℕ) (times : List ℕ) → IsPolling t times → t ≤ end t times
IsPolling-end t [] w = omega arith
IsPolling-end t (now ∷ times) w = omega (arith, IsPolling-end now times w.1)

IsPolling-IsWait : (t : ℕ) (times : List ℕ) → IsPolling t times → IsWait t times
IsPolling-IsWait t [] w = tt
IsPolling-IsWait t (now ∷ times) w = (omega arith, w.1)

-- The limiter's time after the wait is one of the times of the wait.
pub throttle-last_refill :
    (r : RateLimiter) (t : ℕ) (times : List ℕ) {p : RateLimiter × List ℕ}
    → IsWait t times
    → throttle r times ≡ some p
    → p.0.last_refill ≤ end t times
unfolding throttle
throttle-last_refill r t [] w e = absurd (ground arith)
throttle-last_refill r t (now ∷ times) {p} w e = elim (Bool-cases (allow_request r now).1) [
  | inl allowed ↦ ground (arith, (allow_request_lem r now).2, IsPolling-end now times w.1)
  | inr denied ↦
      throttle-last_refill (allow_request r now).0 now times (IsPolling-IsWait now times w.1)
        (rw denied at e)
]
