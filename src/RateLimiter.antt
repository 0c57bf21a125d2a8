-- ===== src/RateLimiter.antt =====
-- include/deribit/rate_limiter.h: the token bucket.
-- The source counts tokens in `double`. Here a token is a billion units and time is in nanoseconds,
-- as the steady clock counts it, so that 5 tokens a second are 5 units a nanosecond, and every sum
-- is exact. What floating point rounds away is not modelled.
pub mod Bound
use hft_deribit.Prelude.{
  ℕ, ◌+◌, ◌-◌, ◌*◌, Bool, true, false, min, leb, if◌then◌else◌, List, [], ◌∷◌,
}

-- One token, in units.
abbrev pub token : ℕ
token = 1_000_000_000

-- `MAX_TOKENS`, in units.
abbrev pub max_tokens : ℕ
max_tokens = 20 * token

-- `REFILL_RATE`, in units a nanosecond.
abbrev pub refill_rate : ℕ
refill_rate = 5

pub record RateLimiter : Type 0 where
  pub tokens : ℕ
  pub last_refill : ℕ

-- The constructor, at the time `now`.
unfoldable pub init : ℕ → RateLimiter
init now = record { tokens = max_tokens; last_refill = now }

-- The balance after a refill at the time `now`.
unfoldable pub refilled : RateLimiter → ℕ → ℕ
refilled r now = min max_tokens (r.tokens + refill_rate * (now - r.last_refill))

-- The new limiter, and whether the request is allowed. The clock is steady: `now` is no earlier
-- than the last call.
unfoldable pub allow_request : RateLimiter → ℕ → RateLimiter × Bool
unfolding refilled
allow_request r now =
    let tokens = refilled r now in
    if leb token tokens
    then (record { tokens = tokens - token; last_refill = now }, true)
    else (record { tokens = tokens; last_refill = now }, false)

-- `get_tokens`
unfoldable pub get_tokens : RateLimiter → ℕ
get_tokens r = r.tokens

-- The calls at the given times, in order: the limiter after them, and how many it allowed.
unfoldable pub run : RateLimiter → List ℕ → RateLimiter × ℕ
unfolding allow_request
run r [] = (r, 0)
run r (now ∷ times) =
    let (r', allowed) = allow_request r now in
    let (last, count) = run r' times in (last, (if allowed then 1 else 0) + count)
