-- ===== src/RequestSender.antt =====
-- include/deribit/request_sender.h: the worker that takes requests from the outbound queue, adds
-- the access token to private ones, and sends them as the rate limiter allows.
pub mod Authorize
pub mod Throttle
pub mod Rounds
use hft_deribit.Prelude.{
  ℕ, suc, ◌+◌, Bool, true, false, ◌&&◌, ◌||◌, List, [], ◌∷◌, ◌++◌, Option, none, some, Text, codes,
  ◌==◌, is_empty, take, drop, if◌then◌else◌,
}
use hft_deribit.SpscQueue.{SpscQueue, pop}
use hft_deribit.RateLimiter.{RateLimiter, allow_request}

-- Whether a text begins with another.
unfoldable pub starts_with : Text → Text → Bool
starts_with [] s = true
starts_with (c ∷ cs) [] = false
starts_with (c ∷ cs) (x ∷ xs) = (c == x) && starts_with cs xs

-- `s.find(needle) != npos`
unfoldable pub contains : Text → Text → Bool
unfolding starts_with
contains needle [] = starts_with needle []
contains needle (x ∷ xs) = starts_with needle (x ∷ xs) || contains needle xs

-- `s.rfind(c)`; `none` for `npos`.
unfoldable pub rfind : ℕ → Text → Option ℕ
rfind c [] = none
rfind c (x ∷ xs) = elim (rfind c xs) [
  | some i ↦ some (suc i)
  | none ↦ if x == c then some 0 else none
]

-- `s.insert(pos, t)`
unfoldable pub insert_at : Text → ℕ → Text → Text
insert_at s pos t = take pos s ++ t ++ drop pos s

-- `,"access_token":"` and the token and a closing quote.
abbrev pub token_member : Text → Text
token_member token = codes ",\"access_token\":\"" ++ token ++ codes "\""

-- Lines 93 to 106: what is sent for a message, with the access token as it is then.
unfoldable pub authorize : Text → Text → Text
authorize token msg =
    if contains (codes "\"private/") msg
    then (if is_empty token then msg else (elim (rfind b'}' msg) [
      | none ↦ msg
      | some pos ↦ insert_at msg pos (token_member token)
    ]))
    else msg

-- `while (!rl.allow_request()) sleep_for(1ms);` with the times at which the limiter is asked: the
-- limiter afterwards, and the times that are left. `none`: all of them were refused.
unfoldable pub throttle : RateLimiter → List ℕ → Option (RateLimiter × List ℕ)
throttle r [] = none
throttle r (now ∷ times) =
    let rest = throttle (allow_request r now).0 times in
    if (allow_request r now).1 then some ((allow_request r now).0, times) else rest

-- What the worker changes: the queue, its limiter, and what was handed to `ws.send`.
pub record Sender : Type 0 where
  pub queue : SpscQueue Text
  pub limiter : RateLimiter
  pub sent : List Text

-- One round of the loop, for a queue of N cells. `times` are those at which the limiter is asked.
unfoldable pub round : ℕ → Sender → Text → List ℕ → Option Sender
round n s token times = elim (throttle s.limiter times) [
  | none ↦ none
  | some (limiter, _) ↦
      let (queue, request) = pop n s.queue in
      elim request [
        | none ↦ some (record s { queue = queue; limiter = limiter })
        | some msg ↦
            some (record {
              queue = queue;
              limiter = limiter;
              sent = s.sent ++ authorize token msg ∷ [];
            })
      ]
]

-- The rounds while `running` is set, each with the token and the times that it meets.
unfoldable pub rounds : ℕ → Sender → List (Text × List ℕ) → Option Sender
rounds n s [] = some s
rounds n s ((token, times) ∷ more) = elim (round n s token times) [
  | none ↦ none
  | some s' ↦ rounds n s' more
]
