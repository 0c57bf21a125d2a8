-- ===== src/Dispatcher/ErrorCode.antt =====
-- How the code of an error response is stored.
use hft_deribit.Prelude.{ℕ, ◌-◌, ◌^◌, ◌<◌, ◌≡◌, ap, sym, arith, some, codes, if◌then◌else◌, ltb}
use hft_deribit.Prelude.Int.{ℤ, pos, negsuc, to_u64, IsInt64}
use hft_deribit.Json.{Simdjson, inner_int64}
use hft_deribit.ParsedMessage.{ParsedMessage}
use hft_deribit.Dispatcher.Dispatch.{or_default, read_error}

-- The field `error_code` determines the code that was sent, but a negative code is stored as a
-- number of 2 ^ 63 or more.
to_u64_lem :
    (c : ℤ) (e : ℕ)
    → IsInt64 c
    → to_u64 c ≡ e
    → (e < 2 ^ 64) × (c ≡ (if ltb e (2 ^ 63) then pos e else negsuc (2 ^ 64 - 1 - e)))
unfolding to_u64
to_u64_lem (pos n) e h p = ground arith
to_u64_lem (negsuc n) e h p = ground arith

-- A value whose "code" is the integer `c`.
abbrev pub HasCode : (j : Simdjson) → j.Doc → j.Value → ℤ → Type 0
HasCode j doc err c = (inner_int64 j doc err (codes "code")).1 ≡ some c

-- If the code of an error is an `int64_t`, what `read_error` stores is a number below 2 ^ 64: the
-- code itself if that is not negative, and otherwise one of 2 ^ 63 or more that is the code plus 2
-- ^ 64.
pub stored_error_code :
    (j : Simdjson) (doc : j.Doc) (err : j.Value) (pm : ParsedMessage) (c : ℤ)
    → IsInt64 c
    → HasCode j doc err c
    → let e = (read_error j doc err pm).1.error_code in
      (e < 2 ^ 64) × (c ≡ (if ltb e (2 ^ 63) then pos e else negsuc (2 ^ 64 - 1 - e)))
unfolding read_error
stored_error_code j doc err pm c range h =
    to_u64_lem c (read_error j doc err pm).1.error_code range
      (ap (λ o. to_u64 (or_default o (pos 0))) (sym h))
