-- ===== src/Tests/Times.antt =====
-- Timestamps in the first hour of the epoch.
use hft_deribit.Prelude.{ℕ, ◌/◌, ◌%◌, ◌≡◌, refl, arith, none, some, Text, codes}
use hft_deribit.Prelude.Int.{ℤ, pos, negsuc}
use hft_deribit.Prelude.Decimal.{to_string}
use hft_deribit.Helpers.Timestamp.{
  Tm, duration_cast, now_ms, time_point, to_time_t, two_digits, put_time, print_timestamp,
  read_timestamp, read_timestamp-print_timestamp,
}

abbrev clock : ℕ → ℕ → ℕ → Tm
clock h m s = record {
  tm_year = 1970;
  tm_mon = 1;
  tm_mday = 1;
  tm_hour = h;
  tm_min = m;
  tm_sec = s;
}

abbrev local : ℤ → Tm
local (pos t) = clock 0 (t / 60 % 60) (t % 60)
local (negsuc t) = clock 0 0 0

printed : print_timestamp local (pos 61_999) ≡ some (codes "1970-01-01 00:01:01")
unfolding print_timestamp time_point put_time two_digits to_time_t duration_cast to_string
printed = refl

-- The year 2286 is outside the clock's range.
out_of_range : print_timestamp local (pos 10_000_000_000_000) ≡ none
unfolding print_timestamp time_point
out_of_range = refl

-- 61.999999 seconds after the epoch.
current : now_ms (pos 61_999_999_000) ≡ pos 61_999
unfolding now_ms duration_cast
current = refl

-- Half a second before the epoch is written as the epoch.
before_epoch : print_timestamp local (negsuc 499) ≡ some (codes "1970-01-01 00:00:00")
unfolding print_timestamp time_point put_time two_digits to_time_t duration_cast to_string
before_epoch = refl

read_timestamp-print_timestamp_example :
    (text : Text) × (print_timestamp local (pos 61_999) ≡ some text)
    × (read_timestamp text ≡ some (clock 0 1 1))
unfolding duration_cast
read_timestamp-print_timestamp_example =
    read_timestamp-print_timestamp local (pos 61_999) (omega arith) (record {
      year = omega arith;
      mon = omega arith;
      mday = omega arith;
      hour = omega arith;
      min = omega arith;
      sec = omega arith;
    })
