-- ===== src/Helpers/Timestamp.antt =====
-- include/deribit/helpers.h: `print_timestamp`, and a reader of its texts.
use hft_deribit.Prelude.{
  ℕ, ◌+◌, ◌-◌, ◌*◌, ◌≤◌, leb, ◌∙◌, ◌/◌, ◌^◌, ◌<◌, ◌≡◌, refl, ap, arith, true, false, [], ◌∷◌, ◌++◌,
  Option, none, some, Text, ltb, ◌==◌, if◌then◌else◌, Bool-cases, inl, inr, ◌>>=◌,
}
use hft_deribit.Prelude.Int.{ℤ, pos, negsuc}
use hft_deribit.Prelude.Decimal.{
  to_string, is_digit, read_digits, read_digits-to_string, read_digits-show,
}

-- `duration_cast` to a unit of `d` ticks: it cuts towards zero.
unfoldable pub duration_cast : ℕ → ℤ → ℤ
duration_cast d (pos n) = pos (n / d)
duration_cast d (negsuc n) = if ltb (n + 1) d then pos 0 else negsuc ((n + 1) / d - 1)

-- The milliseconds of a system clock that counts nanoseconds from the epoch.
unfoldable pub now_ms : ℤ → ℤ
now_ms clock = duration_cast 1_000_000 clock

-- A time point of the system clock from milliseconds: its `int64_t` of nanoseconds. `none` where the
-- product overflows, which is undefined behaviour.
unfoldable pub time_point : ℤ → Option ℤ
time_point (pos n) = if ltb (n * 1_000_000) (2 ^ 63) then some (pos (n * 1_000_000)) else none
time_point (negsuc n) =
    if leb ((n + 1) * 1_000_000) (2 ^ 63) then some (negsuc ((n + 1) * 1_000_000 - 1)) else none

-- `system_clock::to_time_t`
unfoldable pub to_time_t : ℤ → ℤ
to_time_t clock = duration_cast 1_000_000_000 clock

-- `std::tm`, its year and month counted as they are written.
pub record Tm : Type 0 where
  pub tm_year : ℕ
  pub tm_mon : ℕ
  pub tm_mday : ℕ
  pub tm_hour : ℕ
  pub tm_min : ℕ
  pub tm_sec : ℕ

-- Two digits at least.
unfoldable pub two_digits : ℕ → Text
two_digits n = if ltb n 10 then b'0' ∷ to_string n else to_string n

-- `std::put_time` for "%Y-%m-%d %H:%M:%S" and a year of four digits.
unfoldable pub put_time : Tm → Text
put_time t =
    to_string t.tm_year
    ++ (b'-'
        ∷ (two_digits t.tm_mon
            ++ (b'-'
                ∷ (two_digits t.tm_mday
                    ++ (b' '
                        ∷ (two_digits t.tm_hour
                            ++ (b':' ∷ (two_digits t.tm_min ++ (b':' ∷ two_digits t.tm_sec)))))))))

-- `localtime` knows the time zone; `none` is undefined behaviour.
unfoldable pub print_timestamp : (ℤ → Tm) → ℤ → Option Text
print_timestamp localtime ts_ms = do
  tp ← time_point ts_ms
  some (put_time (localtime (to_time_t tp)))

-- A number and a separator behind it.
unfoldable pub number_then : ℕ → Text → Option (ℕ × Text)
number_then sep s =
    let (n, rest) = read_digits 0 s in
    elim rest [ [] ↦ none | c ∷ more ↦ if c == sep then some (n, more) else none ]

-- The fields of a text that `print_timestamp` made.
unfoldable pub read_timestamp : Text → Option Tm
read_timestamp s = do
  (y, a) ← number_then b'-' s
  (mo, b) ← number_then b'-' a
  (d, c) ← number_then b' ' b
  (h, e) ← number_then b':' c
  (mi, f) ← number_then b':' e
  some (record {
    tm_year = y;
    tm_mon = mo;
    tm_mday = d;
    tm_hour = h;
    tm_min = mi;
    tm_sec = (read_digits 0 f).0;
  })

two_digits_read :
    (n c : ℕ) (rest : Text)
    → n < 100
    → is_digit c ≡ false
    → read_digits 0 (two_digits n ++ (c ∷ rest)) ≡ (n, c ∷ rest)
unfolding two_digits read_digits
two_digits_read n c rest h stop = elim (Bool-cases (ltb n 10)) [
  | inl small ↦ rw small (read_digits-to_string n c rest (omega arith) stop)
  | inr large ↦ rw large (read_digits-to_string n c rest (omega arith) stop)
]

to_string_last : (n : ℕ) → n < 100 → (read_digits 0 (to_string n)).0 ≡ n
unfolding to_string read_digits
to_string_last n h = ap (λ p. p.0) (read_digits-show 20 n [] (omega (arith, h)))

two_digits_last : (n : ℕ) → n < 100 → (read_digits 0 (two_digits n)).0 ≡ n
unfolding two_digits read_digits
two_digits_last n h = elim (Bool-cases (ltb n 10)) [
  | inl small ↦ rw small (to_string_last n h)
  | inr large ↦ rw large (to_string_last n h)
]

number_then_read :
    (sep n : ℕ) (s rest : Text)
    → read_digits 0 (s ++ (sep ∷ rest)) ≡ (n, sep ∷ rest)
    → number_then sep (s ++ (sep ∷ rest)) ≡ some (n, rest)
unfolding number_then
number_then_read sep n s rest e =
    let same : (sep == sep) ≡ true = ground arith in
    rw (number_then, e, same) (ap (λ (r : ℕ × Text). some (r.0, rest)) e)

-- The fields are such as a calendar has: at most two digits, and a year that fits 64 bits.
pub record IsCalendar (t : Tm) : Type 0 where
  pub year : t.tm_year < 2 ^ 64
  pub mon : t.tm_mon < 100
  pub mday : t.tm_mday < 100
  pub hour : t.tm_hour < 100
  pub min : t.tm_min < 100
  pub sec : t.tm_sec < 100

put_time_read : (t : Tm) → IsCalendar t → read_timestamp (put_time t) ≡ some t
unfolding read_timestamp put_time
put_time_read t w =
    rw
      (
        number_then_read b'-' t.tm_year (to_string t.tm_year) _
            (read_digits-to_string t.tm_year b'-' _ w.year refl),
        number_then_read b'-' t.tm_mon (two_digits t.tm_mon) _
            (two_digits_read t.tm_mon b'-' _ w.mon refl),
        number_then_read b' ' t.tm_mday (two_digits t.tm_mday) _
            (two_digits_read t.tm_mday b' ' _ w.mday refl),
        number_then_read b':' t.tm_hour (two_digits t.tm_hour) _
            (two_digits_read t.tm_hour b':' _ w.hour refl),
        number_then_read b':' t.tm_min (two_digits t.tm_min) _
            (two_digits_read t.tm_min b':' _ w.min refl),
        two_digits_last t.tm_sec w.sec,
      )
      refl

-- The milliseconds whose nanoseconds an `int64_t` holds, some 292 years around the epoch.
abbrev pub IsInRange : ℤ → Type 0
IsInRange (pos n) = n * 1_000_000 < 2 ^ 63
IsInRange (negsuc n) = (n + 1) * 1_000_000 ≤ 2 ^ 63

-- The way over nanoseconds cuts as the way from milliseconds would.
in_range :
    (ts_ms : ℤ)
    → IsInRange ts_ms
    → (tp : ℤ) × (time_point ts_ms ≡ some tp) × (to_time_t tp ≡ duration_cast 1000 ts_ms)
unfolding time_point to_time_t duration_cast
in_range (pos n) h = (pos (n * 1_000_000), ground arith, ap pos (omega arith))
in_range (negsuc n) h = (negsuc ((n + 1) * 1_000_000 - 1), ground arith, ground arith)

-- A timestamp whose nanoseconds fit an `int64_t` is printed, and the text is read back as the local
-- time of its second, if the fields of that are those of a calendar. The second is the milliseconds
-- divided by 1000 and cut towards zero: the one that the timestamp lies in, or, before the epoch and
-- within a second, the one behind it.
pub read_timestamp-print_timestamp :
    (localtime : ℤ → Tm) (ts_ms : ℤ)
    → IsInRange ts_ms
    → IsCalendar (localtime (duration_cast 1000 ts_ms))
    → (text : Text) × (print_timestamp localtime ts_ms ≡ some text)
      × (read_timestamp text ≡ some (localtime (duration_cast 1000 ts_ms)))
unfolding print_timestamp
read_timestamp-print_timestamp localtime ts_ms h w =
    let (tp, found, second) = in_range ts_ms h in
    (
      put_time (localtime (duration_cast 1000 ts_ms)),
      ap (λ o. o >>= (λ tp. some (put_time (localtime (to_time_t tp))))) found
          ∙ ap (λ t. some (put_time (localtime t))) second,
      put_time_read (localtime (duration_cast 1000 ts_ms)) w,
    )
