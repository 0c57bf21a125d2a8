-- ===== src/Prelude/Decimal.antt =====
-- `std::to_string` of an unsigned 64-bit number, and the number that digits stand for.
use Prim.Native.Nat.{ℕ, zero, suc, ◌+◌, ◌-◌, ◌*◌, ◌/◌, ◌%◌, ◌^◌, ◌<◌}
use mathlib.Core.Path.{◌≡◌, refl, ◌∙◌, ap}
use mathlib.Core.Bool.{Bool, false, ◌&&◌}
use mathlib.Core.Logic.{inl, inr}
use mathlib.Core.List.{[], ◌∷◌, ◌++◌}
use native.Mathlib.Nat.{pow-suc}
use native.Mathlib.Omega.{arith}
use hft_deribit.Prelude.Tests.{ltb, leb, if◌then◌else◌, Bool-cases, ltb→lt}
use hft_deribit.Prelude.Bytes.{Text}

-- The digits of `n` in front of `acc`, at most as many as the first argument says.
unfoldable pub show : ℕ → ℕ → Text → Text
show zero n acc = acc
show (suc f) n acc =
    let rest = show f (n / 10) ((48 + n % 10) ∷ acc) in if ltb n 10 then (48 + n) ∷ acc else rest

-- 2 ^ 64 has twenty digits.
unfoldable pub to_string : ℕ → Text
unfolding show
to_string n = show 20 n []

abbrev pub is_digit : ℕ → Bool
is_digit c = leb 48 c && leb c 57

-- The number read so far, and the digits to come, up to the first other byte; what is left.
unfoldable pub read_digits : ℕ → Text → ℕ × Text
read_digits a [] = (a, [])
read_digits a (c ∷ cs) =
    let more = read_digits (a * 10 + (c - 48)) cs in if is_digit c then more else (a, c ∷ cs)

read_digits-digit :
    (a d : ℕ) (cs : Text) → d < 10 → read_digits a ((48 + d) ∷ cs) ≡ read_digits (a * 10 + d) cs
unfolding read_digits
read_digits-digit a d cs h = ground (arith, ap (λ (t : ℕ). read_digits (a * 10 + t) cs) (back d))
  where
    back : (d : ℕ) → 48 + d - 48 ≡ d
    back d = omega arith

pub read_digits-show :
    (f n : ℕ) (acc : Text) → n < 10 ^ f → read_digits 0 (show f n acc) ≡ read_digits n acc
unfolding show
read_digits-show zero n acc h = ap (λ (t : ℕ). read_digits t acc) (omega arith)
read_digits-show (suc f) n acc h = elim (Bool-cases (ltb n 10)) [
  | inl small ↦ rw small (
      read_digits-digit 0 n acc (ltb→lt n 10 small)
      ∙ ap (λ (t : ℕ). read_digits t acc) (omega arith))
  | inr large ↦ rw large (
      read_digits-show f (n / 10) ((48 + n % 10) ∷ acc) (omega (arith, pow-suc 10 f))
      ∙ read_digits-digit (n / 10) (n % 10) acc (omega arith)
      ∙ ap (λ (t : ℕ). read_digits t acc) (omega arith))
]

read_digits-stop :
    (n c : ℕ) (rest : Text) → is_digit c ≡ false → read_digits n (c ∷ rest) ≡ (n, c ∷ rest)
unfolding read_digits
read_digits-stop n c rest stop = rw stop refl

show-append : (f n : ℕ) (acc rest : Text) → show f n acc ++ rest ≡ show f n (acc ++ rest)
unfolding show
show-append zero n acc rest = refl
show-append (suc f) n acc rest = elim (Bool-cases (ltb n 10)) [
  | inl small ↦ rw small refl
  | inr large ↦ rw large (show-append f (n / 10) ((48 + n % 10) ∷ acc) rest)
]

-- Reading back what was written, whatever follows it, as long as that is no digit.
pub read_digits-to_string :
    (n c : ℕ) (rest : Text)
    → n < 2 ^ 64
    → is_digit c ≡ false
    → read_digits 0 (to_string n ++ c ∷ rest) ≡ (n, c ∷ rest)
unfolding to_string
read_digits-to_string n c rest h stop =
    ap (read_digits 0) (show-append 20 n [] (c ∷ rest))
    ∙ read_digits-show 20 n (c ∷ rest) (omega arith)
    ∙ read_digits-stop n c rest stop
