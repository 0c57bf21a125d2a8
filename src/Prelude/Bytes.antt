-- ===== src/Prelude/Bytes.antt =====
-- Byte strings as lists of numbers, and the bytes of a literal.
use Prim.Native.Nat.{ℕ}
use Prim.Native.Char.{code}
use Prim.Native.String.{String}
use mathlib.Core.Logic.{◌≢◌}
use mathlib.Core.List.{List, [], ◌∷◌}

-- `std::string` and `std::string_view`: their bytes.
abbrev pub Text : Type 0
Text = List ℕ

-- The code points of a literal, which are its bytes: every literal of the program is ASCII.
abbrev pub codes : String → Text
codes String.[] = []
codes (String.◌∷◌ c s) = code c ∷ codes s

-- No byte of the text is `c`.
abbrev pub HasNo : ℕ → Text → Type 0
HasNo c [] = Unit
HasNo c (x ∷ xs) = (x ≢ c) × HasNo c xs
