-- ===== src/Helpers/Binary/Buffers.antt =====
-- Numbers as bytes, and buffers that a file is read over.
use native.Mathlib.Numerals.{unary_clauses}
use hft_deribit.Prelude.{
  take-length, drop-length, take_all, drop_all, ℕ, zero, suc, ◌/◌, ◌^◌, ◌<◌, ◌≡◌, refl, sym, ap,
  arith, ◌++◌, Text, length, append-nil, length-append,
}
use hft_deribit.Helpers.{to_le, of_le, read_over}

pub of_le-to_le : (k n : ℕ) → n < 256 ^ k → of_le (to_le k n) ≡ n
unfolding of_le to_le
of_le-to_le zero n h = omega (arith, simp unary_clauses at h)
of_le-to_le (suc k) n h =
    omega (arith, of_le-to_le k (n / 256) (omega (arith, simp unary_clauses at h)))

pub length-to_le : (k n : ℕ) → length (to_le k n) ≡ k
unfolding to_le
length-to_le zero n = refl
length-to_le (suc k) n = ap suc (length-to_le k (n / 256))

-- A buffer is overwritten from its front.
pub read_over-prefix :
    (old rest bytes : Text)
    → length old ≡ length bytes
    → read_over (old ++ rest) bytes ≡ bytes ++ rest
unfolding read_over
read_over-prefix old rest bytes e =
    rw
      (
        take_all (length (old ++ rest)) bytes (omega (arith, length-append old rest, e)),
        drop-length old rest (length bytes) e,
      )
      refl

-- A buffer takes no more bytes than it has.
pub read_over-full :
    (old bytes rest : Text) → length old ≡ length bytes → read_over old (bytes ++ rest) ≡ bytes
unfolding read_over
read_over-full old bytes rest e =
    rw
      (
        take-length bytes rest (length old) (sym e),
        drop_all (length (bytes ++ rest)) old (omega (arith, length-append bytes rest, e)),
      )
      (append-nil bytes)
