-- ===== src/FastHash/Fnv.antt =====
-- `fast_hash` beside the published FNV-1a, which takes every byte as an unsigned number.
use hft_deribit.Prelude.{
  ℕ, ◌*◌, ◌%◌, ◌^◌, ◌≤◌, ◌<◌, ◌≡◌, ◌≢◌, refl, sym, ap, ◌∙◌, bit_xor, arith, Text, [], ◌∷◌, ◌++◌,
  ◌==◌, ltb, Bool-cases, inl, inr,
}
use hft_deribit.FastHash.{offset_basis, fnv_prime, char_to_u32, mix, hash_from, fast_hash}
use hft_deribit.FastHash.Laws.{
  mix-lt, char_to_u32-lt, hash_from-lt, hash_from-append, hash_from_injective, mix_injective_char,
  IsBytes,
}

-- FNV-1a: for each octet, state := (state xor octet) * prime, modulo 2 ^ 32.
pub fnv1a_from : ℕ → Text → ℕ
fnv1a_from h [] = h
fnv1a_from h (c ∷ cs) = fnv1a_from (bit_xor h c * fnv_prime % 2 ^ 32) cs

pub fnv1a : Text → ℕ
unfolding fnv1a_from
fnv1a s = fnv1a_from offset_basis s

abbrev pub IsAscii : Text → Type 0
IsAscii [] = Unit
IsAscii (c ∷ cs) = (c < 128) × IsAscii cs

IsAscii-IsBytes : (s : Text) → IsAscii s → IsBytes s
IsAscii-IsBytes [] a = tt
IsAscii-IsBytes (c ∷ cs) a = (omega arith, IsAscii-IsBytes cs a.1)

char_to_u32_ascii : (c : ℕ) → c < 128 → char_to_u32 c ≡ c
unfolding char_to_u32
char_to_u32_ascii c h = ground arith

hash_from_ascii : (h : ℕ) (s : Text) → IsAscii s → hash_from h s ≡ fnv1a_from h s
unfolding hash_from fnv1a_from mix
hash_from_ascii h [] a = refl
hash_from_ascii h (c ∷ cs) a =
    rw (char_to_u32_ascii c a.0) (hash_from_ascii (bit_xor h c * fnv_prime % 2 ^ 32) cs a.1)

-- On a text of ASCII bytes `fast_hash` is FNV-1a.
fast_hash-eq-fnv1a : (s : Text) → IsAscii s → fast_hash s ≡ fnv1a s
unfolding fast_hash fnv1a
fast_hash-eq-fnv1a s a = hash_from_ascii offset_basis s a

fnv1a_from-append : (h : ℕ) (s t : Text) → fnv1a_from h (s ++ t) ≡ fnv1a_from (fnv1a_from h s) t
unfolding fnv1a_from
fnv1a_from-append h [] t = refl
fnv1a_from-append h (c ∷ cs) t = fnv1a_from-append (bit_xor h c * fnv_prime % 2 ^ 32) cs t

-- Around one such byte both loops run alike, from the state that the prefix leaves.
module _ (pre suf : Text) (b : ℕ) (ascii_pre : IsAscii pre) (ascii_suf : IsAscii suf) where
  abbrev state : ℕ
  state = hash_from offset_basis pre

  fast_hash-split : fast_hash (pre ++ b ∷ suf) ≡ hash_from (mix state (char_to_u32 b)) suf
  unfolding fast_hash hash_from
  fast_hash-split = hash_from-append offset_basis pre (b ∷ suf)

  fnv1a-split : fnv1a (pre ++ b ∷ suf) ≡ hash_from (mix state b) suf
  unfolding fnv1a fnv1a_from mix
  fnv1a-split =
      fnv1a_from-append offset_basis pre (b ∷ suf)
      ∙ ap (λ (h : ℕ). fnv1a_from (bit_xor h b * fnv_prime % 2 ^ 32) suf)
          (sym (hash_from_ascii offset_basis pre ascii_pre))
      ∙ sym (hash_from_ascii (mix state b) suf ascii_suf)

-- On a text with exactly one byte of 128 or more, the others ASCII, it is not FNV-1a.
fast_hash-ne-fnv1a :
    (pre suf : Text) (b : ℕ)
    → IsAscii pre
    → IsAscii suf
    → 128 ≤ b
    → b < 256
    → fast_hash (pre ++ b ∷ suf) ≢ fnv1a (pre ++ b ∷ suf)
unfolding char_to_u32
fast_hash-ne-fnv1a pre suf b ascii_pre ascii_suf lo hi e =
    let g : ℕ = hash_from offset_basis pre in
    let same_state : mix g (char_to_u32 b) ≡ mix g b =
      hash_from_injective (mix g (char_to_u32 b)) (mix g b) suf (mix-lt g (char_to_u32 b))
        (mix-lt g b) (IsAscii-IsBytes suf ascii_suf)
        (sym (fast_hash-split pre suf b ascii_pre ascii_suf)
          ∙ e
          ∙ fnv1a-split pre suf b ascii_pre ascii_suf) in
    let same : char_to_u32 b ≡ b =
      mix_injective_char g (char_to_u32 b) b (hash_from-lt offset_basis pre (omega arith))
        (char_to_u32-lt b hi) (omega arith) same_state in
    ground arith

IsAscii-append : (s t : Text) (b : ℕ) → IsAscii s → IsAscii t → b < 128 → IsAscii (s ++ b ∷ t)
IsAscii-append [] t b a a' h = (h, a')
IsAscii-append (c ∷ cs) t b a a' h = (a.0, IsAscii-append cs t b a.1 a' h)

-- On a text whose bytes are ASCII but for at most one, `fast_hash` is FNV-1a exactly if that byte is
-- ASCII as well.
pub agrees_on_ascii :
    (pre suf : Text) (b : ℕ)
    → IsAscii pre
    → IsAscii suf
    → b < 256
    → (fast_hash (pre ++ b ∷ suf) == fnv1a (pre ++ b ∷ suf)) ≡ ltb b 128
agrees_on_ascii pre suf b ascii_pre ascii_suf hi = elim (Bool-cases (ltb b 128)) [
  | inl low ↦
      let a = IsAscii-append pre suf b ascii_pre ascii_suf (ground arith) in
      ground (arith, fast_hash-eq-fnv1a (pre ++ b ∷ suf) a)
  | inr high ↦ ground (arith, fast_hash-ne-fnv1a pre suf b ascii_pre ascii_suf (ground arith) hi)
]
