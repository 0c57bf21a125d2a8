-- ===== src/FastHash/Laws.antt =====
-- `fast_hash` stays in 32 bits, and each of its rounds loses nothing.
use hft_deribit.Prelude.{
  ℕ, ◌*◌, ◌%◌, ◌^◌, ◌<◌, ◌≡◌, ◌≢◌, refl, sym, ap, ◌∙◌, bit_xor, arith, Text, [], ◌∷◌, ◌++◌,
}
use hft_deribit.Prelude.Bits.{bit_xor_cancel, bit_xor_comm, bit_xor-lt}
use hft_deribit.FastHash.{offset_basis, fnv_prime, char_to_u32, mix, hash_from, fast_hash}

-- The inverse of the multiplier modulo 2 ^ 32.
abbrev prime_inverse : ℕ
prime_inverse = 899433627

multiply_undone : (x : ℕ) → x < 2 ^ 32 → (x * fnv_prime % 2 ^ 32) * prime_inverse % 2 ^ 32 ≡ x
multiply_undone x h = omega arith

multiply_injective :
    (x y : ℕ) → x < 2 ^ 32 → y < 2 ^ 32 → x * fnv_prime % 2 ^ 32 ≡ y * fnv_prime % 2 ^ 32 → x ≡ y
multiply_injective x y hx hy e =
    sym (multiply_undone x hx) ∙ ap (λ (t : ℕ). t * prime_inverse % 2 ^ 32) e ∙ multiply_undone y hy

pub char_to_u32-lt : (c : ℕ) → c < 256 → char_to_u32 c < 2 ^ 32
unfolding char_to_u32
char_to_u32-lt c h = ground arith

char_to_u32_injective : (b c : ℕ) → b < 256 → c < 256 → char_to_u32 b ≡ char_to_u32 c → b ≡ c
unfolding char_to_u32
char_to_u32_injective b c hb hc e = ground arith

pub mix-lt : (h c : ℕ) → mix h c < 2 ^ 32
unfolding mix
mix-lt h c = omega arith

-- For a fixed character a round is injective in the state, and for a fixed state in the character.
mix_injective_state : (g h c : ℕ) → g < 2 ^ 32 → h < 2 ^ 32 → c < 2 ^ 32 → mix g c ≡ mix h c → g ≡ h
unfolding mix
mix_injective_state g h c hg hh hc e =
    let same : bit_xor g c ≡ bit_xor h c =
      multiply_injective (bit_xor g c) (bit_xor h c) (bit_xor-lt 32 g c hg hc)
        (bit_xor-lt 32 h c hh hc) e in
    sym (bit_xor_cancel g c) ∙ ap (λ (t : ℕ). bit_xor t c) same ∙ bit_xor_cancel h c

pub mix_injective_char :
    (h b c : ℕ) → h < 2 ^ 32 → b < 2 ^ 32 → c < 2 ^ 32 → mix h b ≡ mix h c → b ≡ c
unfolding mix
mix_injective_char h b c hh hb hc e =
    mix_injective_state b c h hb hc hh (rw (bit_xor_comm b h, bit_xor_comm c h) e)

-- Every byte of the text is below 256.
abbrev pub IsBytes : Text → Type 0
IsBytes [] = Unit
IsBytes (c ∷ cs) = (c < 256) × IsBytes cs

pub hash_from-lt : (h : ℕ) (s : Text) → h < 2 ^ 32 → hash_from h s < 2 ^ 32
unfolding hash_from
hash_from-lt h [] p = p
hash_from-lt h (c ∷ cs) p = hash_from-lt (mix h (char_to_u32 c)) cs (mix-lt h (char_to_u32 c))

fast_hash-lt : (s : Text) → fast_hash s < 2 ^ 32
unfolding fast_hash
fast_hash-lt s = hash_from-lt offset_basis s (omega arith)

pub hash_from-append : (h : ℕ) (s t : Text) → hash_from h (s ++ t) ≡ hash_from (hash_from h s) t
unfolding hash_from
hash_from-append h [] t = refl
hash_from-append h (c ∷ cs) t = hash_from-append (mix h (char_to_u32 c)) cs t

pub hash_from_injective :
    (g h : ℕ) (s : Text)
    → g < 2 ^ 32
    → h < 2 ^ 32
    → IsBytes s
    → hash_from g s ≡ hash_from h s
    → g ≡ h
unfolding hash_from
hash_from_injective g h [] pg ph b e = e
hash_from_injective g h (c ∷ cs) pg ph b e =
    mix_injective_state g h (char_to_u32 c) pg ph (char_to_u32-lt c b.0) (
      hash_from_injective (mix g (char_to_u32 c)) (mix h (char_to_u32 c)) cs
        (mix-lt g (char_to_u32 c)) (mix-lt h (char_to_u32 c)) b.1 e)

-- Two byte strings that differ in exactly one byte never have the same 32-bit hash.
pub fast_hash_one_byte :
    (pre suf : Text) (b c : ℕ)
    → b < 256
    → c < 256
    → IsBytes suf
    → b ≢ c
    → fast_hash (pre ++ b ∷ suf) ≢ fast_hash (pre ++ c ∷ suf)
unfolding fast_hash hash_from
fast_hash_one_byte pre suf b c hb hc bytes ne e =
    let g : ℕ = hash_from offset_basis pre in
    let pg : hash_from offset_basis pre < 2 ^ 32 = hash_from-lt offset_basis pre (omega arith) in
    ne (
      char_to_u32_injective b c hb hc (
        mix_injective_char g (char_to_u32 b) (char_to_u32 c) pg (char_to_u32-lt b hb)
          (char_to_u32-lt c hc)
          (hash_from_injective (mix g (char_to_u32 b)) (mix g (char_to_u32 c)) suf
            (mix-lt g (char_to_u32 b)) (mix-lt g (char_to_u32 c)) bytes
            (sym (hash_from-append offset_basis pre (b ∷ suf))
              ∙ e
              ∙ hash_from-append offset_basis pre (c ∷ suf)))))
