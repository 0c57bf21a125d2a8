-- ===== src/FastHash.antt =====
-- include/deribit/fast_hash.h: the 32-bit hash of a channel name.
pub mod Laws
pub mod Fnv
use hft_deribit.Prelude.{ℕ, ◌+◌, ◌*◌, ◌%◌, ◌^◌, bit_xor, Text, [], ◌∷◌, ltb, if◌then◌else◌}

-- The seed and the multiplier of the source.
abbrev pub offset_basis : ℕ
offset_basis = 2166136261

abbrev pub fnv_prime : ℕ
fnv_prime = 16777619

-- `static_cast<uint32_t>(c)` of a `char`, given by its byte. `char` is signed on the supported
-- targets, so a byte of 128 or more is extended with ones.
unfoldable pub char_to_u32 : ℕ → ℕ
char_to_u32 c = if ltb c 128 then c else c + 0xffffff00

-- One round of the loop, with `prime` as `h`.
unfoldable pub mix : ℕ → ℕ → ℕ
mix h c = bit_xor h c * fnv_prime % 2 ^ 32

-- The loop over the bytes.
unfoldable pub hash_from : ℕ → Text → ℕ
unfolding mix char_to_u32
hash_from h [] = h
hash_from h (c ∷ cs) = hash_from (mix h (char_to_u32 c)) cs

unfoldable pub fast_hash : Text → ℕ
unfolding hash_from
fast_hash sv = hash_from offset_basis sv
