-- ===== src/Tests/Hash.antt =====
-- The hash of channel names.
use hft_deribit.Prelude.{◌≡◌, ◌≢◌, ◌++◌, ◌∷◌, ◌==◌, false, refl, arith, codes}
use hft_deribit.FastHash.{fast_hash}
use hft_deribit.FastHash.Laws.{fast_hash_one_byte}
use hft_deribit.FastHash.Fnv.{fnv1a, agrees_on_ascii}

-- The published value of FNV-1a for "foobar".
foobar : fast_hash (codes "foobar") ≡ 0xbf9cf968
unfolding fast_hash
foobar = refl

fast_hash_one_byte_example :
    fast_hash (codes "ticker.BT" ++ b'C' ∷ codes ".raw")
    ≢ fast_hash (codes "ticker.BT" ++ b'H' ∷ codes ".raw")
fast_hash_one_byte_example =
    fast_hash_one_byte (codes "ticker.BT") (codes ".raw") b'C' b'H' (omega arith) (omega arith)
      (omega arith) (omega arith)

agrees_on_ascii_example :
    (fast_hash (codes "a" ++ 200 ∷ codes "b") == fnv1a (codes "a" ++ 200 ∷ codes "b")) ≡ false
agrees_on_ascii_example =
    agrees_on_ascii (codes "a") (codes "b") 200 (omega arith) (omega arith) (omega arith)
