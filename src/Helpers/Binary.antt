-- ===== src/Helpers/Binary.antt =====
-- What a binary file gives back.
mod Buffers
use native.Mathlib.Numerals.{unary_clauses}
use hft_deribit.Helpers.Binary.Buffers.{of_le-to_le, length-to_le, read_over-prefix, read_over-full}
use hft_deribit.Prelude.{
  take-length, drop-length, take_all, replicate_add, ℕ, zero, suc, ◌+◌, ◌*◌, ◌/◌, ◌^◌, ◌≤◌, ◌<◌,
  ◌≡◌, refl, sym, ap, subst, ◌∙◌, arith, true, List, [], ◌∷◌, ◌++◌, some, Text, length, take, drop,
  replicate, append_assoc, append-nil, length-append, length-replicate, leb,
}
use hft_deribit.Ohlcv.{Ohlcv, Layout, IsLayout, AreInt64}
use hft_deribit.Prelude.Int.{ℤ, IsInt64}
use hft_deribit.Helpers.{to_le, of_le, read_over, raw, of_raw, contents, save_to_bin, load_from_bin}

le→leb : (a b : ℕ) → a ≤ b → leb a b ≡ true
le→leb a b h = ground arith

module _ {D : Type 0} {l : Layout D} (laws : IsLayout l) where
  length-raw : (cs : List (Ohlcv D)) → length (raw l cs) ≡ 64 * length cs
  unfolding raw
  length-raw [] = refl
  length-raw (c ∷ cs) =
      omega (arith, length-append (l.to_bytes c) (raw l cs), laws.size c, length-raw cs)

  raw-append : (cs ds : List (Ohlcv D)) → raw l (cs ++ ds) ≡ raw l cs ++ raw l ds
  unfolding raw
  raw-append [] ds = refl
  raw-append (c ∷ cs) ds = rw (raw-append cs ds, append_assoc) refl

  of_raw-raw : (cs : List (Ohlcv D)) → AreInt64 cs → of_raw l (length cs) (raw l cs) ≡ cs
  unfolding raw of_raw
  of_raw-raw [] w = refl
  of_raw-raw (c ∷ cs) w =
      rw
        (
          take-length (l.to_bytes c) (raw l cs) 64 (laws.size c),
          drop-length (l.to_bytes c) (raw l cs) 64 (laws.size c),
          laws.back c w.0,
          of_raw-raw cs w.1,
        )
        refl

  of_raw_all :
      (n : ℕ) (cs : List (Ohlcv D)) → AreInt64 cs → n ≡ length cs → of_raw l n (raw l cs) ≡ cs
  of_raw_all n cs w e = ap (λ (k : ℕ). of_raw l k (raw l cs)) e ∙ of_raw-raw cs w

  zeros-AreInt64 : (k : ℕ) → AreInt64 (replicate k l.zeroed)
  zeros-AreInt64 zero = tt
  zeros-AreInt64 (suc k) =
      (subst (λ (z : ℤ). IsInt64 z) (sym laws.zero_ts) (omega arith), zeros-AreInt64 k)

  append-AreInt64 : (cs ds : List (Ohlcv D)) → AreInt64 cs → AreInt64 ds → AreInt64 (cs ++ ds)
  append-AreInt64 [] ds u v = v
  append-AreInt64 (c ∷ cs) ds u v = (u.0, append-AreInt64 cs ds u.1 v)

  -- The candles `cs` written over as many zeros, with more of these behind them.
  overwritten :
      (cs : List (Ohlcv D)) (k : ℕ)
      → read_over (raw l (replicate (length cs + k) l.zeroed)) (raw l cs)
        ≡ raw l (cs ++ replicate k l.zeroed)
  overwritten cs k =
      rw
        (
          replicate_add (length cs) k l.zeroed,
          raw-append (replicate (length cs) l.zeroed) (replicate k l.zeroed),
          raw-append cs (replicate k l.zeroed),
        )
        (read_over-prefix (raw l (replicate (length cs) l.zeroed)) (raw l (replicate k l.zeroed))
          (raw l cs)
          (omega (
            arith,
            length-raw (replicate (length cs) l.zeroed),
            length-raw cs,
            length-replicate (length cs) l.zeroed,
          )))

  -- What the file holds if it is cut behind `cs`.
  cut :
      (cs ds : List (Ohlcv D))
      → take (8 + 64 * length cs) (contents l (cs ++ ds))
        ≡ to_le 8 (length cs + length ds) ++ raw l cs
  cut cs ds =
      rw
        (
          length-append cs ds,
          raw-append cs ds,
          sym (append_assoc (to_le 8 (length cs + length ds)) (raw l cs) (raw l ds)),
        )
        (take-length (to_le 8 (length cs + length ds) ++ raw l cs) (raw l ds) (8 + 64 * length cs) (
          omega (
            arith,
            length-append (to_le 8 (length cs + length ds)) (raw l cs),
            length-to_le 8 (length cs + length ds),
            length-raw cs,
          )))

  count_read :
      (n : ℕ) (bytes : Text) → n < 2 ^ 64 → of_le (read_over (to_le 8 0) (to_le 8 n ++ bytes)) ≡ n
  count_read n bytes h =
      rw (read_over-full (to_le 8 0) (to_le 8 n) bytes (length-to_le 8 0 ∙ sym (length-to_le 8 n)))
        (of_le-to_le 8 n h)

  of_counted :
      (m : ℕ) (cs : List (Ohlcv D)) (k : ℕ)
      → AreInt64 cs
      → length cs + k ≡ m
      → of_raw l m (read_over (raw l (replicate m l.zeroed)) (raw l cs))
        ≡ cs ++ replicate k l.zeroed
  of_counted m cs k w e =
      ap (λ (i : ℕ). of_raw l m (read_over (raw l (replicate i l.zeroed)) (raw l cs))) (sym e)
      ∙ ap (of_raw l m) (overwritten cs k)
      ∙ of_raw_all m (cs ++ replicate k l.zeroed)
          (append-AreInt64 cs (replicate k l.zeroed) w (zeros-AreInt64 k))
          (omega (arith, e, length-append cs (replicate k l.zeroed), length-replicate k l.zeroed))

  -- A file of candles that is cut behind the first ones loads without an error, with as many
  -- candles as were saved: the first ones, and zeros in place of the others. For timestamps of 64
  -- bits, and a count that can be allocated and fits 64 bits.
  pub load_truncated :
      (most : ℕ) (cs ds : List (Ohlcv D))
      → AreInt64 cs
      → length cs + length ds ≤ most
      → most < 2 ^ 64
      → load_from_bin l most (some (take (8 + 64 * length cs) (contents l (cs ++ ds))))
        ≡ some (cs ++ replicate (length ds) l.zeroed)
  unfolding load_from_bin
  load_truncated most cs ds w fits small =
      let n = length cs + length ds in
      rw
        (
          cut cs ds,
          count_read n (raw l cs) (omega arith),
          le→leb n most fits,
          drop-length (to_le 8 n) (raw l cs) 8 (length-to_le 8 n),
        )
        (ap some (of_counted n cs (length ds) w refl))

  whole : (cs : List (Ohlcv D)) → take (8 + 64 * length cs) (contents l (cs ++ [])) ≡ contents l cs
  whole cs = rw (append-nil cs) (
      take_all (8 + 64 * length cs) (contents l cs) (
        omega (
          arith,
          length-append (to_le 8 (length cs)) (raw l cs),
          length-to_le 8 (length cs),
          length-raw cs,
        )))

  -- What was saved to a file that could be opened is loaded again, if the timestamps are of 64
  -- bits, and the count can be allocated and fits 64 bits.
  pub load_from_bin-save_to_bin :
      (most : ℕ) (cs : List (Ohlcv D))
      → AreInt64 cs
      → length cs ≤ most
      → most < 2 ^ 64
      → load_from_bin l most (save_to_bin l true cs).0 ≡ some cs
  unfolding save_to_bin
  load_from_bin-save_to_bin most cs w fits small =
      ap (λ (t : Text). load_from_bin l most (some t)) (sym (whole cs))
      ∙ load_truncated most cs [] w (omega arith) small
      ∙ ap some (append-nil cs)
