-- ===== src/HistoricalOhlcv/Newest.antt =====
-- What the download returns: the newest candles, in order of time.
use mathlib.Core.List.{Perm}
use mathlib.Core.List.Perm
use hft_deribit.Prelude.{
  take-drop, ℕ, suc, ◌-◌, ◌≡◌, refl, ap, arith, true, false, List, [], ◌∷◌, ◌++◌, min, length, take,
  ltb, Bool-cases, inl, inr, length-drop,
}
use hft_deribit.Prelude.Int.{ℤ, pos, negsuc}
use hft_deribit.Ohlcv.{Ohlcv}
use hft_deribit.HistoricalOhlcv.{before, insert, sort, trim}

before_asymm : (a b : ℤ) → before a b ≡ true → before b a ≡ false
unfolding before
before_asymm (pos m) (pos n) h = ground arith
before_asymm (pos m) (negsuc n) h = ground arith
before_asymm (negsuc m) (pos n) h = ground arith
before_asymm (negsuc m) (negsuc n) h = ground arith

before_trans : (a b c : ℤ) → before a b ≡ false → before b c ≡ false → before a c ≡ false
unfolding before
before_trans (pos m) (pos n) (pos k) h i = ground arith
before_trans (pos m) (pos n) (negsuc k) h i = ground arith
before_trans (pos m) (negsuc n) (pos k) h i = ground arith
before_trans (pos m) (negsuc n) (negsuc k) h i = ground arith
before_trans (negsuc m) (pos n) (pos k) h i = ground arith
before_trans (negsuc m) (pos n) (negsuc k) h i = ground arith
before_trans (negsuc m) (negsuc n) (pos k) h i = ground arith
before_trans (negsuc m) (negsuc n) (negsuc k) h i = ground arith

module _ {D : Type 0} where
  -- No candle of a list is before `c`.
  abbrev pub NoneBefore : Ohlcv D → List (Ohlcv D) → Type 0
  NoneBefore c [] = Unit
  NoneBefore c (x ∷ xs) = (before x.ts_ms c.ts_ms ≡ false) × NoneBefore c xs

  abbrev pub IsSorted : List (Ohlcv D) → Type 0
  IsSorted [] = Unit
  IsSorted (c ∷ cs) = NoneBefore c cs × IsSorted cs

  NoneBefore-trans :
      (c x : Ohlcv D) (xs : List (Ohlcv D))
      → before x.ts_ms c.ts_ms ≡ false
      → NoneBefore x xs
      → NoneBefore c xs
  NoneBefore-trans c x [] h w = tt
  NoneBefore-trans c x (y ∷ ys) h w =
      (before_trans y.ts_ms x.ts_ms c.ts_ms w.0 h, NoneBefore-trans c x ys h w.1)

  insert-NoneBefore :
      (a c : Ohlcv D) (xs : List (Ohlcv D))
      → before c.ts_ms a.ts_ms ≡ false
      → NoneBefore a xs
      → NoneBefore a (insert c xs)
  unfolding insert
  insert-NoneBefore a c [] h w = (h, tt)
  insert-NoneBefore a c (x ∷ xs) h w = elim (Bool-cases (before x.ts_ms c.ts_ms)) [
    | inl e ↦ rw e (w.0, insert-NoneBefore a c xs h w.1)
    | inr e ↦ rw e (h, w)
  ]

  insert-IsSorted : (c : Ohlcv D) (xs : List (Ohlcv D)) → IsSorted xs → IsSorted (insert c xs)
  unfolding insert
  insert-IsSorted c [] w = (tt, tt)
  insert-IsSorted c (x ∷ xs) w = elim (Bool-cases (before x.ts_ms c.ts_ms)) [
    | inl e ↦
        rw e
          (insert-NoneBefore x c xs (before_asymm x.ts_ms c.ts_ms e) w.0, insert-IsSorted c xs w.1)
    | inr e ↦ rw e ((e, NoneBefore-trans c x xs e w.0), w)
  ]

  pub sort-IsSorted : (cs : List (Ohlcv D)) → IsSorted (sort cs)
  unfolding sort
  sort-IsSorted [] = tt
  sort-IsSorted (c ∷ cs) = insert-IsSorted c (sort cs) (sort-IsSorted cs)

  insert-Perm : (c : Ohlcv D) (xs : List (Ohlcv D)) → Perm (insert c xs) (c ∷ xs)
  unfolding insert
  insert-Perm c [] = Perm.refl (c ∷ [])
  insert-Perm c (x ∷ xs) = elim (Bool-cases (before x.ts_ms c.ts_ms)) [
    | inl e ↦ rw e (Perm.trans (Perm.cons x (insert-Perm c xs)) (Perm.swap c x xs))
    | inr e ↦ rw e (Perm.refl (c ∷ x ∷ xs))
  ]

  pub sort-Perm : (cs : List (Ohlcv D)) → Perm (sort cs) cs
  unfolding sort
  sort-Perm [] = Perm.nil
  sort-Perm (c ∷ cs) = Perm.trans (insert-Perm c (sort cs)) (Perm.cons c (sort-Perm cs))

  length-insert : (c : Ohlcv D) (xs : List (Ohlcv D)) → length (insert c xs) ≡ suc (length xs)
  unfolding insert
  length-insert c [] = refl
  length-insert c (x ∷ xs) = elim (Bool-cases (before x.ts_ms c.ts_ms)) [
    | inl e ↦ rw e (ap suc (length-insert c xs))
    | inr e ↦ rw e refl
  ]

  pub length-sort : (cs : List (Ohlcv D)) → length (sort cs) ≡ length cs
  unfolding sort
  length-sort [] = refl
  length-sort (c ∷ cs) = rw (length-insert c (sort cs)) (ap suc (length-sort cs))

  -- What the trim takes off, and how much it leaves.
  pub trim_lem :
      (n : ℕ) (xs : List (Ohlcv D))
      → (older : List (Ohlcv D)) × (older ++ trim n xs ≡ xs)
        × (length (trim n xs) ≡ min n (length xs))
  unfolding trim
  trim_lem n xs = elim (Bool-cases (ltb n (length xs))) [
    | inl e ↦ rw e (
      take (length xs - n) xs,
      take-drop (length xs - n) xs,
      ground (arith, length-drop (length xs - n) xs),
    )
    | inr e ↦ rw e ([], refl, ground arith)
  ]
