-- ===== src/SpscQueue/Fifo.antt =====
-- What the queue promises: a first-in first-out list of at most `cap` elements.
use hft_deribit.Prelude.{
  ◌≡◌, refl, ℕ, Bool, true, false, List, [], ◌∷◌, ◌++◌, Option, none, some, length, ltb, is_empty,
  if◌then◌else◌,
}

-- The calls of a client, and what each returns.
pub data Op {ℓ} (A : Type ℓ) : Type ℓ where
  put : A → Op A
  get : Op A
  ask : Op A

pub data Reply {ℓ} (A : Type ℓ) : Type ℓ where
  taken : Bool → Reply A
  got : Option A → Reply A
  is_clear : Bool → Reply A

module _ {ℓ} {A : Type ℓ} where
  unfoldable pub push : ℕ → List A → A → List A × Bool
  push cap xs v = if ltb (length xs) cap then (xs ++ v ∷ [], true) else (xs, false)

  unfoldable pub pop : List A → List A × Option A
  pop [] = ([], none)
  pop (x ∷ xs) = (xs, some x)

  unfoldable pub run : ℕ → List A → List (Op A) → List (Reply A)
  unfolding push pop
  run cap xs [] = []
  run cap xs (put v ∷ ops) = taken (push cap xs v).1 ∷ run cap (push cap xs v).0 ops
  run cap xs (get ∷ ops) = got (pop xs).1 ∷ run cap (pop xs).0 ops
  run cap xs (ask ∷ ops) = is_clear (is_empty xs) ∷ run cap xs ops

  -- An element is taken if there is room for it.
  pub push_free :
      (cap : ℕ) (xs : List A) (v : A)
      → ltb (length xs) cap ≡ true
      → push cap xs v ≡ (xs ++ v ∷ [], true)
  unfolding push
  push_free cap xs v free = rw free refl

  pub push_full :
      (cap : ℕ) (xs : List A) (v : A) → ltb (length xs) cap ≡ false → push cap xs v ≡ (xs, false)
  unfolding push
  push_full cap xs v full = rw full refl
