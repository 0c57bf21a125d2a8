-- ===== src/SpscQueue/Refine.antt =====
-- The ring buffer refines the bounded list of `Fifo`, with room for N - 1 elements.
use hft_deribit.Prelude.{
  ℕ, ◌-◌, ◌≡◌, refl, ap, ap₂, List, [], ◌∷◌, ltb, is_empty, Bool-cases, inl, inr, ltb→lt, length,
}
use hft_deribit.SpscQueue.{SpscQueue, push, pop, empty}
use hft_deribit.SpscQueue.Fifo
use hft_deribit.SpscQueue.Fifo.{Op, Reply, put, get, ask, taken, got, is_clear}
use hft_deribit.SpscQueue.Holds.{
  IsCapacity, Holds, empty_test, pop_test, full_test, publish-Holds, consume-Holds,
}

module _ {ℓ} {A : Type ℓ} {n : ℕ} (c : IsCapacity n) where
  -- `push` answers as `Fifo.push` with room for N - 1 elements, and the ring then holds its list.
  pub push_refines :
      {q : SpscQueue A} {xs : List A} (x : A)
      → Holds n q xs
      → ((push n q x).1 ≡ (Fifo.push (n - 1) xs x).1)
        × Holds n (push n q x).0 (Fifo.push (n - 1) xs x).0
  unfolding push Fifo.push
  push_refines {q} {xs} x v = elim (Bool-cases (ltb (length xs) (n - 1))) [
    | inl free ↦
        rw (full_test c v, free) (refl, publish-Holds c v x (ltb→lt (length xs) (n - 1) free))
    | inr full ↦ rw (full_test c v, full) (refl, v)
  ]

  -- `pop` returns the oldest element, if there is one, and the ring then holds the rest.
  pub pop_refines :
      {q : SpscQueue A} (xs : List A)
      → Holds n q xs
      → ((pop n q).1 ≡ (Fifo.pop xs).1) × Holds n (pop n q).0 (Fifo.pop xs).0
  unfolding pop Fifo.pop
  pop_refines [] v = rw (pop_test c v) (refl, v)
  pop_refines (x ∷ xs) v = rw (pop_test c v) (consume-Holds c v)

  -- `empty` tells whether any element is held.
  pub empty_refines : {q : SpscQueue A} {xs : List A} → Holds n q xs → empty q ≡ is_empty xs
  unfolding empty
  empty_refines v = empty_test c v

  -- A client's calls in order, with what each returns.
  pub run : SpscQueue A → List (Op A) → List (Reply A)
  run q [] = []
  run q (put x ∷ ops) = taken (push n q x).1 ∷ run (push n q x).0 ops
  run q (get ∷ ops) = got (pop n q).1 ∷ run (pop n q).0 ops
  run q (ask ∷ ops) = is_clear (empty q) ∷ run q ops

  -- If a ring of N cells, N a power of two of at most 2 ^ 63, holds a list, then every sequence of
  -- `push`, `pop` and `empty` calls by one thread gets the replies of the bounded list with room
  -- for N - 1 elements.
  pub run_refines :
      (ops : List (Op A)) {q : SpscQueue A} {xs : List A}
      → Holds n q xs
      → run q ops ≡ Fifo.run (n - 1) xs ops
  unfolding run Fifo.run
  run_refines [] v = refl
  run_refines (put x ∷ ops) v =
      ap₂ ◌∷◌ (ap taken (push_refines x v).0) (run_refines ops (push_refines x v).1)
  run_refines (get ∷ ops) {xs = xs} v =
      ap₂ ◌∷◌ (ap got (pop_refines xs v).0) (run_refines ops (pop_refines xs v).1)
  run_refines (ask ∷ ops) v = ap₂ ◌∷◌ (ap is_clear (empty_refines v)) (run_refines ops v)
