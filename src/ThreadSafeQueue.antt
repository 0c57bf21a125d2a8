-- ===== src/ThreadSafeQueue.antt =====
-- include/deribit/queue.h: the queue that a mutex protects. Each call holds the mutex while it
-- touches the queue, so the calls of all threads happen one after another. The name of a queue only
-- goes to the log and is left out.
use hft_deribit.Prelude.{
  ◌≡◌, ap, sym, ◌∙◌, Bool, List, [], ◌∷◌, ◌++◌, is_empty, append_assoc, append-nil,
}

pub record ThreadSafeQueue (A : Type 0) : Type 0 where
  pub q : List A

module _ {A : Type 0} where
  unfoldable pub push : ThreadSafeQueue A → A → ThreadSafeQueue A
  push s val = record { q = s.q ++ val ∷ [] }

  -- `default` is `T()`. The new queue, and what is returned.
  unfoldable pub pop : A → ThreadSafeQueue A → ThreadSafeQueue A × A
  pop default s = elim s.q [ [] ↦ (s, default) | val ∷ rest ↦ (record { q = rest }, val) ]

  unfoldable pub empty : ThreadSafeQueue A → Bool
  empty s = is_empty s.q

-- A call by some thread.
pub data Request (A : Type 0) : Type 0 where
  push_of : A → Request A
  pop_of : Request A

module _ {A : Type 0} (default : A) where
  -- The calls in the order in which they get the mutex, and what the pops return.
  unfoldable pub run : ThreadSafeQueue A → List (Request A) → ThreadSafeQueue A × List A
  run s [] = (s, [])
  run s (push_of v ∷ rs) = run (push s v) rs
  run s (pop_of ∷ rs) =
      let (last, popped) = run (pop default s).0 rs in (last, (pop default s).1 ∷ popped)

abbrev pub pushed : {A : Type 0} → List (Request A) → List A
pushed [] = []
pushed (push_of v ∷ rs) = v ∷ pushed rs
pushed (pop_of ∷ rs) = pushed rs

-- The second list is the first with defaults put in between.
pub data Padded {A : Type 0} (default : A) : List A → List A → Type 0 where
  done : Padded default [] []
  took : {x : A} {xs ys : List A} → Padded default xs ys → Padded default (x ∷ xs) (x ∷ ys)
  missed : {xs ys : List A} → Padded default xs ys → Padded default xs (default ∷ ys)

module _ {A : Type 0} (default : A) where
  -- Whatever the threads do, what the pops return is, but for defaults, the values in the queue and
  -- then those pushed, in order and without loss; the values that were not taken are still there.
  pub pops_in_order :
      (xs : List A) (rs : List (Request A))
      → let (last, popped) = run default (record { q = xs }) rs in
        (found : List A) × (xs ++ pushed rs ≡ found ++ last.q) × Padded default found popped
  unfolding run push pop
  pops_in_order xs [] = ([], append-nil xs, done)
  pops_in_order xs (push_of v ∷ rs) =
      let (found, e, w) = pops_in_order (xs ++ v ∷ []) rs in
      (found, sym (append_assoc xs (v ∷ []) (pushed rs)) ∙ e, w)
  pops_in_order [] (pop_of ∷ rs) = let (found, e, w) = pops_in_order [] rs in (found, e, missed w)
  pops_in_order (x ∷ xs) (pop_of ∷ rs) =
      let (found, e, w) = pops_in_order xs rs in (x ∷ found, ap (x ∷◌) e, took w)
