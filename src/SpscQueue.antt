-- ===== src/SpscQueue.antt =====
-- include/deribit/spsc_queue.h: the ring buffer between one producer and one consumer.
-- The operations as one thread runs them alone; `Threads` interleaves their shared accesses.
pub mod Fifo
pub mod Holds
pub mod Refine
pub mod Threads
pub mod TwoProducers
pub mod View
pub mod Weak
use hft_deribit.Prelude.{
  ℕ, ◌+◌, ◌-◌, ◌%◌, ◌^◌, bit_and, Bool, true, false, List, Option, none, some, get_elem?, set,
  replicate, ◌==◌, if◌then◌else◌,
}

-- `SPSCQueue<T, N>`; `buffer` has N cells.
pub record SpscQueue {ℓ} (A : Type ℓ) : Type ℓ where
  pub buffer : List A
  pub head : ℕ
  pub tail : ℕ

-- `(i + 1) & (N - 1)` on `size_t`.
unfoldable pub next_index : ℕ → ℕ → ℕ
next_index n i = bit_and ((i + 1) % 2 ^ 64) (n - 1)

module _ {ℓ} {A : Type ℓ} (n : ℕ) where
  -- A new queue, its cells holding the default value of `T`.
  unfoldable pub init : A → SpscQueue A
  init default = record { buffer = replicate n default; head = 0; tail = 0 }

  -- The new queue, and whether the value was taken.
  unfoldable pub push : SpscQueue A → A → SpscQueue A × Bool
  unfolding next_index
  push q v =
      let next = next_index n q.head in
      if next == q.tail
      then (q, false)
      else (record q { buffer = set q.buffer q.head v; head = next }, true)

  -- The new queue, and what is returned. A read out of range is `none` too: `Refine` excludes it.
  unfoldable pub pop : SpscQueue A → SpscQueue A × Option A
  unfolding next_index
  pop q =
      if q.tail == q.head
      then (q, none)
      else (record q { tail = next_index n q.tail }, get_elem? q.buffer q.tail)

unfoldable pub empty {ℓ} : {A : Type ℓ} → SpscQueue A → Bool
empty q = q.head == q.tail
