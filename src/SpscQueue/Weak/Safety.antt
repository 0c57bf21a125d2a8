-- ===== src/SpscQueue/Weak/Safety.antt =====
-- What holds in every state that is reached under the memory orders of the source.
use hft_deribit.Prelude.{
  ℕ, suc, ◌+◌, ◌-◌, ◌%◌, ◌≤◌, ◌<◌, ◌≡◌, ◌≢◌, sym, ap, ◌∙◌, arith, true, false, List, ◌++◌, map,
  some, length, take, drop, ◌==◌, length-drop, take-drop,
}
use mathlib.Core.List.{map-append}
use native.Mathlib.Decide.{dec_lt}
use hft_deribit.SpscQueue.{next_index}
use hft_deribit.SpscQueue.Holds.{IsCapacity}
use hft_deribit.SpscQueue.Threads.{Producer, Consumer}
use hft_deribit.SpscQueue.Weak.{State, Message, Loads, Reach}
use hft_deribit.SpscQueue.Weak.Invariant.{Inv}
use hft_deribit.SpscQueue.Weak.Slots.{slot_same, next_index-slot}
use hft_deribit.SpscQueue.Weak.Pushes.{tail_loaded, at_producer}
use hft_deribit.SpscQueue.Weak.Pops.{at_consumer}
use hft_deribit.SpscQueue.Weak.Kept.{Reach-Inv}

-- A full ring: the next element would go to the cell of one that is n - 1 behind the last.
exactly_full :
    {n : ℕ} (c : IsCapacity n) (k i : ℕ)
    → k ≤ i
    → i < k + n
    → (k % n == suc i % n) ≡ true
    → i ≡ k + (n - 1)
exactly_full {n} c k i low high same = elim (dec_lt (suc i) (k + n)) [
  | yes below ↦ absurd (omega (arith, slot_same n k (suc i) (omega (arith, low)) below same, low))
  | no full ↦ omega (arith, c.pos, full, high)
]

module _ {A : Type 0} {n : ℕ} (c : IsCapacity n) (default : A) {s : State A}
    (r : Reach n default s) where
  -- Under acquire and release order, where a load may find an old index: in every state that the two
  -- threads reach from a new queue of N cells, N a power of two of at most 2 ^ 63, what was
  -- published is what was delivered, in order and without loss or repetition, followed by fewer than
  -- N elements on the way.
  pub ordered_delivery :
      (xs : List A) × (map some s.sent ≡ s.received ++ map some xs) × (length xs < n)
  ordered_delivery =
      let i : Inv n s = Reach-Inv c default r in
      let got = length s.received in
      (
        drop got s.sent,
        ap (map some) (sym (take-drop got s.sent))
            ∙ map-append some (take got s.sent) (drop got s.sent)
            ∙ ap (λ l. l ++ map some (drop got s.sent)) (sym i.delivered),
        omega (arith, length-drop got s.sent, i.room, i.tail_seen),
      )

  -- Under these orders no state that is reached from a new queue of N cells, N a power of two of at
  -- most 2 ^ 63, has had a data race: each store to a cell happens after the loads of it by the
  -- consumer, and each load after the stores by the producer.
  pub race_free : s.raced ≡ false
  race_free = let i : Inv n s = Reach-Inv c default r in i.calm

  -- Under these orders, in every state reached from a new queue of N cells, N a power of two of at
  -- most 2 ^ 63, the second `pop` of `wait_and_pop` has not found the queue empty.
  pub second_pop_defined : s.consumer ≢ Consumer.undefined
  second_pop_defined e = let i : Inv n s = Reach-Inv c default r in at_consumer c i e

  -- Under these orders, in every state reached from a new queue of N cells, N a power of two of at
  -- most 2 ^ 63: `push` refuses only if N - 1 published elements were not delivered when the store of
  -- `tail` was made that it finds, which may be an old one.
  pub refused_as_found :
      (v : A) (h k : ℕ) (m : Message)
      → s.producer ≡ Producer.loaded v h
      → Loads s.tail_view s.tails k m
      → (next_index n h == m.value) ≡ true
      → (length s.sent ≡ k + (n - 1)) × (k ≤ length s.received)
  refused_as_found v h k m e l full =
      let i : Inv n s = Reach-Inv c default r in
      let (old, young, found, known) = tail_loaded c i l in
      let at : h ≡ length s.sent % n = at_producer c i e in
      let moved : next_index n h ≡ suc (length s.sent) % n =
        ap (next_index n) at ∙ next_index-slot c (length s.sent) in
      let same : (k % n == suc (length s.sent) % n) ≡ true =
        ground (arith, moved, ap (λ m. m.value) found, full) in
      let before : k ≤ length s.sent = omega (arith, young, i.taken, i.head_seen) in
      (exactly_full c k (length s.sent) before (omega (arith, old, i.room)) same, young)
