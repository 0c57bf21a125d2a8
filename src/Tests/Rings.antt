-- ===== src/Tests/Rings.antt =====
-- The ring buffer as a type of lists, and under two producers.
use std.Path.{transport}
use mathlib.Core.Quot
use native.Mathlib.Nat.{ℕ_set}
use hft_deribit.Prelude.{ℕ, ◌≡◌, refl, arith, true, false, List, [], ◌∷◌, ◌++◌, some}
use hft_deribit.SpscQueue.{SpscQueue, init, push, pop, empty, next_index}
use hft_deribit.SpscQueue.Holds.{IsCapacity, Holds, init-Holds}
use hft_deribit.SpscQueue.Threads.{Producer}
use hft_deribit.SpscQueue.TwoProducers.{Turn, turns, turn, advance, rivals, rivals_lose, in_step}
use hft_deribit.SpscQueue.View.{Ring, states-eq-lists, ring_as_list}
use hft_deribit.SpscQueue.Refine.{push_refines}
use hft_deribit.SpscQueue.Fifo

four : IsCapacity 4
four = record { pos = omega arith; small = omega arith; power = refl }

two-Holds : Holds {A = ℕ} 4 (push 4 (push 4 (init 4 0) 5).0 6).0 (5 ∷ 6 ∷ [])
unfolding Fifo.push
two-Holds = (push_refines four 6 (push_refines four 5 (init-Holds four 0)).1).1

abbrev two_held : Ring ℕ 4
two_held = ((push 4 (push 4 (init 4 0) 5).0 6).0, (5 ∷ 6 ∷ [], two-Holds))

ring_as_list_example :
    ((transport (states-eq-lists four ℕ_set 0) (Quot.mk two_held)).0 ≡ 5 ∷ 6 ∷ [])
    × ((push 4 two_held.0 7).1 ≡ true)
    × Holds 4 (push 4 two_held.0 7).0 (5 ∷ 6 ∷ 7 ∷ [])
    × ((pop 4 two_held.0).1 ≡ some 5)
    × Holds 4 (pop 4 two_held.0).0 (6 ∷ [])
    × (empty two_held.0 ≡ false)
ring_as_list_example = ring_as_list four ℕ_set 0 two_held 7

abbrev start : SpscQueue ℕ
start = init 4 0

-- In step, the second value wins; one behind the other, both are there.
run-in_step : (pop 4 (turns 4 (rivals 4 start 7 8) in_step).queue).1 ≡ some 8
unfolding turns turn advance pop init next_index
run-in_step = refl

rivals_lose_example :
    (ts : List Turn) × ((turns 4 (rivals 4 start 7 8) ts).first ≡ Producer.notifying)
    × ((turns 4 (rivals 4 start 7 8) ts).second ≡ Producer.notifying)
    × Holds 4 (turns 4 (rivals 4 start 7 8) ts).queue ([] ++ 8 ∷ [])
rivals_lose_example = rivals_lose four 7 8 (init-Holds four 0) (omega arith)
