-- ===== src/Tests/Mutex.antt =====
-- The queue with a mutex.
use hft_deribit.Prelude.{ℕ, ◌≡◌, refl, List, [], ◌∷◌, ◌++◌}
use hft_deribit.ThreadSafeQueue.{Request, push_of, pop_of, run, push, pop, Padded, pops_in_order}

abbrev calls : List (Request ℕ)
calls = pop_of ∷ pop_of ∷ push_of 5 ∷ push_of 6 ∷ pop_of ∷ []

run-calls : run 0 (record { q = 4 ∷ [] }) calls ≡ (record { q = 6 ∷ [] }, 4 ∷ 0 ∷ 5 ∷ [])
unfolding run push pop
run-calls = refl

pops_in_order_example :
    let (last, popped) = run 0 (record { q = 4 ∷ [] }) calls in
    (found : List ℕ) × (4 ∷ 5 ∷ 6 ∷ [] ≡ found ++ last.q) × Padded 0 found popped
pops_in_order_example = pops_in_order 0 (4 ∷ []) calls
