-- ===== src/Tests/Weak.antt =====
-- The queue under the memory orders of the source: a push that meets an old `tail`.
use hft_deribit.Prelude.{
  ℕ, ◌+◌, ◌≡◌, ◌≢◌, ◌≤◌, ◌<◌, refl, arith, false, List, [], ◌∷◌, ◌++◌, some, map, length,
}
use hft_deribit.SpscQueue.{next_index}
use hft_deribit.SpscQueue.Threads.{Producer, Call, Consumer, wake}
use hft_deribit.SpscQueue.Weak.{
  State, Message, Loads, latest, touches, content, Step, push_load, push_full, push_check,
  push_write, push_publish, push_notify, pop_load, pop_check, pop_read, pop_release, Reach, begin,
  next,
}
use hft_deribit.SpscQueue.Weak.Safety.{
  ordered_delivery, race_free, second_pop_defined, refused_as_found,
}
use hft_deribit.Tests.Queue.{two, outside_not_sure}

abbrev first : Message
first = record { value = 0; released = 0 }

first-Loads : Loads 0 (first ∷ []) 0 first
first-Loads = record { coherent = omega arith; found = refl }

-- A queue of two cells through which one element went; the next push has loaded `head`.
abbrev passed : (s : State ℕ) × Reach 2 0 s
unfolding next_index wake latest touches content
passed = (
  _,
  next
      (next
        (next
          (next
            (next
              (next
                (next
                  (next
                    (next (next begin (push_load 7 refl))
                      (push_check 7 0 0 first refl first-Loads refl))
                    (push_write 7 0 refl))
                  (push_publish 7 0 refl))
                (push_notify refl))
              (pop_load Call.outside refl outside_not_sure))
            (pop_check Call.outside 0 1 (record { value = 1; released = 1 }) refl
              (record { coherent = omega arith; found = refl }) refl))
          (pop_read 0 refl))
        (pop_release 0 (some 7) refl))
      (push_load 8 refl),
)

passed_history : (passed.0.sent ≡ 7 ∷ []) × (passed.0.received ≡ some 7 ∷ [])
unfolding next_index wake latest touches content
passed_history = (refl, refl)

-- It may find the old `tail`, and refuse although the queue is empty.
stale_refusal : Step 2 0 passed.0 (record (passed.0) { producer = Producer.idle })
unfolding next_index wake latest touches content
stale_refusal = push_full 8 1 0 first refl (record { coherent = omega arith; found = refl }) refl

ordered_delivery_example :
    (xs : List ℕ) × (map some passed.0.sent ≡ passed.0.received ++ map some xs) × (length xs < 2)
unfolding next_index wake latest touches content
ordered_delivery_example = ordered_delivery two 0 passed.1

race_free_example : passed.0.raced ≡ false
unfolding next_index wake latest touches content
race_free_example = race_free two 0 passed.1

second_pop_defined_example : passed.0.consumer ≢ Consumer.undefined
unfolding next_index wake latest touches content
second_pop_defined_example = second_pop_defined two 0 passed.1

refused_as_found_example : (1 ≡ 0 + 1) × (0 ≤ 1)
unfolding next_index wake latest touches content
refused_as_found_example =
    refused_as_found two 0 passed.1 8 1 0 first refl
      (record { coherent = omega arith; found = refl }) refl
