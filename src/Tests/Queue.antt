-- ===== src/Tests/Queue.antt =====
-- The ring buffer, alone and between its threads.
use hft_deribit.Prelude.{ℕ, ◌≡◌, refl, arith, true, false, List, [], ◌∷◌, none, some}
use hft_deribit.SpscQueue.{init, next_index, push, pop, empty}
use hft_deribit.SpscQueue.Fifo
use hft_deribit.SpscQueue.Fifo.{Op, put, get, ask, taken, got, is_clear}
use hft_deribit.SpscQueue.Holds.{IsCapacity, init-Holds}
use hft_deribit.SpscQueue.Refine.{run, run_refines}
use hft_deribit.SpscQueue.Threads.{
  Producer, Call, Consumer, State, wake, push_load, push_check, push_write, push_publish,
  push_notify, pop_load, pop_check, spurious, Reach, begin, next, Step,
}
use hft_deribit.SpscQueue.Threads.Safety.{IsLost, IsLost-wakeup}

pub four : IsCapacity 4
four = record { pos = omega arith; small = omega arith; power = refl }

pub two : IsCapacity 2
two = record { pos = omega arith; small = omega arith; power = refl }

abbrev script : List (Op ℕ)
script = ask ∷ put 1 ∷ put 2 ∷ put 3 ∷ put 4 ∷ get ∷ put 5 ∷ get ∷ get ∷ get ∷ get ∷ ask ∷ []

-- Four cells hold three elements; the fourth push is refused, and the buffer wraps round.
run-script :
    Fifo.run 3 [] script
    ≡ is_clear true
      ∷ taken true
      ∷ taken true
      ∷ taken true
      ∷ taken false
      ∷ got (some 1)
      ∷ taken true
      ∷ got (some 2)
      ∷ got (some 3)
      ∷ got (some 5)
      ∷ got none
      ∷ is_clear true
      ∷ []
unfolding Fifo.run
run-script = refl

pop-push :
    pop {A = ℕ} 4 (push 4 (init 4 0) 7).0
    ≡ (record { buffer = 7 ∷ 0 ∷ 0 ∷ 0 ∷ []; head = 1; tail = 1 }, some 7)
unfolding pop push init
pop-push = refl

run_refines_example : run four (init 4 0) script ≡ Fifo.run 3 [] script
run_refines_example = run_refines four script (init-Holds four 0)

pub outside_not_sure : Call.outside ≡ Call.sure → ⊥
outside_not_sure e = cc

-- One element published, another one about to be written while the consumer is about to read.
abbrev crossing : (s : State ℕ) × Reach 4 0 s
unfolding init next_index wake
crossing = (
  _,
  next
      (next
        (next
          (next
            (next
              (next
                (next (next (next begin (push_load 7 refl)) (push_check 7 0 refl refl))
                  (push_write 7 0 refl))
                (push_publish 7 0 refl))
              (push_notify refl))
            (push_load 8 refl))
          (push_check 8 1 refl refl))
        (pop_load Call.outside refl outside_not_sure))
      (pop_check Call.outside 0 refl refl),
)

-- A queue of two cells that holds one element.
abbrev crowded : (s : State ℕ) × Reach 2 0 s
unfolding init next_index wake
crowded = (
  _,
  next
      (next
        (next
          (next (next (next begin (push_load 7 refl)) (push_check 7 0 refl refl))
            (push_write 7 0 refl))
          (push_publish 7 0 refl))
        (push_notify refl))
      (push_load 8 refl),
)

IsLost-wakeup_example : (s : State ℕ) × Reach 2 0 s × IsLost s
IsLost-wakeup_example = IsLost-wakeup two 0 7 (omega arith)

-- The consumer sleeps beside an element.
abbrev asleep_state : State ℕ
asleep_state = record {
  queue = record { buffer = 7 ∷ 0 ∷ []; head = 1; tail = 0 };
  producer = Producer.idle;
  consumer = Consumer.asleep;
  sent = 7 ∷ [];
  received = [];
}

asleep_state-IsLost : IsLost asleep_state
unfolding empty
asleep_state-IsLost = record { sleeps = refl; quiet = refl; waiting = refl }

woken_by_chance : Step 2 asleep_state (record asleep_state { consumer = Consumer.testing })
woken_by_chance = spurious refl
