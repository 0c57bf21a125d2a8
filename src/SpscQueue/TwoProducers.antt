-- ===== src/SpscQueue/TwoProducers.antt =====
-- include/deribit/spsc_queue.h with two threads in `push`, as when a client is closed while its
-- receiver runs. The steps are those that `Threads` has for its producer.
use hft_deribit.Prelude.{
  ℕ, ◌-◌, ◌<◌, ◌≡◌, refl, sym, ap, ◌∙◌, subst, false, not, List, [], ◌∷◌, ◌++◌, length, set, ◌==◌,
  lt→ltb, if◌then◌else◌, Bool-cases, inl, inr, zero, suc,
}
use hft_deribit.SpscQueue.{SpscQueue, next_index}
use hft_deribit.SpscQueue.Holds.{IsCapacity, Holds, full_test, publish-Holds}
use hft_deribit.SpscQueue.Threads.{
  Producer, State, Step, push_full, push_check, push_write, push_publish,
}

-- The next access of a thread in `push`, up to the call of `notify_one`.
unfoldable pub advance : {A : Type 0} → ℕ → SpscQueue A → Producer A → SpscQueue A × Producer A
advance n q (Producer.idle) = (q, Producer.idle)
advance n q (Producer.loaded v h) =
    if next_index n h == q.tail then (q, Producer.idle) else (q, Producer.checked v h)
advance n q (Producer.checked v h) = (record q { buffer = set q.buffer h v }, Producer.written v h)
advance n q (Producer.written v h) = (record q { head = next_index n h }, Producer.notifying)
advance n q (Producer.notifying) = (q, Producer.notifying)

-- Two threads in `push`.
pub record Rivals (A : Type 0) : Type 0 where
  pub queue : SpscQueue A
  pub first : Producer A
  pub second : Producer A

-- Which of them goes on.
pub data Turn : Type 0 where
  of_first of_second : Turn

module _ {A : Type 0} (n : ℕ) where
  unfoldable pub turn : Rivals A → Turn → Rivals A
  turn r of_first = let (q, p) = advance n r.queue r.first in record r { queue = q; first = p }
  turn r of_second = let (q, p) = advance n r.queue r.second in record r { queue = q; second = p }

  unfoldable pub turns : Rivals A → List Turn → Rivals A
  turns r [] = r
  turns r (t ∷ ts) = turns (turn r t) ts

  -- Both have called `push` and loaded `head`.
  abbrev pub rivals : SpscQueue A → A → A → Rivals A
  rivals q v w = record {
    queue = q;
    first = Producer.loaded v q.head;
    second = Producer.loaded w q.head;
  }

-- A thread in `push` that has not published yet.
abbrev pub IsActive : {A : Type 0} → Producer A → Type 0
IsActive (Producer.idle) = ⊥
IsActive (Producer.loaded v h) = Unit
IsActive (Producer.checked v h) = Unit
IsActive (Producer.written v h) = Unit
IsActive (Producer.notifying) = ⊥

-- Its next access is the step that `Threads` has for a producer there.
advance-Step :
    {A : Type 0} (n : ℕ) (s : State A) (p : Producer A)
    → s.producer ≡ p
    → IsActive p
    → (t : State A) × Step n s t
      × (t.queue ≡ (advance n s.queue p).0)
      × (t.producer ≡ (advance n s.queue p).1)
unfolding advance
advance-Step n s (Producer.idle) e a = absurd a
advance-Step n s (Producer.notifying) e a = absurd a
advance-Step n s (Producer.loaded v h) e a = elim (Bool-cases (next_index n h == s.queue.tail)) [
  | inl full ↦ (_, push_full v h e full, rw full refl, rw full refl)
  | inr free ↦ (_, push_check v h e free, rw free refl, rw free refl)
]
advance-Step n s (Producer.checked v h) e a = (_, push_write v h e, refl, refl)
advance-Step n s (Producer.written v h) e a = (_, push_publish v h e, refl, refl)

set_again : {A : Type 0} (xs : List A) (i : ℕ) (v w : A) → set (set xs i v) i w ≡ set xs i w
set_again [] i v w = refl
set_again (x ∷ xs) zero v w = refl
set_again (x ∷ xs) (suc i) v w = ap (x ∷◌) (set_again xs i v w)

-- Test, write and publish, one thread behind the other.
abbrev pub in_step : List Turn
in_step = of_first ∷ of_second ∷ of_first ∷ of_second ∷ of_first ∷ of_second ∷ []

module _ {A : Type 0} {n : ℕ} (c : IsCapacity n) where
  in_step_lem :
      (q : SpscQueue A) (v w : A)
      → (next_index n q.head == q.tail) ≡ false
      → turns n (rivals n q v w) in_step ≡ record {
        queue = record q { buffer = set q.buffer q.head w; head = next_index n q.head };
        first = Producer.notifying;
        second = Producer.notifying;
      }
  unfolding turns turn advance
  in_step_lem q v w free = rw (free, free, set_again q.buffer q.head v w) refl

  -- Two threads push to a ring of N cells, N a power of two of at most 2 ^ 63, that holds a list
  -- and has room. There is an order of their accesses in which both pass the test and publish, and
  -- then only the second value is behind the list: the first is lost.
  pub rivals_lose :
      {q : SpscQueue A} {xs : List A} (v w : A)
      → Holds n q xs
      → length xs < n - 1
      → (ts : List Turn) × ((turns n (rivals n q v w) ts).first ≡ Producer.notifying)
        × ((turns n (rivals n q v w) ts).second ≡ Producer.notifying)
        × Holds n (turns n (rivals n q v w) ts).queue (xs ++ w ∷ [])
  rivals_lose {q} {xs} v w held room =
      let free : (next_index n q.head == q.tail) ≡ false =
        full_test c held ∙ ap not (lt→ltb (length xs) (n - 1) room) in
      let e = in_step_lem q v w free in
      (
        in_step,
        ap (λ r. r.first) e,
        ap (λ r. r.second) e,
        subst (λ r. Holds n r.queue (xs ++ w ∷ [])) (sym e) (publish-Holds c held w room),
      )
