-- ===== src/SpscQueue/Threads/Invariant.antt =====
-- What ties the two threads of the queue together, kept by every step of either.
use hft_deribit.Prelude.{
  ℕ, ◌-◌, ◌<◌, ◌≡◌, refl, arith, true, false, List, [], ◌∷◌, ◌++◌, map, some, length, get_elem?,
  ◌==◌, is_empty,
}
use hft_deribit.SpscQueue.{SpscQueue}
use hft_deribit.SpscQueue.Holds.{Holds}
use hft_deribit.SpscQueue.Threads.{Producer, Call, Consumer, State, wake, found_empty}

-- What the producer's locals say about the memory.
abbrev pub Producing : {A : Type 0} → ℕ → SpscQueue A → List A → Producer A → Type 0
Producing n q xs Producer.idle = Unit
Producing n q xs (Producer.loaded v h) = h ≡ q.head
Producing n q xs (Producer.checked v h) = (h ≡ q.head) × (length xs < n - 1)
Producing n q xs (Producer.written v h) =
    (h ≡ q.head) × (length xs < n - 1) × (get_elem? q.buffer q.head ≡ some v)
Producing n q xs Producer.notifying = Unit

-- What the consumer's locals say: where it counts on an element, there is one.
abbrev pub Consuming : {A : Type 0} → ℕ → List A → Consumer A → Type 0
Consuming tail xs (Consumer.loaded k t) = (t ≡ tail) × (k ≡ Call.sure → is_empty xs ≡ false)
Consuming tail xs (Consumer.reading t) = (t ≡ tail) × (is_empty xs ≡ false)
Consuming tail xs (Consumer.holding t o) = (t ≡ tail) × (is_empty xs ≡ false) × (get_elem? xs 0 ≡ o)
Consuming tail xs (Consumer.tested h) = (h == tail) ≡ false → is_empty xs ≡ false
Consuming tail xs Consumer.before_sure = is_empty xs ≡ false
Consuming tail xs Consumer.undefined = ⊥
Consuming tail xs _ = Unit

-- The queue holds what has been published and not yet delivered.
pub record Inv {A : Type 0} (n : ℕ) (s : State A) : Type 0 where
  pub items : List A
  pub holds : Holds n s.queue items
  pub history : map some s.sent ≡ s.received ++ map some items
  pub producing : Producing n s.queue items s.producer
  pub consuming : Consuming s.queue.tail items s.consumer

-- More elements at the back change nothing for the consumer.
pub Consuming-append :
    {A : Type 0} (tail : ℕ) (xs : List A) (v : A) (p : Consumer A)
    → Consuming tail xs p
    → Consuming tail (xs ++ v ∷ []) p
Consuming-append tail [] v (Consumer.loaded k t) h = (h.0, λ e. refl)
Consuming-append tail [] v (Consumer.reading t) h = absurd (ground arith)
Consuming-append tail [] v (Consumer.holding t o) h = absurd (ground arith)
Consuming-append tail [] v (Consumer.tested t) h = λ e. refl
Consuming-append tail [] v Consumer.before_sure h = refl
Consuming-append tail [] v Consumer.idle h = tt
Consuming-append tail [] v Consumer.testing h = tt
Consuming-append tail [] v Consumer.before_block h = tt
Consuming-append tail [] v Consumer.asleep h = tt
Consuming-append tail [] v Consumer.undefined h = h
Consuming-append tail (x ∷ xs) v (Consumer.loaded k t) h = h
Consuming-append tail (x ∷ xs) v p h = h

pub wake-Consuming :
    {A : Type 0} (tail : ℕ) (xs : List A) (p : Consumer A)
    → Consuming tail xs p
    → Consuming tail xs (wake p)
unfolding wake
wake-Consuming tail xs Consumer.asleep h = tt
wake-Consuming tail xs p h = h

-- A `pop` that finds the queue empty was not one that counted on an element.
pub found_empty-Consuming :
    {A : Type 0} (tail : ℕ) (xs : List A) (k : Call)
    → is_empty xs ≡ true
    → (k ≡ Call.sure → is_empty xs ≡ false)
    → Consuming tail xs (found_empty k)
unfolding found_empty
found_empty-Consuming tail xs Call.outside e h = tt
found_empty-Consuming tail xs Call.fast e h = tt
found_empty-Consuming tail xs Call.sure e h = absurd (ground (arith, h refl))

-- Fewer elements and another `tail` change nothing for the producer.
pub Producing-tail :
    {A : Type 0} (n : ℕ) (q : SpscQueue A) (t : ℕ) (x : A) (xs : List A) (p : Producer A)
    → Producing n q (x ∷ xs) p
    → Producing n (record q { tail = t }) xs p
Producing-tail n q t x xs Producer.idle h = tt
Producing-tail n q t x xs (Producer.loaded v i) h = h
Producing-tail n q t x xs (Producer.checked v i) h = (h.0, omega arith)
Producing-tail n q t x xs (Producer.written v i) h = (h.0, omega arith, h.2)
Producing-tail n q t x xs Producer.notifying h = tt
