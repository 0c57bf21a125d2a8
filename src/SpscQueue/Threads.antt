-- ===== src/SpscQueue/Threads.antt =====
-- include/deribit/spsc_queue.h with its two threads: each load, store and wait is a step of its
-- own, and the steps of producer and consumer interleave in any order. Memory is sequentially
-- consistent here: a load reads the last store. Weak has the acquire and release orders.
pub mod Invariant
pub mod Kept
pub mod Safety
use hft_deribit.Prelude.{
  ℕ, ◌≡◌, Bool, true, false, List, [], ◌∷◌, ◌++◌, Option, get_elem?, set, ◌==◌,
}
use hft_deribit.SpscQueue.{SpscQueue, init, next_index}

-- Where the producer stands in `push`, with its locals.
pub data Producer (A : Type 0) : Type 0 where
  idle : Producer A
  loaded : (v : A) (h : ℕ) → Producer A
  checked : (v : A) (h : ℕ) → Producer A
  written : (v : A) (h : ℕ) → Producer A
  notifying : Producer A

-- Which call of `pop` the consumer is in: one from outside, the first of `wait_and_pop`, or the
-- second, which the source calls guaranteed.
pub data Call : Type 0 where
  outside fast sure : Call

-- Where the consumer stands in `pop` or `wait_and_pop`, with its locals.
pub data Consumer (A : Type 0) : Type 0 where
  idle : Consumer A
  loaded : (k : Call) (t : ℕ) → Consumer A
  reading : (t : ℕ) → Consumer A
  holding : (t : ℕ) (o : Option A) → Consumer A
  -- under the lock: before the predicate of `wait`, between its two loads, and after it
  testing : Consumer A
  tested : (h : ℕ) → Consumer A
  before_block : Consumer A
  asleep : Consumer A
  before_sure : Consumer A
  -- the second `pop` found nothing, and `*v` reads an empty optional
  undefined : Consumer A

-- The memory, both threads, and what has been published and delivered so far.
pub record State (A : Type 0) : Type 0 where
  pub queue : SpscQueue A
  pub producer : Producer A
  pub consumer : Consumer A
  pub sent : List A
  pub received : List (Option A)

abbrev pub start : {A : Type 0} → ℕ → A → State A
start n default = record {
  queue = init n default;
  producer = Producer.idle;
  consumer = Consumer.idle;
  sent = [];
  received = [];
}

-- `notify_one` wakes the consumer if it waits, and is lost if it does not.
unfoldable pub wake : {A : Type 0} → Consumer A → Consumer A
wake Consumer.asleep = Consumer.testing
wake (Consumer.idle) = Consumer.idle
wake (Consumer.loaded k t) = Consumer.loaded k t
wake (Consumer.reading t) = Consumer.reading t
wake (Consumer.holding t o) = Consumer.holding t o
wake (Consumer.testing) = Consumer.testing
wake (Consumer.tested h) = Consumer.tested h
wake (Consumer.before_block) = Consumer.before_block
wake (Consumer.before_sure) = Consumer.before_sure
wake (Consumer.undefined) = Consumer.undefined

-- Where a `pop` that finds the queue empty leaves the consumer.
unfoldable pub found_empty : {A : Type 0} → Call → Consumer A
found_empty Call.outside = Consumer.idle
found_empty Call.fast = Consumer.testing
found_empty Call.sure = Consumer.undefined

pub data Step {A : Type 0} (n : ℕ) (s : State A) : State A → Type 0 where
  -- `push`
  push_load :
      (v : A)
      → s.producer ≡ Producer.idle
      → Step n s (record s { producer = Producer.loaded v s.queue.head })
  push_full :
      (v : A) (h : ℕ)
      → s.producer ≡ Producer.loaded v h
      → (next_index n h == s.queue.tail) ≡ true
      → Step n s (record s { producer = Producer.idle })
  push_check :
      (v : A) (h : ℕ)
      → s.producer ≡ Producer.loaded v h
      → (next_index n h == s.queue.tail) ≡ false
      → Step n s (record s { producer = Producer.checked v h })
  push_write :
      (v : A) (h : ℕ)
      → s.producer ≡ Producer.checked v h
      → Step n s (record s {
        queue = record (s.queue) { buffer = set s.queue.buffer h v };
        producer = Producer.written v h;
      })
  push_publish :
      (v : A) (h : ℕ)
      → s.producer ≡ Producer.written v h
      → Step n s (record s {
        queue = record (s.queue) { head = next_index n h };
        producer = Producer.notifying;
        sent = s.sent ++ v ∷ [];
      })
  push_notify :
      s.producer ≡ Producer.notifying
      → Step n s (record s { producer = Producer.idle; consumer = wake s.consumer })
  -- `pop`, from outside or as the fast path of `wait_and_pop`
  pop_load :
      (k : Call)
      → s.consumer ≡ Consumer.idle
      → (k ≡ Call.sure → ⊥)
      → Step n s (record s { consumer = Consumer.loaded k s.queue.tail })
  pop_empty :
      (k : Call) (t : ℕ)
      → s.consumer ≡ Consumer.loaded k t
      → (t == s.queue.head) ≡ true
      → Step n s (record s { consumer = found_empty k })
  pop_check :
      (k : Call) (t : ℕ)
      → s.consumer ≡ Consumer.loaded k t
      → (t == s.queue.head) ≡ false
      → Step n s (record s { consumer = Consumer.reading t })
  pop_read :
      (t : ℕ)
      → s.consumer ≡ Consumer.reading t
      → Step n s (record s { consumer = Consumer.holding t (get_elem? s.queue.buffer t) })
  pop_release :
      (t : ℕ) (o : Option A)
      → s.consumer ≡ Consumer.holding t o
      → Step n s (record s {
        queue = record (s.queue) { tail = next_index n t };
        consumer = Consumer.idle;
        received = s.received ++ o ∷ [];
      })
  -- the slow path of `wait_and_pop`
  test_load :
      s.consumer ≡ Consumer.testing
      → Step n s (record s { consumer = Consumer.tested s.queue.head })
  test_fails :
      (h : ℕ)
      → s.consumer ≡ Consumer.tested h
      → (h == s.queue.tail) ≡ true
      → Step n s (record s { consumer = Consumer.before_block })
  test_holds :
      (h : ℕ)
      → s.consumer ≡ Consumer.tested h
      → (h == s.queue.tail) ≡ false
      → Step n s (record s { consumer = Consumer.before_sure })
  block : s.consumer ≡ Consumer.before_block → Step n s (record s { consumer = Consumer.asleep })
  spurious : s.consumer ≡ Consumer.asleep → Step n s (record s { consumer = Consumer.testing })
  sure_load :
      s.consumer ≡ Consumer.before_sure
      → Step n s (record s { consumer = Consumer.loaded Call.sure s.queue.tail })

pub data Reach {A : Type 0} (n : ℕ) (default : A) : State A → Type 0 where
  begin : Reach n default (start n default)
  next : {s t : State A} → Reach n default s → Step n s t → Reach n default t
