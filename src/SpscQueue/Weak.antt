-- ===== src/SpscQueue/Weak.antt =====
-- include/deribit/spsc_queue.h under the memory orders that the source writes. Every store of `head`
-- and `tail` stays in memory as a message. A load of the other thread's index finds any message that
-- is no older than one its thread has found before, so it may be stale; a load of the own index
-- finds the last one. The cells of the buffer are no atomics: an access that conflicts with one of
-- the other thread that does not happen before it is a data race, and a load finds the last store
-- that happens before it. A release store makes the accesses of its thread so far happen before an
-- acquire load that finds it. Only one thread stores each index, so that no message needs a view of
-- the other index. The lock of `wait_and_pop` is taken by the consumer alone, and orders nothing.
pub mod Orders
pub mod Slots
pub mod Invariant
pub mod Pushes
pub mod Pops
pub mod Reads
pub mod Kept
pub mod Safety
pub mod Strong
use hft_deribit.Prelude.{
  ℕ, ◌≤◌, ◌≡◌, Bool, true, false, ◌||◌, List, [], ◌∷◌, ◌++◌, Option, some, none, get_elem?, length,
  map, take, drop, ltb, ◌==◌, max, if◌then◌else◌,
}
use hft_deribit.SpscQueue.{next_index}
use hft_deribit.SpscQueue.Threads.{Producer, Call, Consumer, wake, found_empty}

-- A store of an index: its value, and how many cells its thread had accessed before.
pub record Message : Type 0 where
  pub value : ℕ
  pub released : ℕ

-- A load by a thread that has found message `view`, or none later: it finds message `k`.
pub record Loads (view : ℕ) (messages : List Message) (k : ℕ) (m : Message) : Type 0 where
  pub coherent : view ≤ k
  pub found : get_elem? messages k ≡ some m

-- The value of the last message.
unfoldable pub latest : List Message → ℕ
latest [] = 0
latest (m ∷ []) = m.value
latest (m ∷ m' ∷ more) = latest (m' ∷ more)

-- Whether one of the accesses is to the cell.
unfoldable pub touches : ℕ → List ℕ → Bool
touches t [] = false
touches t (i ∷ is) = i == t || touches t is

-- What a cell holds after some stores, if it held `a` before.
unfoldable pub content : {A : Type 0} → A → List (ℕ × A) → ℕ → A
content a [] t = a
content a (w ∷ ws) t = content (if w.0 == t then w.1 else a) ws t

pub record State (A : Type 0) : Type 0 where
  -- the stores of the producer and the loads of the consumer in the buffer, by their cells
  pub writes : List (ℕ × A)
  pub reads : List ℕ
  -- the messages of `head` and of `tail`
  pub heads : List Message
  pub tails : List Message
  -- what each thread has found: the message of the other's index, and the accesses before it
  pub producer : Producer A
  pub tail_view : ℕ
  pub reads_view : ℕ
  pub consumer : Consumer A
  pub head_view : ℕ
  pub writes_view : ℕ
  -- history: whether there was a data race, and what was published and delivered
  pub raced : Bool
  pub sent : List A
  pub received : List (Option A)

abbrev pub start : {A : Type 0} → State A
start = record {
  writes = [];
  reads = [];
  heads = record { value = 0; released = 0 } ∷ [];
  tails = record { value = 0; released = 0 } ∷ [];
  producer = Producer.idle;
  tail_view = 0;
  reads_view = 0;
  consumer = Consumer.idle;
  head_view = 0;
  writes_view = 0;
  raced = false;
  sent = [];
  received = [];
}

-- An acquire load of the producer, and one of the consumer.
abbrev pub acquire_tail : {A : Type 0} → State A → ℕ → Message → State A
acquire_tail s k m = record s { tail_view = k; reads_view = max s.reads_view m.released }

abbrev pub acquire_head : {A : Type 0} → State A → ℕ → Message → State A
acquire_head s k m = record s { head_view = k; writes_view = max s.writes_view m.released }

-- The steps of `Threads`; the cells hold `default` at first, and `n` of them are there.
pub data Step {A : Type 0} (n : ℕ) (default : A) (s : State A) : State A → Type 0 where
  -- `push`
  push_load :
      (v : A)
      → s.producer ≡ Producer.idle
      → Step n default s (record s { producer = Producer.loaded v (latest s.heads) })
  push_full :
      (v : A) (h k : ℕ) (m : Message)
      → s.producer ≡ Producer.loaded v h
      → Loads s.tail_view s.tails k m
      → (next_index n h == m.value) ≡ true
      → Step n default s (record (acquire_tail s k m) { producer = Producer.idle })
  push_check :
      (v : A) (h k : ℕ) (m : Message)
      → s.producer ≡ Producer.loaded v h
      → Loads s.tail_view s.tails k m
      → (next_index n h == m.value) ≡ false
      → Step n default s (record (acquire_tail s k m) { producer = Producer.checked v h })
  push_write :
      (v : A) (h : ℕ)
      → s.producer ≡ Producer.checked v h
      → Step n default s (record s {
        writes = s.writes ++ (h, v) ∷ [];
        raced = s.raced || touches h (drop s.reads_view s.reads);
        producer = Producer.written v h;
      })
  push_publish :
      (v : A) (h : ℕ)
      → s.producer ≡ Producer.written v h
      → Step n default s (record s {
        heads = s.heads ++ record { value = next_index n h; released = length s.writes } ∷ [];
        producer = Producer.notifying;
        sent = s.sent ++ v ∷ [];
      })
  push_notify :
      s.producer ≡ Producer.notifying
      → Step n default s (record s { producer = Producer.idle; consumer = wake s.consumer })
  -- `pop`
  pop_load :
      (call : Call)
      → s.consumer ≡ Consumer.idle
      → (call ≡ Call.sure → ⊥)
      → Step n default s (record s { consumer = Consumer.loaded call (latest s.tails) })
  pop_empty :
      (call : Call) (t k : ℕ) (m : Message)
      → s.consumer ≡ Consumer.loaded call t
      → Loads s.head_view s.heads k m
      → (t == m.value) ≡ true
      → Step n default s (record (acquire_head s k m) { consumer = found_empty call })
  pop_check :
      (call : Call) (t k : ℕ) (m : Message)
      → s.consumer ≡ Consumer.loaded call t
      → Loads s.head_view s.heads k m
      → (t == m.value) ≡ false
      → Step n default s (record (acquire_head s k m) { consumer = Consumer.reading t })
  pop_read :
      (t : ℕ)
      → s.consumer ≡ Consumer.reading t
      → Step n default s (record s {
        reads = s.reads ++ t ∷ [];
        raced = s.raced || touches t (map (λ w. w.0) (drop s.writes_view s.writes));
        consumer =
            Consumer.holding t
              (if ltb t n then some (content default (take s.writes_view s.writes) t) else none);
      })
  pop_release :
      (t : ℕ) (o : Option A)
      → s.consumer ≡ Consumer.holding t o
      → Step n default s (record s {
        tails = s.tails ++ record { value = next_index n t; released = length s.reads } ∷ [];
        consumer = Consumer.idle;
        received = s.received ++ o ∷ [];
      })
  -- the slow path of `wait_and_pop`; `empty` loads the own index last
  test_load :
      (k : ℕ) (m : Message)
      → s.consumer ≡ Consumer.testing
      → Loads s.head_view s.heads k m
      → Step n default s (record (acquire_head s k m) { consumer = Consumer.tested m.value })
  test_fails :
      (h : ℕ)
      → s.consumer ≡ Consumer.tested h
      → (h == latest s.tails) ≡ true
      → Step n default s (record s { consumer = Consumer.before_block })
  test_holds :
      (h : ℕ)
      → s.consumer ≡ Consumer.tested h
      → (h == latest s.tails) ≡ false
      → Step n default s (record s { consumer = Consumer.before_sure })
  block :
      s.consumer ≡ Consumer.before_block
      → Step n default s (record s { consumer = Consumer.asleep })
  spurious :
      s.consumer ≡ Consumer.asleep → Step n default s (record s { consumer = Consumer.testing })
  sure_load :
      s.consumer ≡ Consumer.before_sure
      → Step n default s (record s { consumer = Consumer.loaded Call.sure (latest s.tails) })

pub data Reach {A : Type 0} (n : ℕ) (default : A) : State A → Type 0 where
  begin : Reach n default start
  next : {s t : State A} → Reach n default s → Step n default s t → Reach n default t
