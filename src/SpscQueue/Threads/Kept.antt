-- ===== src/SpscQueue/Threads/Kept.antt =====
-- Every step of either thread keeps the invariant.
use hft_deribit.Prelude.{
  ℕ, ◌-◌, ◌<◌, ◌≡◌, refl, sym, ap, ◌∙◌, subst, arith, Bool, false, List, [], ◌∷◌, ◌++◌, map, Option,
  some, length, get_elem?, set, ◌==◌, is_empty, ltb, append_assoc, not,
}
use mathlib.Core.List.{map-append}
use hft_deribit.SpscQueue.{next_index}
use hft_deribit.SpscQueue.Holds.{
  IsCapacity, Holds, init-Holds, empty_test, pop_test, full_test, write-Holds, written,
  advance-Holds, consume-Holds,
}
use hft_deribit.SpscQueue.Threads.{
  Producer, Call, Consumer, State, start, wake, found_empty, Step, push_load, push_full, push_check,
  push_write, push_publish, push_notify, pop_load, pop_empty, pop_check, pop_read, pop_release,
  test_load, test_fails, test_holds, block, spurious, sure_load, Reach, begin, next,
}
use hft_deribit.SpscQueue.Threads.Invariant.{
  Producing, Consuming, Inv, Consuming-append, wake-Consuming, found_empty-Consuming,
  Producing-tail,
}

module _ {A : Type 0} {n : ℕ} (c : IsCapacity n) {s : State A} (inv : Inv n s) where
  open inv use {items, holds, history}

  -- The local facts at a known place.
  at_producer : {p : Producer A} → s.producer ≡ p → Producing n s.queue items p
  at_producer e = subst (Producing n s.queue items) e inv.producing

  at_consumer : {p : Consumer A} → s.consumer ≡ p → Consuming s.queue.tail items p
  at_consumer e = subst (Consuming s.queue.tail items) e inv.consuming

  -- The producer alone moves on, or the consumer alone.
  producer_moves :
      (p : Producer A) → Producing n s.queue items p → Inv n (record s { producer = p })
  producer_moves p h = record {
    items = items;
    holds = holds;
    history = history;
    producing = h;
    consuming = inv.consuming;
  }

  consumer_moves :
      (p : Consumer A) → Consuming s.queue.tail items p → Inv n (record s { consumer = p })
  consumer_moves p h = record {
    items = items;
    holds = holds;
    history = history;
    producing = inv.producing;
    consuming = h;
  }

  check_passed :
      (h : ℕ) → h ≡ s.queue.head → (next_index n h == s.queue.tail) ≡ false → length items < n - 1
  check_passed h e test =
      let free : not (ltb (length items) (n - 1)) ≡ false =
        sym (full_test c holds) ∙ ap (λ (i : ℕ). next_index n i == s.queue.tail) (sym e) ∙ test in
      ground (arith, free)

  write_keeps :
      (v : A) (h : ℕ)
      → h ≡ s.queue.head
      → length items < n - 1
      → Inv n (record s {
        queue = record (s.queue) { buffer = set s.queue.buffer h v };
        producer = Producer.written v h;
      })
  write_keeps v h e room =
      subst
        (λ i. Inv n (record s {
          queue = record (s.queue) { buffer = set s.queue.buffer i v };
          producer = Producer.written v i;
        }))
        (sym e)
        (record {
          items = items;
          holds = write-Holds c holds v;
          history = history;
          producing = (refl, room, written c holds v);
          consuming = inv.consuming;
        })

  publish_keeps :
      (v : A) (h : ℕ)
      → Producing n s.queue items (Producer.written v h)
      → Inv n (record s {
        queue = record (s.queue) { head = next_index n h };
        producer = Producer.notifying;
        sent = s.sent ++ v ∷ [];
      })
  publish_keeps v h f =
      subst
        (λ i. Inv n (record s {
          queue = record (s.queue) { head = next_index n i };
          producer = Producer.notifying;
          sent = s.sent ++ v ∷ [];
        }))
        (sym f.0)
        (record {
          items = items ++ v ∷ [];
          holds = advance-Holds c holds v f.2 f.1;
          history = simp (map-append, history, append_assoc);
          producing = tt;
          consuming = Consuming-append s.queue.tail items v s.consumer inv.consuming;
        })

-- A delivery takes the oldest element.
module _ {A : Type 0} {n : ℕ} (c : IsCapacity n) (s : State A) (o : Option A) where
  abbrev released : ℕ → State A
  released t = record s {
    queue = record (s.queue) { tail = next_index n t };
    consumer = Consumer.idle;
    received = s.received ++ o ∷ [];
  }

  release_keeps :
      (xs : List A)
      → Holds n s.queue xs
      → map some s.sent ≡ s.received ++ map some xs
      → Producing n s.queue xs s.producer
      → (is_empty xs ≡ false) × (get_elem? xs 0 ≡ o)
      → Inv n (released s.queue.tail)
  release_keeps [] v h p f = absurd (ground arith)
  release_keeps (x ∷ xs) v h p f = record {
    items = xs;
    holds = (consume-Holds c v).1;
    history =
        h
        ∙ sym (
            append_assoc s.received (o ∷ []) (map some xs)
            ∙ ap (λ i. s.received ++ i ∷ map some xs) (sym (f.1)));
    producing = Producing-tail n s.queue (next_index n s.queue.tail) x xs s.producer p;
    consuming = tt;
  }

module _ {A : Type 0} {n : ℕ} (c : IsCapacity n) {s : State A} (inv : Inv n s) where
  open inv use {items, holds, history}

  -- What the consumer reads is the oldest element.
  read_front : is_empty items ≡ false → get_elem? items 0 ≡ get_elem? s.queue.buffer s.queue.tail
  read_front e = go items holds e
    where
      go :
          (xs : List A)
          → Holds n s.queue xs
          → is_empty xs ≡ false
          → get_elem? xs 0 ≡ get_elem? s.queue.buffer s.queue.tail
      go [] v e = absurd (ground arith)
      go (x ∷ xs) v e = sym (consume-Holds c v).0

  -- The two tests of the consumer, each a load of one end against its own copy of the other.
  pop_tested : (t : ℕ) {b : Bool} → t ≡ s.queue.tail → (t == s.queue.head) ≡ b → is_empty items ≡ b
  pop_tested t e h = sym (pop_test c holds) ∙ ap (λ (i : ℕ). i == s.queue.head) (sym e) ∙ h

  -- Every step keeps the invariant.
  pub Step-Inv : {t : State A} → Step n s t → Inv n t
  unfolding producer_moves
  Step-Inv (push_load v e) = producer_moves c inv (Producer.loaded v s.queue.head) refl
  Step-Inv (push_full v h e b) = producer_moves c inv Producer.idle tt
  Step-Inv (push_check v h e b) =
      let f : h ≡ s.queue.head = at_producer c inv e in
      producer_moves c inv (Producer.checked v h) (f, check_passed c inv h f b)
  Step-Inv (push_write v h e) =
      let f : (h ≡ s.queue.head) × (length items < n - 1) = at_producer c inv e in
      write_keeps c inv v h f.0 f.1
  Step-Inv (push_publish v h e) = publish_keeps c inv v h (at_producer c inv e)
  Step-Inv (push_notify e) =
      let moved : Inv n (record s { producer = Producer.idle }) =
        producer_moves c inv Producer.idle tt in
      consumer_moves c moved (wake s.consumer)
        (wake-Consuming s.queue.tail items s.consumer inv.consuming)
  Step-Inv (pop_load k e ne) =
      consumer_moves c inv (Consumer.loaded k s.queue.tail) (refl, λ q. absurd (ne q))
  Step-Inv (pop_empty k t e b) =
      let f : (t ≡ s.queue.tail) × (k ≡ Call.sure → is_empty items ≡ false) = at_consumer c inv e in
      consumer_moves c inv (found_empty k)
        (found_empty-Consuming s.queue.tail items k (pop_tested t f.0 b) f.1)
  Step-Inv (pop_check k t e b) =
      let f : (t ≡ s.queue.tail) × (k ≡ Call.sure → is_empty items ≡ false) = at_consumer c inv e in
      consumer_moves c inv (Consumer.reading t) (f.0, pop_tested t f.0 b)
  Step-Inv (pop_read t e) =
      let f : (t ≡ s.queue.tail) × (is_empty items ≡ false) = at_consumer c inv e in
      consumer_moves c inv (Consumer.holding t (get_elem? s.queue.buffer t))
        (f.0, f.1, read_front f.1 ∙ ap (get_elem? s.queue.buffer) (sym f.0))
  Step-Inv (pop_release t o e) =
      let f : (t ≡ s.queue.tail) × (is_empty items ≡ false) × (get_elem? items 0 ≡ o) =
        at_consumer c inv e in
      subst (λ i. Inv n (released c s o i)) (sym f.0)
        (release_keeps c s o items holds history inv.producing (f.1, f.2))
  Step-Inv (test_load e) =
      consumer_moves c inv (Consumer.tested s.queue.head) (λ b. sym (empty_test c holds) ∙ b)
  Step-Inv (test_fails h e b) = consumer_moves c inv Consumer.before_block tt
  Step-Inv (test_holds h e b) =
      let f : (h == s.queue.tail) ≡ false → is_empty items ≡ false = at_consumer c inv e in
      consumer_moves c inv Consumer.before_sure (f b)
  Step-Inv (block e) = consumer_moves c inv Consumer.asleep tt
  Step-Inv (spurious e) = consumer_moves c inv Consumer.testing tt
  Step-Inv (sure_load e) =
      let f : is_empty items ≡ false = at_consumer c inv e in
      consumer_moves c inv (Consumer.loaded Call.sure s.queue.tail) (refl, λ q. f)

module _ {A : Type 0} {n : ℕ} (c : IsCapacity n) (default : A) where
  start-Inv : Inv n (start n default)
  start-Inv = record {
    items = [];
    holds = init-Holds c default;
    history = refl;
    producing = tt;
    consuming = tt;
  }

  pub Reach-Inv : {s : State A} → Reach n default s → Inv n s
  Reach-Inv begin = start-Inv
  Reach-Inv (next r st) = Step-Inv c (Reach-Inv r) st
