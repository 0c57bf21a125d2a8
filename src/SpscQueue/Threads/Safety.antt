-- ===== src/SpscQueue/Threads/Safety.antt =====
-- What holds in every reachable state of the two threads, and where a wakeup is lost.
use hft_deribit.Prelude.{
  ℕ, ◌+◌, ◌-◌, ◌<◌, ◌≤◌, ◌≡◌, ◌≢◌, refl, sym, ap, ◌∙◌, subst, arith, true, false, List, [], ◌∷◌,
  ◌++◌, map, some, length, ◌==◌, is_empty, length-append, ltb, not, ◌⊎◌, inl, inr,
}
use hft_deribit.SpscQueue.{next_index, init, empty}
use hft_deribit.SpscQueue.Holds.{IsCapacity, full_test, pop_test, next_index_lem}
use hft_deribit.SpscQueue.Threads.{
  Producer, Call, Consumer, State, wake, found_empty, Step, push_load, push_full, push_check,
  push_write, push_publish, push_notify, pop_load, pop_empty, pop_check, pop_read, pop_release,
  test_load, test_fails, test_holds, block, spurious, sure_load, Reach, begin, next,
}
use hft_deribit.SpscQueue.Threads.Invariant.{Producing, Consuming, Inv}
use hft_deribit.SpscQueue.Threads.Kept.{Reach-Inv}

length-map-some : {A : Type 0} (xs : List A) → length (map some xs) ≡ length xs
length-map-some [] = refl
length-map-some (x ∷ xs) = omega (arith, length-map-some xs)

module _ {A : Type 0} {n : ℕ} (c : IsCapacity n) (default : A) {s : State A}
    (r : Reach n default s) where
  -- In every state that the two threads reach from a new queue of N cells, N a power of two of at
  -- most 2 ^ 63: what was published is what was delivered, in order and without loss or repetition,
  -- followed by the elements on the way, which are fewer than N.
  delivered_in_order :
      (xs : List A) × (map some s.sent ≡ s.received ++ map some xs) × (length xs < n)
  delivered_in_order =
      let inv : Inv n s = Reach-Inv c default r in (inv.items, inv.history, inv.holds.room)

  -- In every state reached from a new queue of N cells, N a power of two of at most 2 ^ 63, the
  -- second `pop` of `wait_and_pop` has not found the queue empty.
  wait_and_pop_defined : s.consumer ≢ Consumer.undefined
  wait_and_pop_defined e =
      let inv : Inv n s = Reach-Inv c default r in
      subst (Consuming s.queue.tail inv.items) e inv.consuming

  -- In every state reached from a new queue of N cells, N a power of two of at most 2 ^ 63: when
  -- the producer is about to write a cell and the consumer to read one, the cells differ.
  no_data_race :
      (v : A) (h t : ℕ)
      → s.producer ≡ Producer.checked v h
      → s.consumer ≡ Consumer.reading t
      → h ≢ t
  no_data_race v h t p q same =
      let inv : Inv n s = Reach-Inv c default r in
      let f : (h ≡ s.queue.head) × (length inv.items < n - 1) =
        subst (Producing n s.queue inv.items) p inv.producing in
      let g : (t ≡ s.queue.tail) × (is_empty inv.items ≡ false) =
        subst (Consuming s.queue.tail inv.items) q inv.consuming in
      ground (arith, pop_test c inv.holds)

  -- In every state reached from a new queue of N cells, N a power of two of at most 2 ^ 63: when
  -- `push` is about to refuse, exactly N - 1 published elements are not delivered.
  refused_when_full :
      (v : A) (h : ℕ)
      → s.producer ≡ Producer.loaded v h
      → (next_index n h == s.queue.tail) ≡ true
      → length s.sent ≡ length s.received + (n - 1)
  refused_when_full v h p b =
      let inv : Inv n s = Reach-Inv c default r in
      let f : h ≡ s.queue.head = subst (Producing n s.queue inv.items) p inv.producing in
      let full : not (ltb (length inv.items) (n - 1)) ≡ true =
        sym (full_test c inv.holds) ∙ ap (λ (i : ℕ). next_index n i == s.queue.tail) (sym f) ∙ b in
      ground (
        arith,
        full,
        inv.holds.room,
        ap length inv.history,
        length-map-some s.sent,
        length-map-some inv.items,
        length-append s.received (map some inv.items),
      )

-- A state in which the consumer sleeps, no notification is on its way, and an element waits.
pub record IsLost {A : Type 0} (s : State A) : Type 0 where
  pub sleeps : s.consumer ≡ Consumer.asleep
  pub quiet : s.producer ≡ Producer.idle
  pub waiting : empty s.queue ≡ false

-- For N of at least 2, a power of two of at most 2 ^ 63, a state is reached in which an element is
-- queued, its notification is over, and the consumer sleeps in `wait_and_pop`.
pub IsLost-wakeup :
    {A : Type 0} {n : ℕ} (c : IsCapacity n) (default v : A)
    → 2 ≤ n
    → (s : State A) × Reach n default s × IsLost s
unfolding init empty wake found_empty
IsLost-wakeup {A} {n} c default v two =
    let moved : next_index n 0 ≡ 1 = ground (arith, next_index_lem c 0) in
    (
      _,
      next
          (next
            (next
              (next
                (next
                  (next
                    (next
                      (next
                        (next (next begin (pop_load Call.fast refl (λ e. cc)))
                          (pop_empty Call.fast 0 refl refl))
                        (test_load refl))
                      (test_fails 0 refl refl))
                    (push_load v refl))
                  (push_check v 0 refl (rw moved refl)))
                (push_write v 0 refl))
              (push_publish v 0 refl))
            (push_notify refl))
          (block refl),
      record { sleeps = refl; quiet = refl; waiting = rw moved refl },
    )

-- In such a state every step either is the consumer's spurious wakeup or begins another `push`.
IsLost-Step :
    {A : Type 0} {n : ℕ} {s t : State A}
    → IsLost s
    → Step n s t
    → (t.consumer ≡ Consumer.testing) ⊎ ((v : A) × (t.producer ≡ Producer.loaded v s.queue.head))
IsLost-Step w (push_load v e) = inr (v, refl)
IsLost-Step w (spurious e) = inl refl
IsLost-Step w (push_full v h e b) = cc (w.quiet)
IsLost-Step w (push_check v h e b) = cc (w.quiet)
IsLost-Step w (push_write v h e) = cc (w.quiet)
IsLost-Step w (push_publish v h e) = cc (w.quiet)
IsLost-Step w (push_notify e) = cc (w.quiet)
IsLost-Step w (pop_load k e ne) = cc (w.sleeps)
IsLost-Step w (pop_empty k t e b) = cc (w.sleeps)
IsLost-Step w (pop_check k t e b) = cc (w.sleeps)
IsLost-Step w (pop_read t e) = cc (w.sleeps)
IsLost-Step w (pop_release t o e) = cc (w.sleeps)
IsLost-Step w (test_load e) = cc (w.sleeps)
IsLost-Step w (test_fails h e b) = cc (w.sleeps)
IsLost-Step w (test_holds h e b) = cc (w.sleeps)
IsLost-Step w (block e) = cc (w.sleeps)
IsLost-Step w (sure_load e) = cc (w.sleeps)
