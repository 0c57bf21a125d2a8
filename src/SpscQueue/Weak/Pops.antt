-- ===== src/SpscQueue/Weak/Pops.antt =====
-- The consumer's steps keep the invariant.
use native.Mathlib.Decide.{ℕ_discrete}
use hft_deribit.Prelude.{
  ap₂, ℕ, ◌+◌, ◌%◌, ◌≤◌, ◌<◌, ◌≡◌, refl, sym, ap, ◌∙◌, subst, arith, true, false, List, length, max,
  ◌==◌,
}
use hft_deribit.SpscQueue.Holds.{IsCapacity}
use hft_deribit.SpscQueue.Threads.{Call, Consumer, found_empty}
use hft_deribit.SpscQueue.Weak.{State, Message, Loads, latest, acquire_head}
use hft_deribit.SpscQueue.Weak.Orders.{message, latest-counted, Loads-counted}
use hft_deribit.SpscQueue.Weak.Slots.{visited, slot_same, slot_same}
use hft_deribit.SpscQueue.Weak.Invariant.{Consuming, unreleased, Inv}

differs : (n i k : ℕ) → i ≤ k → (i % n == k % n) ≡ false → i < k
differs n i k h apart = elim (ℕ_discrete i k) [
  | no e ↦ omega (arith, h, e)
  | yes e ↦ ground (arith, ap (λ (x : ℕ). x % n) e)
]

-- A `pop` that finds the queue empty was not one that counted on an element.
found_empty-Consuming :
    {A : Type 0} (n received seen : ℕ) (xs : List A) (call : Call)
    → (call ≡ Call.sure → ⊥)
    → Consuming n received seen xs (found_empty call)
unfolding found_empty
found_empty-Consuming n r seen xs Call.outside h = tt
found_empty-Consuming n r seen xs Call.fast h = tt
found_empty-Consuming n r seen xs Call.sure h = h refl

found_empty-unreleased : (A : Type 0) (call : Call) → unreleased (found_empty {A = A} call) ≡ 0
unfolding found_empty
found_empty-unreleased A Call.outside = refl
found_empty-unreleased A Call.fast = refl
found_empty-unreleased A Call.sure = refl

module _ {A : Type 0} {n : ℕ} (c : IsCapacity n) {s : State A} (inv : Inv n s) where
  pub at_consumer :
      {p : Consumer A} → s.consumer ≡ p → Consuming n (length s.received) s.head_view s.sent p
  at_consumer e = subst (Consuming n (length s.received) s.head_view s.sent) e inv.consuming

  pub reads_at :
      {p : Consumer A} → s.consumer ≡ p → s.reads ≡ visited n 0 (length s.received + unreleased p)
  reads_at e = inv.reads ∙ ap (λ p. visited n 0 (length s.received + unreleased p)) e

  pub own_tail : latest s.tails ≡ length s.received % n
  own_tail = ap latest inv.tails ∙ latest-counted n (length s.received)

  -- The counts of what is found and what is taken are fewer than n apart.
  close_by : (k : ℕ) → k ≤ length s.sent → k < length s.received + n
  close_by k h = omega (arith, h, inv.room, inv.tail_seen)

  head_loaded :
      {k : ℕ} {m : Message}
      → Loads s.head_view s.heads k m
      → (s.head_view ≤ k)
        × (k ≤ length s.sent)
        × (m ≡ message n k)
        × (max s.writes_view m.released ≡ k)
  head_loaded {k} {m} l =
      let (old, young, e) = Loads-counted n (subst (λ ms. Loads s.head_view ms k m) inv.heads l) in
      (old, young, e, ground (arith, ap (λ m. m.released) e, inv.writes_seen, old))

  pub pop_load_keeps :
      {call : Call}
      → s.consumer ≡ Consumer.idle
      → (call ≡ Call.sure → ⊥)
      → Inv n (record s { consumer = Consumer.loaded call (latest s.tails) })
  pop_load_keeps {call} e outside =
      let own = own_tail in
      let r = reads_at e in
      let never : call ≡ Call.sure → length s.received < s.head_view = λ q. absurd (outside q) in
      ground (arith, own, r, never)

  pub empty_keeps :
      {call : Call} {t k : ℕ} {m : Message}
      → s.consumer ≡ Consumer.loaded call t
      → Loads s.head_view s.heads k m
      → (t == m.value) ≡ true
      → Inv n (record (acquire_head s k m) { consumer = found_empty call })
  empty_keeps {call} {t} {k} {m} e l same =
      let (old, young, found, known) = head_loaded l in
      let (at, sure) : (t ≡ length s.received % n)
          × (call ≡ Call.sure → length s.received < s.head_view) =
        at_consumer e in
      let r = reads_at e in
      let none_ : length s.received ≡ k =
        slot_same n (length s.received) k (omega (arith, old, inv.taken)) (close_by k young)
          (sym (ap₂ ◌==◌ at (ap (λ m. m.value) found)) ∙ same) in
      let out =
        found_empty-Consuming n (length s.received) k s.sent call
          (λ q. omega (arith, sure q, old, none_)) in
      let rest = found_empty-unreleased A call in ground (arith, r, old, young, known, out, rest)

  pub check_keeps :
      {call : Call} {t k : ℕ} {m : Message}
      → s.consumer ≡ Consumer.loaded call t
      → Loads s.head_view s.heads k m
      → (t == m.value) ≡ false
      → Inv n (record (acquire_head s k m) { consumer = Consumer.reading t })
  check_keeps {call} {t} {k} {m} e l apart =
      let (old, young, found, known) = head_loaded l in
      let (at, sure) : (t ≡ length s.received % n)
          × (call ≡ Call.sure → length s.received < s.head_view) =
        at_consumer e in
      let r = reads_at e in
      let more : length s.received < k =
        differs n (length s.received) k (omega (arith, old, inv.taken))
          (sym (ap₂ ◌==◌ at (ap (λ m. m.value) found)) ∙ apart) in
      ground (arith, r, old, young, known, at, more)

  pub test_load_keeps :
      {k : ℕ} {m : Message}
      → s.consumer ≡ Consumer.testing
      → Loads s.head_view s.heads k m
      → Inv n (record (acquire_head s k m) { consumer = Consumer.tested m.value })
  test_load_keeps {k} {m} e l =
      let (old, young, found, known) = head_loaded l in
      let r = reads_at e in
      let value : m.value ≡ k % n = ap (λ m. m.value) found in
      ground (arith, r, old, young, known, value)

  pub test_fails_keeps :
      {h : ℕ}
      → s.consumer ≡ Consumer.tested h
      → Inv n (record s { consumer = Consumer.before_block })
  test_fails_keeps e = let r = reads_at e in ground (arith, r)

  -- The predicate of `wait` holds only if the consumer has found an element that it did not take.
  pub test_holds_keeps :
      {h : ℕ}
      → s.consumer ≡ Consumer.tested h
      → (h == latest s.tails) ≡ false
      → Inv n (record s { consumer = Consumer.before_sure })
  test_holds_keeps {h} e apart =
      let r = reads_at e in
      let at : h ≡ s.head_view % n = at_consumer e in
      let flipped : (length s.received % n == s.head_view % n) ≡ false =
        ground (arith, at, own_tail, apart) in
      let more = differs n (length s.received) s.head_view inv.taken flipped in
      ground (arith, r, more)

  pub block_keeps :
      s.consumer ≡ Consumer.before_block → Inv n (record s { consumer = Consumer.asleep })
  block_keeps e = let r = reads_at e in ground (arith, r)

  pub spurious_keeps :
      s.consumer ≡ Consumer.asleep → Inv n (record s { consumer = Consumer.testing })
  spurious_keeps e = let r = reads_at e in ground (arith, r)

  pub sure_load_keeps :
      s.consumer ≡ Consumer.before_sure
      → Inv n (record s { consumer = Consumer.loaded Call.sure (latest s.tails) })
  sure_load_keeps e =
      let r = reads_at e in
      let own = own_tail in
      let more : length s.received < s.head_view = at_consumer e in ground (arith, r, own, more)
