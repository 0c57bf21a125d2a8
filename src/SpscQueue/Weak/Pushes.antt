-- ===== src/SpscQueue/Weak/Pushes.antt =====
-- The producer's steps keep the invariant.
use native.Mathlib.Nat.{add-mod_left}
use native.Mathlib.Decide.{ℕ_discrete}
use hft_deribit.Prelude.{
  get_elem?-append_left, append-nil, length-append, take-append_left, ap₂, ℕ, suc, ◌+◌, ◌%◌, ◌≤◌,
  ◌<◌, ◌≡◌, sym, ap, ◌∙◌, subst, arith, false, ◌||◌, List, [], ◌∷◌, ◌++◌, map, some, length, take,
  drop, max, ◌==◌,
}
use hft_deribit.SpscQueue.{next_index}
use hft_deribit.SpscQueue.Holds.{IsCapacity}
use hft_deribit.SpscQueue.Threads.{Producer, Consumer, wake}
use hft_deribit.SpscQueue.Weak.{State, Message, Loads, latest, acquire_tail, touches}
use hft_deribit.SpscQueue.Weak.Orders.{counted, message, latest-counted, Loads-counted, counted_end}
use hft_deribit.SpscQueue.Weak.Slots.{
  visited, placed, next_index-slot, visited_free, placed_end, length-placed,
}
use hft_deribit.SpscQueue.Weak.Invariant.{
  Producing, Consuming, unpublished, unreleased, Inv, wake-Consuming, wake-unreleased,
}

-- An element fewer than n ahead, and not n ahead when its successor is in another cell.
not_full : (n i k : ℕ) → i < k + n → (suc i % n == k % n) ≡ false → suc i < k + n
not_full n i k h apart = elim (ℕ_discrete (suc i) (n + k)) [
  | no e ↦ omega (arith, h, e)
  | yes e ↦ ground (arith, ap (λ (x : ℕ). x % n) e, add-mod_left n k)
]

-- The cells that were read are of elements that the consumer has found.
visits_seen :
    {A : Type 0} (n received seen : ℕ) (xs : List A) (p : Consumer A)
    → received ≤ seen
    → Consuming n received seen xs p
    → received + unreleased p ≤ seen
visits_seen n r seen xs Consumer.idle h f = omega (arith, h)
visits_seen n r seen xs (Consumer.loaded k t) h f = omega (arith, h)
visits_seen n r seen xs (Consumer.reading t) h f = omega (arith, h)
visits_seen n r seen xs (Consumer.holding t o) h f = omega (arith, f.1)
visits_seen n r seen xs Consumer.testing h f = omega (arith, h)
visits_seen n r seen xs (Consumer.tested i) h f = omega (arith, h)
visits_seen n r seen xs Consumer.before_block h f = omega (arith, h)
visits_seen n r seen xs Consumer.asleep h f = omega (arith, h)
visits_seen n r seen xs Consumer.before_sure h f = omega (arith, h)
visits_seen n r seen xs Consumer.undefined h f = omega (arith, h)

-- More elements change nothing for the consumer.
sent_more :
    {A : Type 0} (n received seen : ℕ) (xs : List A) (v : A) (p : Consumer A)
    → seen ≤ length xs
    → Consuming n received seen xs p
    → Consuming n received seen (xs ++ v ∷ []) p
sent_more n r seen xs v (Consumer.holding t o) h f =
    (f.0, f.1, f.2 ∙ sym (get_elem?-append_left xs (v ∷ []) r (omega (arith, h, f.1))))
sent_more n r seen xs v Consumer.idle h f = f
sent_more n r seen xs v (Consumer.loaded k t) h f = f
sent_more n r seen xs v (Consumer.reading t) h f = f
sent_more n r seen xs v Consumer.testing h f = f
sent_more n r seen xs v (Consumer.tested i) h f = f
sent_more n r seen xs v Consumer.before_block h f = f
sent_more n r seen xs v Consumer.asleep h f = f
sent_more n r seen xs v Consumer.before_sure h f = f
sent_more n r seen xs v Consumer.undefined h f = f

module _ {A : Type 0} {n : ℕ} (c : IsCapacity n) {s : State A} (inv : Inv n s) where
  pub at_producer : {p : Producer A} → s.producer ≡ p → Producing n (length s.sent) s.tail_view p
  at_producer e = subst (Producing n (length s.sent) s.tail_view) e inv.producing

  writes_at : {p : Producer A} → s.producer ≡ p → s.writes ≡ placed n 0 (s.sent ++ unpublished p)
  writes_at e = inv.writes ∙ ap (λ p. placed n 0 (s.sent ++ unpublished p)) e

  pub load_keeps :
      (v : A)
      → s.producer ≡ Producer.idle
      → Inv n (record s { producer = Producer.loaded v (latest s.heads) })
  load_keeps v e =
      let own : latest s.heads ≡ length s.sent % n =
        ap latest inv.heads ∙ latest-counted n (length s.sent) in
      let w = writes_at e in ground (arith, own, w)

  -- What an acquire load of `tail` finds.
  pub tail_loaded :
      {k : ℕ} {m : Message}
      → Loads s.tail_view s.tails k m
      → (s.tail_view ≤ k)
        × (k ≤ length s.received)
        × (m ≡ message n k)
        × (max s.reads_view m.released ≡ k)
  tail_loaded {k} {m} l =
      let (old, young, e) = Loads-counted n (subst (λ ms. Loads s.tail_view ms k m) inv.tails l) in
      (old, young, e, ground (arith, ap (λ m. m.released) e, inv.reads_seen, old))

  pub full_keeps :
      {v : A} {h k : ℕ} {m : Message}
      → s.producer ≡ Producer.loaded v h
      → Loads s.tail_view s.tails k m
      → Inv n (record (acquire_tail s k m) { producer = Producer.idle })
  full_keeps e l =
      let (old, young, same, known) = tail_loaded l in
      let w = writes_at e in ground (arith, w, old, young, known)

  pub check_keeps :
      {v : A} {h k : ℕ} {m : Message}
      → s.producer ≡ Producer.loaded v h
      → Loads s.tail_view s.tails k m
      → (next_index n h == m.value) ≡ false
      → Inv n (record (acquire_tail s k m) { producer = Producer.checked v h })
  check_keeps {v} {h} {k} {m} e l free =
      let (old, young, same, known) = tail_loaded l in
      let w = writes_at e in
      let at : h ≡ length s.sent % n = at_producer e in
      let moved : next_index n h ≡ suc (length s.sent) % n =
        ap (next_index n) at ∙ next_index-slot c (length s.sent) in
      let apart : (suc (length s.sent) % n == k % n) ≡ false =
        sym (ap₂ ◌==◌ moved (ap (λ m. m.value) same)) ∙ free in
      let space : suc (length s.sent) < k + n =
        not_full n (length s.sent) k (omega (arith, old, inv.room)) apart in
      ground (arith, w, old, young, known, at, space)

  pub write_keeps :
      {v : A} {h : ℕ}
      → s.producer ≡ Producer.checked v h
      → Inv n (record s {
        writes = s.writes ++ (h, v) ∷ [];
        raced = s.raced || touches h (drop s.reads_view s.reads);
        producer = Producer.written v h;
      })
  write_keeps {v} {h} e =
      let (at, space) : (h ≡ length s.sent % n) × (suc (length s.sent) < s.tail_view + n) =
        at_producer e in
      let w : s.writes ++ (h, v) ∷ [] ≡ placed n 0 (s.sent ++ v ∷ []) =
        ap₂ (λ ws i. ws ++ (i, v) ∷ []) (writes_at e ∙ ap (placed n 0) (append-nil s.sent)) at
        ∙ placed_end n s.sent v in
      let seen =
        visits_seen n (length s.received) s.head_view s.sent s.consumer inv.taken inv.consuming in
      let free : touches h (drop s.reads_view s.reads) ≡ false =
        ap₂ (λ i is. touches i (drop s.reads_view is)) at inv.reads
        ∙ ap
            (λ (a : ℕ).
              touches (length s.sent % n)
                (drop a (visited n 0 (length s.received + unreleased s.consumer))))
            inv.reads_seen
        ∙ visited_free n 0 (length s.received + unreleased s.consumer) s.tail_view (length s.sent)
            (omega (arith, seen, inv.head_seen)) (omega (arith, inv.room)) in
      ground (arith, w, at, space, free)

  pub publish_keeps :
      {v : A} {h : ℕ}
      → s.producer ≡ Producer.written v h
      → Inv n (record s {
        heads = s.heads ++ record { value = next_index n h; released = length s.writes } ∷ [];
        producer = Producer.notifying;
        sent = s.sent ++ v ∷ [];
      })
  publish_keeps {v} {h} e =
      let (at, space) : (h ≡ length s.sent % n) × (suc (length s.sent) < s.tail_view + n) =
        at_producer e in
      let w = writes_at e in
      let more : length (s.sent ++ v ∷ []) ≡ suc (length s.sent) =
        omega (arith, length-append s.sent (v ∷ [])) in
      let released : length s.writes ≡ suc (length s.sent) =
        ap length w ∙ length-placed n 0 (s.sent ++ v ∷ []) ∙ more in
      let moved : next_index n h ≡ suc (length s.sent) % n =
        ap (next_index n) at ∙ next_index-slot c (length s.sent) in
      let heads : s.heads ++ record { value = next_index n h; released = length s.writes } ∷ []
          ≡ counted n 0 (length (s.sent ++ v ∷ [])) =
        ap₂ (λ ms m. ms ++ m ∷ []) inv.heads
          (ap₂ (λ i k. record { value = i; released = k }) moved released)
        ∙ counted_end n (length s.sent)
        ∙ ap (counted n 0) (sym more) in
      let writes : s.writes ≡ placed n 0 ((s.sent ++ v ∷ []) ++ []) =
        w ∙ ap (placed n 0) (sym (append-nil (s.sent ++ v ∷ []))) in
      let kept : take (length s.received) (s.sent ++ v ∷ []) ≡ take (length s.received) s.sent =
        take-append_left (length s.received) s.sent (v ∷ [])
          (omega (arith, inv.taken, inv.head_seen)) in
      let consuming =
        sent_more n (length s.received) s.head_view s.sent v s.consumer inv.head_seen
          inv.consuming in
      record {
        tail_seen = inv.tail_seen;
        head_seen = omega (arith, more, inv.head_seen);
        taken = inv.taken;
        room = omega (arith, more, space);
        reads_seen = inv.reads_seen;
        writes_seen = inv.writes_seen;
        heads = heads;
        tails = inv.tails;
        writes = writes;
        reads = inv.reads;
        calm = inv.calm;
        delivered = inv.delivered ∙ ap (map some) (sym kept);
        producing = tt;
        consuming = consuming;
      }

  pub notify_keeps :
      s.producer ≡ Producer.notifying
      → Inv n (record s { producer = Producer.idle; consumer = wake s.consumer })
  notify_keeps e =
      let w = writes_at e in
      let woken =
        wake-Consuming n (length s.received) s.head_view s.sent s.consumer inv.consuming in
      let r = wake-unreleased s.consumer in ground (arith, w, woken, r)
