-- ===== src/SpscQueue/Weak/Reads.antt =====
-- The consumer's read of a cell and its store of `tail` keep the invariant.
use mathlib.Core.List.{map-append}
use native.Mathlib.Nat.{mod-lt}
use hft_deribit.Prelude.{
  get_elem?-some, Option, none, ltb, if◌then◌else◌, take-suc, get_elem?-append_left, length-append,
  ap₂, ℕ, suc, ◌+◌, ◌%◌, ◌≤◌, ◌<◌, ◌≡◌, refl, sym, ap, ◌∙◌, arith, true, false, ◌||◌, [], ◌∷◌, ◌++◌,
  map, some, length, take, drop, get_elem?,
}
use hft_deribit.SpscQueue.{next_index}
use hft_deribit.SpscQueue.Holds.{IsCapacity}
use hft_deribit.SpscQueue.Threads.{Producer, Consumer}
use hft_deribit.SpscQueue.Weak.{State, content, touches}
use hft_deribit.SpscQueue.Weak.Orders.{counted, counted_end}
use hft_deribit.SpscQueue.Weak.Slots.{
  visited, next_index-slot, placed_free, content_found, visited_end, length-visited,
}
use hft_deribit.SpscQueue.Weak.Invariant.{Producing, unpublished, Inv}
use hft_deribit.SpscQueue.Weak.Pops.{at_consumer, reads_at}

-- No more elements are stored than there are cells behind those that the producer has found taken.
stores_room :
    {A : Type 0} (n sent seen : ℕ) (p : Producer A)
    → sent < seen + n
    → Producing n sent seen p
    → sent + length (unpublished p) ≤ seen + n
stores_room n i seen Producer.idle h f = omega (arith, h)
stores_room n i seen (Producer.loaded v k) h f = omega (arith, h)
stores_room n i seen (Producer.checked v k) h f = omega (arith, h)
stores_room n i seen (Producer.written v k) h f = omega (arith, f.1)
stores_room n i seen Producer.notifying h f = omega (arith, h)

module _ {A : Type 0} {n : ℕ} (c : IsCapacity n) (default : A) {s : State A} (inv : Inv n s) where
  -- The read of a cell: no store of the producer conflicts, and it finds the element.
  read_calm :
      length s.received < s.head_view
      → touches (length s.received % n) (map (λ w. w.0) (drop s.writes_view s.writes)) ≡ false
  read_calm more =
      let room = stores_room n (length s.sent) s.tail_view s.producer inv.room inv.producing in
      ap₂ (λ (b : ℕ) ws. touches (length s.received % n) (map (λ w. w.0) (drop b ws)))
        inv.writes_seen inv.writes
      ∙ placed_free n 0 (s.sent ++ unpublished s.producer) s.head_view (length s.received)
          (omega (arith, more))
          (omega (arith, room, inv.tail_seen, length-append s.sent (unpublished s.producer)))

  pub read_found :
      length s.received < s.head_view
      → (if ltb (length s.received % n) n
          then some (content default (take s.writes_view s.writes) (length s.received % n))
          else none)
        ≡ get_elem? s.sent (length s.received)
  read_found more =
      let below : length s.received < length s.sent = omega (arith, more, inv.head_seen) in
      let (x, e) = get_elem?-some s.sent (length s.received) below in
      let all = s.sent ++ unpublished s.producer in
      let here : get_elem? all (length s.received) ≡ some x =
        get_elem?-append_left s.sent (unpublished s.producer) (length s.received) below ∙ e in
      let value : content default (take s.writes_view s.writes) (length s.received % n) ≡ x =
        ap₂ (λ (b : ℕ) ws. content default (take b ws) (length s.received % n)) inv.writes_seen
          inv.writes
        ∙ content_found n all s.head_view (length s.received) default x more
            (omega (arith, inv.head_seen, inv.room, inv.tail_seen)) here in
      let inside : ltb (length s.received % n) n ≡ true =
        ground (arith, mod-lt (length s.received) c.pos) in
      rw (inside, value) (sym e)

  pub read_keeps :
      {t : ℕ}
      → s.consumer ≡ Consumer.reading t
      → Inv n (record s {
        reads = s.reads ++ t ∷ [];
        raced = s.raced || touches t (map (λ w. w.0) (drop s.writes_view s.writes));
        consumer =
            Consumer.holding t
              (if ltb t n then some (content default (take s.writes_view s.writes) t) else none);
      })
  read_keeps {t} e =
      let (at, more) : (t ≡ length s.received % n) × (length s.received < s.head_view) =
        at_consumer c inv e in
      let r : s.reads ++ t ∷ [] ≡ visited n 0 (length s.received + 1) =
        ap₂ (λ is i. is ++ i ∷ []) (reads_at c inv e) at
        ∙ ap (λ (x : ℕ). visited n 0 x ++ (length s.received % n) ∷ []) {y = length s.received}
            (omega arith)
        ∙ visited_end n (length s.received)
        ∙ ap (visited n 0) {x = suc (length s.received)} (omega arith) in
      let free : touches t (map (λ w. w.0) (drop s.writes_view s.writes)) ≡ false =
        ap (λ (i : ℕ). touches i (map (λ w. w.0) (drop s.writes_view s.writes))) at
        ∙ read_calm more in
      let value : (if ltb t n then some (content default (take s.writes_view s.writes) t) else none)
          ≡ get_elem? s.sent (length s.received) =
        ap
          (λ (i : ℕ).
            if ltb i n then some (content default (take s.writes_view s.writes) i) else none)
          at
        ∙ read_found more in
      record {
        tail_seen = inv.tail_seen;
        head_seen = inv.head_seen;
        taken = inv.taken;
        room = inv.room;
        reads_seen = inv.reads_seen;
        writes_seen = inv.writes_seen;
        heads = inv.heads;
        tails = inv.tails;
        writes = inv.writes;
        reads = r;
        calm = rw (inv.calm, free) refl;
        delivered = inv.delivered;
        producing = inv.producing;
        consuming = (at, more, value);
      }

  pub release_keeps :
      {t : ℕ} {o : Option A}
      → s.consumer ≡ Consumer.holding t o
      → Inv n (record s {
        tails = s.tails ++ record { value = next_index n t; released = length s.reads } ∷ [];
        consumer = Consumer.idle;
        received = s.received ++ o ∷ [];
      })
  release_keeps {t} {o} e =
      let (at, more, value) : (t ≡ length s.received % n)
          × (length s.received < s.head_view)
          × (o ≡ get_elem? s.sent (length s.received)) =
        at_consumer c inv e in
      let grown : length (s.received ++ o ∷ []) ≡ suc (length s.received) =
        omega (arith, length-append s.received (o ∷ [])) in
      let r : s.reads ≡ visited n 0 (suc (length s.received)) =
        reads_at c inv e ∙ ap (visited n 0) {y = suc (length s.received)} (omega arith) in
      let released : length s.reads ≡ suc (length s.received) =
        ap length r ∙ length-visited n 0 (suc (length s.received)) in
      let moved : next_index n t ≡ suc (length s.received) % n =
        ap (next_index n) at ∙ next_index-slot c (length s.received) in
      let tails : s.tails ++ record { value = next_index n t; released = length s.reads } ∷ []
          ≡ counted n 0 (length (s.received ++ o ∷ [])) =
        ap₂ (λ ms m. ms ++ m ∷ []) inv.tails
          (ap₂ (λ i k. record { value = i; released = k }) moved released)
        ∙ counted_end n (length s.received)
        ∙ ap (counted n 0) (sym grown) in
      let below : length s.received < length s.sent = omega (arith, more, inv.head_seen) in
      let (x, found) = get_elem?-some s.sent (length s.received) below in
      let all : s.received ++ o ∷ [] ≡ map some (take (length (s.received ++ o ∷ [])) s.sent) =
        ap₂ (λ os o. os ++ o ∷ []) inv.delivered (value ∙ found)
        ∙ sym (map-append some (take (length s.received) s.sent) (x ∷ []))
        ∙ ap (map some) (sym (take-suc (length s.received) s.sent found))
        ∙ ap (λ (k : ℕ). map some (take k s.sent)) (sym grown) in
      record {
        tail_seen = omega (arith, grown, inv.tail_seen);
        head_seen = inv.head_seen;
        taken = omega (arith, grown, more);
        room = inv.room;
        reads_seen = inv.reads_seen;
        writes_seen = inv.writes_seen;
        heads = inv.heads;
        tails = tails;
        writes = inv.writes;
        reads =
            r
            ∙ ap (visited n 0) {x = suc (length s.received)} {y = length (s.received ++ o ∷ []) + 0}
                (omega (arith, grown));
        calm = inv.calm;
        delivered = all;
        producing = inv.producing;
        consuming = tt;
      }
