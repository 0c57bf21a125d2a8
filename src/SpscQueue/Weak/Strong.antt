-- ===== src/SpscQueue/Weak/Strong.antt =====
-- The runs of `Threads`, in which every load finds the last store, are among the runs here.
use hft_deribit.Prelude.{
  if◌then◌else◌, ltb, take, none, ◌<◌, length-append, ℕ, zero, suc, ◌+◌, ◌%◌, ◌≤◌, ◌≡◌, refl, sym,
  ap, ap₂, ◌∙◌, arith, List, [], ◌∷◌, ◌++◌, Option, map, some, length, get_elem?, ◌==◌,
}
use hft_deribit.SpscQueue.{next_index, init}
use hft_deribit.SpscQueue.Holds.{IsCapacity}
use hft_deribit.SpscQueue.Threads
use hft_deribit.SpscQueue.Threads.{
  Producer, Call, Consumer, wake, found_empty, push_load, push_full, push_check, push_write,
  push_publish, push_notify, pop_load, pop_empty, pop_check, pop_read, pop_release, test_load,
  test_fails, test_holds, block, spurious, sure_load,
}
use hft_deribit.SpscQueue.Threads.Kept
use hft_deribit.SpscQueue.Threads.Invariant
use hft_deribit.SpscQueue.Weak.{State, Message, Loads, latest, content, Step, Reach, begin, next}
use hft_deribit.SpscQueue.Weak.Orders.{counted, message, latest-counted}
use hft_deribit.SpscQueue.Weak.Slots.{next_index-slot}
use hft_deribit.SpscQueue.Weak.Invariant.{Inv}
use hft_deribit.SpscQueue.Weak.Pops.{own_tail, at_consumer}
use hft_deribit.SpscQueue.Weak.Pushes.{at_producer}
use hft_deribit.SpscQueue.Weak.Reads.{read_found}
use hft_deribit.SpscQueue.Weak.Kept.{Reach-Inv}

-- The same threads, with the same history; the indices are those of the last stores.
pub record IsSame {A : Type 0} (n : ℕ) (s : Threads.State A) (w : State A) : Type 0 where
  pub producer : w.producer ≡ s.producer
  pub consumer : w.consumer ≡ s.consumer
  pub sent : w.sent ≡ s.sent
  pub received : w.received ≡ s.received
  pub head : s.queue.head ≡ length w.sent % n
  pub tail : s.queue.tail ≡ length w.received % n

counted_last : (n i k : ℕ) → get_elem? (counted n i k) k ≡ some (message n (i + k))
counted_last n i zero = ap (λ (x : ℕ). some (message n x)) {x = i} (omega arith)
counted_last n i (suc k) =
    counted_last n (suc i) k ∙ ap (λ (x : ℕ). some (message n x)) {x = suc i + k} (omega arith)

-- The last message can always be found.
Loads-last :
    (n view k : ℕ) (ms : List Message)
    → ms ≡ counted n 0 k
    → view ≤ k
    → Loads view ms k (message n k)
Loads-last n view k ms e h = record {
  coherent = h;
  found =
      ap (λ ms. get_elem? ms k) e
      ∙ counted_last n 0 k
      ∙ ap (λ (x : ℕ). some (message n x)) {y = k} (omega arith);
}

-- The element that is delivered next.
next_item :
    {A : Type 0} (xs items : List A) (os : List (Option A))
    → map some xs ≡ os ++ map some items
    → get_elem? xs (length os) ≡ get_elem? items 0
next_item [] [] [] e = refl
next_item [] (y ∷ ys) [] e = cc
next_item (x ∷ xs) [] [] e = cc
next_item (x ∷ xs) (y ∷ ys) [] e = let same : x ≡ y = cc in ap some same
next_item [] items (o ∷ os) e = cc
next_item (x ∷ xs) items (o ∷ os) e =
    let rest : map some xs ≡ os ++ map some items = cc in next_item xs items os rest

module _ {A : Type 0} {n : ℕ} (c : IsCapacity n) (default : A) where
  module _ {s : Threads.State A} {w : State A} (i : IsSame n s w) (inv : Inv n w) where
    last_tail : Loads w.tail_view w.tails (length w.received) (message n (length w.received))
    last_tail = Loads-last n w.tail_view (length w.received) w.tails inv.tails inv.tail_seen

    last_head : Loads w.head_view w.heads (length w.sent) (message n (length w.sent))
    last_head = Loads-last n w.head_view (length w.sent) w.heads inv.heads inv.head_seen

    own_head : latest w.heads ≡ s.queue.head
    own_head = ap latest inv.heads ∙ latest-counted n (length w.sent) ∙ sym i.head

    own_tail_same : latest w.tails ≡ s.queue.tail
    own_tail_same = own_tail c inv ∙ sym i.tail

    -- Both read the same element.
    read_same :
        {t : ℕ}
        → Threads.Reach n default s
        → s.consumer ≡ Consumer.reading t
        → (if ltb t n then some (content default (take w.writes_view w.writes) t) else none)
          ≡ get_elem? s.queue.buffer t
    read_same {t} rs e =
        let (at, more) : (t ≡ length w.received % n) × (length w.received < w.head_view) =
          at_consumer c inv (i.consumer ∙ e) in
        let strong : Threads.Invariant.Inv n _ =
          Threads.Kept.Reach-Inv c default (Threads.next rs (pop_read t e)) in
        ap
          (λ (k : ℕ).
            if ltb k n then some (content default (take w.writes_view w.writes) k) else none)
          at
        ∙ read_found c default inv more
        ∙ ap₂ (λ xs os. get_elem? xs (length os)) i.sent i.received
        ∙ next_item s.sent strong.items s.received strong.history
        ∙ strong.consuming.2

  abbrev Weakly : Threads.State A → Type 0
  Weakly t = (w : State A) × Reach n default w × IsSame n t w

  Step-Weakly :
      {s t : Threads.State A} → Threads.Reach n default s → Threads.Step n s t → Weakly s → Weakly t
  Step-Weakly {s} rs (push_load v e) (w, r, i) =
      let own = own_head i (Reach-Inv c default r) in
      (_, next r (Step.push_load v (i.producer ∙ e)), ground (arith, own))
  Step-Weakly {s} rs (push_full v h e full) (w, r, i) =
      let full' = ap (λ (x : ℕ). next_index n h == x) (sym i.tail) ∙ full in
      (
        _,
        next r
            (Step.push_full v h _ _ (i.producer ∙ e) (last_tail i (Reach-Inv c default r)) full'),
        ground arith,
      )
  Step-Weakly {s} rs (push_check v h e free) (w, r, i) =
      let free' = ap (λ (x : ℕ). next_index n h == x) (sym i.tail) ∙ free in
      (
        _,
        next r
            (Step.push_check v h _ _ (i.producer ∙ e) (last_tail i (Reach-Inv c default r)) free'),
        ground arith,
      )
  Step-Weakly {s} rs (push_write v h e) (w, r, i) =
      (_, next r (Step.push_write v h (i.producer ∙ e)), ground arith)
  Step-Weakly {s} rs (push_publish v h e) (w, r, i) =
      let at = (at_producer c (Reach-Inv c default r) (i.producer ∙ e)).0 in
      let moved : next_index n h ≡ length (w.sent ++ v ∷ []) % n =
        ap (next_index n) at
        ∙ next_index-slot c (length w.sent)
        ∙ ap (λ (x : ℕ). x % n) (omega (arith, length-append w.sent (v ∷ []))) in
      (_, next r (Step.push_publish v h (i.producer ∙ e)), ground (arith, moved))
  Step-Weakly {s} rs (push_notify e) (w, r, i) =
      (_, next r (Step.push_notify (i.producer ∙ e)), ground (arith, ap wake i.consumer))
  Step-Weakly {s} rs (pop_load k e outside) (w, r, i) =
      let own = own_tail_same i (Reach-Inv c default r) in
      (_, next r (Step.pop_load k (i.consumer ∙ e) outside), ground (arith, own))
  Step-Weakly {s} rs (pop_empty k t e same) (w, r, i) =
      let same' = ap (λ (x : ℕ). t == x) (sym i.head) ∙ same in
      (
        _,
        next r
            (Step.pop_empty k t _ _ (i.consumer ∙ e) (last_head i (Reach-Inv c default r)) same'),
        ground arith,
      )
  Step-Weakly {s} rs (pop_check k t e apart) (w, r, i) =
      let apart' = ap (λ (x : ℕ). t == x) (sym i.head) ∙ apart in
      (
        _,
        next r
            (Step.pop_check k t _ _ (i.consumer ∙ e) (last_head i (Reach-Inv c default r)) apart'),
        ground arith,
      )
  Step-Weakly {s} rs (pop_read t e) (w, r, i) =
      let value = read_same i (Reach-Inv c default r) rs e in
      (_, next r (Step.pop_read t (i.consumer ∙ e)), ground (arith, value))
  Step-Weakly {s} rs (pop_release t o e) (w, r, i) =
      let at = (at_consumer c (Reach-Inv c default r) (i.consumer ∙ e)).0 in
      let moved : next_index n t ≡ length (w.received ++ o ∷ []) % n =
        ap (next_index n) at
        ∙ next_index-slot c (length w.received)
        ∙ ap (λ (x : ℕ). x % n) (omega (arith, length-append w.received (o ∷ []))) in
      (_, next r (Step.pop_release t o (i.consumer ∙ e)), ground (arith, moved))
  Step-Weakly {s} rs (test_load e) (w, r, i) = (
    _,
    next r (Step.test_load _ _ (i.consumer ∙ e) (last_head i (Reach-Inv c default r))),
    ground arith,
  )
  Step-Weakly {s} rs (test_fails h e same) (w, r, i) =
      let same' = ap (λ (x : ℕ). h == x) (own_tail_same i (Reach-Inv c default r)) ∙ same in
      (_, next r (Step.test_fails h (i.consumer ∙ e) same'), ground arith)
  Step-Weakly {s} rs (test_holds h e apart) (w, r, i) =
      let apart' = ap (λ (x : ℕ). h == x) (own_tail_same i (Reach-Inv c default r)) ∙ apart in
      (_, next r (Step.test_holds h (i.consumer ∙ e) apart'), ground arith)
  Step-Weakly {s} rs (block e) (w, r, i) = (_, next r (Step.block (i.consumer ∙ e)), ground arith)
  Step-Weakly {s} rs (spurious e) (w, r, i) =
      (_, next r (Step.spurious (i.consumer ∙ e)), ground arith)
  Step-Weakly {s} rs (sure_load e) (w, r, i) =
      let own = own_tail_same i (Reach-Inv c default r) in
      (_, next r (Step.sure_load (i.consumer ∙ e)), ground (arith, own))

  -- Every state that `Threads` reaches from a new queue of N cells, N a power of two of at most
  -- 2 ^ 63, is reached here too, with the threads at the same places and the same history: memory
  -- under acquire and release order allows all that sequentially consistent memory does.
  strong_runs_kept :
      {s : Threads.State A}
      → Threads.Reach n default s
      → (w : State A) × Reach n default w × IsSame n s w
  unfolding init
  strong_runs_kept Threads.begin = (_, begin, ground arith)
  strong_runs_kept (Threads.next before last) = Step-Weakly before last (strong_runs_kept before)
