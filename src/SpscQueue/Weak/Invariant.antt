-- ===== src/SpscQueue/Weak/Invariant.antt =====
-- What ties the two threads together although each may find old indices, kept by every step.
use hft_deribit.Prelude.{
  ℕ, suc, ◌+◌, ◌%◌, ◌≤◌, ◌<◌, ◌≡◌, refl, false, List, [], ◌∷◌, ◌++◌, map, some, length, take,
  get_elem?,
}
use hft_deribit.SpscQueue.Threads.{Producer, Call, Consumer, wake}
use hft_deribit.SpscQueue.Weak.{State}
use hft_deribit.SpscQueue.Weak.Orders.{counted}
use hft_deribit.SpscQueue.Weak.Slots.{visited, placed}

-- What the producer's locals say, after `sent` stores of `head`, if it has found `seen` of `tail`.
abbrev pub Producing : {A : Type 0} → ℕ → ℕ → ℕ → Producer A → Type 0
Producing n sent seen Producer.idle = Unit
Producing n sent seen (Producer.loaded v h) = h ≡ sent % n
Producing n sent seen (Producer.checked v h) = (h ≡ sent % n) × (suc sent < seen + n)
Producing n sent seen (Producer.written v h) = (h ≡ sent % n) × (suc sent < seen + n)
Producing n sent seen Producer.notifying = Unit

-- What the consumer's locals say, after `received` stores of `tail`, if it has found `seen` of
-- `head`.
abbrev pub Consuming : {A : Type 0} → ℕ → ℕ → ℕ → List A → Consumer A → Type 0
Consuming n received seen xs Consumer.idle = Unit
Consuming n received seen xs (Consumer.loaded k t) =
    (t ≡ received % n) × (k ≡ Call.sure → received < seen)
Consuming n received seen xs (Consumer.reading t) = (t ≡ received % n) × (received < seen)
Consuming n received seen xs (Consumer.holding t o) =
    (t ≡ received % n) × (received < seen) × (o ≡ get_elem? xs received)
Consuming n received seen xs Consumer.testing = Unit
Consuming n received seen xs (Consumer.tested h) = h ≡ seen % n
Consuming n received seen xs Consumer.before_block = Unit
Consuming n received seen xs Consumer.asleep = Unit
Consuming n received seen xs Consumer.before_sure = received < seen
Consuming n received seen xs Consumer.undefined = ⊥

-- What is stored, but not published; and how many cells were read, but not released.
abbrev pub unpublished : {A : Type 0} → Producer A → List A
unpublished (Producer.written v h) = v ∷ []
unpublished Producer.idle = []
unpublished (Producer.loaded v h) = []
unpublished (Producer.checked v h) = []
unpublished Producer.notifying = []

abbrev pub unreleased : {A : Type 0} → Consumer A → ℕ
unreleased (Consumer.holding t o) = 1
unreleased Consumer.idle = 0
unreleased (Consumer.loaded k t) = 0
unreleased (Consumer.reading t) = 0
unreleased Consumer.testing = 0
unreleased (Consumer.tested h) = 0
unreleased Consumer.before_block = 0
unreleased Consumer.asleep = 0
unreleased Consumer.before_sure = 0
unreleased Consumer.undefined = 0

pub record Inv {A : Type 0} (n : ℕ) (s : State A) : Type 0 where
  -- each thread has found no more than there is, and the consumer no less than it took
  pub tail_seen : s.tail_view ≤ length s.received
  pub head_seen : s.head_view ≤ length s.sent
  pub taken : length s.received ≤ s.head_view
  pub room : length s.sent < s.tail_view + n
  pub reads_seen : s.reads_view ≡ s.tail_view
  pub writes_seen : s.writes_view ≡ s.head_view
  -- the memory
  pub heads : s.heads ≡ counted n 0 (length s.sent)
  pub tails : s.tails ≡ counted n 0 (length s.received)
  pub writes : s.writes ≡ placed n 0 (s.sent ++ unpublished s.producer)
  pub reads : s.reads ≡ visited n 0 (length s.received + unreleased s.consumer)
  pub calm : s.raced ≡ false
  pub delivered : s.received ≡ map some (take (length s.received) s.sent)
  -- the threads
  pub producing : Producing n (length s.sent) s.tail_view s.producer
  pub consuming : Consuming n (length s.received) s.head_view s.sent s.consumer

pub wake-Consuming :
    {A : Type 0} (n received seen : ℕ) (xs : List A) (p : Consumer A)
    → Consuming n received seen xs p
    → Consuming n received seen xs (wake p)
unfolding wake
wake-Consuming n received seen xs Consumer.asleep h = tt
wake-Consuming n received seen xs Consumer.idle h = h
wake-Consuming n received seen xs (Consumer.loaded k t) h = h
wake-Consuming n received seen xs (Consumer.reading t) h = h
wake-Consuming n received seen xs (Consumer.holding t o) h = h
wake-Consuming n received seen xs Consumer.testing h = h
wake-Consuming n received seen xs (Consumer.tested i) h = h
wake-Consuming n received seen xs Consumer.before_block h = h
wake-Consuming n received seen xs Consumer.before_sure h = h
wake-Consuming n received seen xs Consumer.undefined h = h

pub wake-unreleased : {A : Type 0} (p : Consumer A) → unreleased (wake p) ≡ unreleased p
unfolding wake
wake-unreleased Consumer.asleep = refl
wake-unreleased Consumer.idle = refl
wake-unreleased (Consumer.loaded k t) = refl
wake-unreleased (Consumer.reading t) = refl
wake-unreleased (Consumer.holding t o) = refl
wake-unreleased Consumer.testing = refl
wake-unreleased (Consumer.tested i) = refl
wake-unreleased Consumer.before_block = refl
wake-unreleased Consumer.before_sure = refl
wake-unreleased Consumer.undefined = refl
