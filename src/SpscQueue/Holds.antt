-- ===== src/SpscQueue/Holds.antt =====
-- When a ring buffer holds a given list, and how its indices move. Threads and clients share these facts.
use native.Mathlib.Nat.{mod-eq_of_lt, mod_self}
use native.Mathlib.Decide.{ℕ_discrete, dec_lt}
use hft_deribit.Prelude.{
  ℕ, suc, ◌+◌, ◌-◌, ◌%◌, ◌^◌, ◌≤◌, ◌<◌, ◌≡◌, ◌≢◌, sym, ap, ◌∙◌, bit_and, arith, List, [], ◌∷◌, ◌++◌,
  some, length, get_elem?, set, ◌==◌, length-set, get_elem?-set_self, get_elem?-set_ne,
  get_elem?-append_left, get_elem?-append_length, length-append, length-replicate, ltb,
  if◌then◌else◌, is_empty, not,
}
use hft_deribit.Prelude.Bits.{bit_and_mask, power_of_two}
use hft_deribit.SpscQueue.{SpscQueue, init, next_index}

-- What the `static_assert` demands of N, with the bounds that `size_t` sets.
pub record IsCapacity (n : ℕ) : Type 0 where
  pub pos : 0 < n
  pub small : n ≤ 2 ^ 63
  pub power : bit_and n (n - 1) ≡ 0

-- The mask is a remainder.
pub next_index-mod : {n : ℕ} → IsCapacity n → (i : ℕ) → i < n → next_index n i ≡ (i + 1) % n
unfolding next_index
next_index-mod {n} c i h =
    let (k, e) = power_of_two n c.pos c.power in
    ap (λ (t : ℕ). bit_and t (n - 1)) (mod-eq_of_lt {n = i + 1} {m = 2 ^ 64} (omega arith))
    ∙ ap (λ (m : ℕ). bit_and (i + 1) (m - 1)) e
    ∙ bit_and_mask k (i + 1)
    ∙ ap (λ (m : ℕ). (i + 1) % m) (sym e)

-- So an index goes up by one, and comes back to 0 after the last cell.
pub next_index_lem :
    {n : ℕ}
    → IsCapacity n
    → (i : ℕ) → i < n
    → (next_index n i < n) × (next_index n i ≡ (if i + 1 == n then 0 else i + 1))
next_index_lem {n} c i h = elim (ℕ_discrete (i + 1) n) [
  | yes e ↦ ground (arith, next_index-mod c i h, ap (λ (m : ℕ). m % n) e, mod_self n)
  | no e ↦ ground (arith, next_index-mod c i h, mod-eq_of_lt {n = i + 1} {m = n} (omega arith))
]

-- The cell of the `i`-th element from the front.
abbrev pub cell : ℕ → ℕ → ℕ → ℕ
cell n t i = if ltb (t + i) n then t + i else t + i - n

cell-lt : (n t i : ℕ) → t < n → i < n → cell n t i < n
cell-lt n t i ht hi = ground arith

cell-ne : (n t i j : ℕ) → t < n → i < j → j < n → cell n t j ≢ cell n t i
cell-ne n t i j ht hij hj e = ground arith

cell-next_index :
    {n : ℕ} (c : IsCapacity n) (t i : ℕ)
    → t < n
    → suc i < n
    → cell n (next_index n t) i ≡ cell n t (suc i)
cell-next_index {n} c t i ht hi = ground (arith, next_index_lem c t ht)

next_index-cell :
    {n : ℕ} (c : IsCapacity n) (t i : ℕ)
    → t < n
    → suc i < n
    → next_index n (cell n t i) ≡ cell n t (suc i)
next_index-cell {n} c t i ht hi =
    ground (arith, next_index_lem c (cell n t i) (cell-lt n t i ht (omega arith)))

-- The queue `q` holds the elements `xs`, the oldest first.
pub record Holds {ℓ} {A : Type ℓ} (n : ℕ) (q : SpscQueue A) (xs : List A) : Type ℓ where
  pub size : length q.buffer ≡ n
  pub tail_in : q.tail < n
  pub room : length xs < n
  pub at_head : q.head ≡ cell n q.tail (length xs)
  pub stored : (i : ℕ) → i < length xs → get_elem? q.buffer (cell n q.tail i) ≡ get_elem? xs i

-- Two empty ends, or all cells but one in use.
module _ {ℓ} {A : Type ℓ} {n : ℕ} (c : IsCapacity n) where
  pub init-Holds : (default : A) → Holds n (init n default) []
  unfolding init
  init-Holds default = record {
    size = length-replicate n default;
    tail_in = c.pos;
    room = c.pos;
    at_head = ground (arith, c.pos);
    stored = λ i h. elim h [ ];
  }

  module _ {q : SpscQueue A} {xs : List A} (v : Holds n q xs) where
    pub head_in : q.head < n
    head_in = ground (arith, v.at_head, v.tail_in, v.room)

    -- `head == tail` is the test for an empty queue,
    pub empty_test : (q.head == q.tail) ≡ is_empty xs
    empty_test = ground (arith, v.at_head, v.tail_in, v.room)

    pub pop_test : (q.tail == q.head) ≡ is_empty xs
    pop_test = ground (arith, empty_test)

    -- and `next == tail` the test for a full one.
    pub full_test : (next_index n q.head == q.tail) ≡ not (ltb (length xs) (n - 1))
    full_test = ground (arith, v.at_head, v.tail_in, v.room, next_index_lem c q.head head_in)

    -- Writing the cell at `head` leaves the elements as they are.
    pub write-Holds : (x : A) → Holds n (record q { buffer = set q.buffer q.head x }) xs
    write-Holds x = record {
      size = length-set q.buffer q.head x ∙ v.size;
      tail_in = v.tail_in;
      room = v.room;
      at_head = v.at_head;
      stored = λ i p.
          get_elem?-set_ne q.buffer q.head (cell n q.tail i) x
            (rw v.at_head (cell-ne n q.tail i (length xs) v.tail_in p v.room))
          ∙ v.stored i p;
    }

    pub written : (x : A) → get_elem? (set q.buffer q.head x) q.head ≡ some x
    written x = get_elem?-set_self q.buffer q.head x (omega (arith, head_in, v.size))

    -- Moving `head` on appends the element in its cell.
    pub advance-Holds :
        (x : A)
        → get_elem? q.buffer q.head ≡ some x
        → length xs < n - 1
        → Holds n (record q { head = next_index n q.head }) (xs ++ x ∷ [])
    advance-Holds x e h = record {
      size = v.size;
      tail_in = v.tail_in;
      room = omega (arith, length-append xs (x ∷ []));
      at_head = rw v.at_head (
          next_index-cell c q.tail (length xs) v.tail_in (omega arith)
          ∙ ap (cell n q.tail) (omega (arith, length-append xs (x ∷ []))));
      stored = λ i p. elim (dec_lt i (length xs)) [
        | yes old ↦ v.stored i old ∙ sym (get_elem?-append_left xs (x ∷ []) i old)
        | no new ↦
            let last : i ≡ length xs = omega (arith, length-append xs (x ∷ [])) in
            ap (get_elem? q.buffer) (ap (cell n q.tail) last ∙ sym v.at_head)
            ∙ e
            ∙ sym (get_elem?-append_length xs x i last)
      ];
    }

  -- Both in a row, as `push` does.
  pub publish-Holds :
      {q : SpscQueue A} {xs : List A}
      → Holds n q xs
      → (x : A) → length xs < n - 1
      → Holds n
          (record q { buffer = set q.buffer q.head x; head = next_index n q.head })
          (xs ++ x ∷ [])
  publish-Holds v x h = advance-Holds (write-Holds v x) x (written v x) h

-- Moving `tail` on drops the oldest element, which is the one in the cell at `tail`.
pub consume-Holds {ℓ} :
    {A : Type ℓ} {n : ℕ} (c : IsCapacity n) {q : SpscQueue A} {x : A} {xs : List A}
    → Holds n q (x ∷ xs)
    → (get_elem? q.buffer q.tail ≡ some x) × Holds n (record q { tail = next_index n q.tail }) xs
consume-Holds {n} c {q} {x} {xs} v = (
  ap (get_elem? q.buffer) (ground (arith, v.tail_in)) ∙ v.stored 0 (omega arith),
  record {
    size = v.size;
    tail_in = (next_index_lem c q.tail v.tail_in).0;
    room = omega (arith, v.room);
    at_head = v.at_head ∙ sym (cell-next_index c q.tail (length xs) v.tail_in v.room);
    stored = λ i p.
        ap (get_elem? q.buffer) (cell-next_index c q.tail i v.tail_in (omega (arith, v.room)))
        ∙ v.stored (suc i) (omega arith);
  },
)
