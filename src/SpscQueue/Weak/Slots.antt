-- ===== src/SpscQueue/Weak/Slots.antt =====
-- Cells by the number of the element: element number k goes to the cell `k % n`.
use native.Mathlib.Nat.{mod-lt, mod-eq_of_lt, mod-eq-sub-mod, mod-add-mod}
use hft_deribit.Prelude.{
  ℕ, zero, suc, ◌+◌, ◌-◌, ◌%◌, ◌≤◌, ◌<◌, ◌≡◌, ◌≢◌, refl, ap, ◌∙◌, arith, true, false, List, [], ◌∷◌,
  ◌++◌, some, get_elem?, length, map, take, drop, ◌==◌, ltb, ltb→lt, if◌then◌else◌, Bool-cases, inl,
  inr,
}
use hft_deribit.SpscQueue.{next_index}
use hft_deribit.SpscQueue.Holds.{IsCapacity, next_index-mod}
use hft_deribit.SpscQueue.Weak.{touches, content}

-- Less than n apart, two numbers have different remainders.
shifted-ne : (n r d : ℕ) → r < n → 0 < d → d < n → (r + d) % n ≢ r
shifted-ne n r d hr pos hd e = elim (Bool-cases (ltb (r + d) n)) [
  | inl small ↦ ground (arith, mod-eq_of_lt {n = r + d} {m = n} (ltb→lt (r + d) n small))
  | inr large ↦
      let wraps : n ≤ r + d = ground arith in
      ground (
        arith,
        mod-eq-sub-mod {n = r + d} {m = n} wraps,
        mod-eq_of_lt {n = r + d - n} {m = n} (omega arith),
      )
]

slot_ne : (n i j : ℕ) → i < j → j < i + n → j % n ≢ i % n
slot_ne n i j h k e =
    let d = j - i in
    let split_ : (i % n + d) % n ≡ j % n =
      mod-add-mod i n d ∙ ap (λ (x : ℕ). x % n) (omega arith) in
    shifted-ne n (i % n) d (mod-lt i (omega arith)) (omega arith) (omega arith) (split_ ∙ e)

slot_apart : (n i j : ℕ) → i < j → j < i + n → (i % n == j % n) ≡ false
slot_apart n i j h k = ground (arith, slot_ne n i j h k)

slot_apart' : (n i j : ℕ) → i < j → j < i + n → (j % n == i % n) ≡ false
slot_apart' n i j h k = ground (arith, slot_ne n i j h k)

-- Where the indices agree, so do the counts.
pub slot_same : (n i j : ℕ) → i ≤ j → j < i + n → (i % n == j % n) ≡ true → i ≡ j
slot_same n i j h k e = elim (Bool-cases (i == j)) [
  | inl same ↦ ground arith
  | inr apart ↦ ground (arith, slot_ne n i j (ground arith) k)
]

pub next_index-slot : {n : ℕ} → IsCapacity n → (k : ℕ) → next_index n (k % n) ≡ suc k % n
next_index-slot {n} c k =
    next_index-mod c (k % n) (mod-lt k c.pos)
    ∙ mod-add-mod k n 1
    ∙ ap (λ (x : ℕ). x % n) {y = suc k} (omega arith)

-- `k` accesses to the buffer, and the stores of some elements, in order, from number `i` on.
abbrev pub visited : ℕ → ℕ → ℕ → List ℕ
visited n i zero = []
visited n i (suc k) = i % n ∷ visited n (suc i) k

abbrev pub placed : {A : Type 0} → ℕ → ℕ → List A → List (ℕ × A)
placed n i [] = []
placed n i (x ∷ xs) = (i % n, x) ∷ placed n (suc i) xs

visited_more : (n i k : ℕ) → visited n i k ++ ((i + k) % n) ∷ [] ≡ visited n i (suc k)
visited_more n i zero = ap (λ (x : ℕ). x % n ∷ []) {y = i} (omega arith)
visited_more n i (suc k) =
    ap (λ (x : ℕ). i % n ∷ (visited n (suc i) k ++ (x % n) ∷ [])) {y = suc i + k} (omega arith)
    ∙ ap (i % n ∷◌) (visited_more n (suc i) k)

placed_more :
    {A : Type 0} (n i : ℕ) (xs : List A) (v : A)
    → placed n i xs ++ ((i + length xs) % n, v) ∷ [] ≡ placed n i (xs ++ v ∷ [])
placed_more n i [] v = ap (λ (x : ℕ). (x % n, v) ∷ []) {y = i} (omega arith)
placed_more n i (x ∷ xs) v =
    ap (λ (y : ℕ). (i % n, x) ∷ (placed n (suc i) xs ++ (y % n, v) ∷ [])) {y = suc i + length xs}
      (omega arith)
    ∙ ap ((i % n, x) ∷◌) (placed_more n (suc i) xs v)

pub visited_end : (n k : ℕ) → visited n 0 k ++ (k % n) ∷ [] ≡ visited n 0 (suc k)
visited_end n k =
    ap (λ (x : ℕ). visited n 0 k ++ (x % n) ∷ []) {y = 0 + k} (omega arith) ∙ visited_more n 0 k

pub placed_end :
    {A : Type 0} (n : ℕ) (xs : List A) (v : A)
    → placed n 0 xs ++ (length xs % n, v) ∷ [] ≡ placed n 0 (xs ++ v ∷ [])
placed_end n xs v =
    ap (λ (x : ℕ). placed n 0 xs ++ (x % n, v) ∷ []) {y = 0 + length xs} (omega arith)
    ∙ placed_more n 0 xs v

pub length-visited : (n i k : ℕ) → length (visited n i k) ≡ k
length-visited n i zero = refl
length-visited n i (suc k) = ap suc (length-visited n (suc i) k)

pub length-placed : {A : Type 0} (n i : ℕ) (xs : List A) → length (placed n i xs) ≡ length xs
length-placed n i [] = refl
length-placed n i (x ∷ xs) = ap suc (length-placed n (suc i) xs)

-- Element `p` is not yet placed where the consumer still reads: its cell is none of the last ones
-- visited before it.
pub visited_free :
    (n i k a p : ℕ) → i + k ≤ p → p < i + a + n → touches (p % n) (drop a (visited n i k)) ≡ false
unfolding touches
visited_free n i zero zero p h l = refl
visited_free n i zero (suc a) p h l = refl
visited_free n i (suc k) zero p h l = ground (
  arith,
  slot_apart n i p (omega (arith, h)) (omega (arith, l)),
  visited_free n (suc i) k zero p (omega (arith, h)) (omega (arith, l)),
)
visited_free n i (suc k) (suc a) p h l =
    visited_free n (suc i) k a p (omega (arith, h)) (omega (arith, l))

-- Elements behind number `c`, and less than n of them, are in other cells than `c`:
pub placed_free :
    {A : Type 0} (n i : ℕ) (xs : List A) (b c : ℕ)
    → c < i + b
    → i + length xs ≤ c + n
    → touches (c % n) (map (λ w. w.0) (drop b (placed n i xs))) ≡ false
unfolding touches
placed_free n i [] zero c h l = refl
placed_free n i [] (suc b) c h l = refl
placed_free n i (x ∷ xs) zero c h l = ground (
  arith,
  slot_apart' n c i (omega (arith, h)) (omega (arith, l)),
  placed_free n (suc i) xs zero c (omega (arith, h)) (omega (arith, l)),
)
placed_free n i (x ∷ xs) (suc b) c h l =
    placed_free n (suc i) xs b c (omega (arith, h)) (omega (arith, l))

content_kept :
    {A : Type 0} (n i : ℕ) (xs : List A) (b c : ℕ) (a : A)
    → c < i
    → i + b ≤ c + n
    → content a (take b (placed n i xs)) (c % n) ≡ a
unfolding content
content_kept n i [] zero c a h l = refl
content_kept n i [] (suc b) c a h l = refl
content_kept n i (x ∷ xs) zero c a h l = refl
content_kept n i (x ∷ xs) (suc b) c a h l =
    rw (slot_apart' n c i h (omega (arith, l)))
      (content_kept n (suc i) xs b c a (omega (arith, h)) (omega (arith, l)))

-- so that the cell holds element number `i + c` after `b` stores from number `i` on.
placed_found :
    {A : Type 0} (n i : ℕ) (xs : List A) (b c p : ℕ) (a x : A)
    → c < b
    → b ≤ c + n
    → p ≡ i + c
    → get_elem? xs c ≡ some x
    → content a (take b (placed n i xs)) (p % n) ≡ x
unfolding content
placed_found n i [] b c p a x h l q e = cc
placed_found n i (y ∷ xs) zero c p a x h l q e = absurd (omega arith)
placed_found n i (y ∷ xs) (suc b) zero p a x h l q e =
    let at : p ≡ i = omega (arith, q) in
    let same : (i % n == p % n) ≡ true = rw at (ground arith) in
    let value : y ≡ x = cc in
    rw same (content_kept n (suc i) xs b p y (omega arith) (omega arith) ∙ value)
placed_found n i (y ∷ xs) (suc b) (suc c) p a x h l q e =
    placed_found n (suc i) xs b c p (if i % n == p % n then y else a) x (omega (arith, h))
      (omega (arith, l)) (omega (arith, q)) e

pub content_found :
    {A : Type 0} (n : ℕ) (xs : List A) (b c : ℕ) (a x : A)
    → c < b
    → b ≤ c + n
    → get_elem? xs c ≡ some x
    → content a (take b (placed n 0 xs)) (c % n) ≡ x
content_found n xs b c a x h l e = placed_found n 0 xs b c c a x h l (omega arith) e
