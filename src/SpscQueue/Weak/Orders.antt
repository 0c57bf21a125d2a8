-- ===== src/SpscQueue/Weak/Orders.antt =====
-- The messages of an index that counts up, and what a load finds among them.
use hft_deribit.Prelude.{
  ℕ, zero, suc, ◌+◌, ◌%◌, ◌≤◌, ◌≡◌, ap, ◌∙◌, arith, List, [], ◌∷◌, ◌++◌, some, get_elem?,
}
use hft_deribit.SpscQueue.Weak.{Message, Loads, latest}

-- The message of count `k`, and those of the counts from `i` to `i + k`.
abbrev pub message : ℕ → ℕ → Message
message n k = record { value = k % n; released = k }

abbrev pub counted : ℕ → ℕ → ℕ → List Message
counted n i zero = message n i ∷ []
counted n i (suc k) = message n i ∷ counted n (suc i) k

counted_more : (n i k : ℕ) → counted n i k ++ message n (suc (i + k)) ∷ [] ≡ counted n i (suc k)
counted_more n i zero = ap (λ (x : ℕ). message n i ∷ message n x ∷ []) {y = suc i} (omega arith)
counted_more n i (suc k) =
    ap (λ (x : ℕ). message n i ∷ (counted n (suc i) k ++ message n x ∷ [])) {y = suc (suc i + k)}
      (omega arith)
    ∙ ap (message n i ∷◌) (counted_more n (suc i) k)

latest_from : (n i k : ℕ) → latest (counted n i k) ≡ (i + k) % n
unfolding latest
latest_from n i zero = ap (λ (x : ℕ). x % n) {x = i} (omega arith)
latest_from n i (suc zero) = ap (λ (x : ℕ). x % n) {x = suc i} (omega arith)
latest_from n i (suc (suc k)) =
    latest_from n (suc i) (suc k) ∙ ap (λ (x : ℕ). x % n) {x = suc i + suc k} (omega arith)

pub counted_end : (n k : ℕ) → counted n 0 k ++ message n (suc k) ∷ [] ≡ counted n 0 (suc k)
counted_end n k =
    ap (λ (x : ℕ). counted n 0 k ++ message n (suc x) ∷ []) {y = 0 + k} (omega arith)
    ∙ counted_more n 0 k

pub latest-counted : (n k : ℕ) → latest (counted n 0 k) ≡ k % n
latest-counted n k = latest_from n 0 k ∙ ap (λ (x : ℕ). x % n) {y = k} (omega arith)

same_message : (m m' : Message) → some m' ≡ some m → m ≡ m'
same_message m m' e = cc

counted_found :
    (n i k p : ℕ) (m : Message)
    → get_elem? (counted n i k) p ≡ some m
    → (p ≤ k) × (m ≡ message n (i + p))
counted_found n i zero zero m e =
    (omega arith, same_message m (message n i) e ∙ ap (message n) {x = i} (omega arith))
counted_found n i zero (suc p) m e = cc
counted_found n i (suc k) zero m e =
    (omega arith, same_message m (message n i) e ∙ ap (message n) {x = i} (omega arith))
counted_found n i (suc k) (suc p) m e =
    let (h, q) = counted_found n (suc i) k p m e in
    (omega (arith, h), q ∙ ap (message n) {x = suc i + p} (omega arith))

-- A load finds a count that is no older than the last one found, and no younger than the last store.
pub Loads-counted :
    (n : ℕ) {view k p : ℕ} {m : Message}
    → Loads view (counted n 0 k) p m
    → (view ≤ p) × (p ≤ k) × (m ≡ message n p)
Loads-counted n {view} {k} {p} {m} l =
    let (h, e) = counted_found n 0 k p m l.found in
    (l.coherent, h, e ∙ ap (message n) {x = 0 + p} (omega arith))
