-- ===== src/System/Flow.antt =====
-- The history of a queue between two threads: what went in is what came out and what is held.
use hft_deribit.Prelude.{
  ℕ, ◌-◌, ◌≡◌, refl, sym, ap, ◌∙◌, subst, Bool, List, [], ◌∷◌, ◌++◌, none, some, Text, append_assoc,
  length, ltb, if◌then◌else◌, Bool-cases, inl, inr,
}
use hft_deribit.SpscQueue.{SpscQueue, push, pop, init}
use hft_deribit.SpscQueue.Fifo
use hft_deribit.SpscQueue.Holds.{IsCapacity, Holds, init-Holds}
use hft_deribit.SpscQueue.Refine.{push_refines, pop_refines}
use hft_deribit.System.State.{logged}

-- `went_in` is what the queue took, and `came_out` what it gave.
pub record Flow (n : ℕ) (q : SpscQueue Text) (went_in came_out : List Text) : Type 0 where
  pub held : List Text
  pub holds : Holds n q held
  pub balance : went_in ≡ came_out ++ held

module _ {n : ℕ} (c : IsCapacity n) where
  pub init-Flow : (default : Text) → Flow n (init n default) [] []
  init-Flow default = record { held = []; holds = init-Holds c default; balance = refl }

  pub push-Flow :
      {q : SpscQueue Text} {went_in came_out : List Text} (v : Text)
      → Flow n q went_in came_out
      → Flow n (push n q v).0 (logged n q v went_in) came_out
  push-Flow {q} {went_in} {came_out} v f =
      let (answer, kept) = push_refines c v f.holds in
      let holds_in : List Text × Bool → Type 0 = λ p. Holds n (push n q v).0 p.0 in
      let logged_by : Bool → List Text = λ b. if b then went_in ++ v ∷ [] else went_in in
      elim (Bool-cases (ltb (length f.held) (n - 1))) [
        | inl free ↦
            let e = Fifo.push_free (n - 1) f.held v free in
            record {
              held = f.held ++ v ∷ [];
              holds = subst holds_in e kept;
              balance =
                  ap logged_by (answer ∙ ap (λ p. p.1) e)
                  ∙ ap (λ xs. xs ++ v ∷ []) f.balance
                  ∙ append_assoc came_out f.held (v ∷ []);
            }
        | inr full ↦
            let e = Fifo.push_full (n - 1) f.held v full in
            record {
              held = f.held;
              holds = subst holds_in e kept;
              balance = ap logged_by (answer ∙ ap (λ p. p.1) e) ∙ f.balance;
            }
      ]

  popped :
      {q : SpscQueue Text} (went_in came_out : List Text) {v : Text} (held : List Text)
      → Holds n q held
      → went_in ≡ came_out ++ held
      → (pop n q).1 ≡ some v
      → Flow n (pop n q).0 went_in (came_out ++ v ∷ [])
  unfolding Fifo.pop
  popped _ _ [] holds b e = let (answer, kept) = pop_refines c [] holds in cc
  popped went_in came_out {v} (x ∷ xs) holds b e =
      let (answer, kept) = pop_refines c (x ∷ xs) holds in
      let same : x ≡ v = cc in
      record {
        held = xs;
        holds = kept;
        balance = b ∙ ap (λ y. came_out ++ y ∷ xs) same ∙ sym (append_assoc came_out (v ∷ []) xs);
      }

  pub pop-Flow :
      {q : SpscQueue Text} {went_in came_out : List Text} {v : Text}
      → (pop n q).1 ≡ some v
      → Flow n q went_in came_out
      → Flow n (pop n q).0 went_in (came_out ++ v ∷ [])
  pop-Flow {went_in = i} {came_out = o} e f = popped i o f.held f.holds f.balance e

  missed :
      {q : SpscQueue Text} (went_in came_out : List Text) (held : List Text)
      → Holds n q held
      → went_in ≡ came_out ++ held
      → (pop n q).1 ≡ none
      → Flow n (pop n q).0 went_in came_out
  unfolding Fifo.pop
  missed _ _ [] holds b e = record { held = []; holds = (pop_refines c [] holds).1; balance = b }
  missed _ _ (x ∷ xs) holds b e = let (answer, kept) = pop_refines c (x ∷ xs) holds in cc

  pub missed-Flow :
      {q : SpscQueue Text} {went_in came_out : List Text}
      → (pop n q).1 ≡ none
      → Flow n q went_in came_out
      → Flow n (pop n q).0 went_in came_out
  missed-Flow {went_in = i} {came_out = o} e f = missed i o f.held f.holds f.balance e
