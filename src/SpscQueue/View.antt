-- ===== src/SpscQueue/View.antt =====
-- What a client can tell about a ring buffer: its states up to the replies to any calls.
use std.Path.{transport}
use std.Univalence.{ua, ua-β}
use std.Equiv.{◌≃◌, iso_to_equiv}
use mathlib.Core.HLevel.{Σ_prop_path, Σ_set, prop→set}
use mathlib.Core.List
use mathlib.Core.Quot
use mathlib.Core.Quot.{Quot, Quot-set}
use native.Mathlib.Bridge.{le_prop}
use hft_deribit.Prelude.{
  ℕ, Bool, ◌-◌, ◌<◌, ◌≡◌, refl, sym, ap, ap₂, ◌∙◌, subst, arith, List, [], ◌∷◌, ◌++◌, none, some,
  length, ltb, get_elem?, drop, is_empty, if◌then◌else◌, Bool-cases, inl, inr, lt→ltb,
  length-append, append_assoc, append-nil,
}
use hft_deribit.SpscQueue.{SpscQueue, init, push, pop, empty}
use hft_deribit.SpscQueue.Fifo
use hft_deribit.SpscQueue.Fifo.{Op, Reply, put, get, ask, got}
use hft_deribit.SpscQueue.Holds.{IsCapacity, Holds, init-Holds}
use hft_deribit.SpscQueue.Refine.{run, run_refines, push_refines, pop_refines, empty_refines}

-- A list that fits a ring of N cells.
abbrev pub Bounded : Type 0 → ℕ → Type 0
Bounded A n = (xs : List A) × (length xs < n)

-- A state of a ring that holds some list.
abbrev pub Ring : Type 0 → ℕ → Type 0
Ring A n = (q : SpscQueue A) × ((xs : List A) × Holds n q xs)

tail_of : {A : Type 0} → List (Reply A) → List (Reply A)
tail_of (_ ∷ rs) = rs
tail_of [] = []

-- Lists with the same replies are equal: calls of `pop` bring out their elements.
same_lists :
    {A : Type 0} (cap : ℕ) (xs ys : List A)
    → ((ops : List (Op A)) → Fifo.run cap xs ops ≡ Fifo.run cap ys ops)
    → xs ≡ ys
unfolding Fifo.run Fifo.pop tail_of
same_lists cap [] [] h = refl
same_lists cap [] (y ∷ ys) h = let e : got none ∷ [] ≡ got (some y) ∷ [] = h (get ∷ []) in cc
same_lists cap (x ∷ xs) [] h = let e : got (some x) ∷ [] ≡ got none ∷ [] = h (get ∷ []) in cc
same_lists cap (x ∷ xs) (y ∷ ys) h =
    let e : got (some x) ∷ [] ≡ got (some y) ∷ [] = h (get ∷ []) in
    let first : x ≡ y = cc in
    ap₂ ◌∷◌ first (same_lists cap xs ys (λ ops. ap tail_of (h (get ∷ ops))))

module _ {A : Type 0} {n : ℕ} (c : IsCapacity n) where
  -- No calls tell two states apart.
  abbrev pub SameReplies : Ring A n → Ring A n → Type 0
  SameReplies r s = (ops : List (Op A)) → run c r.0 ops ≡ run c s.0 ops

  -- Pushing a list onto a ring that has room for it.
  fill :
      (zs : List A) (q : SpscQueue A) (ys : List A)
      → Holds n q ys
      → length (ys ++ zs) < n
      → (p : SpscQueue A) × Holds n p (ys ++ zs)
  fill [] q ys held room = (q, subst (Holds n q) (sym (append-nil ys)) held)
  fill (z ∷ zs) q ys held room =
      let free : length ys < n - 1 = omega (arith, room, length-append ys (z ∷ zs)) in
      let kept : Holds n (push n q z).0 (ys ++ z ∷ []) =
        subst (λ (p : List A × Bool). Holds n (push n q z).0 p.0)
          (Fifo.push_free (n - 1) ys z (lt→ltb (length ys) (n - 1) free))
          (push_refines c z held).1 in
      let (p, e) = fill zs (push n q z).0 (ys ++ z ∷ []) kept (
        omega (
          arith,
          room,
          length-append ys (z ∷ zs),
          length-append ys (z ∷ []),
          length-append (ys ++ z ∷ []) zs,
        )) in
      (p, subst (Holds n p) (append_assoc ys (z ∷ []) zs) e)

  same_lists_of : (r s : Ring A n) → SameReplies r s → r.1.0 ≡ s.1.0
  same_lists_of r s h =
      same_lists (n - 1) r.1.0 s.1.0
        (λ ops. sym (run_refines c ops r.1.1) ∙ h ops ∙ run_refines c ops s.1.1)

  push_answer : (xs : List A) (v : A) → (Fifo.push (n - 1) xs v).1 ≡ ltb (length xs) (n - 1)
  unfolding Fifo.push
  push_answer xs v = elim (Bool-cases (ltb (length xs) (n - 1))) [
    | inl e ↦ rw e refl
    | inr e ↦ rw e refl
  ]

  push_list :
      (xs : List A) (v : A)
      → (Fifo.push (n - 1) xs v).0 ≡ (if ltb (length xs) (n - 1) then xs ++ v ∷ [] else xs)
  unfolding Fifo.push
  push_list xs v = elim (Bool-cases (ltb (length xs) (n - 1))) [
    | inl e ↦ rw e refl
    | inr e ↦ rw e refl
  ]

  pop_list :
      {q : SpscQueue A} (xs : List A)
      → Holds n q xs
      → ((pop n q).1 ≡ get_elem? xs 0) × Holds n (pop n q).0 (drop 1 xs)
  unfolding Fifo.pop
  pop_list [] held = pop_refines c [] held
  pop_list (x ∷ xs) held = pop_refines c (x ∷ xs) held

  module _ (set : IsSet A) (default : A) where
    bounded_set : IsSet (Bounded A n)
    bounded_set =
        Σ_set {B = λ (xs : List A). length xs < n} (List.is_set set) (λ xs. prop→set le_prop)

    to_list : Quot SameReplies → Bounded A n
    to_list =
        Quot.lift bounded_set (λ r. (r.1.0, r.1.1.room))
          (λ r s h. Σ_prop_path (λ xs. le_prop) (same_lists_of r s h))

    of_list : Bounded A n → Quot SameReplies
    of_list (xs, room) =
        let (q, held) = fill xs (init n default) [] (init-Holds c default) room in
        Quot.mk (q, (xs, held))

    states_equiv_lists : Quot SameReplies ≃ Bounded A n
    unfolding to_list of_list
    states_equiv_lists = iso_to_equiv (record {
      fun = to_list;
      inv = of_list;
      rinv = λ b. Σ_prop_path (λ xs. le_prop) refl;
      linv =
          Quot.ind (λ q. Quot-set _ _)
            (λ r. Quot.sound (λ ops.
              run_refines c ops (fill r.1.0 (init n default) [] (init-Holds c default) r.1.1.room).1
              ∙ sym (run_refines c ops r.1.1)));
    })

    -- The states of a ring of N cells, up to the replies to any calls, are the lists of less than N
    -- elements.
    pub states-eq-lists : Quot SameReplies ≡ Bounded A n
    states-eq-lists = ua states_equiv_lists

    -- For N a power of two of at most 2 ^ 63, and elements that form a set: the states of a ring of
    -- N cells, up to the replies to any calls, are the lists of less than N elements. There a state
    -- is the list that it holds. `push` says true if that has less than N - 1 elements and puts the
    -- value behind them, and otherwise says false and leaves them; `pop` gives the first element, if
    -- there is one, and leaves the others; `empty` tells whether there is none.
    pub ring_as_list :
        (r : Ring A n) (v : A)
        → ((transport states-eq-lists (Quot.mk r)).0 ≡ r.1.0)
          × ((push n r.0 v).1 ≡ ltb (length r.1.0) (n - 1))
          × Holds n (push n r.0 v).0 (if ltb (length r.1.0) (n - 1) then r.1.0 ++ v ∷ [] else r.1.0)
          × ((pop n r.0).1 ≡ get_elem? r.1.0 0)
          × Holds n (pop n r.0).0 (drop 1 r.1.0)
          × (empty r.0 ≡ is_empty r.1.0)
    unfolding states-eq-lists states_equiv_lists to_list
    ring_as_list r v =
        let (answer, kept) = push_refines c v r.1.1 in
        let (first, left) = pop_list r.1.0 r.1.1 in
        (
          ap (λ b. b.0) (ua-β states_equiv_lists (Quot.mk r)),
          answer ∙ push_answer r.1.0 v,
          subst (Holds n (push n r.0 v).0) (push_list r.1.0 v) kept,
          first,
          left,
          empty_refines c r.1.1,
        )
