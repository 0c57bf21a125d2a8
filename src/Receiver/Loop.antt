-- ===== src/Receiver/Loop.antt =====
-- What the receive loop leaves in the inbound queue.
use hft_deribit.Prelude.{
  ℕ, zero, suc, ◌-◌, ◌<◌, ◌≡◌, refl, sym, arith, true, false, List, [], ◌∷◌, ◌++◌, Option, none,
  some, Text, length, take, replicate, length-append, append_assoc, append-nil, ltb→lt, inl, inr,
  Option-cases, ltb, Bool-cases,
}
use hft_deribit.SpscQueue.{SpscQueue, push}
use hft_deribit.SpscQueue.Fifo
use hft_deribit.SpscQueue.Holds.{IsCapacity, Holds}
use hft_deribit.SpscQueue.Refine.{push_refines}
use hft_deribit.Websocket.{Beast, read, read_stream}
use hft_deribit.Receiver.{Receiver, Action, receive, run, perform_all}

abbrev pub until_empty : Option Text → List Text → List Text
until_empty none rest = []
until_empty (some []) rest = []
until_empty (some (x ∷ m)) rest = (x ∷ m) ∷ rest

-- The first `k` messages that the stream delivers, up to an exception or an empty one.
unfoldable pub arrivals : {W : Type 0} → Beast W → ℕ → W → List Text
arrivals beast zero s = []
arrivals beast (suc k) s =
    until_empty (beast.read_message s).1 (arrivals beast k (beast.read_message s).0)

room_for :
    {A : Type 0} (cap : ℕ) (xs : List A) (m : A)
    → length xs < cap
    → cap - length xs ≡ suc (cap - length (xs ++ m ∷ []))
room_for cap xs m h = omega (arith, length-append xs (m ∷ []))

no_room : {A : Type 0} (cap : ℕ) (xs : List A) → ltb (length xs) cap ≡ false → cap - length xs ≡ 0
no_room cap xs full = ground arith

take-nil : {A : Type 0} (k : ℕ) → take {A = A} k [] ≡ []
take-nil zero = refl
take-nil (suc k) = refl

with_nothing :
    {A : Type 0} (n : ℕ) (q : SpscQueue A) (xs : List A) (k : ℕ)
    → Holds n q xs
    → Holds n q (xs ++ take k [])
with_nothing n q xs k held = rw (take-nil k, append-nil xs) held

-- A list with a first element, cut to what there is room for.
take_room :
    {A : Type 0} (cap : ℕ) (xs : List A) (m : A) (ms : List A)
    → (Fifo.push cap xs m).0 ++ take (cap - length (Fifo.push cap xs m).0) ms
      ≡ xs ++ take (cap - length xs) (m ∷ ms)
unfolding Fifo.push
take_room cap xs m ms = elim (Bool-cases (ltb (length xs) cap)) [
  | inl free ↦
      rw (free, room_for cap xs m (ltb→lt (length xs) cap free))
        (append_assoc xs (m ∷ []) (take (cap - length (xs ++ m ∷ [])) ms))
  | inr full ↦ rw (full, no_room cap xs full) refl
]

-- A receiver that was started, on an open websocket.
abbrev pub listening : {W : Type 0} → W → SpscQueue Text → Receiver W
listening s q = record {
  running = true;
  ws = record { stream = s; shutting_down = false };
  queue = q;
}

module _ {W : Type 0} (beast : Beast W) {n : ℕ} (c : IsCapacity n) where
  not_tested : (s : W) (q : SpscQueue Text) → (run beast n (listening s q) []).0.queue ≡ q
  unfolding run
  not_tested s q = refl

  -- What is left when the loop ends or goes on, by what the stream delivers.
  ended_by_exception :
      (s : W) (q : SpscQueue Text) (more : List (List Action))
      → (beast.read_message s).1 ≡ none
      → (run beast n (listening s q) ([] ∷ more)).0.queue ≡ q
  unfolding run perform_all receive read read_stream
  ended_by_exception s q more e = rw (read_stream, e) refl

  ended_by_empty :
      (s : W) (q : SpscQueue Text) (more : List (List Action))
      → (beast.read_message s).1 ≡ some []
      → (run beast n (listening s q) ([] ∷ more)).0.queue ≡ q
  unfolding run perform_all receive read read_stream
  ended_by_empty s q more e = rw (read_stream, e) refl

  goes_on :
      (s : W) (q : SpscQueue Text) (x : ℕ) (m : Text) (more : List (List Action))
      → (beast.read_message s).1 ≡ some (x ∷ m)
      → run beast n (listening s q) ([] ∷ more)
        ≡ run beast n (listening (beast.read_message s).0 (push n q (x ∷ m)).0) more
  unfolding run perform_all receive read read_stream
  goes_on s q x m more e = rw (read_stream, e) refl

  -- Of the messages that the stream delivers before its first exception or empty message, the
  -- first ones that fit are in the queue in order behind what it held, and the others are dropped:
  -- for a queue of N cells that holds a list and is not popped meanwhile, and for any number of
  -- tests of the condition of a receiver that runs and is not shutting down.
  pub receives_in_order :
      (k : ℕ) (s : W) (q : SpscQueue Text) (xs : List Text)
      → Holds n q xs
      → Holds n
          (run beast n (listening s q) (replicate k [])).0.queue
          (xs ++ take (n - 1 - length xs) (arrivals beast k s))
  unfolding arrivals
  receives_in_order zero s q xs held =
      rw (not_tested s q) (with_nothing n q xs (n - 1 - length xs) held)
  receives_in_order (suc k) s q xs held = elim (Option-cases (beast.read_message s).1) [
    | inl e ↦
        rw (e, ended_by_exception s q (replicate k []) e)
          (with_nothing n q xs (n - 1 - length xs) held)
    | inr ([], e) ↦
        rw (e, ended_by_empty s q (replicate k []) e) (with_nothing n q xs (n - 1 - length xs) held)
    | inr (x ∷ m, e) ↦
        rw
          (
            e,
            goes_on s q x m (replicate k []) e,
            sym (take_room (n - 1) xs (x ∷ m) (arrivals beast k (beast.read_message s).0)),
          )
          (receives_in_order k (beast.read_message s).0 (push n q (x ∷ m)).0
            (Fifo.push (n - 1) xs (x ∷ m)).0 (push_refines c (x ∷ m) held).1)
  ]
