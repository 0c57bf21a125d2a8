-- ===== src/DeribitClient/Shutdown.antt =====
-- How the client's loop ends.
use hft_deribit.Prelude.{
  ◌≡◌, refl, ◌∙◌, arith, List, [], ◌∷◌, some, Text, length, ltb, Bool-cases, inl, inr,
}
use hft_deribit.SpscQueue.{pop}
use hft_deribit.SpscQueue.Fifo
use hft_deribit.SpscQueue.Holds.{IsCapacity, Holds}
use hft_deribit.SpscQueue.Refine.{push_refines, pop_refines}
use hft_deribit.Json.{Simdjson}
use hft_deribit.DeribitClient.{Client, inbound_capacity}
use hft_deribit.DeribitClient.Calls.{close, dispatch_message, dispatch_loop}

pub inbound_IsCapacity : IsCapacity inbound_capacity
inbound_IsCapacity = record { pos = omega arith; small = omega arith; power = refl }

-- After a push a bounded list with room for anything is not empty.
pushed_first :
    (xs : List Text) (v : Text) → (msg : Text) × ((Fifo.pop (Fifo.push 4095 xs v).0).1 ≡ some msg)
unfolding Fifo.pop Fifo.push
pushed_first [] v = (v, refl)
pushed_first (x ∷ xs) v = elim (Bool-cases (ltb (length (x ∷ xs)) 4095)) [
  | inl e ↦ rw e (x, refl)
  | inr e ↦ rw e (x, refl)
]

module _ {F S U : Type 0} where
  close_leaves :
      (c : Client F S U) {xs : List Text}
      → Holds inbound_capacity c.inbound_queue xs
      → (msg : Text) × ((pop inbound_capacity (close c).inbound_queue).1 ≡ some msg)
  unfolding close
  close_leaves c {xs} held =
      let (msg, e) = pushed_first xs [] in
      let kept = (push_refines inbound_IsCapacity [] held).1 in
      (msg, (pop_refines inbound_IsCapacity (Fifo.push 4095 xs []).0 kept).0 ∙ e)

  closed_ends :
      (j : Simdjson) (c : Client F S U) (msg : Text) (msgs : List Text)
      → dispatch_loop j (close c) (msg ∷ msgs) ≡ some (close c, msgs)
  unfolding dispatch_loop dispatch_message close
  closed_ends j c msg msgs = refl

  -- If the inbound queue holds a list, full or not, and no other thread uses it meanwhile: after
  -- `close` the dispatcher finds a message in the queue, and with that message, whatever it is, its
  -- loop ends without a call of a callback.
  close_ends_loop :
      (j : Simdjson) (c : Client F S U) {xs : List Text} (msgs : List Text)
      → Holds inbound_capacity c.inbound_queue xs
      → (msg : Text) × ((pop inbound_capacity (close c).inbound_queue).1 ≡ some msg)
        × (dispatch_loop j (close c) (msg ∷ msgs) ≡ some (close c, msgs))
  close_ends_loop j c msgs held =
      let (msg, e) = close_leaves c held in (msg, e, closed_ends j c msg msgs)
