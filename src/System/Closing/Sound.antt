-- ===== src/System/Closing/Sound.antt =====
-- What holds in `close`, and how a step leads on.
use hft_deribit.Prelude.{◌≡◌, Bool, true, false}
use hft_deribit.Json.{Simdjson}
use hft_deribit.Websocket.{Beast}
use hft_deribit.System.{Step, Steps, here, next}
use hft_deribit.System.State.{Phase, closed, Dispatching, in_dispatch, System}
use hft_deribit.System.Phases.{IsPhased, Step-IsPhased}
use hft_deribit.System.Ending.{IsFilled, Step-IsFilled}

abbrev pub is_dispatching : Dispatching → Bool
is_dispatching (in_dispatch msg) = true
is_dispatching _ = false

module _ {F S U W : Type 0} (j : Simdjson) (beast : Beast W) where
  pub record IsSound (s : System F S U W) : Type 0 where
    pub phased : IsPhased s
    pub filled : IsFilled j beast s

  pub Step-IsSound : {s t : System F S U W} → Step j beast s t → IsSound s → IsSound t
  Step-IsSound st i = record {
    phased = Step-IsPhased j beast st i.phased;
    filled = Step-IsFilled j beast st i.phased i.filled;
  }

  behind : {s t u : System F S U W} → Step j beast s t → Steps j beast t u → Steps j beast s u
  behind st here = next here st
  behind st (next before last) = next (behind st before) last

  -- A way to the end of `close`, on which all threads end.
  abbrev pub Returns : System F S U W → Type 0
  Returns s = (t : System F S U W) × Steps j beast s t × IsSound t × (t.phase ≡ closed)

  -- The states in `close` from which only `dispatch` could keep the caller.
  pub record IsAt (p : Phase) (s : System F S U W) : Type 0 where
    pub at : s.phase ≡ p
    pub sound : IsSound s
    pub free : is_dispatching s.dispatcher ≡ false

  pub step :
      {s t : System F S U W} → Step j beast s t → IsSound s → (IsSound t → Returns t) → Returns s
  step st i more = let (u, steps, k, e) = more (Step-IsSound st i) in (u, behind st steps, k, e)

  -- A step of another thread than the dispatcher, after which `close` is at a place.
  pub goes :
      {p : Phase} {s t : System F S U W}
      → Step j beast s t
      → IsSound s
      → t.phase ≡ p
      → is_dispatching t.dispatcher ≡ false
      → (IsAt p t → Returns t)
      → Returns s
  goes st i e q more = step st i (λ k. more (record { at = e; sound = k; free = q }))
