-- ===== src/Receiver/Shutdown.antt =====
-- The end of the receive loop.
use hft_deribit.Prelude.{
  ℕ, ◌≡◌, ◌≢◌, refl, true, false, List, [], ◌∷◌, ◌++◌, ◌⊎◌, inl, inr, Bool-cases,
}
use hft_deribit.Websocket.{Beast, read, read_stream, close, mark_shutting_down}
use hft_deribit.Receiver.{
  Receiver, Action, request_stop, stop, mark, close_ws, pop_queue, perform, perform_all, receive,
  run,
}

-- The loop will not go on: either flag says so.
abbrev IsStopped : {W : Type 0} → Receiver W → Type 0
IsStopped r = (r.running ≡ false) ⊎ (r.ws.shutting_down ≡ true)

module _ {W : Type 0} (beast : Beast W) (n : ℕ) where
  perform-IsStopped : (r : Receiver W) (a : Action) → IsStopped r → IsStopped (perform beast n r a)
  unfolding perform close mark_shutting_down
  perform-IsStopped r request_stop p = inl refl
  perform-IsStopped r stop p = inl refl
  perform-IsStopped r mark p = inr refl
  perform-IsStopped r close_ws p = inr refl
  perform-IsStopped r pop_queue p = p

  perform_all-IsStopped :
      (r : Receiver W) (acts : List Action) → IsStopped r → IsStopped (perform_all beast n r acts)
  unfolding perform_all
  perform_all-IsStopped r [] p = p
  perform_all-IsStopped r (a ∷ acts) p =
      perform_all-IsStopped (perform beast n r a) acts (perform-IsStopped r a p)

  stops : (r : Receiver W) (a : Action) → a ≢ pop_queue → IsStopped (perform beast n r a)
  unfolding perform close mark_shutting_down
  stops r request_stop h = inl refl
  stops r stop h = inl refl
  stops r mark h = inr refl
  stops r close_ws h = inr refl
  stops r pop_queue h = absurd (h refl)

  IsStopped-after :
      (r : Receiver W) (acts : List Action) (a : Action) (bs : List Action)
      → a ≢ pop_queue
      → IsStopped (perform_all beast n r (acts ++ a ∷ bs))
  unfolding perform_all
  IsStopped-after r [] a bs h = perform_all-IsStopped (perform beast n r a) bs (stops r a h)
  IsStopped-after r (x ∷ acts) a bs h = IsStopped-after (perform beast n r x) acts a bs h

  receive_stopped : (r : Receiver W) → IsStopped r → receive beast n r ≡ (r, false)
  unfolding receive read read_stream
  receive_stopped r (inl e) = rw (e) refl
  receive_stopped r (inr e) = elim (Bool-cases r.running) [
    | inl on ↦ rw (on, e) refl
    | inr off ↦ rw (off) refl
  ]

  -- Once another thread stops the receiver, closes its websocket or marks it as shutting down, the
  -- loop ends at the next test of its condition, and the last state is what that thread left:
  -- nothing more is pushed.
  shutdown_ends :
      (r : Receiver W) (acts : List Action) (a : Action) (bs : List Action)
      (more : List (List Action))
      → a ≢ pop_queue
      → run beast n r ((acts ++ a ∷ bs) ∷ more) ≡ (perform_all beast n r (acts ++ a ∷ bs), true)
  unfolding run
  shutdown_ends r acts a bs more h =
      rw (receive_stopped (perform_all beast n r (acts ++ a ∷ bs)) (IsStopped-after r acts a bs h))
        refl
