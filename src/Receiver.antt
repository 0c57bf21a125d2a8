-- ===== src/Receiver.antt =====
-- include/deribit/receiver.h: the thread that reads the websocket into the inbound queue.
-- `Loop` shows what it does to the queue, `Shutdown` that it ends.
pub mod Loop
pub mod Shutdown
use hft_deribit.Prelude.{ℕ, Bool, true, false, List, [], ◌∷◌, Text, is_empty, if◌then◌else◌}
use hft_deribit.SpscQueue.{SpscQueue, push, pop}
use hft_deribit.Websocket.{Beast, WebSocketBeast, read, close, mark_shutting_down}

-- The websocket and the queue are references: they are shared with the client.
pub record Receiver (W : Type 0) : Type 0 where
  pub running : Bool
  pub ws : WebSocketBeast W
  pub queue : SpscQueue Text

-- What other threads do to the receiver, its websocket and its queue.
pub data Action : Type 0 where
  request_stop : Action
  stop : Action
  mark : Action
  close_ws : Action
  pop_queue : Action

-- `start` sets the flag before the thread runs.
unfoldable pub start : {W : Type 0} → Receiver W → Receiver W
start r = record r { running = true }

module _ {W : Type 0} (beast : Beast W) (n : ℕ) where
  -- `stop` up to its join of the thread.
  unfoldable pub perform : Receiver W → Action → Receiver W
  perform r request_stop = record r { running = false }
  perform r stop = record r { running = false; ws = close beast r.ws }
  perform r mark = record r { ws = mark_shutting_down r.ws }
  perform r close_ws = record r { ws = close beast r.ws }
  perform r pop_queue = record r { queue = (pop n r.queue).0 }

  unfoldable pub perform_all : Receiver W → List Action → Receiver W
  perform_all r [] = r
  perform_all r (a ∷ acts) = perform_all (perform r a) acts

  -- One test of the loop's condition and, where it holds, the body; and whether the loop goes on.
  unfoldable pub receive : Receiver W → Receiver W × Bool
  receive r =
      if r.running
      then (let (ws, msg) = read beast r.ws in
          if is_empty msg
          then (record r { ws = ws }, false)
          else (record r { ws = ws; queue = (push n r.queue msg).0 }, true))
      else (r, false)

  -- The loop, where each entry holds what other threads do before the next test of the condition;
  -- and whether the loop has ended when the entries are used up.
  unfoldable pub run : Receiver W → List (List Action) → Receiver W × Bool
  run r [] = (r, false)
  run r (meanwhile ∷ more) =
      let (r', again) = receive (perform_all r meanwhile) in
      let rest = run r' more in if again then rest else (r', true)
