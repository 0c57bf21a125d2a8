-- ===== src/Tests/Reception.antt =====
-- The receiver, on a stream that plays a list of outcomes.
use hft_deribit.Prelude.{
  bytes_eq, codes, ◌≡◌, ◌≢◌, refl, arith, true, List, [], ◌∷◌, ◌++◌, ◌-◌, Option, some, none, Text,
  take, replicate, is_empty, length,
}
use hft_deribit.SpscQueue.{init, push, pop, next_index}
use hft_deribit.SpscQueue.Holds.{IsCapacity, Holds, init-Holds}
use hft_deribit.Websocket.{Beast, read, read_stream, close}
use hft_deribit.Receiver.{Receiver, stop, pop_queue, run, perform, perform_all, receive, start}
use hft_deribit.Receiver.Loop.{listening, arrivals, receives_in_order}

abbrev play : List (Option Text) → List (Option Text) × Option Text
play [] = ([], none)
play (o ∷ s) = (s, o)

abbrev pub player : Beast (List (Option Text))
player = record {
  resolve = λ s _ _. (s, true);
  connect_tcp = λ s. (s, some 443);
  set_sni = λ s _. (s, true);
  handshake_tls = λ s. (s, true);
  handshake_ws = λ s host path. (s, bytes_eq host (codes "test.deribit.com:443"));
  read_message = play;
  write_message = λ s m. (s, is_empty m);
  close_normal = λ s. ([], true);
}

four : IsCapacity 4
four = record { pos = omega arith; small = omega arith; power = refl }

-- Four messages, of which three fit; an empty one; one more.
abbrev pub traffic : List (Option Text)
traffic =
    some (1 ∷ []) ∷ some (2 ∷ []) ∷ some (3 ∷ []) ∷ some (4 ∷ []) ∷ some [] ∷ some (5 ∷ []) ∷ []

abbrev fresh : Receiver (List (Option Text))
fresh = listening traffic (init 4 [])

-- The queue is full at the fourth message, and the empty one ends the loop.
run_traffic :
    ((pop 4 (run player 4 fresh (replicate 6 [])).0.queue).1 ≡ some (1 ∷ []))
    × ((run player 4 fresh (replicate 6 [])).1 ≡ true)
    × ((run player 4 fresh (replicate 6 [])).0.ws.stream ≡ some (5 ∷ []) ∷ [])
unfolding run perform_all perform receive read read_stream push pop next_index init
run_traffic = (refl, refl, refl)

-- A started receiver that is stopped again reads nothing.
run_stopped : (run player 4 (start fresh) ((stop ∷ []) ∷ [] ∷ [])).0.ws.stream ≡ []
unfolding run perform_all perform receive read read_stream close start
run_stopped = refl

receives_in_order_example :
    Holds 4
      (run player 4 (listening traffic (init 4 [])) (replicate 6 [])).0.queue
      ([] ++ take (4 - 1 - length {A = Text} []) (arrivals player 6 traffic))
receives_in_order_example =
    receives_in_order player four 6 traffic (init 4 []) [] (init-Holds four [])

stop-ne-pop_queue : stop ≢ pop_queue
stop-ne-pop_queue e = cc
