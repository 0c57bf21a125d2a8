-- ===== src/Lib.antt =====
-- The core of the Deribit HFT client: the lock-free queue between its threads, the rate limiter, the
-- dispatcher of incoming messages, the sender of requests, the receiver, the client that ties them
-- together, and the download of historical candles.
--
-- A call of `send_rpc` or `subscribe` asks the client's rate limiter and pushes a JSON text to the
-- outbound queue. The sender's thread waits for a limiter of its own, pops a text, adds the access
-- token to private requests, and hands it to the websocket. The receiver's thread pushes what the
-- websocket reads to the inbound queue. The dispatcher's thread waits for that queue, parses each
-- message, and calls the callback in the table of responses (by id) or of subscriptions (by the hash
-- of the channel). The callback of the authentication stores the access token.
--
-- Which file models what (paths from the repository's root):
--
--   FastHash         include/deribit/fast_hash.h, `fast_hash`. Laws is about names that differ,
--                    Fnv about FNV-1a.
--   SpscQueue        include/deribit/spsc_queue.h. `push`, `pop` and `empty` are the operations as one
--                    thread runs them; Fifo is the bounded list they are compared with.
--                    Threads has every load, store and wait of `push`, `pop` and `wait_and_pop` as a
--                    step; the steps of the producer and the consumer interleave freely.
--                    Weak has the same steps under the orders the source names: a load of the other
--                    thread's index with acquire reads any store it has not passed, and what a thread
--                    knows of the cells comes with that store. Strong compares it with Threads.
--                    TwoProducers has two threads in `push`; View takes a state, up to what calls can
--                    tell of it, to the list that it holds.
--   ThreadSafeQueue  include/deribit/queue.h, which no other part uses.
--   RateLimiter      include/deribit/rate_limiter.h. A token is a billion units and time is in
--                    nanoseconds, so that 5 tokens a second are 5 units a nanosecond. The rounding of
--                    `double` is not modelled.
--   Json             what the dispatcher calls of simdjson, as a record of functions that pass the
--                    document's state on. Tests.Json gives it a value.
--   ParsedMessage    include/deribit/parsed_message.h and rpc_handler.h.
--   Dispatcher       include/deribit/dispatcher.h: the tables here, `dispatch` in Dispatch, a function
--                    for each block of the source. A table is a function from indices; callbacks are
--                    names, and their calls are returned as values.
--   RequestSender    include/deribit/request_sender.h: `authorize` inserts the token, `throttle` is the
--                    wait for the limiter over the times at which it is asked, `round` and `rounds`
--                    the loop while `running` is set.
--   DeribitClient    include/deribit/deribit_client.h and env.h: the state and the constructor here,
--                    the methods in Calls, `connect` and `close` as far as they change the client; Shutdown
--                    has the end of the dispatch loop, Callbacks what callbacks change. Times and
--                    the environment are arguments.
--   System           the client with everything it starts: the statements of `connect`, `close`, and of
--                    the loops of the receiver, the sender and the dispatcher are steps of one relation,
--                    in any order; State has its state and where each thread stands. A push to the
--                    inbound queue, which the receiver and `close` share, has a step for each access.
--                    `connect` and `close` can be called again; counters tell the calls apart.
--                    Rounds and Insertion compare the steps with the loops of the other files
--                    and with `authorize`. Flow, Effects, Requests and Phases are about queues, operations and the caller's place; Outbound,
--                    Inbound, Delivery, Ending, Closing, Leftovers, Session, Tokens and Silence follow
--                    requests, messages, a notification, the shutdown, what it leaves, a session, its
--                    token and a connection that has gone quiet.
--   Websocket        include/deribit/websocket_beast.h: Boost.Beast's stream and the layers
--                    below it are a record of functions.
--   Receiver         include/deribit/receiver.h: `run` is the loop, between whose rounds other threads
--                    act. Loop says what reaches the queue, Shutdown when the loop ends.
--   Ohlcv            include/deribit/ohlcv.h: a candle, and the bytes it takes.
--   Helpers          include/deribit/helpers.h: `resolution_to_ms`, and the binary files of candles, which
--                    are lists of bytes; Binary has what a file gives back;
--                    Csv, `save_to_csv` and a reader's view of its file; Timestamp,
--                    `now_ms` and `print_timestamp` for a clock and a local time that are arguments. A time
--                    that the clock cannot hold in nanoseconds, which overflows, has no text.
--   HistoricalOhlcv  include/deribit/historical_ohlcv.h: `on_ohlcv_success` and `fetch_n_ohlcv`. Parsing has
--                    the callback, Rounds the steps of the loop, Request a request through the client,
--                    Windows, Progress and Newest what they are named for. There what becomes of each
--                    request is an argument. Download runs the function through a client, whose
--                    dispatcher gets the messages of each wait: Waits, Rounds and Loop compare it with the
--                    loop alone, Answer and Late follow one answer.
--   Logging          include/deribit/logging.h, with spdlog as a record of functions.
--   Prelude          tests, lists, byte strings, bits, integers and decimal digits. A text is the list
--                    of its bytes.
--
-- Loops over data are recursions on lists. The wait for the limiter takes the list of the times at
-- which it is asked; 202 calls a millisecond apart are enough. `to_string` writes at most twenty
-- digits, which 2 ^ 64 needs.
--
-- Not modelled: the programs of src/, which try the library by hand against the exchange's test
-- network and hold no logic of their own; and what is logged where. Memory is sequentially
-- consistent in Threads and TwoProducers; the orders of the source are in Weak alone. In System a
-- push to the inbound queue has a step for each access, and any other call of a queue is one step;
-- callbacks of the caller's own do nothing to the client; an exception that leaves `dispatch` ends the
-- program, and so does a `connect` while the threads run, which is not a step. The arithmetic of the
-- candles' windows is on unbounded integers: only times about the ends of the 64-bit range differ. In
-- Download a message is dispatched before or after the loop looks at what its callback changes, and
-- the loop's pause after a refusal has no messages.
pub mod Prelude
pub mod FastHash
pub mod SpscQueue
pub mod ThreadSafeQueue
pub mod RateLimiter
pub mod Json
pub mod ParsedMessage
pub mod Dispatcher
pub mod RequestSender
pub mod System
pub mod DeribitClient
pub mod Logging
pub mod Ohlcv
pub mod Helpers
pub mod HistoricalOhlcv
pub mod Receiver
pub mod Websocket
mod Tests
