-- ===== src/Lib.antt =====
-- EdgeFlow: the event pipeline of core/ and gateway/, from the event queue to the sinks, and the
-- simulator that feeds it.
--
-- A connection reads a device's event and pushes it on the event queue. A worker pops it, records how
-- long it waited, and adds it to the batcher, which hands full batches to a sink. The HTTP sink puts
-- each batch on a second queue, from which its own threads post batches to the backend, with retries,
-- until stop() has drained it; the file sink appends the same bytes to a file.
--
-- Files, and the code that they are about:
--   Prelude and below   names of the libraries, Boolean tests, lists, integers, texts, exceptions,
--                       and std::to_string
--   Queue/Types         core/include/edgeflow/queue_types.hpp
--   Queue/Contract      core/include/edgeflow/queue_concept.hpp: the concept EventQueue as a record of
--                       operations and laws, and histories of calls on it (Contract/History)
--   Queue/Bounded       core/include/edgeflow/bounded_queue.hpp; Bounded/Laws fills the contract
--   Queue/LockFree      core/include/edgeflow/lock_free_bounded_queue.hpp: the cell protocol of try_push
--                       and try_pop one memory access at a time (`tick`), the calls made of them
--                       (Calls), the capacity (Capacity), the invariant of the ring between calls
--                       (Invariant), and the contract (Push, Pop, Calls/Offers, Calls/Polls, Refine);
--                       Threads interleaves the accesses of any number of threads, with the invariant
--                       of the ring in the middle of calls (Threads/Invariant), a lemma for each access
--                       (Claims, Slots, Releases, Looks), and what comes of a run (Quiet, Outcome);
--                       Parking interleaves whole calls of push, pop and shutdown, with the lock and the
--                       condition variable: its invariant (Invariant), what an access does to the weights
--                       that it counts (Sums, Ticks, Steady), the moves that keep it (Hops, Plain, Tries,
--                       Ends, Wakes, Alerts, Advances, Moves), and what comes of a run (Awake)
--   Stats               core/include/edgeflow/stats.hpp; Histogram, Waits and Percentile are its proofs
--   Batcher             core/include/edgeflow/batcher.hpp and core/src/batcher.cpp; Order, Bounds and Age
--                       are its proofs
--   Workers             core/include/edgeflow/worker_pool.hpp and timed_event.hpp, over any queue that
--                       fills the contract; Conserve and Drain are its proofs
--   Connection          gateway/include/edgeflow/gateway/connection.hpp, over any such queue; Account and
--                       Order are its proofs
--   Gateway             gateway/include/edgeflow/gateway/server.hpp and, of gateway/src/main.cpp, the
--                       reactor, the workers and the flush thread on one queue, and the end of main;
--                       Worth and Conserve follow every event through it, Shutdown is about what main
--                       leaves behind, and Start is the start of main, up to the sink, with the queue of
--                       either binary (proofs in Start/Laws)
--   Sinks               core/include/edgeflow/file_sink.hpp and core/src/file_sink.cpp
--   HttpSink            gateway/include/edgeflow/gateway/http_sink.hpp and gateway/src/http_sink.cpp:
--                       parse_url (Url), send_once and PersistentConnection (Send, with its proofs in
--                       Secure and Kept), send_with_retries (Retry), next_idempotency_key (Keys), and
--                       the constructor, consume, run and stop (Sink, with its proofs in Account,
--                       Drain and Shutdown)
--   Args                core/include/edgeflow/args.hpp, over std::stoul (Number); Size and Laws say which
--                       values are taken, Flags what a flag keeps
--   Config              gateway/src/config.cpp and gateway/include/edgeflow/gateway/config.hpp; Bounds and
--                       RoundTrip are its proofs
--   Simulator/Config    simulator/src/config.cpp and simulator/include/edgeflow/simulator/config.hpp;
--                       Bounds is its proof
--   Simulator/Device    simulator/src/device_client.cpp, over the handlers that are outstanding; Sending is
--                       its proof
--   Simulator/Fleet     of simulator/src/main.cpp, the contexts of the devices and the stop-sweeps
--   Event               core/include/edgeflow/event.hpp and core/src/event.cpp, over any JSON library;
--                       Read and RoundTrip are its proofs
--   Timestamp           core/include/edgeflow/iso_timestamp.hpp
--   Tests               in each part: runs at concrete inputs
--
-- A struct or class is a record with the fields of the source, and a call is a function on it. A call
-- that holds its mutex from start to end is one step. Threads are interleaved as lists of moves, each a
-- call that is atomic in the source. What comes from outside is an argument: the clock, the jitter, the
-- errors and statuses of the network, the errors of socket handlers, and doubles; in the sinks and the
-- connection the text of an event is one too. Machine words wrap around at 2^64, written out.
--
-- Bounds and fuel: a push or a pop of the lock-free queue with no other thread in between is given five
-- memory accesses, which are shown to be enough, since the calls are shown to return. Rounding up a
-- capacity is given 30 rounds, enough for the greatest capacity 2^30. The cursors of the lock-free queue
-- are compared as signed words; the ring is ready for a number of pushes that keeps them below 2^63,
-- 2^62 for a new one, and a run of several threads makes 2^62 accesses at most. Phase 1 of pop is given
-- any number of attempts. A stop-sweep of the
-- simulator is given as many rounds as there are clients. Counters are read modulo 2^64, or below it as
-- the statements say. A number below 2^64 is printed with 20 digits at most.
--
-- Not modelled: of the lock-free queue under several threads at once, memory order (an access is
-- seen by all threads at once); the JSON library; in the HTTP sink, a backoff below 0 or of 2^62
-- milliseconds and more, with which the arithmetic of a wait is undefined, and of TLS all but the
-- settings that decide what a handshake verifies; of the gateway's main program, signals, printing and
-- the age of a batch as a signed number; of the simulator, the interval and the text of its events and
-- the timers of main; the backend, the frontend, the infrastructure and the benchmarks.
pub mod Prelude
pub mod Queue
pub mod Stats
pub mod Args
pub mod Config
pub mod Batcher
pub mod Workers
pub mod Connection
pub mod HttpSink
pub mod Sinks
pub mod Event
pub mod Gateway
pub mod Timestamp
pub mod Simulator
