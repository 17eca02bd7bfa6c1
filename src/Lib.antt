-- ===== src/Lib.antt =====
-- DesCartes, a discrete-event simulator with deterministic scheduling: its event queue, the
-- runtime that polls async tasks as one of its components, the synchronisation primitives on it,
-- request queues, servers and clients with their retry policies, the policies that record and
-- replay schedules, two layers around services, and the wire format of its gRPC transport.
--
-- A simulation (des-core/src/lib.rs) holds a scheduler (des-core/src/scheduler.rs) and a table of
-- components. A step pops an event, hands it to its component or task, which calls the scheduler,
-- and schedules the wakes that were deferred meanwhile. Where several events share the least time,
-- a frontier policy chooses; the explorer (des-explore) records these choices, forces them by a
-- script, or replays them. The async runtime (des-core/src/async_runtime.rs) is a component whose
-- events wake, poll and cancel tasks; what a task does while it is polled is deferred until the
-- handler returns. The tasks wait on the primitives of des-tokio/src/sync.
--
-- Files:
-- - Prelude and below: names of the libraries, Boolean tests, lists, sets and maps of numbers, u64
--   arithmetic.
-- - Core/Time and Core/Ids: des-core/src/time.rs and ids.rs, under the names of their functions.
-- - Core/Heap: std's BinaryHeap as a bag from which a greatest entry is taken; `Ord` is the
--   interface that an entry type fills.
-- - Core/Scheduler: `Scheduler` and its methods, with the entries in Core/Scheduler/Entry and the
--   frontier in Core/Scheduler/Frontier. Rules holds the proof rules of its loops, Validity the
--   invariant of the queue, Fifo the comparison of the two pops, Conservation what becomes of the
--   entries.
-- - Core/Simulation: `Simulation::step`, `Components::process_event_entry` and the executors of
--   des-core/src/execute.rs. Progress states what a handler may call, Steps the invariant of the
--   steps, Limits the timed executor.
-- - Core/Runtime: `DesRuntime` of des-core/src/async_runtime.rs. Timers models its `BTreeMap`,
--   whose order Timers/Ordered keeps and whose content Timers/Registered states; Events models the
--   event handler, Sleep `SimSleep`. Pending, Cycle and Rounds follow a poll cycle, Wakeups the
--   queued tasks, Waking and Woken the tasks that an event wakes, Deadlines the tick of the timers,
--   and Frame what polls leave alone.
-- - Core/Request: the data of des-core/src/request.rs.
-- - Components/Queue: the queues of des-components/src/queue.rs behind their trait, with the items
--   and their order in Queue/Priority. Queue/Waiting is the line of items that a queue promises to
--   be; Refinement and ByPriority show it of the two queues.
-- - Components/Service: the events between servers and clients. Components/Server:
--   des-components/src/server.rs, on any queue that keeps what it takes (Queue/Contents). Threads
--   holds the invariant of its threads, Ledger follows each attempt, and Books counts the requests.
-- - Components/Retry: the policies of des-components/src/retry_policy.rs, whose limits
--   Retry/Bounds states. Components/Client: des-components/src/simple_client.rs; Budget counts its
--   attempts, Watch says what is due for the requests that wait, and Stays which requests wait.
--   Components/World: a simulation (Core/Simulation) whose components are servers and clients;
--   World/Effects says what their handlers schedule, Soundness and Steps treat the invariants of all
--   of them.
-- - Tokio/Semaphore: des-tokio/src/sync/batch_semaphore.rs; Invariant and Polling keep its
--   invariant through every call, Reach follows whole histories, Ledger counts the permits, and
--   Service states who is served.
-- - Tokio/Barrier: des-tokio/src/sync/barrier.rs; Present says who waits in a generation,
--   Soundness keeps that through every call, Generations follows whole histories.
-- - Tokio/Mutex: des-tokio/src/sync/mutex.rs, whose histories Guards follows. try_lock and the
--   lock future are called while a task is polled, outside of which they panic at once; the drop of
--   a guard outside of a poll, which also panics, is modelled.
-- - Tokio/Notify and Tokio/Oneshot: des-tokio/src/sync/notify.rs and oneshot.rs; Notify/Sleepers
--   says who sleeps, Oneshot/Delivery what goes through.
-- - Tokio/Watch: des-tokio/src/sync/watch.rs; Watch/Wakers is about its map of wakers, Watch/Loop
--   about the loop over the receivers, and Watch/Wakes says whom a change wakes.
-- - Tokio/Mpsc: des-tokio/src/sync/mpsc.rs; Order follows the queue through every call, Wakers the
--   blocked senders, History whole runs.
-- - Explore/Script: the keys and scripts of des-explore/src/schedule_explore.rs. Explore/Frontier:
--   the policies of des-explore/src/frontier.rs. Replay, Runs and Forced hold their theorems.
--   Explore/Ready: the policies of des-explore/src/ready_task.rs, which are policies of
--   Core/Runtime; Polls, Cycles and CycleReplay replay a recorded poll cycle.
-- - Tower: des-tower/src/tower. Tower/Breaker is circuit_breaker/mod.rs, whose histories
--   Breaker/Guarded follows; Tower/Concurrency is limit/concurrency/mod.rs, whose slots
--   Concurrency/Slots counts.
-- - Tonic/Wire: des-tonic/src/wire.rs, the getters and putters of the fields; Wire/Fields reads
--   back what they write, Wire/Messages models the unary messages, Wire/Frames the stream frames,
--   and Frames/RoundTrip what arrives of one.
-- - Examples and below: concrete runs to which the theorems are applied.
--
-- State is passed explicitly. A struct is a record, an enum a data type, a HashMap an association
-- list, a HashSet a list that holds nothing twice, and a waker a value that the operation returns
-- when it wakes it. Numbers are natural numbers; a u64 keeps its bound, its wrap-around
-- (`add_u64`) or its saturation (`saturating_add`). `none` stands for a panic where the comment of
-- the definition says so.
--
-- Of servers and clients, what they print and measure is left out; the sampling of service times,
-- with the parsing of the payload for it, the text of a payload and the floating point of the
-- retry policies are parameters. The handlers of components and tasks, the futures and the
-- ready-task policy of the async runtime, the frontier policies and the contents of events are
-- parameters. The theorems on steps ask that a handler only calls the scheduler (`Behaves`), and
-- that event numbers are left: the counter of event numbers is a u64 that wraps in a release
-- build.
--
-- The loop of a server over its queue has the number of free threads as its fuel, since each round
-- takes one. The loops over the event queue and over a poll set have its length as their fuel,
-- since each round removes an entry; the executors that run until the queue is empty or a time is
-- reached run on fuel, and report whether they ended by themselves.
--
-- Not modelled: what the drop of a cancelled task's future does, floating point (distributions,
-- statistics, metrics), external random generators, logging, formatting and serialisation, the
-- thread-local context and the mutexes around shared state, which serialise the calls, and the
-- transports built on tonic, axum and tower but for the wire format, the circuit breaker and the
-- concurrency limit.
pub mod Components
pub mod Core
pub mod Examples
pub mod Explore
pub mod Prelude
pub mod Tokio
pub mod Tonic
pub mod Tower
