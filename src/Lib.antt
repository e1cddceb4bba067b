-- ===== src/Lib.antt =====
-- JobRaft: a task scheduler with leases, retries, dependencies and pluggable stores.
--
-- Clients submit tasks to a scheduler (internal/scheduler/scheduler.go), which keeps their records in
-- a store (internal/store). External workers claim due tasks, renew their leases and complete them;
-- local workers take dispatched tasks off a queue and run a handler. A tick of the scheduler's loop
-- takes back tasks whose lease is over and dispatches due ones. An HTTP server (internal/api) makes
-- requests into calls of the scheduler, and the client of a worker (pkg/workerclient) builds such
-- requests. A registry of nodes (internal/cluster) elects the one whose scheduler dispatches.
--
-- Which file models which part:
--   Base            Booleans, signed integers, association lists, decimal numerals, string order
--   Task            internal/task/task.go: Task, Status, Validate, IsTerminal
--   Task/Id         internal/task/id.go: NewID and idFrom
--   Store           internal/store/store.go: the Store interface as a record of operations with its
--                   optional extensions, IsInFlight, Due
--   Store/Contract  what the scheduler relies on of a store, as laws over that record
--   Store/Memory    MemoryStore, method by method; Memory/Contract fills the laws
--   Store/Due       lemmas on the listing of due tasks
--   Store/File      internal/store/file.go: FileStore, NewFile and saveLocked; File/Durable compares it
--                   with the memory store and with its file, File/Contract fills the laws
--   Fileutil        internal/fileutil/replace.go: Replace, over an abstract disk
--   Cluster         internal/cluster/election.go: MemoryRegistry, the elector's renewals, and Registry
--   Cluster/FileRegistry  file_registry.go: the registry in a file, with its lock file
--   Cluster/Consensus     consensus.go: Join, leader, Renew and Apply of a group
--   Scheduler       scheduler.go: the struct, New, the setters, dependenciesReady, failUnreadyTask and
--                   the conditional write that the methods share. Its children are Metrics, Workers
--                   (RegisterWorker, Heartbeat, workerHealthy), Submit, Claim (Claim, bestDue,
--                   commitClaim), Complete (finish, CompleteTaskWithResult, RenewTaskLease), Cancel
--                   (Cancel, Purge), Recover (reapExpired, requeueRunningOnStop, recoverRunning),
--                   Dispatch (dispatch), Execute (execute) and Lifecycle (Start, Stop, the loop)
--   Scheduler/Moves the life of a task as a step relation, and each method as steps of it
--   Scheduler/Calls a scheduler's events as a data type with one interpreter, for interleavings
--   Api             internal/api/server.go: requests and responses. Its children are Workers, Poll (the
--                   claim that waits), Tasks with Filter, Views (the handlers that only read) and
--                   Serve (routes and authentication); Effects, Requests and Access compare requests
--                   with calls
--   WorkerClient    pkg/workerclient/client.go: the requests of a worker, its loop (Run), how its URLs
--                   are read (Urls), and what the server makes of its requests (Served)
--   Cmd             cmd/jobraft/main.go: the parts put together from the environment (Settings)
--   Scenarios       small runs over a memory store
--
-- A method is a function from the scheduler's state to its answer and the new state. The state holds
-- the store, of an abstract type that a record of operations acts on. Each reading of the clock is an
-- argument. A time is the number of nanoseconds since Go's zero time, a natural number without a
-- bound; a duration and an int are signed, and the counters of attempts and runs wrap at 2^63 as
-- int does, the metrics at 2^64, and the UnixNano of a lease token as int64. The mutexes make a
-- method's critical sections atomic; an event of Scheduler/Calls is one whole method. The loop of Claim runs on fuel, one round more than there are
-- listed tasks. dependsOn takes its depth as an argument; the number of stored tasks and two more is
-- enough. The order of a Go map is the order of an association list. A nil slice is the empty list.
-- The latency sum is counted in nanoseconds where the source adds floating-point seconds.
--
-- The disk of the file store is an abstract type with the calls of package os as operations; what
-- they do is a record of laws, as is the promise of encoding/json that its output reads back as a map
-- with the same keys and values, in any order and with embedded JSON in another layout. A map of names
-- to contents fills the first (Scenarios/Files), a text of keys the second (Scenarios/Json). What
-- net/url reads of a client's URLs is a record of laws as well, which Scenarios/Url fills.
--
-- A request is what the handlers read of an http.Request, and a response its code, the headers that
-- are set, and its body as a value before it is JSON. The functions of the Go library that a handler
-- calls are the fields of Library; so is the pattern matching of ServeMux. A handler is a function of
-- the scheduler, and a request one step, but for a claim that waits: each of its rounds is a step, and
-- between two rounds other goroutines make any calls. Its loop runs on fuel; 601 rounds are enough for
-- the longest wait of 30 s at the shortest interval of 50 ms. The worker's client acts on an abstract
-- network; which case of a select comes next is an argument. A group of internal/cluster/consensus.go
-- is the key of its entry in the registry, in place of a pointer. While a file registry waits for its
-- lock file, other processes change the disk in any way.
--
-- Not modelled: PostgreSQL, whose statements run in the database; the listener, the signals and the
-- shutdown of cmd/jobraft; and the programs cmd/jobraft-bench and examples/demo-worker, which generate
-- load or show the client. Goroutines, tickers and channels appear as the sequences of calls that they
-- make.
mod Base
pub mod Task
pub mod Fileutil
pub mod Store
pub mod Scheduler
pub mod Cluster
pub mod Api
pub mod WorkerClient
pub mod Cmd
pub mod Scenarios
