-- ===== src/Lib.antt =====
-- Grael, a workflow engine whose runs are derived from an append-only log of events.
--
-- The program. A client starts a run of a workflow definition, a graph of nodes, and workers poll for
-- tasks, send heartbeats, and complete or fail what they leased. Each change is an event: it is
-- appended to the log of the run, then applied to the state in memory, of which snapshots are saved.
-- A lease monitor and a timer monitor add events of their own. After a restart a run is read back
-- from its snapshot and its log.
--
-- The files.
--   Prelude             lists, Boolean tests, signed durations, and Go maps with string keys
--   Result              Go's error returns; an action threads the object that a method mutates
--   Runtime             internal/runtime/types.go
--   State, State/Apply  internal/state/state.go: `ExecutionState`, `Apply`, `Rehydrate`,
--                       `markReadyNodes`; State/View, `View`; the other children of State hold laws
--   Workflow            internal/workflowdef/loader.go: `Normalize`, `NormalizeNode`; `LoadJSON` and `BuiltIn`
--                       (Workflow/Load)
--   Worker              internal/worker/registry.go
--   Wal                 internal/wal/wal.go: the file of one run as lines of bytes (Wal/Scan), `Append`,
--                       `List`, `Subscribe` (Wal/Store), and a subscriber with its goroutine
--                       (Wal/Subscriber), and `RunIDs` (Wal/Names); the other children hold
--                       their laws
--   Snapshot            internal/snapshot/store.go: the snapshot file of one run as bytes, `Save`, `Load`,
--                       `Info`
--   Engine              internal/engine/engine.go: one run (`Session`), with its log and snapshot file,
--                       and the calls that change them (`emit` for `wal.Append` and `Apply`, `save`)
--   Engine/Queries, Advance, Timers, Cycle, Spawn, Tasks, Claim, Control, Monitor, Start, Load
--                       the functions and handlers of engine.go, under their names in snake_case:
--                       complete_task for `CompleteTask`, claim_ready_task for `claimReadyTaskLocked`,
--                       advance for `advanceRunStateLocked`, load_state for `loadStateLocked`
--   Engine/Legal        the specification: which event may be recorded in which state
--   Engine/Steps        runs that take legal steps only, with a file for each group of handlers
--   Engine/Runs         the commands that can happen to a run, the runs that they reach, and the
--                       invariants of these (Runs/Reached, Durable, Trace, Nodes, Stack,
--                       Outcome, Waits, Closed, Progress, Ended, Named)
--   Engine/Leases       who holds a lease, who may report on a task, and what a claim hands out
--   Engine/Fleet        the engine over all its runs (`Engine`): the map of runs, the registry of workers,
--                       the limit of active runs, and restarts; on_run stands for the handlers of one run
--   Sdk/FanOut, Worker  sdk/fanout.go and sdk/worker.go: one round of the loop of `Run` (`run_once`)
--   Server              internal/grpcserver/server.go and proto/grael.proto: the messages, their conversions
--                       (Server/Convert), `mapError` (Server/Status), and the handlers over the engine, to
--                       which internal/api/service.go passes them on (Server/Handlers); start_run_rpc for
--                       `StartRun`; `StreamEvents` over the log store (Server/Stream)
--   Demo                demo/adapter/adapter.go: what the dashboard shows of an event (Demo/Events),
--                       `analyzeEvents` (Demo/Analysis), the graph, the frames of the replay and `Snapshot`
--                       (Demo/Graph); the other children hold their laws
--   Tests               runs of the model on small inputs, of the log store (Tests/Log), the whole engine
--                       (Tests/Fleet), a fan-out (Tests/Sdk), the snapshot file (Tests/Snapshot), the
--                       server (Tests/Server) and the dashboard (Tests/Demo)
--
-- The model. Every handler holds the lock of the engine, so a handler is one action on a run, and an
-- interleaving of clients, workers and monitors is a list of commands. The clock, the outcome of every
-- write to and every reading of the log and the snapshot file, and the texts of errors and numbers are a
-- parameter (`World`), which is asked by the count of the calls: any of them may fail. What `fmt.Errorf`
-- prints is not modelled, so errors are values. A time is a number of nanoseconds and a duration is a
-- signed integer, both without the bound of 64 bits; the attempt of a lease wraps at 2 ^ 32. Go leaves
-- the order of a `range` over a map open: the maps of the model keep one. The depth-first search of
-- `hasCycle` is on fuel, of which it gets one unit more than there are nodes, since each call below
-- another one marks a node that had no mark.
--
-- The log store is modelled twice. In Wal it is a file of bytes, of which a write may leave a part;
-- encoding/json, the checksum and `bytes.TrimSpace` are a parameter (`Format`), of which `IsFaithful` says
-- what the log relies on, and the answers of the file system are an argument of each call. In Engine a
-- run has the list of the events that `Append` has acknowledged and the state of its last snapshot. A call
-- that fails there, or that writes a line too long for the reader, may leave the log file damaged (`damaged`),
-- and then what number `Append` gives and what `List` answers is left open; a `Save` that fails may leave
-- the old snapshot, the new one, or a torn file; and each reading of a file may fail. `doubtful` notes of a
-- run of Engine/Fleet that its state was once read from a damaged log. The bytes of the snapshot file are
-- in Snapshot.
--
-- The protobuf libraries are a parameter of the server (`Protobuf`), and what `%d` prints is one of the
-- dashboard, which reads the view and the events of a run at one moment. Its sorts are by insertion.
--
-- Not modelled: waiting and timeouts of a poll, calls of `StartRun` or `GetRun` that overlap, the end of
-- the context of a worker, a crash in the midst of a handler, the command line, and the harness and web
-- server of the demo.
pub mod Prelude
pub mod Result
pub mod Runtime
pub mod State
pub mod Workflow
pub mod Worker
pub mod Wal
pub mod Demo
pub mod Snapshot
pub mod Engine
pub mod Sdk
pub mod Server
pub mod Tests
