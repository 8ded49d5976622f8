-- ===== src/Engine/Fleet.antt =====
-- internal/engine/engine.go: the engine over all its runs, with the registry of workers and the limit of
-- active runs. A run stands under its id with its log and snapshot file; `loaded` says whether `e.runs`
-- has it. `doubtful` is no part of the code: it notes that the state was once read from a damaged log,
-- or can only come from one.
pub mod Entries
pub mod Served
pub mod Reached
pub mod Poll
use grael.Prelude.{
  ℕ, suc, String, Bool, true, false, not, ◌&&◌, ◌||◌, Option, none, some, List, [], ◌∷◌,
  if◌then◌else◌,
}
use grael.Prelude.Int.{ℤ, not_positive, le_nat}
use grael.Prelude.Lists.{sort, any}
use grael.Prelude.Map.{Map, lookup, insert, keys, values}
use grael.Result.{Error, Result, ok, err, ignore, capacity_exceeded, run_not_found, wal_failed}
use grael.Runtime.{
  Time, Values, ActivityType, RunState, WorkflowDefinition, WorkerTask, Event, is_ready,
}
use grael.State.{ExecutionState, is_terminal}
use grael.State.View.{RunView, NodeView, view}
use grael.Worker.{Registry, register, touch, can_handle}
use grael.Engine.{World, Session, Op}
use grael.Engine.Advance.{reconcile}
use grael.Engine.Claim.{claim_ready_task}
use grael.Engine.Load.{load_state, loaded_of, list_log}
use grael.Engine.Monitor.{heartbeat_run, expire_leases, fire_due_timers}
use grael.Engine.Start.{blank, start_run}

pub record Entry : Type 0 where
  pub loaded : Bool
  pub doubtful : Bool
  pub session : Session

pub record Engine : Type 0 where
  pub runs : Map Entry
  pub workers : Registry
  pub max_active_runs : ℤ

-- `countActiveRuns`
unfoldable pub count_active_runs : Map Entry → ℕ
unfolding is_terminal
count_active_runs [] = 0
count_active_runs ((id, r) ∷ rs) =
    let rest = count_active_runs rs in
    if r.loaded && not (is_terminal r.session.st) then suc rest else rest

-- The guard of `StartRun`.
unfoldable pub at_capacity : Engine → Bool
unfolding not_positive le_nat count_active_runs
at_capacity e =
    not (not_positive e.max_active_runs) && le_nat e.max_active_runs (count_active_runs e.runs)

abbrev pub was_doubtful : Option Entry → Bool
was_doubtful none = false
was_doubtful (some r) = r.doubtful

-- `e.runs[runID] = st`
abbrev pub put : String → Session → Engine → Engine
put id s e =
    let r : Entry = record {
      loaded = true;
      doubtful = was_doubtful (lookup id e.runs);
      session = s;
    } in
    record e { runs = insert id r e.runs }

-- A start whose first write fails leaves no run in memory, but may leave a file, on which nothing is known.
abbrev pub left_behind : String → Error → Engine → Engine
left_behind id wal_failed e =
    let session : Session = record blank { damaged = true; calls = 1 } in
    let r : Entry = record { loaded = false; doubtful = true; session = session } in
    record e { runs = insert id r e.runs }
left_behind id _ e = e

-- The run after a reading of its files, which uses up an answer of its world: in `e.runs`, or not.
abbrev pub answered : Session → Session
answered s = record s { calls = suc s.calls }

abbrev pub read_back : ExecutionState → Entry → Entry
read_back st r = record {
  loaded = true;
  doubtful = r.doubtful || r.session.damaged;
  session = answered (record r.session { st = st });
}

abbrev pub unread : Entry → Entry
unread r = record r { loaded = false; session = answered r.session }

-- `for runID := range e.runs`
unfoldable pub each_run : (String → Session → Session) → Map Entry → Map Entry
each_run f [] = []
each_run f ((id, r) ∷ rs) =
    (id, if r.loaded then record r { session = f id r.session } else r) ∷ each_run f rs

-- What goes on with the run, if there was no error.
abbrev pub with_run :
    {A : Type 0}
    → Result Session × Engine
    → (Session → Engine → Result A × Engine)
    → Result A × Engine
with_run (err x, e) f = (err x, e)
with_run (ok s, e) f = f s e

-- One round of the loop of `tryClaimTask`: a task or an error ends the loop.
abbrev pub claim_next :
    Result (Option WorkerTask) × Session
    → String
    → Engine
    → (Engine → Result (Option WorkerTask) × Engine)
    → Result (Option WorkerTask) × Engine
claim_next (err x, s) id e next = (err x, put id s e)
claim_next (ok (some task), s) id e next = (ok (some task), put id s e)
claim_next (ok none, s) id e next = next (put id s e)

-- `RegisterWorker`
unfoldable pub register_worker :
    Time → String → List ActivityType → Engine → Result (Unit {0}) × Engine
unfolding register
register_worker now worker activities e = elim (register now worker activities e.workers) [
  | err x ↦ (err x, e)
  | ok workers ↦ (ok tt, record e { workers = workers })
]

-- `hasReadyNode`
unfoldable pub has_ready_node : RunView → Bool
unfolding values
has_ready_node v = any (λ n. is_ready n.state) (values v.nodes)

abbrev is_run_running : RunState → Bool
is_run_running RunState.running = true
is_run_running _ = false

-- Whether `WaitForQuiescence` stops at a view.
unfoldable pub is_quiescent : RunView → Bool
unfolding has_ready_node
is_quiescent v = not (is_run_running v.state) || not (has_ready_node v)

module _ (worlds : String → World) where
  -- What `loadStateLocked` finds in the files of a run.
  unfoldable pub read_entry : String → Entry → Result ExecutionState
  unfolding load_state loaded_of list_log
  read_entry id r =
      load_state none (loaded_of (worlds id) r.session) (list_log (worlds id) r.session)

  -- `loadStateLocked`, of a run by its id.
  unfoldable pub fetch : String → Engine → Result Session × Engine
  unfolding read_entry
  fetch id e = elim (lookup id e.runs) [
    | none ↦ (err run_not_found, e)
    | some r ↦ if r.loaded then (ok r.session, e) else elim (read_entry id r) [
      | err x ↦ (err x, record e { runs = insert id (unread r) e.runs })
      | ok st ↦ (ok (read_back st r).session, record e { runs = insert id (read_back st r) e.runs })
    ]
  ]

  -- A handler of one run, at the run that a request names.
  unfoldable pub on_run : {A : Type 0} → String → Op A → Engine → Result A × Engine
  unfolding fetch
  on_run id op e = with_run (fetch id e) (λ s e'. ((op s).0, put id (op s).1 e'))

  -- `GetRun`
  unfoldable pub get_run : String → Engine → Result RunView × Engine
  unfolding fetch view
  get_run id e = with_run (fetch id e) (λ s e'. (ok (view s.st), e'))

  -- `ListEvents`: an empty log is one of a run that is not there.
  unfoldable pub list_events : String → Engine → Result (List Event) × Engine
  unfolding list_log
  list_events id e = elim (lookup id e.runs) [
    | none ↦ (err run_not_found, e)
    | some r ↦ (
      elim (list_log (worlds id) r.session) [
        | err x ↦ err x
        | ok [] ↦ err run_not_found
        | ok (event ∷ events) ↦ ok (event ∷ events)
      ],
      record e { runs = insert id (record r { session = answered r.session }) e.runs },
    )
  ]

  -- `StartRun`. The id is new: it is the name of the workflow and the time.
  unfoldable pub admit_run :
      (run_id : String)
      → (hash : WorkflowDefinition → String) → WorkflowDefinition
      → Values
      → Engine
      → Result String × Engine
  unfolding at_capacity start_run
  admit_run run_id hash def input e =
      if at_capacity e
      then (err capacity_exceeded, e)
      else elim (start_run (worlds run_id) run_id hash def input) [
        | err x ↦ (err x, left_behind run_id x e)
        | ok s ↦ (ok run_id, put run_id s e)
      ]

  -- `Heartbeat`
  unfoldable pub heartbeat_worker : Time → (worker : String) → Engine → Result (Unit {0}) × Engine
  unfolding touch each_run heartbeat_run
  heartbeat_worker now worker e = elim (touch now worker e.workers) [
    | err x ↦ (err x, e)
    | ok workers ↦ (
      ok tt,
      record e {
        workers = workers;
        runs = each_run (λ id s. heartbeat_run (worlds id) now worker s) e.runs;
      },
    )
  ]

  -- `expireOverdueLeases` and `fireDueTimers`
  unfoldable pub expire_overdue_leases : Time → Engine → Engine
  unfolding each_run expire_leases
  expire_overdue_leases now e = record e {
    runs = each_run (λ id s. expire_leases (worlds id) now s) e.runs;
  }

  unfoldable pub fire_all_timers : Time → Engine → Engine
  unfolding each_run fire_due_timers
  fire_all_timers now e = record e {
    runs = each_run (λ id s. fire_due_timers (worlds id) now s) e.runs;
  }

  -- The loop of `tryClaimTask`, which stops at the first task and at the first error.
  unfoldable pub claim_run :
      (worker : String) → List String → Engine → Result (Option WorkerTask) × Engine
  unfolding fetch claim_ready_task can_handle
  claim_run worker [] e = (ok none, e)
  claim_run worker (id ∷ ids) e = with_run (fetch id e) λ s e'.
      claim_next (claim_ready_task (worlds id) (can_handle e.workers worker) worker s) id e'
        (claim_run worker ids)

  -- The ids of the runs that are loaded.
  unfoldable pub run_ids : Map Entry → List String
  run_ids [] = []
  run_ids ((id, r) ∷ rs) = if r.loaded then id ∷ run_ids rs else run_ids rs

  -- `tryClaimTask`
  unfoldable pub try_claim_task : (worker : String) → Engine → Result (Option WorkerTask) × Engine
  unfolding claim_run run_ids
  try_claim_task worker e = claim_run worker (sort (run_ids e.runs)) e

  -- `PollTask` without a timeout; with one, `tryClaimTask` is called again later.
  unfoldable pub poll_task : Time → (worker : String) → Engine → Result (Option WorkerTask) × Engine
  unfolding heartbeat_worker try_claim_task
  poll_task now worker e = elim (heartbeat_worker now worker e).0 [
    | err x ↦ (err x, (heartbeat_worker now worker e).1)
    | ok _ ↦ try_claim_task worker (heartbeat_worker now worker e).1
  ]

  -- `loadPersistedRuns` of the next process, at one run. What cannot be read is not loaded.
  unfoldable pub reload : String → Entry → Entry
  unfolding read_entry reconcile
  reload id r = elim (read_entry id r) [
    | err x ↦ unread r
    | ok st ↦ record (read_back st r) {
      session = (ignore (reconcile (worlds id)) (read_back st r).session).1;
    }
  ]

  unfoldable pub reload_all : Map Entry → Map Entry
  unfolding reload
  reload_all [] = []
  reload_all ((id, r) ∷ rs) = (id, reload id r) ∷ reload_all rs

  -- A new process in the same directory: its registry of workers is empty.
  unfoldable pub restart : Engine → Engine
  unfolding reload_all
  restart e = record e { runs = reload_all e.runs; workers = [] }
