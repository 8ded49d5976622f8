-- ===== src/Sdk/Worker.antt =====
-- sdk/worker.go: the worker that polls for tasks, calls a handler, and reports what came of it. Its client
-- is the engine, and other calls may come between two of its own.
pub mod Laws
use grael.Prelude.{ℕ, String, Bool, false, Option, none, some, List, [], ◌∷◌}
use grael.Prelude.Map.{Map, lookup, keys}
use grael.Result.{Error, Result, ok, err, no_handlers, no_handler}
use grael.Runtime.{
  Time, Values, ActivityType, NodeDefinition, WorkerTask, CompleteTaskRequest, FailTaskRequest,
}
use grael.Engine.{World}
use grael.Engine.Tasks.{complete_task, fail_task}
use grael.Engine.Fleet.{Engine, register_worker, poll_task, on_run}

-- What a handler returns: a result or an error. `context_ended` is the error of the worker's own context
-- that has ended, `task_error` a `*TaskError` somewhere in the chain of the error.
pub record HandlerResult : Type 0 where
  pub output : Values
  pub spawned_nodes : List NodeDefinition
  pub checkpoint : Option String

pub data HandlerError : Type 0 where
  context_ended : HandlerError
  task_error : (message : String) (retryable is_cancelled : Bool) → HandlerError
  other_error : (message : String) → HandlerError

pub data Handled : Type 0 where
  returned : HandlerResult → Handled
  raised : HandlerError → Handled

abbrev pub Handlers : Type 0
Handlers = Map (WorkerTask → Handled)

-- The call that the worker makes for a task, if any.
pub data Report : Type 0 where
  completion : CompleteTaskRequest → Report
  failure : FailTaskRequest → Report
  no_report : Report

abbrev pub failure_of :
    String → WorkerTask → (message : String) (is_cancelled retryable : Bool) → Report
failure_of worker t message is_cancelled retryable = failure (record {
  worker_id = worker;
  run_id = t.run_id;
  node_id = t.node_id;
  attempt = t.attempt;
  compensation = t.compensation;
  message = message;
  cancelled = is_cancelled;
  retryable = retryable;
})

unfoldable pub report : (worker_id : String) → WorkerTask → Handled → Report
report worker t (raised context_ended) = no_report
report worker t (raised (task_error message retryable is_cancelled)) =
    failure_of worker t message is_cancelled retryable
report worker t (raised (other_error message)) = failure_of worker t message false false
report worker t (returned result) = completion (record {
  worker_id = worker;
  run_id = t.run_id;
  node_id = t.node_id;
  attempt = t.attempt;
  compensation = t.compensation;
  output = result.output;
  checkpoint = result.checkpoint;
  spawned_nodes = result.spawned_nodes;
})

-- Whether the loop of `Run` goes on, returns nil, or returns an error.
pub data Turn : Type 0 where
  goes_on returns : Turn
  breaks : Error → Turn

abbrev pub turn_of : Result (Unit {0}) × Engine → Turn × Engine
turn_of (ok _, e) = (goes_on, e)
turn_of (err x, e) = (breaks x, e)

-- The registration at the beginning of `Run`.
unfoldable pub register_handlers : Time → (worker_id : String) → Handlers → Engine → Turn × Engine
unfolding keys register_worker
register_handlers now worker [] e = (breaks no_handlers, e)
register_handlers now worker ((activity, handler) ∷ handlers) e =
    turn_of (register_worker now worker (activity ∷ keys handlers) e)

module _ (worlds : String → World) where
  unfoldable pub submit : Report → Engine → Turn × Engine
  unfolding on_run complete_task fail_task
  submit (completion req) e =
      turn_of (on_run worlds req.run_id (complete_task (worlds req.run_id) req) e)
  submit (failure req) e = turn_of (on_run worlds req.run_id (fail_task (worlds req.run_id) req) e)
  submit no_report e = (returns, e)

  abbrev pub handle_polled :
      (worker_id : String) → Handlers → Result (Option WorkerTask) × Engine → Turn × Engine
  handle_polled worker handlers (err x, e) = (breaks x, e)
  handle_polled worker handlers (ok none, e) = (goes_on, e)
  handle_polled worker handlers (ok (some t), e) = elim (lookup t.activity_type handlers) [
    | none ↦ (breaks (no_handler t.activity_type), e)
    | some handler ↦ submit (report worker t (handler t)) e
  ]

  -- One round of the loop of `Run`.
  unfoldable pub run_once : Time → (worker_id : String) → Handlers → Engine → Turn × Engine
  unfolding poll_task report submit
  run_once now worker handlers e = handle_polled worker handlers (poll_task worlds now worker e)
