-- ===== src/Engine/Runs.antt =====
-- internal/engine/engine.go: everything that can happen to a run, as one command each, and the runs
-- that any sequence of commands reaches. Every handler holds the engine's lock, so the commands of
-- clients, workers and the two monitors come one after the other, in an order that is left open.
pub mod Reached
pub mod Durable
pub mod Named
pub mod Nodes
pub mod Trace
pub mod Stack
pub mod Outcome
pub mod Waits
pub mod Closed
pub mod Progress
pub mod Ended
use grael.Prelude.{suc, String, Bool, ◌≡◌, refl, List, [], ◌∷◌}
use grael.Result.{Result, ok}
use grael.Runtime.{
  Time, Values, ActivityType, WorkflowDefinition, CompleteTaskRequest, FailTaskRequest,
}
use grael.Engine.{World, Session}
use grael.Engine.Start.{start_run}
use grael.Engine.Tasks.{complete_task, fail_task}
use grael.Engine.Claim.{claim_ready_task}
use grael.Engine.Control.{cancel_run, approve_checkpoint}
use grael.Engine.Monitor.{heartbeat_run, expire_leases, fire_due_timers}
use grael.Engine.Advance.{reconcile}
use grael.Engine.Steps.{Steps, here}
use grael.Engine.Steps.Advance.{Steps-reconcile}
use grael.Engine.Steps.Tasks.{Steps-complete_task, Steps-fail_task}
use grael.Engine.Steps.Claim.{Steps-claim_ready_task}
use grael.Engine.Steps.Control.{Steps-cancel_run, Steps-approve_checkpoint}
use grael.Engine.Steps.Monitor.{Steps-heartbeat_run, Steps-expire_leases, Steps-fire_due_timers}
use grael.Engine.Legal.WellFormed.{IsWellFormed}

pub data Command : Type 0 where
  complete : CompleteTaskRequest → Command
  fail : FailTaskRequest → Command
  claim : (can_handle : ActivityType → Bool) (worker_id : String) → Command
  cancel : Command
  approve : (node_id : String) → Command
  -- Each of these loops reads the clock once.
  heartbeat : (now : Time) (worker_id : String) → Command
  expire : (now : Time) → Command
  fire : (now : Time) → Command
  -- An attempt to read the log and the snapshot file.
  read : Command
  -- What a restart does to a run that it has read back.
  resume : Command

module _ (world : World) where
  unfoldable pub execute : Command → Session → Session
  unfolding complete_task fail_task claim_ready_task cancel_run approve_checkpoint heartbeat_run
      expire_leases fire_due_timers reconcile
  execute (complete req) s = (complete_task world req s).1
  execute (fail req) s = (fail_task world req s).1
  execute (claim can_handle worker) s = (claim_ready_task world can_handle worker s).1
  execute cancel s = (cancel_run world s).1
  execute (approve id) s = (approve_checkpoint world id s).1
  execute (heartbeat now worker) s = heartbeat_run world now worker s
  execute (expire now) s = expire_leases world now s
  execute (fire now) s = fire_due_timers world now s
  execute read s = record s { calls = suc s.calls }
  execute resume s = (reconcile world s).1

  -- On a well-formed run every command, on every branch and where writes fail, takes legal steps only:
  -- it gets events acknowledged that `Legal` allows in the state before them, each applied as it is
  -- recorded and, as long as the log file is not damaged, with the next sequence number, and it takes
  -- snapshots of the state of that moment. No command repairs a damaged log.
  pub execute-Steps : (c : Command) (s : Session) → IsWellFormed s.st → Steps s (execute c s)
  unfolding execute
  execute-Steps (complete req) s wf = Steps-complete_task world req s wf
  execute-Steps (fail req) s wf = Steps-fail_task world req s wf
  execute-Steps (claim can_handle worker) s wf = Steps-claim_ready_task world can_handle worker s wf
  execute-Steps cancel s wf = Steps-cancel_run world s wf
  execute-Steps (approve id) s wf = Steps-approve_checkpoint world id s
  execute-Steps (heartbeat now worker) s wf = Steps-heartbeat_run world now worker s wf
  execute-Steps (expire now) s wf = Steps-expire_leases world now s wf
  execute-Steps (fire now) s wf = Steps-fire_due_timers world now s wf
  execute-Steps read s wf =
      here (record { same_st = refl; same_log = refl; snapped = refl; intact = λ h. h })
  execute-Steps resume s wf = Steps-reconcile world s wf

  -- The runs that start and then undergo any commands. Other runs and the time between two calls
  -- may use up answers of the world.
  pub data Reach : Session → Type 0 where
    started :
        (run_id : String) (hash : WorkflowDefinition → String) (def : WorkflowDefinition)
        (input : Values) {s : Session}
        → start_run world run_id hash def input ≡ ok s
        → Reach s
    then_ : {s : Session} (c : Command) → Reach s → Reach (execute c s)
