-- ===== src/Engine/Tasks.antt =====
-- internal/engine/engine.go: what a worker reports of a task (`CompleteTask`, `FailTask` and the two
-- that they call for a compensation task).
use Prim.Native.String.{◌++◌}
use grael.Prelude.{
  ℕ, String, Bool, false, not, ◌&&◌, Option, none, some, List, ◌==◌, nat_eq, if◌then◌else◌,
}
use grael.Prelude.Map.{lookup}
use grael.Result.{
  Error, ok, err, raise, pure, ◌>>=◌, ◌>>◌, task_not_found, attempt_mismatch, lease_expired,
  run_cancelled,
}
use grael.Runtime.{
  NodeDefinition, Payload, CompleteTaskRequest, FailTaskRequest, compensation_task_completed,
  compensation_task_failed, checkpoint_reached, node_cancelled, node_completed, node_failed,
  workflow_failed, is_running,
}
use grael.State.{Node, holds_compensation}
use grael.Engine.{World, Op, emit, save}
use grael.Engine.Queries.{is_some, has_pending_retry_timer}
use grael.Engine.Advance.{advance}
use grael.Engine.Timers.{schedule_checkpoint_timeout, schedule_retry}
use grael.Engine.Spawn.{normalize_spawned}

-- The lease that a request names is the one that the node runs under.
unfoldable pub holds_lease : Node → (worker_id : String) (attempt : ℕ) → Bool
holds_lease n worker attempt =
    is_running n.state && (n.worker_id == worker && nat_eq n.attempt attempt)

-- The two checks of the lease that `CompleteTask` and `FailTask` share, in their order.
unfoldable pub check_lease : Node → (worker_id : String) (attempt : ℕ) → Option Error
unfolding holds_lease
check_lease n worker attempt =
    if nat_eq n.attempt attempt && not (is_running n.state)
    then some lease_expired
    else if holds_lease n worker attempt
    then none
    else some attempt_mismatch

module _ (world : World) where
  -- An event with `time.Now()`, for the run that the request names.
  unfoldable pub emit_for : String → Payload → Op (Unit {0})
  unfolding emit
  emit_for run_id payload s = emit world run_id (world.time s.calls) payload s

  -- `completeCompensationTaskLocked`
  unfoldable pub complete_compensation : CompleteTaskRequest → Op (Unit {0})
  unfolding emit_for advance save
  complete_compensation req s =
      if is_some s.st.active_compensation
      then if holds_compensation s.st.active_compensation req.node_id req.worker_id req.attempt
        then (do
          emit_for req.run_id (compensation_task_completed req.node_id req.worker_id req.attempt)
          advance world
          save world)
            s
        else raise attempt_mismatch s
      else raise task_not_found s

  -- `failCompensationTaskLocked`
  unfoldable pub fail_compensation : FailTaskRequest → Op (Unit {0})
  unfolding emit_for save
  fail_compensation req s =
      if is_some s.st.active_compensation
      then if holds_compensation s.st.active_compensation req.node_id req.worker_id req.attempt
        then (do
          emit_for req.run_id
              (compensation_task_failed req.node_id req.worker_id req.attempt req.message)
          emit_for req.run_id (workflow_failed "compensation failed")
          save world)
            s
        else raise attempt_mismatch s
      else raise task_not_found s

  -- `failNodeForInvalidSpawnLocked`
  unfoldable pub fail_for_invalid_spawn : CompleteTaskRequest → Error → Op (Unit {0})
  unfolding emit_for advance save
  fail_for_invalid_spawn req e = do
    emit_for req.run_id (
        node_failed req.node_id req.worker_id req.attempt
          ("invalid spawned graph: " ++ world.error_text e) false false)
    advance world
    save world
    raise e

  -- `CompleteTask` for a node whose lease is in order: a checkpoint, or a completion.
  unfoldable pub reach_checkpoint : CompleteTaskRequest → Node → (reason : String) → Op (Unit {0})
  unfolding emit_for schedule_checkpoint_timeout save
  reach_checkpoint req n reason = do
    emit_for req.run_id (checkpoint_reached req.node_id req.worker_id req.attempt reason)
    schedule_checkpoint_timeout world n req.attempt
    save world

  unfoldable pub finish_node : CompleteTaskRequest → List NodeDefinition → Op (Unit {0})
  unfolding emit_for advance save
  finish_node req spawned = do
    emit_for req.run_id (node_completed req.node_id req.worker_id req.attempt req.output spawned)
    advance world
    save world

  unfoldable pub complete_leased : CompleteTaskRequest → Node → Op (Unit {0})
  unfolding reach_checkpoint finish_node fail_for_invalid_spawn
  complete_leased req n s =
      if s.st.cancel_requested then raise run_cancelled s else elim req.checkpoint [
        | some reason ↦ reach_checkpoint req n reason s
        | none ↦ elim (normalize_spawned s.st req.node_id req.spawned_nodes) [
          | err e ↦ fail_for_invalid_spawn req e s
          | ok spawned ↦ finish_node req spawned s
        ]
      ]

  -- `CompleteTask`
  unfoldable pub complete_task : CompleteTaskRequest → Op (Unit {0})
  unfolding complete_compensation complete_leased check_lease
  complete_task req s =
      if req.compensation
      then complete_compensation req s
      else elim (lookup req.node_id s.st.nodes) [
        | none ↦ raise task_not_found s
        | some n ↦ elim (check_lease n req.worker_id req.attempt) [
          | some e ↦ raise e s
          | none ↦ complete_leased req n s
        ]
      ]

  -- `FailTask` for a node whose lease is in order: a cancellation, or a failure that may be retried.
  unfoldable pub cancel_leased : FailTaskRequest → Op (Unit {0})
  unfolding emit_for advance save
  cancel_leased req = do
    emit_for req.run_id (node_cancelled req.node_id req.worker_id req.attempt)
    advance world
    save world

  -- The retry timer of a failed node, and whether one is now pending.
  unfoldable pub retry_node : FailTaskRequest → Node → Op Bool
  unfolding schedule_retry
  retry_node req n s =
      if req.retryable
      then (schedule_retry world n req >>= λ _ t.
            (ok (has_pending_retry_timer t.st n.id req.attempt), t))
          s
      else (ok false, s)

  unfoldable pub fail_node : FailTaskRequest → Node → Op (Unit {0})
  unfolding emit_for retry_node advance save
  fail_node req n = do
    emit_for req.run_id
        (node_failed req.node_id req.worker_id req.attempt req.message req.retryable false)
    scheduled ← retry_node req n
    if scheduled then pure tt else advance world
    save world

  -- `FailTask`
  unfoldable pub fail_task : FailTaskRequest → Op (Unit {0})
  unfolding fail_compensation cancel_leased fail_node check_lease
  fail_task req s =
      if req.compensation then fail_compensation req s else elim (lookup req.node_id s.st.nodes) [
        | none ↦ raise task_not_found s
        | some n ↦ elim (check_lease n req.worker_id req.attempt) [
          | some e ↦ raise e s
          | none ↦
              if s.st.cancel_requested && not req.cancelled
              then raise run_cancelled s
              else if req.cancelled
              then cancel_leased req s
              else fail_node req n s
        ]
      ]
