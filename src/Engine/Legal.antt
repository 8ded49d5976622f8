-- ===== src/Engine/Legal.antt =====
-- internal/engine/engine.go: what the engine promises of its log. `Legal s p` says that a run in state
-- `s` may record an event with payload `p`, and under which guard.
pub mod Nodes
pub mod WellFormed
use grael.Prelude.{
  ℕ, String, ◌≡◌, Bool, true, false, ◌&&◌, ◌||◌, not, Option, none, some, List, ◌==◌,
}
use grael.Prelude.Lists.{All}
use grael.Prelude.Map.{lookup, has}
use grael.Runtime.{
  Values, NodeState, RunState, NodeDefinition, TimerPurpose, Payload, lease_granted,
  heartbeat_recorded, lease_expired, cancellation_requested, cancellation_completed,
  compensation_started, compensation_task_started, compensation_task_completed,
  compensation_task_expired, compensation_task_failed, compensation_completed, timer_scheduled,
  timer_fired, checkpoint_reached, checkpoint_approved, node_started, node_cancelled,
  node_completed, node_failed, workflow_failed, workflow_completed, next_attempt,
}
use grael.State.{Node, Timer, CompensationEntry, ActiveCompensation, ExecutionState, is_terminal}
use grael.Engine.Queries.{
  all_nodes_completed, all_nodes_terminal, has_unrecovered_failure, has_compensation_work,
  has_pending_compensation, next_compensation_entry,
}
use grael.Engine.Advance.{is_eligible}
use grael.Engine.Spawn.Accepted.{IsSpawnable}

-- The states in which a deadline or a worker may fail a node.
abbrev pub can_fail : NodeState → Bool
can_fail NodeState.running = true
can_fail NodeState.awaiting_approval = true
can_fail NodeState.ready = true
can_fail _ = false

-- The run states in which a compensation task may be active.
abbrev pub may_compensate : RunState → Bool
may_compensate RunState.compensating = true
may_compensate RunState.cancelled = true
may_compensate _ = false

-- A run that neither ended nor is being cancelled, in the given state.
pub record IsLive (s : ExecutionState) (r : RunState) : Type 0 where
  pub run : s.run_state ≡ r
  pub kept : s.cancel_requested ≡ false

pub data Legal (s : ExecutionState) : Payload → Type 0 where
  -- A ready node is leased with the next attempt, and then started under that lease.
  grant :
      {id worker activity : String} {attempt : ℕ} (n : Node)
      → lookup id s.nodes ≡ some n
      → n.state ≡ NodeState.ready
      → attempt ≡ next_attempt n.attempt
      → IsLive s RunState.running
      → Legal s (lease_granted id worker attempt activity)
  start :
      {id worker : String} {attempt : ℕ} (n : Node)
      → lookup id s.nodes ≡ some n
      → n.state ≡ NodeState.ready
      → n.attempt ≡ attempt
      → n.worker_id ≡ worker
      → Legal s (node_started id worker attempt)
  -- A heartbeat is of a running node, or of the active compensation.
  beat :
      {id worker : String} {attempt : ℕ} (n : Node)
      → lookup id s.nodes ≡ some n
      → n.state ≡ NodeState.running
      → n.worker_id ≡ worker
      → n.attempt ≡ attempt
      → Legal s (heartbeat_recorded id worker attempt)
  beat_task :
      {id worker : String} {attempt : ℕ} (a : ActiveCompensation)
      → s.active_compensation ≡ some a
      → a.node_id ≡ id
      → a.worker_id ≡ worker
      → a.attempt ≡ attempt
      → Legal s (heartbeat_recorded id worker attempt)
  expire :
      {id worker : String} {attempt : ℕ} (n : Node)
      → lookup id s.nodes ≡ some n
      → n.state ≡ NodeState.running
      → n.attempt ≡ attempt
      → Legal s (lease_expired id worker attempt)
  -- Cancellation of the run, which ends when every node has ended.
  request : is_terminal s ≡ false → s.cancel_requested ≡ false → Legal s cancellation_requested
  cancelled :
      is_terminal s ≡ false
      → s.cancel_requested ≡ true
      → all_nodes_terminal s ≡ true
      → Legal s cancellation_completed
  -- Compensation, of the newest entry that is open, one task at a time.
  compensate :
      IsLive s RunState.running
      → has_unrecovered_failure s ≡ true
      → has_compensation_work s ≡ true
      → Legal s compensation_started
  start_task :
      {id worker activity : String} {attempt : ℕ} (c : CompensationEntry)
      → IsLive s RunState.compensating
      → next_compensation_entry s ≡ some c
      → c.node_id ≡ id
      → attempt ≡ next_attempt c.attempt
      → Legal s (compensation_task_started id worker attempt activity)
  finish_task :
      {id worker : String} {attempt : ℕ} (a : ActiveCompensation)
      → s.active_compensation ≡ some a
      → a.node_id ≡ id
      → a.worker_id ≡ worker
      → a.attempt ≡ attempt
      → Legal s (compensation_task_completed id worker attempt)
  expire_task :
      {id worker : String} {attempt : ℕ} (a : ActiveCompensation)
      → s.active_compensation ≡ some a
      → Legal s (compensation_task_expired id worker attempt)
  fail_task :
      {id worker message : String} {attempt : ℕ} (a : ActiveCompensation)
      → s.active_compensation ≡ some a
      → a.node_id ≡ id
      → a.worker_id ≡ worker
      → a.attempt ≡ attempt
      → Legal s (compensation_task_failed id worker attempt message)
  compensated :
      IsLive s RunState.compensating
      → has_pending_compensation s ≡ false
      → s.active_compensation ≡ none
      → Legal s compensation_completed
  -- A timer is about a node that is there, and fires once, in a run that has not ended.
  schedule :
      {timer_id id worker : String} {attempt fire_at : ℕ} {purpose : TimerPurpose} (n : Node)
      → lookup id s.nodes ≡ some n
      → Legal s (timer_scheduled timer_id id attempt purpose fire_at worker)
  fire :
      {timer_id id : String} {attempt : ℕ} {purpose : TimerPurpose} (t : Timer)
      → lookup timer_id s.timers ≡ some t
      → t.fired ≡ false
      → t.node_id ≡ id
      → t.attempt ≡ attempt
      → t.purpose ≡ purpose
      → is_terminal s ≡ false
      → Legal s (timer_fired timer_id id attempt purpose)
  reach :
      {id worker reason : String} {attempt : ℕ} (n : Node)
      → lookup id s.nodes ≡ some n
      → n.state ≡ NodeState.running
      → s.cancel_requested ≡ false
      → Legal s (checkpoint_reached id worker attempt reason)
  approve :
      {id : String} (n : Node)
      → lookup id s.nodes ≡ some n
      → n.state ≡ NodeState.awaiting_approval
      → is_terminal s ≡ false
      → Legal s (checkpoint_approved id)
  -- A node is cancelled with its run, or while it runs, by its worker.
  cancel :
      {id worker : String} {attempt : ℕ} (n : Node)
      → lookup id s.nodes ≡ some n
      → is_eligible n.state ≡ true
      → s.cancel_requested ≡ true
      → Legal s (node_cancelled id worker attempt)
  stop :
      {id worker : String} {attempt : ℕ} (n : Node)
      → lookup id s.nodes ≡ some n
      → n.state ≡ NodeState.running
      → Legal s (node_cancelled id worker attempt)
  complete :
      {id worker : String} {attempt : ℕ} {output : Values} {spawned : List NodeDefinition}
      (n : Node)
      → lookup id s.nodes ≡ some n
      → n.state ≡ NodeState.running
      → n.worker_id ≡ worker
      → n.attempt ≡ attempt
      → s.cancel_requested ≡ false
      → IsSpawnable s spawned
      → Legal s (node_completed id worker attempt output spawned)
  fail :
      {id worker message : String} {attempt : ℕ} {retryable timed_out : Bool} (n : Node)
      → lookup id s.nodes ≡ some n
      → can_fail n.state ≡ true
      → n.attempt ≡ attempt
      → Legal s (node_failed id worker attempt message retryable timed_out)
  -- The run fails by a node with nothing to compensate, or by a compensation that fails.
  fail_run :
      {reason : String}
      → IsLive s RunState.running
      → has_unrecovered_failure s ≡ true
      → has_compensation_work s ≡ false
      → Legal s (workflow_failed reason)
  fail_compensation :
      {reason : String}
      → s.active_compensation ≡ none
      → reason ≡ "compensation failed"
      → may_compensate s.run_state ≡ true
      → Legal s (workflow_failed reason)
  complete_run :
      IsLive s RunState.running → all_nodes_completed s ≡ true → Legal s workflow_completed
