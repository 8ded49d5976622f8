-- ===== src/Engine/Claim.antt =====
-- internal/engine/engine.go: how a worker gets a task of a run (`claimReadyTaskLocked`,
-- `claimCompensationTaskLocked`). `can_handle` is `e.workers.CanHandle(workerID, ·)`.
use grael.Prelude.{
  String, Bool, true, false, ◌||◌, Option, none, some, List, [], ◌∷◌, if◌then◌else◌,
}
use grael.Prelude.Lists.{sort}
use grael.Prelude.Map.{Map, lookup, keys}
use grael.Result.{ok, ◌>>◌}
use grael.Runtime.{
  Values, ActivityType, WorkerTask, lease_granted, compensation_task_started, node_started,
  next_attempt, is_ready, is_compensating,
}
use grael.State.{Node, CompensationEntry, is_terminal}
use grael.Engine.{World, Op, emit_now, save}
use grael.Engine.Queries.{next_compensation_entry}
use grael.Engine.Timers.{schedule_execution_deadline, schedule_absolute_deadline}

-- The input of a node that may be gone.
abbrev node_input : String → Map Node → Values
node_input id nodes = elim (lookup id nodes) [ none ↦ [] | some n ↦ n.input ]

module _ (world : World) (can_handle : ActivityType → Bool) (worker : String) where
  -- The lease of a ready node: the body of the loop, after its two `continue`s.
  unfoldable pub grant : Node → Op (Option WorkerTask)
  unfolding emit_now schedule_execution_deadline schedule_absolute_deadline save
  grant n = do
    let attempt = next_attempt n.attempt
    emit_now world (lease_granted n.id worker attempt n.activity_type)
    emit_now world (node_started n.id worker attempt)
    schedule_execution_deadline world n worker attempt
    schedule_absolute_deadline world n worker
    save world
    λ s. (
      ok (
          some (record {
            run_id = s.st.run_id;
            node_id = n.id;
            activity_type = n.activity_type;
            attempt = attempt;
            compensation = false;
            workflow = s.st.workflow;
            workflow_input = s.st.input;
            node_input = n.input;
          })),
      s,
    )

  -- Whether the loop stops at a node.
  unfoldable pub claimable : Map Node → String → Option Node
  claimable nodes id = elim (lookup id nodes) [
    | none ↦ none
    | some n ↦
        if is_ready n.state then (if can_handle n.activity_type then some n else none) else none
  ]

  -- The loop over the sorted ids.
  unfoldable pub claim_node : List String → Op (Option WorkerTask)
  unfolding grant claimable
  claim_node [] s = (ok none, s)
  claim_node (id ∷ ids) s = elim (claimable s.st.nodes id) [
    | none ↦ claim_node ids s
    | some n ↦ grant n s
  ]

  -- `claimCompensationTaskLocked`, at the entry that comes next.
  unfoldable pub claim_entry : CompensationEntry → Op (Option WorkerTask)
  unfolding emit_now save
  claim_entry c = do
    let attempt = next_attempt c.attempt
    emit_now world (compensation_task_started c.node_id worker attempt c.activity_type)
    save world
    λ s. (
      ok (
          some (record {
            run_id = s.st.run_id;
            node_id = c.node_id;
            activity_type = c.activity_type;
            attempt = attempt;
            compensation = true;
            workflow = s.st.workflow;
            workflow_input = s.st.input;
            node_input = node_input c.node_id s.st.nodes;
          })),
      s,
    )

  unfoldable pub claim_compensation : Op (Option WorkerTask)
  unfolding claim_entry next_compensation_entry
  claim_compensation s = elim (next_compensation_entry s.st) [
    | none ↦ (ok none, s)
    | some c ↦ if can_handle c.activity_type then claim_entry c s else (ok none, s)
  ]

  -- `claimReadyTaskLocked`
  unfoldable pub claim_ready_task : Op (Option WorkerTask)
  unfolding claim_compensation claim_node
  claim_ready_task s =
      if is_terminal s.st || s.st.cancel_requested
      then (ok none, s)
      else if is_compensating s.st.run_state
      then claim_compensation s
      else claim_node (sort (keys s.st.nodes)) s
