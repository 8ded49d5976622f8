-- ===== src/Engine/Advance.antt =====
-- internal/engine/engine.go: how a run moves on by itself after a change (`advanceRunStateLocked`,
-- `cancelEligibleNodesLocked`, `reconcileRunLocked`).
use grael.Prelude.{String, Bool, true, false, ◌||◌, none, some, List, [], ◌∷◌, if◌then◌else◌}
use grael.Prelude.Lists.{sort}
use grael.Prelude.Map.{lookup, keys}
use grael.Result.{pure, ◌>>=◌}
use grael.Runtime.{
  NodeState, cancellation_completed, compensation_started, compensation_completed, node_cancelled,
  workflow_failed, workflow_completed, is_compensating,
}
use grael.State.{is_terminal}
use grael.Engine.{World, Op, emit_now}
use grael.Engine.Queries.{
  is_some, all_nodes_completed, all_nodes_terminal, has_unrecovered_failure, has_compensation_work,
  has_pending_compensation,
}

-- The states in which `cancelEligibleNodesLocked` cancels a node.
abbrev pub is_eligible : NodeState → Bool
is_eligible NodeState.pending = true
is_eligible NodeState.ready = true
is_eligible NodeState.awaiting_approval = true
is_eligible _ = false

module _ (world : World) where
  -- `advanceRunStateLocked`
  unfoldable pub advance : Op (Unit {0})
  advance s =
      if is_terminal s.st
      then pure tt s
      else if s.st.cancel_requested
      then if all_nodes_terminal s.st then emit_now world cancellation_completed s else pure tt s
      else if is_compensating s.st.run_state
      then if has_pending_compensation s.st || is_some s.st.active_compensation
        then pure tt s
        else emit_now world compensation_completed s
      else if all_nodes_completed s.st
      then emit_now world workflow_completed s
      else if has_unrecovered_failure s.st
      then if has_compensation_work s.st
        then emit_now world compensation_started s
        else emit_now world (workflow_failed "node failed") s
      else pure tt s

  -- One round of the loop of `cancelEligibleNodesLocked`.
  unfoldable pub cancel_node : String → Op (Unit {0})
  cancel_node id s = elim (lookup id s.st.nodes) [
    | none ↦ pure tt s
    | some n ↦
        if is_eligible n.state then emit_now world (node_cancelled n.id "" 0) s else pure tt s
  ]

  unfoldable pub cancel_nodes : List String → Op (Unit {0})
  unfolding cancel_node
  cancel_nodes [] = pure tt
  cancel_nodes (id ∷ ids) = cancel_node id >>= λ _. cancel_nodes ids

  -- `cancelEligibleNodesLocked`
  unfoldable pub cancel_eligible_nodes : Op (Unit {0})
  unfolding cancel_nodes
  cancel_eligible_nodes s = cancel_nodes (sort (keys s.st.nodes)) s

  -- `reconcileRunLocked`
  unfoldable pub reconcile : Op (Unit {0})
  unfolding cancel_eligible_nodes advance
  reconcile s =
      if is_terminal s.st
      then pure tt s
      else ((if s.st.cancel_requested then cancel_eligible_nodes else pure tt) >>= λ _. advance) s
