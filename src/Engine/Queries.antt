-- ===== src/Engine/Queries.antt =====
-- internal/engine/engine.go: the questions that the engine asks of a run's state.
use mathlib.Core.List.{reverse}
use grael.Prelude.{
  ℕ, String, Bool, true, false, not, ◌&&◌, ◌||◌, Option, none, some, List, [], ◌∷◌, ◌==◌, nat_eq,
  if◌then◌else◌,
}
use grael.Prelude.Lists.{any, all}
use grael.Prelude.Map.{lookup, values}
use grael.Runtime.{
  NodeState, TimerPurpose, retry_backoff, checkpoint_deadline, exec_deadline, abs_deadline,
  is_ready, is_running, is_awaiting, is_completed, is_failed,
}
use grael.State.{Node, Timer, CompensationEntry, ExecutionState}
use grael.State.Apply.{is_retry}

abbrev pub is_empty {ℓ} : {A : Type ℓ} → List A → Bool
is_empty [] = true
is_empty (_ ∷ _) = false

abbrev pub is_some {ℓ} : {A : Type ℓ} → Option A → Bool
is_some none = false
is_some (some _) = true

-- `isTerminalNode`
unfoldable pub is_terminal_node : NodeState → Bool
is_terminal_node NodeState.completed = true
is_terminal_node NodeState.failed = true
is_terminal_node NodeState.cancelled = true
is_terminal_node _ = false

-- `allNodesCompleted`
unfoldable pub all_nodes_completed : ExecutionState → Bool
all_nodes_completed st =
    not (is_empty st.nodes) && all (λ n. is_completed n.state) (values st.nodes)

-- `allNodesTerminal`
unfoldable pub all_nodes_terminal : ExecutionState → Bool
all_nodes_terminal st =
    not (is_empty st.nodes) && all (λ n. is_terminal_node n.state) (values st.nodes)

-- `hasPendingRetryTimer`
unfoldable pub has_pending_retry_timer : ExecutionState → String → ℕ → Bool
has_pending_retry_timer st id attempt =
    any (λ t. t.node_id == id && (nat_eq t.attempt attempt && (is_retry t.purpose && not t.fired)))
      (values st.timers)

abbrev pub is_abs_deadline : TimerPurpose → Bool
is_abs_deadline abs_deadline = true
is_abs_deadline _ = false

-- `hasPendingAbsoluteDeadlineTimer`
unfoldable pub has_pending_abs_timer : ExecutionState → String → Bool
has_pending_abs_timer st id =
    any (λ t. t.node_id == id && (is_abs_deadline t.purpose && not t.fired)) (values st.timers)

-- `nodeHasReadyRetry`
unfoldable pub node_has_ready_retry : ExecutionState → String → Bool
node_has_ready_retry st id = elim (lookup id st.nodes) [ none ↦ false | some n ↦ is_ready n.state ]

-- `hasUnrecoveredFailure`
unfoldable pub has_unrecovered_failure : ExecutionState → Bool
unfolding has_pending_retry_timer node_has_ready_retry
has_unrecovered_failure st =
    any
      (λ n.
        is_failed n.state
        && (not (has_pending_retry_timer st n.id n.attempt) && not (node_has_ready_retry st n.id)))
      (values st.nodes)

-- `hasCompensationWork`
unfoldable pub has_compensation_work : ExecutionState → Bool
has_compensation_work st = any (λ c. not c.completed) st.compensation_stack

-- The loop of `nextCompensationEntry`, over the stack from its end.
unfoldable pub first_open : List CompensationEntry → Option CompensationEntry
first_open [] = none
first_open (c ∷ cs) = if c.completed then first_open cs else some c

-- `nextCompensationEntry`
unfoldable pub next_compensation_entry : ExecutionState → Option CompensationEntry
unfolding first_open
next_compensation_entry st =
    if is_some st.active_compensation then none else first_open (reverse st.compensation_stack)

-- `hasPendingCompensation`
unfoldable pub has_pending_compensation : ExecutionState → Bool
unfolding next_compensation_entry
has_pending_compensation st = is_some (next_compensation_entry st)

-- `shouldFailNodeForTimer`, at a node that is there.
unfoldable pub should_fail : Node → Timer → Bool
unfolding is_terminal_node
should_fail n t = not (is_terminal_node n.state) && elim t.purpose [
  | exec_deadline ↦ is_running n.state && nat_eq n.attempt t.attempt
  | checkpoint_deadline ↦ is_awaiting n.state && nat_eq n.attempt t.attempt
  | abs_deadline ↦ is_running n.state || (is_awaiting n.state || is_ready n.state)
  | retry_backoff ↦ false
]

-- `timeoutMessageFor`
unfoldable pub timeout_message : TimerPurpose → String
timeout_message checkpoint_deadline = "checkpoint approval timed out"
timeout_message abs_deadline = "absolute deadline exceeded"
timeout_message _ = "execution deadline exceeded"
