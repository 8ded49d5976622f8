-- ===== src/State.antt =====
-- internal/state/state.go: the state that is derived from the event log, and `Apply`, the only way to
-- change it. The children hold the laws.
pub mod Apply
pub mod Ready
pub mod Moves
pub mod Complete
pub mod Flags
pub mod Keys
pub mod Waits
pub mod View
use grael.Prelude.{
  ℕ, String, Bool, true, false, not, ◌&&◌, ◌||◌, Option, none, some, List, [], ◌∷◌, ◌++◌, ◌==◌,
  nat_eq, if◌then◌else◌,
}
use grael.Prelude.Map.{Map, lookup, insert, keys}
use grael.Result.{Error, Result, ok, err, Action, unknown_node, stale_attempt, unknown_timer}
use grael.Runtime.{
  Time, Duration, Values, NodeState, RunState, ActivityType, RetryPolicy, NodeDefinition,
  WorkflowDefinition, TimerPurpose, retry_backoff, Payload, Event, is_pending, is_awaiting,
  is_completed, is_failed,
}

pub record Node : Type 0 where
  pub id : String
  pub activity_type : ActivityType
  pub input : Values
  pub depends_on : List String
  pub retry_policy : Option RetryPolicy
  pub compensation_activity : ActivityType
  pub checkpoint_timeout : Duration
  pub execution_deadline : Duration
  pub absolute_deadline : Duration
  pub state : NodeState
  pub attempt : ℕ
  pub worker_id : String
  pub last_heartbeat_at : Time
  pub last_error : String
  pub output : Values

pub record Timer : Type 0 where
  pub id : String
  pub node_id : String
  pub attempt : ℕ
  pub purpose : TimerPurpose
  pub fire_at : Time
  pub fired : Bool

pub record CompensationEntry : Type 0 where
  pub node_id : String
  pub activity_type : ActivityType
  pub completed : Bool
  pub attempt : ℕ

pub record ActiveCompensation : Type 0 where
  pub node_id : String
  pub worker_id : String
  pub attempt : ℕ
  pub last_heartbeat_at : Time

pub record ExecutionState : Type 0 where
  pub run_id : String
  pub workflow : String
  pub definition_hash : String
  pub input : Values
  pub run_state : RunState
  pub cancel_requested : Bool
  pub compensation_stack : List CompensationEntry
  pub active_compensation : Option ActiveCompensation
  pub created_at : Time
  pub finished_at : Option Time
  pub last_seq : ℕ
  pub nodes : Map Node
  pub timers : Map Timer

-- `New`
abbrev pub new : ExecutionState
new = record {
  run_id = "";
  workflow = "";
  definition_hash = "";
  input = [];
  run_state = RunState.running;
  cancel_requested = false;
  compensation_stack = [];
  active_compensation = none;
  created_at = 0;
  finished_at = none;
  last_seq = 0;
  nodes = [];
  timers = [];
}

unfoldable pub is_terminal : ExecutionState → Bool
is_terminal s = elim s.run_state [
  | RunState.completed ↦ true
  | RunState.failed ↦ true
  | RunState.cancelled ↦ true
  | RunState.compensated ↦ true
  | _ ↦ false
]

-- The node that `Apply` builds from a definition, of a workflow or spawned.
unfoldable pub node_of : NodeDefinition → Node
node_of def = record {
  id = def.id;
  activity_type = def.activity_type;
  input = def.input;
  depends_on = def.depends_on;
  retry_policy = def.retry_policy;
  compensation_activity = def.compensation_activity;
  checkpoint_timeout = def.checkpoint_timeout;
  execution_deadline = def.execution_deadline;
  absolute_deadline = def.absolute_deadline;
  state = NodeState.pending;
  attempt = 0;
  worker_id = "";
  last_heartbeat_at = 0;
  last_error = "";
  output = [];
}

unfoldable pub add_nodes : List NodeDefinition → Map Node → Map Node
add_nodes [] nodes = nodes
add_nodes (def ∷ defs) nodes = add_nodes defs (insert def.id (node_of def) nodes)

-- `node, ok := s.Nodes[depID]; ok && node.State == rt.NodeStateCompleted`
unfoldable pub completed_at : Map Node → String → Bool
completed_at nodes id = elim (lookup id nodes) [ none ↦ false | some n ↦ is_completed n.state ]

-- `dependenciesCompleted`
unfoldable pub dependencies_completed : Map Node → List String → Bool
unfolding completed_at
dependencies_completed nodes [] = true
dependencies_completed nodes (dep ∷ deps) =
    completed_at nodes dep && dependencies_completed nodes deps

-- The body of the loop of `markReadyNodes`.
unfoldable pub promote : Map Node → Node → Node
promote nodes n =
    if is_pending n.state && dependencies_completed nodes n.depends_on
    then record n { state = NodeState.ready }
    else n

-- One round of the loop: it writes into the map that the next round reads.
unfoldable pub mark_ready_node : String → Map Node → Map Node
unfolding promote
mark_ready_node k nodes = elim (lookup k nodes) [
  | none ↦ nodes
  | some n ↦ insert k (promote nodes n) nodes
]

-- The loop, over the keys in some order.
unfoldable pub mark_ready_loop : List String → Map Node → Map Node
unfolding mark_ready_node
mark_ready_loop [] nodes = nodes
mark_ready_loop (k ∷ ks) nodes = mark_ready_loop ks (mark_ready_node k nodes)

-- `markReadyNodes`
unfoldable pub mark_ready_nodes : ExecutionState → ExecutionState
mark_ready_nodes s = record s { nodes = mark_ready_loop (keys s.nodes) s.nodes }

-- `node, ok := s.Nodes[id]; if !ok { return ... }` and then an update of the node.
unfoldable pub with_node : String → (Node → Node) → Action ExecutionState (Unit {0})
with_node id f s = elim (lookup id s.nodes) [
  | none ↦ (err (unknown_node id), s)
  | some n ↦ (ok tt, record s { nodes = insert id (f n) s.nodes })
]

-- Whether the active compensation is the given lease.
unfoldable pub holds_compensation :
    Option ActiveCompensation → (node_id worker_id : String) (attempt : ℕ) → Bool
holds_compensation none node_id worker_id attempt = false
holds_compensation (some a) node_id worker_id attempt =
    a.node_id == node_id && (nat_eq a.attempt attempt && a.worker_id == worker_id)

abbrev pub beat_active : Time → Option ActiveCompensation → Option ActiveCompensation
beat_active t none = none
beat_active t (some a) = some (record a { last_heartbeat_at = t })

-- The loops over the stack change the first entry of the node and break.
unfoldable pub set_attempt : String → ℕ → List CompensationEntry → List CompensationEntry
set_attempt id attempt [] = []
set_attempt id attempt (c ∷ cs) =
    if c.node_id == id then record c { attempt = attempt } ∷ cs else c ∷ set_attempt id attempt cs

unfoldable pub set_completed : String → List CompensationEntry → List CompensationEntry
set_completed id [] = []
set_completed id (c ∷ cs) =
    if c.node_id == id then record c { completed = true } ∷ cs else c ∷ set_completed id cs

unfoldable pub on_stack : String → List CompensationEntry → Bool
on_stack id [] = false
on_stack id (c ∷ cs) = c.node_id == id || on_stack id cs
