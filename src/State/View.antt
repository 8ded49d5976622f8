-- ===== src/State/View.antt =====
-- internal/state/state.go and internal/runtime/types.go: the read model of a run.
use grael.Prelude.{ℕ, String, Option, List, [], ◌∷◌}
use grael.Prelude.Map.{Map}
use grael.Runtime.{Time, ActivityType, NodeState, RunState}
use grael.State.{Node, ExecutionState}

pub record NodeView : Type 0 where
  pub id : String
  pub activity_type : ActivityType
  pub state : NodeState
  pub depends_on : List String
  pub attempt : ℕ
  pub worker_id : String
  pub last_error : String

pub record RunView : Type 0 where
  pub run_id : String
  pub workflow : String
  pub definition_hash : String
  pub state : RunState
  pub last_seq : ℕ
  pub nodes : Map NodeView
  pub created_at : Time
  pub finished_at : Option Time

unfoldable pub node_views : Map Node → Map NodeView
node_views [] = []
node_views ((id, n) ∷ nodes) =
    (
      id,
      record {
        id = n.id;
        activity_type = n.activity_type;
        state = n.state;
        depends_on = n.depends_on;
        attempt = n.attempt;
        worker_id = n.worker_id;
        last_error = n.last_error;
      },
    )
    ∷ node_views nodes

-- `View`
unfoldable pub view : ExecutionState → RunView
unfolding node_views
view s = record {
  run_id = s.run_id;
  workflow = s.workflow;
  definition_hash = s.definition_hash;
  state = s.run_state;
  last_seq = s.last_seq;
  nodes = node_views s.nodes;
  created_at = s.created_at;
  finished_at = s.finished_at;
}
