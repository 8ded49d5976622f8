-- ===== src/Demo/Graph.antt =====
-- demo/adapter/adapter.go: the graph of a run, the frames of its replay, and `Snapshot`.
use grael.Prelude.{
  ℕ, String, Bool, Option, none, some, List, [], ◌∷◌, ◌++◌, ◌==◌, ltb, if◌then◌else◌,
}
use grael.Prelude.Lists.{less}
use grael.Prelude.Map.{Map, lookup, values}
use grael.Result.{Result, ok, err, and_then}
use grael.Runtime.{Time, ActivityType, NodeState, RunState, Event}
use grael.State.{ExecutionState, new}
use grael.State.Apply.{apply}
use grael.State.View.{NodeView, RunView, view}
use grael.Wal.{EventType, event_type}
use grael.Demo.Events.{TimelineEvent, timeline_event, timeline_events}
use grael.Demo.Analysis.{Analysis, GraphEdge, PhaseMarker, list_at, phases, analyze_events}

pub record GraphNode : Type 0 where
  pub id : String
  pub activity_type : ActivityType
  pub state : NodeState
  pub depends_on : List String
  pub attempt : ℕ
  pub worker_id : String
  pub last_error : String
  pub created_seq : ℕ
  pub last_transition_seq : ℕ
  pub signals : List String

pub record Graph : Type 0 where
  pub nodes : List GraphNode
  pub edges : List GraphEdge

pub record ReplayFrame : Type 0 where
  pub seq : ℕ
  pub label : String
  pub type_of : EventType
  pub run_state : RunState
  pub graph : Graph
  pub phases : List PhaseMarker
  pub timeline : List TimelineEvent

pub record RunSummary : Type 0 where
  pub run_id : String
  pub workflow : String
  pub definition_hash : String
  pub state : RunState
  pub last_seq : ℕ
  pub created_at : Time
  pub finished_at : Option Time

pub record Cursor : Type 0 where
  pub after_seq : ℕ
  pub current_seq : ℕ
  pub has_changes : Bool

pub record Snapshot : Type 0 where
  pub run : RunSummary
  pub graph : Graph
  pub timeline : List TimelineEvent
  pub phases : List PhaseMarker
  pub replay : List ReplayFrame
  pub cursor : Cursor
  pub delta : List TimelineEvent

-- `sort.Slice` with the given `less`.
unfoldable insert_by : {A : Type 0} → (A → A → Bool) → A → List A → List A
insert_by less_than item [] = item ∷ []
insert_by less_than item (other ∷ others) =
    let rest = insert_by less_than item others in
    if less_than other item then other ∷ rest else item ∷ other ∷ others

unfoldable sort_by : {A : Type 0} → (A → A → Bool) → List A → List A
unfolding insert_by
sort_by less_than [] = []
sort_by less_than (item ∷ items) = insert_by less_than item (sort_by less_than items)

-- `sortedNodeViews`
unfoldable pub sorted_node_views : Map NodeView → List NodeView
unfolding sort_by less values
sorted_node_views nodes = sort_by (λ a b. less a.id b.id) (values nodes)

-- The order of the edges.
unfoldable pub edge_less : GraphEdge → GraphEdge → Bool
unfolding less
edge_less a b =
    if a.source == b.source
    then if a.target == b.target then less a.kind b.kind else less a.target b.target
    else less a.source b.source

-- `nodeCreatedSeq[node.ID]`
unfoldable pub seq_at : String → Map ℕ → ℕ
seq_at id m = elim (lookup id m) [ none ↦ 0 | some seq ↦ seq ]

-- The loop over the sorted nodes.
unfoldable pub graph_nodes : Analysis → List NodeView → List GraphNode
unfolding list_at seq_at
graph_nodes a [] = []
graph_nodes a (n ∷ ns) =
    record {
      id = n.id;
      activity_type = n.activity_type;
      state = n.state;
      depends_on = n.depends_on;
      attempt = n.attempt;
      worker_id = n.worker_id;
      last_error = n.last_error;
      created_seq = seq_at n.id a.created;
      last_transition_seq = seq_at n.id a.latest;
      signals = list_at n.id a.signals;
    }
    ∷ graph_nodes a ns

-- The two loops over the dependencies.
unfoldable pub edges_to : String → List String → List GraphEdge
edges_to id [] = []
edges_to id (dep ∷ deps) =
    record { source = dep; target = id; kind = "dependency" } ∷ edges_to id deps

unfoldable pub dependency_edges : List GraphNode → List GraphEdge
unfolding edges_to
dependency_edges [] = []
dependency_edges (n ∷ ns) = edges_to n.id n.depends_on ++ dependency_edges ns

-- The graph of `graphAndPhasesFromViewAndEvents`, which `Snapshot` builds by the same statements.
unfoldable pub graph_of_run : RunView → List Event → Graph
unfolding graph_nodes sorted_node_views dependency_edges sort_by edge_less analyze_events
graph_of_run v events =
    let a = analyze_events events in
    let nodes = graph_nodes a (sorted_node_views v.nodes) in
    record { nodes = nodes; edges = sort_by edge_less (dependency_edges nodes ++ a.spawn_edges) }

module _ (decimal : ℕ → String) where
  -- The body of the loop of `buildReplayFrames`, at the state after the event.
  unfoldable pub frame : ExecutionState → List Event → Event → ReplayFrame
  unfolding graph_of_run phases analyze_events timeline_event timeline_events view event_type
  frame st prefix event =
      let v = view st in
      record {
        seq = event.seq;
        label = (timeline_event decimal event).label;
        type_of = event_type event.payload;
        run_state = v.state;
        graph = graph_of_run v prefix;
        phases = phases (analyze_events prefix);
        timeline = timeline_events decimal prefix;
      }

  -- The loop, after the events `before`. An event that cannot be applied gives no frame.
  unfoldable pub frames_loop : List Event → ExecutionState → List Event → List ReplayFrame
  unfolding frame
  frames_loop before st [] = []
  frames_loop before st (event ∷ events) =
      let prefix = before ++ event ∷ [] in
      let rest = frames_loop prefix (apply event st).1 events in
      elim (apply event st).0 [ ok _ ↦ frame (apply event st).1 prefix event ∷ rest | err _ ↦ rest ]

  -- `buildReplayFrames`
  unfoldable pub build_replay_frames : List Event → List ReplayFrame
  unfolding frames_loop
  build_replay_frames events = frames_loop [] new events

  -- The items of the timeline with a number above `after_seq`.
  unfoldable pub delta_events : (after_seq : ℕ) → List Event → List TimelineEvent
  unfolding timeline_event
  delta_events after_seq [] = []
  delta_events after_seq (event ∷ events) =
      let rest = delta_events after_seq events in
      if ltb after_seq event.seq then timeline_event decimal event ∷ rest else rest

  -- `Snapshot`, once the run is read.
  unfoldable pub snapshot_of : RunView → List Event → (after_seq : ℕ) → Snapshot
  unfolding graph_of_run timeline_events phases analyze_events build_replay_frames delta_events
  snapshot_of v events after_seq = record {
    run = record {
      run_id = v.run_id;
      workflow = v.workflow;
      definition_hash = v.definition_hash;
      state = v.state;
      last_seq = v.last_seq;
      created_at = v.created_at;
      finished_at = v.finished_at;
    };
    graph = graph_of_run v events;
    timeline = timeline_events decimal events;
    phases = phases (analyze_events events);
    replay = build_replay_frames events;
    cursor = record {
      after_seq = after_seq;
      current_seq = v.last_seq;
      has_changes = ltb after_seq v.last_seq;
    };
    delta = delta_events after_seq events;
  }

-- `Reader`
pub record Reader : Type 0 where
  pub get_run : String → Result RunView
  pub list_events : String → Result (List Event)

-- `Adapter.Snapshot`
unfoldable pub adapter_snapshot :
    (decimal : ℕ → String) → Reader → (run_id : String) (after_seq : ℕ) → Result Snapshot
unfolding snapshot_of
adapter_snapshot decimal reader run_id after_seq =
    and_then (reader.get_run run_id) λ v.
      and_then (reader.list_events run_id) λ events. ok (snapshot_of decimal v events after_seq)
