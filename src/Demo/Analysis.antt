-- ===== src/Demo/Analysis.antt =====
-- demo/adapter/adapter.go: `analyzeEvents`, one loop over the events of a run. The four entries of
-- `phaseState` are four fields.
use grael.Prelude.{
  ℕ, String, Bool, true, false, ◌||◌, none, some, List, [], ◌∷◌, ◌++◌, ◌==◌, nat_eq, if◌then◌else◌,
}
use grael.Prelude.Lists.{contains}
use grael.Prelude.Map.{Map, lookup, insert, has}
use grael.Runtime.{
  NodeDefinition, TimerPurpose, Payload, Event, timer_fired, checkpoint_reached,
  checkpoint_approved, node_completed, node_failed, workflow_completed,
}
use grael.Demo.Events.{event_node_ids, edge_key}

pub record GraphEdge : Type 0 where
  pub source : String
  pub target : String
  pub kind : String

pub record PhaseMarker : Type 0 where
  pub key : String
  pub label : String
  pub active : Bool
  pub complete : Bool
  pub node_id : String
  pub seq : ℕ

-- The maps of the loop: a `map[string]struct{}` is the list of its keys.
pub record Analysis : Type 0 where
  pub created : Map ℕ
  pub latest : Map ℕ
  pub signals : Map (List String)
  pub seen_signals : Map (List String)
  pub spawn_edges : List GraphEdge
  pub seen_spawn_edges : List String
  pub spawn_phase : PhaseMarker
  pub retry_phase : PhaseMarker
  pub checkpoint_phase : PhaseMarker
  pub complete_phase : PhaseMarker

abbrev phase : (key label : String) → PhaseMarker
phase key label = record {
  key = key;
  label = label;
  active = false;
  complete = false;
  node_id = "";
  seq = 0;
}

abbrev pub no_events : Analysis
no_events = record {
  created = [];
  latest = [];
  signals = [];
  seen_signals = [];
  spawn_edges = [];
  seen_spawn_edges = [];
  spawn_phase = phase "spawn" "Dynamic spawn";
  retry_phase = phase "retry" "Retry recovery";
  checkpoint_phase = phase "checkpoint" "Approval gate";
  complete_phase = phase "complete" "Workflow completed";
}

-- `m[k]` of a map of lists.
unfoldable pub list_at : {A : Type 0} → String → Map (List A) → List A
list_at k m = elim (lookup k m) [ none ↦ [] | some items ↦ items ]

-- The loop over the nodes of an event.
unfoldable pub note_nodes : (seq : ℕ) → List String → Analysis → Analysis
unfolding has
note_nodes seq [] a = a
note_nodes seq (id ∷ ids) a = note_nodes seq ids (record a {
  created = if has a.created id then a.created else insert id seq a.created;
  latest = insert id seq a.latest;
})

-- `if _, ok := seen[nodeID]; !ok { seen[nodeID] = map[string]struct{}{} }`
unfoldable pub open_seen : (node_id : String) → Map (List String) → Map (List String)
unfolding has
open_seen node_id seen = if has seen node_id then seen else insert node_id [] seen

-- `addSignal`
unfoldable pub add_signal : (node_id signal : String) → Analysis → Analysis
unfolding list_at contains open_seen
add_signal node_id signal a =
    if node_id == "" || signal == ""
    then a
    else (let seen = open_seen node_id a.seen_signals in
        if contains (list_at node_id seen) signal
        then record a { seen_signals = seen }
        else record a {
          seen_signals = insert node_id (signal ∷ list_at node_id seen) seen;
          signals = insert node_id (list_at node_id a.signals ++ signal ∷ []) a.signals;
        })

-- The edge to a spawned node that has no dependencies.
unfoldable pub add_spawn_edge : (parent id : String) → Analysis → Analysis
unfolding contains edge_key
add_spawn_edge parent id a =
    if contains a.seen_spawn_edges (edge_key parent id) then a else record a {
      seen_spawn_edges = edge_key parent id ∷ a.seen_spawn_edges;
      spawn_edges = a.spawn_edges ++ record { source = parent; target = id; kind = "spawn" } ∷ [];
    }

abbrev pub is_empty : {A : Type 0} → List A → Bool
is_empty [] = true
is_empty (_ ∷ _) = false

-- One round of the loop over the spawned nodes.
unfoldable pub note_spawned_node : (parent : String) → NodeDefinition → Analysis → Analysis
unfolding add_signal add_spawn_edge
note_spawned_node parent def a =
    let signalled = add_signal def.id "spawned" a in
    if is_empty def.depends_on then add_spawn_edge parent def.id signalled else signalled

unfoldable pub note_spawned : (parent : String) → List NodeDefinition → Analysis → Analysis
unfolding note_spawned_node
note_spawned parent [] a = a
note_spawned parent (def ∷ defs) a = note_spawned parent defs (note_spawned_node parent def a)

-- A phase that is reached keeps its first number, and one that is complete has the last.
abbrev pub reach_phase : (seq : ℕ) (node_id : String) → PhaseMarker → PhaseMarker
reach_phase seq node_id p = record p {
  active = true;
  node_id = node_id;
  seq = if nat_eq p.seq 0 then seq else p.seq;
}

abbrev pub complete_with : (seq : ℕ) (node_id : String) → PhaseMarker → PhaseMarker
complete_with seq node_id p = record p { complete = true; node_id = node_id; seq = seq }

abbrev pub is_backoff : TimerPurpose → Bool
is_backoff TimerPurpose.retry_backoff = true
is_backoff _ = false

-- `if payload.Retryable`, and `if payload.TimedOut`
unfoldable pub note_retryable :
    (seq : ℕ) (node_id : String) (retryable : Bool) → Analysis → Analysis
unfolding add_signal
note_retryable seq node_id false a = a
note_retryable seq node_id true a =
    let signalled = add_signal node_id "retrying" a in
    record signalled { retry_phase = reach_phase seq node_id signalled.retry_phase }

-- The `switch` on the payload, and the test of the type after it.
unfoldable pub note_payload : (seq : ℕ) → Payload → Analysis → Analysis
unfolding note_spawned note_retryable add_signal
note_payload seq (node_completed node_id _ _ _ []) a = a
note_payload seq (node_completed node_id _ _ _ (def ∷ defs)) a =
    note_spawned node_id (def ∷ defs)
      (record a { spawn_phase = complete_with seq node_id a.spawn_phase })
note_payload seq (node_failed node_id _ _ _ retryable timed_out) a =
    let retried = note_retryable seq node_id retryable a in
    if timed_out then add_signal node_id "timed_out" retried else retried
note_payload seq (timer_fired _ node_id _ purpose) a =
    if is_backoff purpose
    then (let signalled = add_signal node_id "retried" a in
        record signalled { retry_phase = complete_with seq node_id signalled.retry_phase })
    else a
note_payload seq (checkpoint_reached node_id _ _ _) a =
    let signalled = add_signal node_id "checkpoint" a in
    record signalled { checkpoint_phase = reach_phase seq node_id signalled.checkpoint_phase }
note_payload seq (checkpoint_approved node_id) a =
    let signalled = add_signal node_id "approved" a in
    record signalled { checkpoint_phase = complete_with seq node_id signalled.checkpoint_phase }
note_payload seq workflow_completed a = record a {
  complete_phase = record a.complete_phase { complete = true; seq = seq };
}
note_payload seq _ a = a

-- One round of the loop.
unfoldable pub analyze_event : Event → Analysis → Analysis
unfolding note_nodes note_payload event_node_ids
analyze_event event a =
    note_payload event.seq event.payload (note_nodes event.seq (event_node_ids event.payload) a)

unfoldable pub analyze_loop : List Event → Analysis → Analysis
unfolding analyze_event
analyze_loop [] a = a
analyze_loop (event ∷ events) a = analyze_loop events (analyze_event event a)

-- The markers that are shown, in their order.
unfoldable pub shown : List PhaseMarker → List PhaseMarker
shown [] = []
shown (p ∷ ps) = let rest = shown ps in if p.active || p.complete then p ∷ rest else rest

unfoldable pub phases : Analysis → List PhaseMarker
unfolding shown
phases a = shown (a.spawn_phase ∷ a.retry_phase ∷ a.checkpoint_phase ∷ a.complete_phase ∷ [])

-- `analyzeEvents`
unfoldable pub analyze_events : List Event → Analysis
unfolding analyze_loop
analyze_events events = analyze_loop events no_events
