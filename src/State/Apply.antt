-- ===== src/State/Apply.antt =====
-- internal/state/state.go: `Apply`, one clause for each event type, and `Rehydrate`.
use grael.Prelude.{
  ℕ, String, Bool, true, false, ◌&&◌, none, some, List, [], ◌∷◌, ◌++◌, ◌==◌, nat_eq, if◌then◌else◌,
}
use grael.Prelude.Map.{lookup, insert}
use grael.Result.{Result, ok, err, Action, unknown_node, stale_attempt, unknown_timer}
use grael.Runtime.{
  Time, Values, NodeState, RunState, NodeDefinition, TimerPurpose, retry_backoff, Payload, Event,
  workflow_started, lease_granted, heartbeat_recorded, cancellation_requested,
  cancellation_completed, compensation_started, compensation_task_started,
  compensation_task_completed, compensation_task_expired, compensation_task_failed,
  compensation_completed, timer_scheduled, timer_fired, checkpoint_reached, checkpoint_approved,
  node_ready, node_started, node_cancelled, node_completed, node_failed, workflow_failed,
  workflow_completed, is_pending, is_awaiting, is_failed,
}
use grael.State.{
  Node, CompensationEntry, ExecutionState, new, add_nodes, mark_ready_nodes, with_node,
  holds_compensation, beat_active, set_attempt, set_completed, on_stack,
}

unfoldable pub heartbeat :
    Time → (node_id worker_id : String) (attempt : ℕ) → Action ExecutionState (Unit {0})
heartbeat now id worker attempt s =
    let held = holds_compensation s.active_compensation id worker attempt in
    let active = if held then beat_active now s.active_compensation else s.active_compensation in
    elim (lookup id s.nodes) [
      | none ↦
          if held
          then (ok tt, record s { active_compensation = active })
          else (err (unknown_node id), s)
      | some n ↦
          let n' =
            if nat_eq n.attempt attempt && n.worker_id == worker
            then record n { last_heartbeat_at = now }
            else n in
          (ok tt, record s { nodes = insert id n' s.nodes; active_compensation = active })
    ]

-- A lease that is lost: the node can be claimed again.
abbrev pub release : String → Node → Node
release error n = record n {
  state = NodeState.ready;
  worker_id = "";
  last_heartbeat_at = 0;
  last_error = error;
}

unfoldable pub expire_lease : String → ℕ → Action ExecutionState (Unit {0})
expire_lease id attempt s = elim (lookup id s.nodes) [
  | none ↦ (err (unknown_node id), s)
  | some n ↦
      if nat_eq n.attempt attempt
      then (ok tt, record s { nodes = insert id (release "lease expired" n) s.nodes })
      else (err (stale_attempt id), s)
]

unfoldable pub start_compensation_task :
    Time → (node_id worker_id : String) (attempt : ℕ) → ExecutionState → ExecutionState
start_compensation_task now id worker attempt s =
    if on_stack id s.compensation_stack
    then record s {
      compensation_stack = set_attempt id attempt s.compensation_stack;
      active_compensation =
          some (record {
            node_id = id;
            worker_id = worker;
            attempt = attempt;
            last_heartbeat_at = now;
          });
    }
    else s

abbrev pub is_retry : TimerPurpose → Bool
is_retry retry_backoff = true
is_retry _ = false

-- What a retry timer does to its node.
abbrev pub retry : ℕ → Node → Node
retry attempt n =
    if nat_eq n.attempt attempt && is_failed n.state
    then record n { state = NodeState.ready; worker_id = ""; last_heartbeat_at = 0 }
    else n

unfoldable pub fire_timer :
    (timer_id node_id : String) (attempt : ℕ) (purpose : TimerPurpose)
    → Action ExecutionState (Unit {0})
unfolding with_node
fire_timer timer_id id attempt purpose s = elim (lookup timer_id s.timers) [
  | none ↦ (err (unknown_timer timer_id), s)
  | some t ↦
      let s' = record s { timers = insert timer_id (record t { fired = true }) s.timers } in
      if is_retry purpose then with_node id (retry attempt) s' else (ok tt, s')
]

-- The compensation of a node that has one goes on the stack.
abbrev pub push_compensation : Node → List CompensationEntry → List CompensationEntry
push_compensation n stack =
    if n.compensation_activity == ""
    then stack
    else stack
      ++ record {
        node_id = n.id;
        activity_type = n.compensation_activity;
        completed = false;
        attempt = 0;
      }
        ∷ []

unfoldable pub complete_node :
    (node_id worker_id : String) (attempt : ℕ) (output : Values) (spawned : List NodeDefinition)
    → Action ExecutionState (Unit {0})
unfolding mark_ready_nodes
complete_node id worker attempt output spawned s = elim (lookup id s.nodes) [
  | none ↦ (err (unknown_node id), s)
  | some n ↦
      let n' = record n {
        state = NodeState.completed;
        worker_id = worker;
        attempt = attempt;
        last_heartbeat_at = 0;
        last_error = "";
        output = output;
      } in
      (
        ok tt,
        mark_ready_nodes (record s {
          compensation_stack = push_compensation n s.compensation_stack;
          nodes = add_nodes spawned (insert id n' s.nodes);
        }),
      )
]

abbrev pub finish : RunState → Time → ExecutionState → ExecutionState
finish r now s = record s { run_state = r; finished_at = some now }

-- The `switch` of `Apply`, at the run and the time of the event.
unfoldable pub apply_payload : String → Time → Payload → Action ExecutionState (Unit {0})
unfolding heartbeat expire_lease start_compensation_task fire_timer complete_node with_node
    mark_ready_nodes add_nodes
apply_payload run_id now (workflow_started workflow hash input) s = (
  ok tt,
  mark_ready_nodes (record s {
    run_id = run_id;
    workflow = workflow.name;
    definition_hash = hash;
    input = input;
    run_state = RunState.running;
    created_at = now;
    nodes = add_nodes workflow.nodes s.nodes;
  }),
)
apply_payload _ now (lease_granted id worker attempt _) s =
    with_node id
      (λ n. record n {
        attempt = attempt;
        worker_id = worker;
        last_heartbeat_at = now;
        last_error = "";
      })
      s
apply_payload _ now (heartbeat_recorded id worker attempt) s = heartbeat now id worker attempt s
apply_payload _ now (Payload.lease_expired id worker attempt) s = expire_lease id attempt s
apply_payload _ now cancellation_requested s = (ok tt, record s { cancel_requested = true })
apply_payload _ now cancellation_completed s = (ok tt, finish RunState.cancelled now s)
apply_payload _ now compensation_started s = (ok tt, record s { run_state = RunState.compensating })
apply_payload _ now (compensation_task_started id worker attempt _) s =
    (ok tt, start_compensation_task now id worker attempt s)
apply_payload _ now (compensation_task_completed id worker attempt) s = (
  ok tt,
  record s {
    compensation_stack = set_completed id s.compensation_stack;
    active_compensation = none;
  },
)
apply_payload _ now (compensation_task_expired id worker attempt) s =
    (ok tt, record s { active_compensation = none })
apply_payload _ now (compensation_task_failed id worker attempt _) s =
    (ok tt, record s { active_compensation = none })
apply_payload _ now compensation_completed s =
    (ok tt, finish RunState.compensated now (record s { active_compensation = none }))
apply_payload _ now (timer_scheduled timer_id id attempt purpose fire_at _) s = (
  ok tt,
  record s {
    timers =
        insert timer_id
          (record {
            id = timer_id;
            node_id = id;
            attempt = attempt;
            purpose = purpose;
            fire_at = fire_at;
            fired = false;
          })
          s.timers;
  },
)
apply_payload _ now (timer_fired timer_id id attempt purpose) s =
    fire_timer timer_id id attempt purpose s
apply_payload _ now (checkpoint_reached id worker attempt _) s =
    with_node id
      (λ n. record n {
        state = NodeState.awaiting_approval;
        worker_id = "";
        last_heartbeat_at = 0;
        last_error = "";
      })
      s
apply_payload _ now (checkpoint_approved id) s =
    with_node id
      (λ n.
        if is_awaiting n.state
        then record n { state = NodeState.ready; worker_id = ""; last_heartbeat_at = 0 }
        else n)
      s
apply_payload _ now (node_ready id) s =
    with_node id (λ n. if is_pending n.state then record n { state = NodeState.ready } else n) s
apply_payload _ now (node_started id worker attempt) s =
    with_node id
      (λ n. record n {
        attempt = attempt;
        worker_id = worker;
        last_heartbeat_at = now;
        state = NodeState.running;
      })
      s
apply_payload _ now (node_cancelled id worker attempt) s =
    with_node id
      (λ n. record n {
        state = NodeState.cancelled;
        worker_id = "";
        last_heartbeat_at = 0;
        last_error = "cancelled";
      })
      s
apply_payload _ now (node_completed id worker attempt output spawned) s =
    complete_node id worker attempt output spawned s
apply_payload _ now (node_failed id worker attempt message _ _) s =
    with_node id
      (λ n. record n {
        state = NodeState.failed;
        worker_id = worker;
        attempt = attempt;
        last_heartbeat_at = 0;
        last_error = message;
      })
      s
apply_payload _ now (workflow_failed _) s = (ok tt, finish RunState.failed now s)
apply_payload _ now workflow_completed s = (ok tt, finish RunState.completed now s)

-- `s.LastSeq = event.Seq`, which an error skips.
abbrev pub advance_seq : ℕ → Result (Unit {0}) → ExecutionState → ExecutionState
advance_seq seq (ok _) s = record s { last_seq = seq }
advance_seq seq (err _) s = s

-- `Apply`
unfoldable pub apply : Event → Action ExecutionState (Unit {0})
unfolding apply_payload
apply event s =
    let (r, s') = apply_payload event.run_id event.timestamp event.payload s in
    (r, advance_seq event.seq r s')

-- The loop of `Rehydrate`, and of the replay after a snapshot.
unfoldable pub replay : List Event → ExecutionState → Result ExecutionState
replay [] s = ok s
replay (event ∷ events) s = elim (apply event s).0 [
  | ok _ ↦ replay events (apply event s).1
  | err e ↦ err e
]

-- `Rehydrate`
unfoldable pub rehydrate : List Event → Result ExecutionState
unfolding replay
rehydrate events = replay events new
