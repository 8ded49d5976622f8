-- ===== src/Demo/Events.antt =====
-- demo/adapter/adapter.go: what the dashboard shows of one event, and internal/runtime/types.go: the
-- texts of the event types.
use Prim.Native.String.{◌++◌}
use grael.Prelude.{ℕ, String, List, [], ◌∷◌, ◌==◌, ltb, if◌then◌else◌}
use grael.Runtime.{
  Time, NodeDefinition, Payload, Event, workflow_started, lease_granted, heartbeat_recorded,
  lease_expired, cancellation_requested, cancellation_completed, compensation_started,
  compensation_task_started, compensation_task_completed, compensation_task_expired,
  compensation_task_failed, compensation_completed, timer_scheduled, timer_fired,
  checkpoint_reached, checkpoint_approved, node_ready, node_started, node_cancelled, node_completed,
  node_failed, workflow_failed, workflow_completed,
}
use grael.Wal.{EventType, event_type}

pub record TimelineEvent : Type 0 where
  pub seq : ℕ
  pub type_of : EventType
  pub timestamp : Time
  pub node_id : String
  pub attempt : ℕ
  pub family : String
  pub label : String

-- `string(event.Type)`
unfoldable pub type_text : EventType → String
type_text EventType.event_workflow_started = "WorkflowStarted"
type_text EventType.event_lease_granted = "LeaseGranted"
type_text EventType.event_heartbeat_recorded = "HeartbeatRecorded"
type_text EventType.event_lease_expired = "LeaseExpired"
type_text EventType.event_cancellation_requested = "CancellationRequested"
type_text EventType.event_cancellation_completed = "CancellationCompleted"
type_text EventType.event_compensation_started = "CompensationStarted"
type_text EventType.event_compensation_task_started = "CompensationTaskStarted"
type_text EventType.event_compensation_task_completed = "CompensationTaskCompleted"
type_text EventType.event_compensation_task_expired = "CompensationTaskExpired"
type_text EventType.event_compensation_task_failed = "CompensationTaskFailed"
type_text EventType.event_compensation_completed = "CompensationCompleted"
type_text EventType.event_timer_scheduled = "TimerScheduled"
type_text EventType.event_timer_fired = "TimerFired"
type_text EventType.event_checkpoint_reached = "CheckpointReached"
type_text EventType.event_checkpoint_approved = "CheckpointApproved"
type_text EventType.event_node_ready = "NodeReady"
type_text EventType.event_node_started = "NodeStarted"
type_text EventType.event_node_cancelled = "NodeCancelled"
type_text EventType.event_node_completed = "NodeCompleted"
type_text EventType.event_node_failed = "NodeFailed"
type_text EventType.event_workflow_failed = "WorkflowFailed"
type_text EventType.event_workflow_completed = "WorkflowCompleted"
type_text (EventType.unknown text) = text

-- The loop over the spawned nodes of a completion.
unfoldable pub spawned_ids : List NodeDefinition → List String
spawned_ids [] = []
spawned_ids (def ∷ defs) = def.id ∷ spawned_ids defs

-- `eventNodeIDs`
unfoldable pub event_node_ids : Payload → List String
unfolding spawned_ids
event_node_ids (lease_granted node_id _ _ _) = node_id ∷ []
event_node_ids (heartbeat_recorded node_id _ _) = node_id ∷ []
event_node_ids (lease_expired node_id _ _) = node_id ∷ []
event_node_ids (timer_scheduled _ node_id _ _ _ _) = node_id ∷ []
event_node_ids (timer_fired _ node_id _ _) = node_id ∷ []
event_node_ids (node_ready node_id) = node_id ∷ []
event_node_ids (node_started node_id _ _) = node_id ∷ []
event_node_ids (node_cancelled node_id _ _) = node_id ∷ []
event_node_ids (checkpoint_reached node_id _ _ _) = node_id ∷ []
event_node_ids (checkpoint_approved node_id) = node_id ∷ []
event_node_ids (node_failed node_id _ _ _ _ _) = node_id ∷ []
event_node_ids (compensation_task_started node_id _ _ _) = node_id ∷ []
event_node_ids (compensation_task_completed node_id _ _) = node_id ∷ []
event_node_ids (compensation_task_expired node_id _ _) = node_id ∷ []
event_node_ids (compensation_task_failed node_id _ _ _) = node_id ∷ []
event_node_ids (node_completed node_id _ _ _ spawned) = node_id ∷ spawned_ids spawned
event_node_ids (workflow_started _ _ _) = []
event_node_ids cancellation_requested = []
event_node_ids cancellation_completed = []
event_node_ids compensation_started = []
event_node_ids compensation_completed = []
event_node_ids (workflow_failed _) = []
event_node_ids workflow_completed = []

-- `timelineFields`: the node and the attempt.
unfoldable pub timeline_fields : Payload → String × ℕ
timeline_fields (lease_granted node_id _ attempt _) = (node_id, attempt)
timeline_fields (heartbeat_recorded node_id _ attempt) = (node_id, attempt)
timeline_fields (lease_expired node_id _ attempt) = (node_id, attempt)
timeline_fields (timer_scheduled _ node_id attempt _ _ _) = (node_id, attempt)
timeline_fields (timer_fired _ node_id attempt _) = (node_id, attempt)
timeline_fields (node_started node_id _ attempt) = (node_id, attempt)
timeline_fields (node_cancelled node_id _ attempt) = (node_id, attempt)
timeline_fields (checkpoint_reached node_id _ attempt _) = (node_id, attempt)
timeline_fields (node_completed node_id _ attempt _ _) = (node_id, attempt)
timeline_fields (node_failed node_id _ attempt _ _ _) = (node_id, attempt)
timeline_fields (compensation_task_started node_id _ attempt _) = (node_id, attempt)
timeline_fields (compensation_task_completed node_id _ attempt) = (node_id, attempt)
timeline_fields (compensation_task_expired node_id _ attempt) = (node_id, attempt)
timeline_fields (compensation_task_failed node_id _ attempt _) = (node_id, attempt)
timeline_fields (node_ready node_id) = (node_id, 0)
timeline_fields (checkpoint_approved node_id) = (node_id, 0)
timeline_fields (workflow_started _ _ _) = ("", 0)
timeline_fields cancellation_requested = ("", 0)
timeline_fields cancellation_completed = ("", 0)
timeline_fields compensation_started = ("", 0)
timeline_fields compensation_completed = ("", 0)
timeline_fields (workflow_failed _) = ("", 0)
timeline_fields workflow_completed = ("", 0)

-- `eventFamily`
unfoldable pub event_family : EventType → String
event_family EventType.event_workflow_started = "run"
event_family EventType.event_workflow_completed = "run"
event_family EventType.event_workflow_failed = "run"
event_family EventType.event_lease_granted = "lease"
event_family EventType.event_heartbeat_recorded = "lease"
event_family EventType.event_lease_expired = "lease"
event_family EventType.event_timer_scheduled = "timer"
event_family EventType.event_timer_fired = "timer"
event_family EventType.event_checkpoint_reached = "checkpoint"
event_family EventType.event_checkpoint_approved = "checkpoint"
event_family EventType.event_cancellation_requested = "cancellation"
event_family EventType.event_node_cancelled = "cancellation"
event_family EventType.event_cancellation_completed = "cancellation"
event_family EventType.event_compensation_started = "compensation"
event_family EventType.event_compensation_task_started = "compensation"
event_family EventType.event_compensation_task_completed = "compensation"
event_family EventType.event_compensation_task_expired = "compensation"
event_family EventType.event_compensation_task_failed = "compensation"
event_family EventType.event_compensation_completed = "compensation"
event_family EventType.event_node_ready = "node"
event_family EventType.event_node_started = "node"
event_family EventType.event_node_completed = "node"
event_family EventType.event_node_failed = "node"
event_family (EventType.unknown _) = "other"

-- The key of an edge to a spawned node.
unfoldable pub edge_key : (parent id : String) → String
edge_key parent id = parent ++ ("->" ++ id)

-- `decimal` is the text that `%d` writes.
module _ (decimal : ℕ → String) where
  -- The labels that name a node, and those of the other types.
  unfoldable pub node_label : EventType → String → ℕ → String
  unfolding type_text
  node_label type_of node_id attempt =
      if node_id == ""
      then type_text type_of
      else if ltb 0 attempt
      then node_id ++ (" " ++ (type_text type_of ++ (" (attempt " ++ (decimal attempt ++ ")"))))
      else node_id ++ (" " ++ type_text type_of)

  -- `timelineLabel`
  unfoldable pub timeline_label : EventType → String → ℕ → String
  unfolding node_label
  timeline_label EventType.event_workflow_started node_id attempt = "workflow started"
  timeline_label EventType.event_workflow_completed node_id attempt = "workflow completed"
  timeline_label EventType.event_workflow_failed node_id attempt = "workflow failed"
  timeline_label EventType.event_compensation_completed node_id attempt = "compensation completed"
  timeline_label EventType.event_compensation_started node_id attempt = "compensation started"
  timeline_label type_of node_id attempt = node_label type_of node_id attempt

  -- `timelineEvent`
  unfoldable pub timeline_event : Event → TimelineEvent
  unfolding timeline_fields event_family timeline_label event_type
  timeline_event event =
      let type_of = event_type event.payload in
      let (node_id, attempt) = timeline_fields event.payload in
      record {
        seq = event.seq;
        type_of = type_of;
        timestamp = event.timestamp;
        node_id = node_id;
        attempt = attempt;
        family = event_family type_of;
        label = timeline_label type_of node_id attempt;
      }

  -- The loop that builds a timeline.
  unfoldable pub timeline_events : List Event → List TimelineEvent
  timeline_events [] = []
  timeline_events (event ∷ events) = timeline_event event ∷ timeline_events events
