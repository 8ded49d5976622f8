-- ===== src/Wal.antt =====
-- internal/wal/wal.go: the log of one run as a file of JSON lines, each with a checksum, and the
-- store that numbers and appends events, reads them back, and passes them on to subscribers.
pub mod Names
pub mod Scan
pub mod Subscriber
pub mod Store
pub mod Lines
pub mod History
pub mod Append
pub mod Branches
pub mod Corrupt
pub mod Delivery
pub mod TooLong
use grael.Prelude.{
  ℕ, ◌+◌, String, Bool, true, false, ◌&&◌, ◌||◌, Option, none, some, List, [], ◌∷◌, nat_eq,
}
use grael.Runtime.{
  Time, Payload, workflow_started, lease_granted, heartbeat_recorded, lease_expired,
  cancellation_requested, cancellation_completed, compensation_started, compensation_task_started,
  compensation_task_completed, compensation_task_expired, compensation_task_failed,
  compensation_completed, timer_scheduled, timer_fired, checkpoint_reached, checkpoint_approved,
  node_ready, node_started, node_cancelled, node_completed, node_failed, workflow_failed,
  workflow_completed,
}

-- A byte is a number.
abbrev pub Bytes : Type 0
Bytes = List ℕ

-- The constants of `rt.EventType`; `unknown` is any other text.
pub data EventType : Type 0 where
  event_workflow_started event_lease_granted event_heartbeat_recorded : EventType
  event_lease_expired event_cancellation_requested event_cancellation_completed : EventType
  event_compensation_started event_compensation_task_started : EventType
  event_compensation_task_completed event_compensation_task_expired : EventType
  event_compensation_task_failed event_compensation_completed event_timer_scheduled : EventType
  event_timer_fired event_checkpoint_reached event_checkpoint_approved : EventType
  event_node_ready event_node_started event_node_cancelled event_node_completed : EventType
  event_node_failed event_workflow_failed event_workflow_completed : EventType
  unknown : String → EventType

-- The `Type` that the engine gives to an event with this payload.
unfoldable pub event_type : Payload → EventType
event_type (workflow_started _ _ _) = event_workflow_started
event_type (lease_granted _ _ _ _) = event_lease_granted
event_type (heartbeat_recorded _ _ _) = event_heartbeat_recorded
event_type (lease_expired _ _ _) = event_lease_expired
event_type cancellation_requested = event_cancellation_requested
event_type cancellation_completed = event_cancellation_completed
event_type compensation_started = event_compensation_started
event_type (compensation_task_started _ _ _ _) = event_compensation_task_started
event_type (compensation_task_completed _ _ _) = event_compensation_task_completed
event_type (compensation_task_expired _ _ _) = event_compensation_task_expired
event_type (compensation_task_failed _ _ _ _) = event_compensation_task_failed
event_type compensation_completed = event_compensation_completed
event_type (timer_scheduled _ _ _ _ _ _) = event_timer_scheduled
event_type (timer_fired _ _ _ _) = event_timer_fired
event_type (checkpoint_reached _ _ _ _) = event_checkpoint_reached
event_type (checkpoint_approved _) = event_checkpoint_approved
event_type (node_ready _) = event_node_ready
event_type (node_started _ _ _) = event_node_started
event_type (node_cancelled _ _ _) = event_node_cancelled
event_type (node_completed _ _ _ _ _) = event_node_completed
event_type (node_failed _ _ _ _ _ _) = event_node_failed
event_type (workflow_failed _) = event_workflow_failed
event_type workflow_completed = event_workflow_completed

pub record DiskRecord : Type 0 where
  pub seq : ℕ
  pub run_id : String
  pub type_of : EventType
  pub timestamp : Time
  pub payload : Bytes
  pub crc32 : ℕ

-- What the store calls of encoding/json, hash/crc32 and bytes. `unmarshal_payload` at a type decodes
-- into the payload struct of that type; `is_blank` is that `bytes.TrimSpace` leaves nothing.
pub record Format : Type 0 where
  pub marshal_payload : Payload → Option Bytes
  pub marshal_record : DiskRecord → Option Bytes
  pub unmarshal_record : Bytes → Option DiskRecord
  pub unmarshal_payload : EventType → Bytes → Option Payload
  pub checksum_ieee : Bytes → ℕ
  pub is_blank : Bytes → Bool

-- `len(raw) == 0 || string(raw) == "null"`
unfoldable pub is_null : Bytes → Bool
is_null [] = true
is_null (n ∷ u ∷ l ∷ k ∷ []) = nat_eq n 110 && nat_eq u 117 && nat_eq l 108 && nat_eq k 108
is_null (_ ∷ _) = false

module _ (format : Format) where
  -- The error of the marshalling is dropped, which leaves no bytes.
  unfoldable pub checksum : DiskRecord → ℕ
  checksum r = elim (format.marshal_record (record r { crc32 = 0 })) [
    | none ↦ format.checksum_ieee []
    | some bytes ↦ format.checksum_ieee bytes
  ]

  unfoldable pub decode_payload : EventType → Bytes → Option Payload
  decode_payload event_workflow_started raw = format.unmarshal_payload event_workflow_started raw
  decode_payload event_lease_granted raw = format.unmarshal_payload event_lease_granted raw
  decode_payload event_heartbeat_recorded raw =
      format.unmarshal_payload event_heartbeat_recorded raw
  decode_payload event_lease_expired raw = format.unmarshal_payload event_lease_expired raw
  decode_payload event_cancellation_requested raw = some cancellation_requested
  decode_payload event_cancellation_completed raw = some cancellation_completed
  decode_payload event_compensation_started raw = some compensation_started
  decode_payload event_compensation_task_started raw =
      format.unmarshal_payload event_compensation_task_started raw
  decode_payload event_compensation_task_completed raw =
      format.unmarshal_payload event_compensation_task_completed raw
  decode_payload event_compensation_task_expired raw =
      format.unmarshal_payload event_compensation_task_expired raw
  decode_payload event_compensation_task_failed raw =
      format.unmarshal_payload event_compensation_task_failed raw
  decode_payload event_compensation_completed raw = some compensation_completed
  decode_payload event_timer_scheduled raw = format.unmarshal_payload event_timer_scheduled raw
  decode_payload event_timer_fired raw = format.unmarshal_payload event_timer_fired raw
  decode_payload event_checkpoint_reached raw =
      format.unmarshal_payload event_checkpoint_reached raw
  decode_payload event_checkpoint_approved raw =
      format.unmarshal_payload event_checkpoint_approved raw
  decode_payload event_node_ready raw = format.unmarshal_payload event_node_ready raw
  decode_payload event_node_started raw = format.unmarshal_payload event_node_started raw
  decode_payload event_node_cancelled raw = format.unmarshal_payload event_node_cancelled raw
  decode_payload event_node_completed raw = format.unmarshal_payload event_node_completed raw
  decode_payload event_node_failed raw = format.unmarshal_payload event_node_failed raw
  decode_payload event_workflow_failed raw = elim (is_null raw) [
    | true ↦ some (workflow_failed "")
    | false ↦ format.unmarshal_payload event_workflow_failed raw
  ]
  decode_payload event_workflow_completed raw = some workflow_completed
  decode_payload (unknown _) raw = none
