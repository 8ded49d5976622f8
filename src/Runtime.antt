-- ===== src/Runtime.antt =====
-- internal/runtime/types.go: the vocabulary of the engine. The type of an event is the constructor
-- of its payload. A `time.Time` is a number of nanoseconds, 0 for the zero time; a
-- `map[string]any`, which the engine only copies, is its keys with the JSON text of each value.
-- A `uint32` or `uint64` is a number below its bound, and what the code adds to one wraps.
use grael.Prelude.{ℕ, ◌+◌, ◌%◌, ◌^◌, String, Bool, true, false, Option, List}
use grael.Prelude.Int.{ℤ}
use grael.Prelude.Map.{Map}

abbrev pub Time : Type 0
Time = ℕ

abbrev pub Duration : Type 0
Duration = ℤ

abbrev pub Values : Type 0
Values = Map String

pub data NodeState : Type 0 where
  pending ready running awaiting_approval cancelled completed failed : NodeState

-- `node.State == rt.NodeStatePending`, and so on for the others.
abbrev pub is_pending : NodeState → Bool
is_pending pending = true
is_pending _ = false

abbrev pub is_ready : NodeState → Bool
is_ready ready = true
is_ready _ = false

abbrev pub is_running : NodeState → Bool
is_running running = true
is_running _ = false

abbrev pub is_awaiting : NodeState → Bool
is_awaiting awaiting_approval = true
is_awaiting _ = false

abbrev pub is_completed : NodeState → Bool
is_completed completed = true
is_completed _ = false

abbrev pub is_failed : NodeState → Bool
is_failed failed = true
is_failed _ = false

pub data RunState : Type 0 where
  running compensating compensated completed failed cancelled : RunState

-- `st.RunState == rt.RunStateCompensating`
abbrev pub is_compensating : RunState → Bool
is_compensating compensating = true
is_compensating _ = false

abbrev pub ActivityType : Type 0
ActivityType = String

pub record RetryPolicy : Type 0 where
  pub max_attempts : ℤ
  pub backoff : Duration

pub record NodeDefinition : Type 0 where
  pub id : String
  pub activity_type : ActivityType
  pub input : Values
  pub depends_on : List String
  pub retry_policy : Option RetryPolicy
  pub compensation_activity : ActivityType
  pub checkpoint_timeout : Duration
  pub execution_deadline : Duration
  pub absolute_deadline : Duration

pub record WorkflowDefinition : Type 0 where
  pub name : String
  pub nodes : List NodeDefinition

pub data TimerPurpose : Type 0 where
  retry_backoff checkpoint_deadline exec_deadline abs_deadline : TimerPurpose

pub data Payload : Type 0 where
  workflow_started :
      (workflow : WorkflowDefinition) (definition_hash : String) (input : Values) → Payload
  lease_granted : (node_id worker_id : String) (attempt : ℕ) (activity : String) → Payload
  heartbeat_recorded : (node_id worker_id : String) (attempt : ℕ) → Payload
  lease_expired : (node_id worker_id : String) (attempt : ℕ) → Payload
  cancellation_requested : Payload
  cancellation_completed : Payload
  compensation_started : Payload
  compensation_task_started :
      (node_id worker_id : String) (attempt : ℕ) (activity : String) → Payload
  compensation_task_completed : (node_id worker_id : String) (attempt : ℕ) → Payload
  compensation_task_expired : (node_id worker_id : String) (attempt : ℕ) → Payload
  compensation_task_failed : (node_id worker_id : String) (attempt : ℕ) (message : String) → Payload
  compensation_completed : Payload
  timer_scheduled :
      (timer_id node_id : String) (attempt : ℕ) (purpose : TimerPurpose) (fire_at : Time)
      (worker_id : String)
      → Payload
  timer_fired : (timer_id node_id : String) (attempt : ℕ) (purpose : TimerPurpose) → Payload
  checkpoint_reached : (node_id worker_id : String) (attempt : ℕ) (reason : String) → Payload
  checkpoint_approved : (node_id : String) → Payload
  node_ready : (node_id : String) → Payload
  node_started : (node_id worker_id : String) (attempt : ℕ) → Payload
  node_cancelled : (node_id worker_id : String) (attempt : ℕ) → Payload
  node_completed :
      (node_id worker_id : String) (attempt : ℕ) (output : Values)
      (spawned_nodes : List NodeDefinition)
      → Payload
  node_failed :
      (node_id worker_id : String) (attempt : ℕ) (message : String) (retryable timed_out : Bool)
      → Payload
  workflow_failed : (reason : String) → Payload
  workflow_completed : Payload

pub record Event : Type 0 where
  pub seq : ℕ
  pub run_id : String
  pub timestamp : Time
  pub payload : Payload

pub record WorkerTask : Type 0 where
  pub run_id : String
  pub node_id : String
  pub activity_type : ActivityType
  pub attempt : ℕ
  pub compensation : Bool
  pub workflow : String
  pub workflow_input : Values
  pub node_input : Values

pub record CompleteTaskRequest : Type 0 where
  pub worker_id : String
  pub run_id : String
  pub node_id : String
  pub attempt : ℕ
  pub compensation : Bool
  pub output : Values
  -- The reason of the checkpoint that the worker asks for.
  pub checkpoint : Option String
  pub spawned_nodes : List NodeDefinition

pub record FailTaskRequest : Type 0 where
  pub worker_id : String
  pub run_id : String
  pub node_id : String
  pub attempt : ℕ
  pub compensation : Bool
  pub message : String
  pub cancelled : Bool
  pub retryable : Bool

-- `attempt + 1` on a `uint32`.
abbrev pub next_attempt : ℕ → ℕ
next_attempt attempt = (attempt + 1) % 2 ^ 32
