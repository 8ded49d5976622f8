-- ===== src/Server.antt =====
-- internal/grpcserver: the service that clients and workers call. The messages are those of
-- internal/grpcserver/pb, whose fields are the getters' answers; a message that may be missing is an
-- option. A request of one or two texts is its texts.
pub mod Convert
pub mod Status
pub mod Handlers
pub mod Stream
pub mod Accepted
pub mod Fenced
use grael.Prelude.{ℕ, String, Bool, Option, List}
use grael.Prelude.Int.{ℤ}
use grael.Prelude.Map.{Map}
use grael.Runtime.{Time, Duration, Values, Payload}
use grael.Wal.{Bytes}

pub record ProtoDuration : Type 0 where
  pub seconds : ℤ
  pub nanos : ℤ

pub record ProtoTimestamp : Type 0 where
  pub seconds : ℤ
  pub nanos : ℕ

-- A `structpb.Struct`: its fields, with the text of each value.
pub record Struct : Type 0 where
  pub fields : Map String

-- What the server calls of the protobuf libraries and of encoding/json. `check_valid` is that
-- `CheckValid` returns nil.
pub record Protobuf : Type 0 where
  pub as_duration : ProtoDuration → Duration
  pub check_valid : ProtoDuration → Bool
  pub as_map : Struct → Values
  pub new_struct : Values → Option Struct
  pub new_timestamp : Time → ProtoTimestamp
  pub marshal_payload : Payload → Option Bytes

pub record ProtoRetryPolicy : Type 0 where
  pub max_attempts : ℤ
  pub backoff : Option ProtoDuration

pub record ProtoNodeDefinition : Type 0 where
  pub id : String
  pub activity_type : String
  pub input : Option Struct
  pub depends_on : List String
  pub retry_policy : Option ProtoRetryPolicy
  pub compensation_activity : String
  pub checkpoint_timeout : Option ProtoDuration
  pub execution_deadline : Option ProtoDuration
  pub absolute_deadline : Option ProtoDuration

pub record ProtoWorkflowDefinition : Type 0 where
  pub name : String
  pub nodes : List (Option ProtoNodeDefinition)

pub record ProtoCompleteTaskRequest : Type 0 where
  pub worker_id : String
  pub run_id : String
  pub node_id : String
  pub attempt : ℕ
  pub compensation : Bool
  pub output : Option Struct
  -- The reason of the checkpoint.
  pub checkpoint : Option String
  pub spawned_nodes : List (Option ProtoNodeDefinition)

pub record ProtoFailTaskRequest : Type 0 where
  pub worker_id : String
  pub run_id : String
  pub node_id : String
  pub attempt : ℕ
  pub compensation : Bool
  pub message : String
  pub cancelled : Bool
  pub retryable : Bool

pub record ProtoWorkerTask : Type 0 where
  pub run_id : String
  pub node_id : String
  pub activity_type : String
  pub attempt : ℕ
  pub compensation : Bool
  pub workflow : String
  pub workflow_input : Option Struct
  pub node_input : Option Struct

pub record ProtoNodeView : Type 0 where
  pub id : String
  pub activity_type : String
  pub state : String
  pub depends_on : List String
  pub attempt : ℕ
  pub worker_id : String
  pub last_error : String

pub record ProtoRunView : Type 0 where
  pub run_id : String
  pub workflow : String
  pub definition_hash : String
  pub state : String
  pub last_seq : ℕ
  pub nodes : Map ProtoNodeView
  pub created_at : ProtoTimestamp
  pub finished_at : Option ProtoTimestamp

pub record ProtoEvent : Type 0 where
  pub seq : ℕ
  pub run_id : String
  pub type_of : String
  pub timestamp : ProtoTimestamp
  pub payload : Bytes
