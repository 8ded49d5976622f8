-- ===== src/Tests/Server.antt =====
-- The server over an engine with one worker and one run.
use grael.Prelude.{◌≡◌, ◌↔◌, Bool, true, false, Option, none, some, [], ◌∷◌}
use grael.Prelude.Int.{ℤ, pos, negsuc}
use grael.Prelude.Lists.{All}
use grael.Result.{ok}
use grael.Runtime.{WorkflowDefinition}
use grael.Engine.Fleet.{Entry}
use grael.Server.{
  Protobuf, ProtoDuration, ProtoNodeDefinition, ProtoWorkflowDefinition, ProtoCompleteTaskRequest,
  ProtoFailTaskRequest,
}
use grael.Server.Convert.{workflow_definition_from_proto}
use grael.Server.Accepted.{IsNode, nodes_of_messages, workflow_definition_from_proto-IsNode}
use grael.Tests.{start_flow}

-- A duration is valid where its seconds are a number that is not negative.
abbrev is_valid : ProtoDuration → Bool
is_valid d = elim d.seconds [ pos _ ↦ true | negsuc _ ↦ false ]

abbrev pub proto : Protobuf
proto = record {
  as_duration = λ d. d.seconds;
  check_valid = is_valid;
  as_map = λ s. s.fields;
  new_struct = λ values. some (record { fields = values });
  new_timestamp = λ t. record { seconds = pos t; nanos = 0 };
  marshal_payload = λ _. some [];
}

abbrev seconds : ℤ → Option ProtoDuration
seconds n = some (record { seconds = n; nanos = pos 0 })

-- A node with an invalid backoff, and a valid deadline.
abbrev node : ProtoNodeDefinition
node = record {
  id = "a";
  activity_type = "work";
  input = none;
  depends_on = [];
  retry_policy = some (record { max_attempts = pos 2; backoff = seconds (negsuc 0) });
  compensation_activity = "";
  checkpoint_timeout = none;
  execution_deadline = seconds (pos 5);
  absolute_deadline = none;
}

abbrev message : ProtoWorkflowDefinition
message = record { name = "flow"; nodes = some node ∷ [] }

abbrev definition : WorkflowDefinition
definition = record { name = "flow"; nodes = nodes_of_messages proto (some node ∷ []) }

workflow_definition_from_proto-IsNode_example :
    (workflow_definition_from_proto proto (some message) ≡ ok definition) ↔ (
      All (IsNode proto) (some node ∷ [])
      × (definition ≡ record { name = "flow"; nodes = nodes_of_messages proto (some node ∷ []) }))
workflow_definition_from_proto-IsNode_example =
    workflow_definition_from_proto-IsNode proto message definition

abbrev entry : Entry
entry = record { loaded = true; doubtful = false; session = start_flow }

-- A worker reports on a node that it has no lease for.
abbrev report_a : ProtoCompleteTaskRequest
report_a = record {
  worker_id = "w";
  run_id = "run-1";
  node_id = "a";
  attempt = 1;
  compensation = false;
  output = none;
  checkpoint = none;
  spawned_nodes = [];
}

-- And fails to do it.
abbrev failure_a : ProtoFailTaskRequest
failure_a = record {
  worker_id = "w";
  run_id = "run-1";
  node_id = "a";
  attempt = 1;
  compensation = false;
  message = "no";
  retryable = true;
  cancelled = false;
}
