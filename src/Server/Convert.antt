-- ===== src/Server/Convert.antt =====
-- internal/grpcserver/server.go: the conversions between the messages and the runtime types. A map without
-- entries counts as nil.
use grael.Prelude.{String, true, false, Option, none, some, List, [], ◌∷◌}
use grael.Prelude.Lists.{sort}
use grael.Prelude.Map.{Map, lookup, insert, keys}
use grael.Result.{
  Error, Result, ok, err, and_then, workflow_is_required, node_definition_required,
  invalid_duration, invalid_struct, marshal_failed, in_node, in_field,
}
use grael.Runtime.{
  Duration, Values, NodeState, RunState, RetryPolicy, NodeDefinition, WorkflowDefinition, Event,
  WorkerTask, CompleteTaskRequest, FailTaskRequest,
}
use grael.Prelude.Int.{pos}
use grael.State.View.{NodeView, RunView}
use grael.Wal.{event_type}
use grael.Demo.Events.{type_text}
use grael.Server.{
  Struct, Protobuf, ProtoDuration, ProtoRetryPolicy, ProtoNodeDefinition, ProtoWorkflowDefinition,
  ProtoCompleteTaskRequest, ProtoFailTaskRequest, ProtoWorkerTask, ProtoNodeView, ProtoRunView,
  ProtoEvent,
}

-- `string(node.State)` and `string(view.State)`
unfoldable pub node_state_text : NodeState → String
node_state_text NodeState.pending = "PENDING"
node_state_text NodeState.ready = "READY"
node_state_text NodeState.running = "RUNNING"
node_state_text NodeState.awaiting_approval = "AWAITING_APPROVAL"
node_state_text NodeState.cancelled = "CANCELLED"
node_state_text NodeState.completed = "COMPLETED"
node_state_text NodeState.failed = "FAILED"

unfoldable pub run_state_text : RunState → String
run_state_text RunState.running = "RUNNING"
run_state_text RunState.compensating = "COMPENSATING"
run_state_text RunState.compensated = "COMPENSATED"
run_state_text RunState.completed = "COMPLETED"
run_state_text RunState.failed = "FAILED"
run_state_text RunState.cancelled = "CANCELLED"

-- `fmt.Errorf("...: %w", err)` around the error of a call.
abbrev pub wrap : {A : Type 0} → (Error → Error) → Result A → Result A
wrap f (ok a) = ok a
wrap f (err e) = err (f e)

-- `GetId` of a message that may be missing.
abbrev pub get_id : Option ProtoNodeDefinition → String
get_id none = ""
get_id (some n) = n.id

-- The request that `FailTask` makes.
unfoldable pub fail_task_from_proto : ProtoFailTaskRequest → FailTaskRequest
fail_task_from_proto req = record {
  worker_id = req.worker_id;
  run_id = req.run_id;
  node_id = req.node_id;
  attempt = req.attempt;
  compensation = req.compensation;
  message = req.message;
  cancelled = req.cancelled;
  retryable = req.retryable;
}

module _ (proto : Protobuf) where
  -- `durationFromProto`: a duration, and an error or none.
  unfoldable pub duration_from_proto : Option ProtoDuration → Duration × Option Error
  duration_from_proto none = (pos 0, none)
  duration_from_proto (some d) = (
    proto.as_duration d,
    elim (proto.check_valid d) [ true ↦ none | false ↦ some invalid_duration ],
  )

  -- The call with its test of the error.
  unfoldable pub duration_or_error : Option ProtoDuration → Result Duration
  unfolding duration_from_proto
  duration_or_error d = elim (duration_from_proto d).1 [
    | none ↦ ok (duration_from_proto d).0
    | some e ↦ err e
  ]

  -- `structToMap`
  unfoldable pub struct_to_map : Option Struct → Result Values
  struct_to_map none = ok []
  struct_to_map (some s) = ok (proto.as_map s)

  -- `mapToStruct`
  unfoldable pub map_to_struct : Values → Result (Option Struct)
  map_to_struct [] = ok none
  map_to_struct (entry ∷ entries) = elim (proto.new_struct (entry ∷ entries)) [
    | none ↦ err invalid_struct
    | some s ↦ ok (some s)
  ]

  -- `retryPolicyFromProto`, which drops the error of the backoff.
  unfoldable pub retry_policy_from_proto : Option ProtoRetryPolicy → Option RetryPolicy
  unfolding duration_from_proto
  retry_policy_from_proto none = none
  retry_policy_from_proto (some p) =
      some (record { max_attempts = p.max_attempts; backoff = (duration_from_proto p.backoff).0 })

  -- `nodeDefinitionFromProto`
  unfoldable pub node_definition_from_proto : Option ProtoNodeDefinition → Result NodeDefinition
  unfolding struct_to_map duration_or_error retry_policy_from_proto
  node_definition_from_proto none = err node_definition_required
  node_definition_from_proto (some n) =
      and_then (wrap (in_field "input") (struct_to_map n.input)) λ input.
        and_then (wrap (in_field "checkpoint_timeout") (duration_or_error n.checkpoint_timeout))
          λ checkpoint_timeout.
            and_then (wrap (in_field "execution_deadline") (duration_or_error n.execution_deadline))
              λ execution_deadline.
                and_then
                  (wrap (in_field "absolute_deadline") (duration_or_error n.absolute_deadline))
                  λ absolute_deadline. ok (record {
                    id = n.id;
                    activity_type = n.activity_type;
                    input = input;
                    depends_on = n.depends_on;
                    retry_policy = retry_policy_from_proto n.retry_policy;
                    compensation_activity = n.compensation_activity;
                    checkpoint_timeout = checkpoint_timeout;
                    execution_deadline = execution_deadline;
                    absolute_deadline = absolute_deadline;
                  })

  -- The loop over the nodes, which stops at the first error.
  unfoldable pub nodes_from_proto :
      (in_context : Option ProtoNodeDefinition → Error → Error)
      → List (Option ProtoNodeDefinition)
      → Result (List NodeDefinition)
  unfolding node_definition_from_proto
  nodes_from_proto in_context [] = ok []
  nodes_from_proto in_context (node ∷ nodes) =
      let rest = nodes_from_proto in_context nodes in
      and_then (wrap (in_context node) (node_definition_from_proto node))
        λ mapped. and_then rest λ others. ok (mapped ∷ others)

  -- `workflowDefinitionFromProto`
  unfoldable pub workflow_definition_from_proto :
      Option ProtoWorkflowDefinition → Result WorkflowDefinition
  unfolding nodes_from_proto
  workflow_definition_from_proto none = err workflow_is_required
  workflow_definition_from_proto (some def) =
      and_then (nodes_from_proto (λ node. in_node (get_id node)) def.nodes)
        λ nodes. ok (record { name = def.name; nodes = nodes })

  -- `completeTaskFromProto`
  unfoldable pub complete_task_from_proto : ProtoCompleteTaskRequest → Result CompleteTaskRequest
  unfolding struct_to_map nodes_from_proto
  complete_task_from_proto req =
      and_then (wrap (in_field "output") (struct_to_map req.output)) λ output.
        and_then (nodes_from_proto (λ _. in_field "spawned_nodes") req.spawned_nodes) λ spawned.
          ok (record {
            worker_id = req.worker_id;
            run_id = req.run_id;
            node_id = req.node_id;
            attempt = req.attempt;
            compensation = req.compensation;
            output = output;
            checkpoint = req.checkpoint;
            spawned_nodes = spawned;
          })

  -- `workerTaskToProto`
  unfoldable pub worker_task_to_proto : WorkerTask → Result ProtoWorkerTask
  unfolding map_to_struct
  worker_task_to_proto task =
      and_then (wrap (in_field "workflow input") (map_to_struct task.workflow_input)) λ input.
        and_then (wrap (in_field "node input") (map_to_struct task.node_input)) λ node_input.
          ok (record {
            run_id = task.run_id;
            node_id = task.node_id;
            activity_type = task.activity_type;
            attempt = task.attempt;
            compensation = task.compensation;
            workflow = task.workflow;
            workflow_input = input;
            node_input = node_input;
          })

  -- The loop of `runViewToProto` over the sorted keys.
  unfoldable pub node_views_to_proto :
      List String → Map NodeView → Map ProtoNodeView → Map ProtoNodeView
  unfolding lookup insert node_state_text
  node_views_to_proto [] views nodes = nodes
  node_views_to_proto (id ∷ ids) views nodes = elim (lookup id views) [
    | none ↦ node_views_to_proto ids views nodes
    | some n ↦ node_views_to_proto ids views (
        insert id
          (record {
            id = n.id;
            activity_type = n.activity_type;
            state = node_state_text n.state;
            depends_on = n.depends_on;
            attempt = n.attempt;
            worker_id = n.worker_id;
            last_error = n.last_error;
          })
          nodes)
  ]

  -- `runViewToProto`
  unfoldable pub run_view_to_proto : RunView → ProtoRunView
  unfolding node_views_to_proto run_state_text sort keys
  run_view_to_proto v = record {
    run_id = v.run_id;
    workflow = v.workflow;
    definition_hash = v.definition_hash;
    state = run_state_text v.state;
    last_seq = v.last_seq;
    nodes = node_views_to_proto (sort (keys v.nodes)) v.nodes [];
    created_at = proto.new_timestamp v.created_at;
    finished_at = elim v.finished_at [ none ↦ none | some t ↦ some (proto.new_timestamp t) ];
  }

  -- `eventToProto`
  unfoldable pub event_to_proto : Event → Result ProtoEvent
  unfolding event_type type_text
  event_to_proto event = elim (proto.marshal_payload event.payload) [
    | none ↦ err marshal_failed
    | some bytes ↦ ok (record {
      seq = event.seq;
      run_id = event.run_id;
      type_of = type_text (event_type event.payload);
      timestamp = proto.new_timestamp event.timestamp;
      payload = bytes;
    })
  ]

  -- The loop of `ListEvents`, which stops at the first error.
  unfoldable pub events_to_proto : List Event → Result (List ProtoEvent)
  unfolding event_to_proto
  events_to_proto [] = ok []
  events_to_proto (event ∷ events) =
      let rest = events_to_proto events in
      and_then (event_to_proto event) λ mapped. and_then rest λ others. ok (mapped ∷ others)
