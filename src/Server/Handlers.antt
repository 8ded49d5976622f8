-- ===== src/Server/Handlers.antt =====
-- internal/grpcserver/server.go: the handlers, over the engine that internal/api/service.go passes each
-- call on to.
use grael.Prelude.{String, Option, none, some, List}
use grael.Result.{Result, ok, err}
use grael.Runtime.{Time, WorkflowDefinition, WorkerTask}
use grael.Engine.{World}
use grael.Engine.Control.{cancel_run, approve_checkpoint}
use grael.Engine.Tasks.{complete_task, fail_task}
use grael.Engine.Fleet.{
  Engine, admit_run, register_worker, poll_task, heartbeat_worker, get_run, list_events, on_run,
}
use grael.Server.{
  Struct, Protobuf, ProtoWorkflowDefinition, ProtoCompleteTaskRequest, ProtoFailTaskRequest,
  ProtoWorkerTask, ProtoRunView, ProtoEvent,
}
use grael.Server.Convert.{
  struct_to_map, workflow_definition_from_proto, complete_task_from_proto, fail_task_from_proto,
  worker_task_to_proto, run_view_to_proto, events_to_proto,
}
use grael.Server.Status.{Status, Code, map_error, invalid}

pub data Reply (A : Type 0) : Type 0 where
  replied : A → Reply A
  failed : Status → Reply A

-- `if err != nil { return nil, mapError(err) }`, and then the answer.
abbrev pub reply : {A B : Type 0} → (A → Reply B) → Result A × Engine → Reply B × Engine
reply answer (ok a, e) = (answer a, e)
reply answer (err x, e) = (failed (map_error x), e)

-- `status.Error(codes.InvalidArgument, ...)` if a conversion fails, and then the call.
abbrev pub converted :
    {A B : Type 0} → Result A → (A → Engine → Reply B × Engine) → Engine → Reply B × Engine
converted (ok a) call e = call a e
converted (err x) call e = (failed (invalid x), e)

-- `status.Errorf(codes.Internal, ...)` if the answer cannot be converted.
abbrev pub internal : {A : Type 0} → Result A → Reply A
internal (ok a) = replied a
internal (err x) = failed (record { code = Code.internal; cause = x })

-- The answer of `PollTask`: an empty one without a task.
unfoldable pub task_answer : Protobuf → Option WorkerTask → Reply (Option ProtoWorkerTask)
unfolding worker_task_to_proto
task_answer proto none = replied none
task_answer proto (some task) = elim (worker_task_to_proto proto task) [
  | ok mapped ↦ replied (some mapped)
  | err x ↦ failed (record { code = Code.internal; cause = x })
]

module _ (proto : Protobuf) (worlds : String → World) where
  -- `StartRun`. The id of the run is new.
  unfoldable pub start_run_rpc :
      (run_id : String)
      → (hash : WorkflowDefinition → String) → Option ProtoWorkflowDefinition
      → Option Struct
      → Engine
      → Reply String × Engine
  unfolding workflow_definition_from_proto struct_to_map admit_run
  start_run_rpc run_id hash workflow input =
      converted (workflow_definition_from_proto proto workflow) λ def.
        converted (struct_to_map proto input)
          λ values e. reply replied (admit_run worlds run_id hash def values e)

  -- `CancelRun`
  unfoldable pub cancel_run_rpc : (run_id : String) → Engine → Reply (Unit {0}) × Engine
  unfolding on_run cancel_run
  cancel_run_rpc run_id e = reply replied (on_run worlds run_id (cancel_run (worlds run_id)) e)

  -- `ApproveCheckpoint`
  unfoldable pub approve_checkpoint_rpc :
      (run_id node_id : String) → Engine → Reply (Unit {0}) × Engine
  unfolding on_run approve_checkpoint
  approve_checkpoint_rpc run_id node_id e =
      reply replied (on_run worlds run_id (approve_checkpoint (worlds run_id) node_id) e)

  -- `GetRun`
  unfoldable pub get_run_rpc : (run_id : String) → Engine → Reply ProtoRunView × Engine
  unfolding get_run run_view_to_proto
  get_run_rpc run_id e = reply (λ v. replied (run_view_to_proto proto v)) (get_run worlds run_id e)

  -- `RegisterWorker`
  unfoldable pub register_worker_rpc :
      Time
      → (worker_id : String) → (activity_types : List String) → Engine
      → Reply (Unit {0}) × Engine
  unfolding register_worker
  register_worker_rpc now worker activities e =
      reply replied (register_worker now worker activities e)

  -- `PollTask`, with the timeout 0.
  unfoldable pub poll_task_rpc :
      Time → (worker_id : String) → Engine → Reply (Option ProtoWorkerTask) × Engine
  unfolding poll_task task_answer
  poll_task_rpc now worker e = reply (task_answer proto) (poll_task worlds now worker e)

  -- `CompleteTask`
  unfoldable pub complete_task_rpc : ProtoCompleteTaskRequest → Engine → Reply (Unit {0}) × Engine
  unfolding complete_task_from_proto on_run complete_task
  complete_task_rpc req = converted (complete_task_from_proto proto req) λ mapped e.
      reply replied (on_run worlds mapped.run_id (complete_task (worlds mapped.run_id) mapped) e)

  -- `FailTask`
  unfoldable pub fail_task_rpc : ProtoFailTaskRequest → Engine → Reply (Unit {0}) × Engine
  unfolding fail_task_from_proto on_run fail_task
  fail_task_rpc req e =
      let mapped = fail_task_from_proto req in
      reply replied (on_run worlds mapped.run_id (fail_task (worlds mapped.run_id) mapped) e)

  -- `Heartbeat`
  unfoldable pub heartbeat_rpc : Time → (worker_id : String) → Engine → Reply (Unit {0}) × Engine
  unfolding heartbeat_worker
  heartbeat_rpc now worker e = reply replied (heartbeat_worker worlds now worker e)

  -- `ListEvents`
  unfoldable pub list_events_rpc : (run_id : String) → Engine → Reply (List ProtoEvent) × Engine
  unfolding list_events events_to_proto
  list_events_rpc run_id e =
      reply (λ events. internal (events_to_proto proto events)) (list_events worlds run_id e)
