-- ===== src/Tests.antt =====
-- Runs of the model on small inputs: a flow of two nodes that one worker works off, and one that
-- fails and is compensated.
pub mod ShortFormat
pub mod Log
pub mod Sdk
pub mod Fleet
pub mod Demo
pub mod Snapshot
pub mod Server
pub mod Parts
pub mod Ended
use grael.Prelude.{
  ◌+◌, ◌≡◌, refl, ◌↔◌, String, Bool, true, false, none, some, List, [], ◌∷◌, inl, ◌==◌, eq_iff,
  arith, if◌then◌else◌,
}
use grael.Prelude.Lists.{length, contains, sort, All, Distinct}
use grael.Prelude.Int.{pos, is_negative, not_positive}
use grael.Prelude.Map.{Map, lookup, insert, keys, values, has}
use grael.Result.{ok, err, open_failed}
use grael.Runtime.{
  NodeState, RunState, NodeDefinition, WorkflowDefinition, CompleteTaskRequest, FailTaskRequest,
  WorkerTask, lease_granted,
}
use grael.State.{Node, node_of, is_terminal, dependencies_completed, mark_ready_loop}
use grael.State.Apply.{apply, apply_payload, rehydrate}
use grael.State.Moves.{IsKept}
use grael.State.Ready.{promoted, mark_ready_loop_order}
use grael.Workflow.{normalize, normalized}
use grael.Workflow.Laws.{IsValid, normal_form, normalize-IsValid, normalized_idem}
use grael.Worker.{Registry, register, touch, can_handle, last_seen}
use grael.Worker.Laws.{can_handle-register, can_handle-touch}
use grael.Engine.{kept, whole, World, Session}
use grael.Engine.Queries.{all_nodes_completed, has_unrecovered_failure}
use grael.Engine.Spawn.{normalize_spawned, graph_of}
use grael.Engine.Runs.Progress.{is_between, Reach-blocker}
use grael.Engine.Spawn.Accepted.{IsSpawnable, normalize_spawned-IsSpawnable}
use grael.Engine.Cycle.{has_cycle}
use grael.Engine.Cycle.Search.{Cycle}
use grael.Engine.Cycle.Verdict.{has_cycle-Cycle}
use grael.Engine.Tasks.{complete_task, fail_task}
use grael.Engine.Claim.{claim_ready_task}
use grael.Engine.Leases.Claim.{IsLeased}
use grael.Engine.Leases.HandOut.{claim_ready_task-lease}
use grael.Engine.Runs.Outcome.{Reach-completed}
use grael.Engine.Leases.{has_lease, Refused, complete_task-fenced, fail_task-fenced}
use grael.Engine.Legal.{Legal, grant}
use grael.Engine.Legal.Nodes.{Evolves, Legal-Evolves}
use grael.Engine.Legal.WellFormed.{IsWellFormed, apply-legal}
use grael.Engine.Steps.{Steps}
use grael.Engine.Start.{blank, start_run}
use grael.Engine.Load.{load_state, saved_file, loaded_of, list_log, rehydrate_run, replay_after}
use grael.Engine.Runs.{complete, claim, cancel, execute, execute-Steps, Reach, started, then_}
use grael.Engine.Runs.Reached.{Reach-IsWellFormed}
use grael.Engine.Runs.Durable.{NumberedFrom, Reach-rehydrate, Reach-load_state, load_state-same}
use grael.Engine.Runs.Trace.{IsTrace, Reach-IsTrace}
use grael.Engine.Runs.Nodes.{was_ready, Reach-dependencies, execute-final}
use grael.Engine.Runs.Stack.Pushed.{stack_ids}
use grael.Engine.Runs.Stack.{AllDone, Reach-stack}

abbrev world : World
world = record {
  time = λ n. 100 + n;
  wal_ok = λ _. true;
  wal_clean = λ _. true;
  number = λ _. 1;
  list_ok = λ _. true;
  damaged_list = λ _. err open_failed;
  save_ok = λ _. true;
  save_left = λ _. kept;
  snapshot_read = λ _. whole;
  error_text = λ _. "error";
  decimal = λ _. "1";
}

abbrev task : String → List String → NodeDefinition
task id deps = record {
  id = id;
  activity_type = "work";
  input = [];
  depends_on = deps;
  retry_policy = none;
  compensation_activity = "undo";
  checkpoint_timeout = pos 0;
  execution_deadline = pos 0;
  absolute_deadline = pos 0;
}

abbrev flow : WorkflowDefinition
flow = record { name = "flow"; nodes = task "a" [] ∷ task "b" ("a" ∷ []) ∷ [] }

abbrev done : String → CompleteTaskRequest
done id = record {
  worker_id = "w";
  run_id = "run-1";
  node_id = id;
  attempt = 1;
  compensation = false;
  output = ("k", "1") ∷ [];
  spawned_nodes = [];
  checkpoint = none;
}

abbrev any_task : String → Bool
any_task _ = true

abbrev hash : WorkflowDefinition → String
hash _ = "hash"

-- The run of the flow, as it starts.
abbrev start_flow : Session
unfolding start_run
start_flow = elim (start_run world "run-1" hash flow []) [ ok s ↦ s | err _ ↦ blank ]

Reach-start_flow : Reach world start_flow
unfolding start_run apply
Reach-start_flow = started "run-1" hash flow [] refl

-- Its first node is claimed and completed.
abbrev claimed : Session
claimed = execute world (claim any_task "w") start_flow

Reach-claimed : Reach world claimed
Reach-claimed = then_ (claim any_task "w") Reach-start_flow

abbrev one_done : Session
one_done = execute world (complete (done "a")) claimed

Reach-one_done : Reach world one_done
Reach-one_done = then_ (complete (done "a")) Reach-claimed

abbrev node_a : Node
node_a = record (node_of (task "a" [])) {
  state = NodeState.completed;
  attempt = 1;
  worker_id = "w";
  output = ("k", "1") ∷ [];
}

abbrev node_b : Node
node_b = record (node_of (task "b" ("a" ∷ []))) { state = NodeState.ready }

-- The log then holds four events, and the second node is ready.
one_done_log : (length one_done.log ≡ 4) × (one_done.snapshot ≡ some one_done.st)
unfolding start_run execute apply lookup is_terminal sort keys mark_ready_loop insert node_of
    dependencies_completed not_positive normalize_spawned all_nodes_completed values
    has_unrecovered_failure has_lease contains has is_negative
one_done_log = (refl, refl)

one_done_a : lookup "a" one_done.st.nodes ≡ some node_a
unfolding start_run execute apply lookup is_terminal sort keys mark_ready_loop insert node_of
    dependencies_completed not_positive normalize_spawned all_nodes_completed values
    has_unrecovered_failure has_lease contains has is_negative
one_done_a = refl

one_done-intact : one_done.damaged ≡ false
unfolding start_run execute apply lookup is_terminal sort keys mark_ready_loop insert node_of
    dependencies_completed not_positive normalize_spawned all_nodes_completed values
    has_unrecovered_failure has_lease contains has is_negative
one_done-intact = refl

one_done_b : lookup "b" one_done.st.nodes ≡ some node_b
unfolding start_run execute apply lookup is_terminal sort keys mark_ready_loop insert node_of
    dependencies_completed not_positive normalize_spawned all_nodes_completed values
    has_unrecovered_failure has_lease contains has is_negative
one_done_b = refl

stranger : has_lease claimed.st false "a" "v" 1 ≡ false
unfolding start_run execute apply lookup is_terminal sort keys mark_ready_loop insert node_of
    dependencies_completed not_positive normalize_spawned all_nodes_completed values
    has_unrecovered_failure has_lease contains has is_negative
stranger = refl

execute-Steps_example : Steps claimed one_done
execute-Steps_example =
    execute-Steps world (complete (done "a")) claimed (Reach-IsWellFormed world Reach-claimed)

Reach-load_state_example :
    load_state none (saved_file one_done.snapshot) (list_log world one_done) ≡ ok one_done.st
Reach-load_state_example =
    Reach-load_state world (saved_file one_done.snapshot) Reach-one_done one_done-intact refl
      (inl refl)

load_state-same_example : one_done.st ≡ one_done.st
unfolding start_run execute apply lookup is_terminal sort keys mark_ready_loop insert node_of
    dependencies_completed not_positive normalize_spawned all_nodes_completed values
    has_unrecovered_failure has_lease contains has is_negative load_state loaded_of list_log
    rehydrate_run replay_after
load_state-same_example = load_state-same world one_done.st Reach-one_done one_done-intact refl

Reach-rehydrate_example :
    NumberedFrom 1 one_done.log
    × (one_done.st.last_seq ≡ length one_done.log)
    × (rehydrate one_done.log ≡ ok one_done.st)
Reach-rehydrate_example = Reach-rehydrate world Reach-one_done one_done-intact

Reach-IsWellFormed_example : IsWellFormed one_done.st
Reach-IsWellFormed_example = Reach-IsWellFormed world Reach-one_done

Reach-IsTrace_example : IsTrace one_done.st one_done.log
Reach-IsTrace_example = Reach-IsTrace world Reach-one_done

Reach-dependencies_example :
    (node_b.id ≡ "b")
    × (was_ready node_b.state ≡ true
        → dependencies_completed one_done.st.nodes node_b.depends_on ≡ true)
Reach-dependencies_example = Reach-dependencies world "b" node_b Reach-one_done one_done_b

execute-final_example :
    (n : Node) × (lookup "a" (execute world cancel one_done).st.nodes ≡ some n) × IsKept node_a n
execute-final_example = execute-final world cancel "a" node_a Reach-one_done one_done_a refl

Reach-stack_example :
    Distinct (stack_ids one_done.st.compensation_stack)
    × AllDone one_done.st.nodes (stack_ids one_done.st.compensation_stack)
Reach-stack_example = Reach-stack world Reach-one_done

complete_task-fenced_example :
    Refused (complete_task world (record (done "a") { worker_id = "v" }) claimed) claimed
complete_task-fenced_example =
    complete_task-fenced world (record (done "a") { worker_id = "v" }) claimed stranger

abbrev failure : FailTaskRequest
failure = record {
  worker_id = "v";
  run_id = "run-1";
  node_id = "a";
  attempt = 1;
  compensation = false;
  message = "late";
  cancelled = false;
  retryable = true;
}

fail_task-fenced_example : Refused (fail_task world failure claimed) claimed
fail_task-fenced_example = fail_task-fenced world failure claimed stranger

grant_b : Legal one_done.st (lease_granted "b" "w" 1 "work")
unfolding start_run execute apply lookup is_terminal sort keys mark_ready_loop insert node_of
    dependencies_completed not_positive normalize_spawned all_nodes_completed values
    has_unrecovered_failure has_lease contains has is_negative
grant_b = grant node_b one_done_b refl refl (record { run = refl; kept = refl })

apply-legal_example :
    (apply_payload "run-1" 7 (lease_granted "b" "w" 1 "work") one_done.st).0 ≡ ok tt
apply-legal_example =
    apply-legal one_done.st "run-1" 7 (Reach-IsWellFormed world Reach-one_done) grant_b

Legal-Evolves_example :
    Evolves one_done.st.nodes
      (apply_payload "run-1" 7 (lease_granted "b" "w" 1 "work") one_done.st).1.nodes
Legal-Evolves_example = Legal-Evolves one_done.st "run-1" 7 grant_b

-- The second node is claimed and completed as well, which completes the run.
abbrev both_done : Session
both_done = execute world (complete (done "b")) (execute world (claim any_task "w") one_done)

abbrev node_b_done : Node
node_b_done = record (node_of (task "b" ("a" ∷ []))) {
  state = NodeState.completed;
  attempt = 1;
  worker_id = "w";
  output = ("k", "1") ∷ [];
}

both_done_b :
    (both_done.st.run_state ≡ RunState.completed)
    × (lookup "b" both_done.st.nodes ≡ some node_b_done)
unfolding start_run execute apply lookup is_terminal sort keys mark_ready_loop insert node_of
    dependencies_completed not_positive normalize_spawned all_nodes_completed values
    has_unrecovered_failure has_lease contains has is_negative claim_ready_task
both_done_b = (refl, refl)

Reach-completed_example : node_b_done.state ≡ NodeState.completed
Reach-completed_example =
    Reach-completed world "b" node_b_done
      (then_ (complete (done "b")) (then_ (claim any_task "w") Reach-one_done)) both_done_b.0
      both_done_b.1

abbrev task_a : WorkerTask
task_a = record {
  run_id = "run-1";
  node_id = "a";
  activity_type = "work";
  attempt = 1;
  compensation = false;
  workflow = "flow";
  workflow_input = [];
  node_input = [];
}

handed_out : (claim_ready_task world any_task "w" start_flow).0 ≡ ok (some task_a)
unfolding start_run execute apply lookup is_terminal sort keys mark_ready_loop insert node_of
    dependencies_completed not_positive normalize_spawned all_nodes_completed values
    has_unrecovered_failure has_lease contains has is_negative claim_ready_task
handed_out = refl

claim_ready_task-lease_example :
    IsLeased any_task "w" task_a (claim_ready_task world any_task "w" start_flow).1
claim_ready_task-lease_example =
    claim_ready_task-lease world any_task "w" start_flow task_a
      (Reach-IsWellFormed world Reach-start_flow) handed_out

abbrev waiting_b : Node
waiting_b = node_of (task "b" ("a" ∷ []))

claimed_b : lookup "b" claimed.st.nodes ≡ some waiting_b
unfolding start_run execute claim_ready_task lookup is_terminal apply sort keys mark_ready_loop
    insert node_of dependencies_completed not_positive
claimed_b = refl

claimed_no_cycle : has_cycle (graph_of claimed.st.nodes) ≡ some false
unfolding start_run execute claim_ready_task has_cycle graph_of is_terminal apply sort
    mark_ready_loop insert lookup node_of dependencies_completed not_positive has
claimed_no_cycle = refl

Reach-blocker_example :
    (j : String) × (m : Node) × (lookup j claimed.st.nodes ≡ some m) × (is_between m.state ≡ true)
unfolding node_of
Reach-blocker_example =
    Reach-blocker world "b" waiting_b Reach-claimed claimed_no_cycle claimed_b refl
