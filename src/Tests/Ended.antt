-- ===== src/Tests/Ended.antt =====
-- A run that is cancelled while a compensation task is active, which then fails.
use grael.Prelude.{◌≡◌, refl, String, Bool, true, false}
use grael.Prelude.Lists.{sort, contains}
use grael.Prelude.Int.{is_negative, not_positive}
use grael.Prelude.Map.{lookup, insert, keys, values, has}
use grael.Runtime.{RunState, FailTaskRequest}
use grael.State.{is_terminal, node_of, dependencies_completed, mark_ready_loop, on_stack}
use grael.State.Apply.{apply}
use grael.Engine.{Session}
use grael.Engine.Queries.{
  all_nodes_completed, has_unrecovered_failure, has_compensation_work, all_nodes_terminal,
  is_terminal_node,
}
use grael.Engine.Spawn.{normalize_spawned}
use grael.Engine.Start.{start_run}
use grael.Engine.Leases.{has_lease}
use grael.Engine.Runs.{claim, fail, cancel, execute, Reach, then_}
use grael.Engine.Runs.Ended.{Stays, execute-Stays}
use grael.Tests.{world, any_task, one_done, Reach-one_done}

abbrev failure_of_task : (id : String) (compensation : Bool) → FailTaskRequest
failure_of_task id compensation = record {
  worker_id = "w";
  run_id = "run-1";
  node_id = id;
  attempt = 1;
  compensation = compensation;
  message = "no";
  cancelled = false;
  retryable = false;
}

-- The second node fails, the first is being compensated, and the run is cancelled.
abbrev b_failed : Session
b_failed =
    execute world (fail (failure_of_task "b" false)) (execute world (claim any_task "w") one_done)

abbrev cancelled_run : Session
cancelled_run = execute world cancel (execute world (claim any_task "w") b_failed)

Reach-cancelled_run : Reach world cancelled_run
Reach-cancelled_run = then_ cancel (
    then_ (claim any_task "w")
      (then_ (fail (failure_of_task "b" false)) (then_ (claim any_task "w") Reach-one_done)))

cancelled_run_states :
    (b_failed.st.run_state ≡ RunState.compensating)
    × (cancelled_run.st.run_state ≡ RunState.cancelled)
    × ((execute world (fail (failure_of_task "a" true)) cancelled_run).st.run_state
        ≡ RunState.failed)
unfolding start_run execute apply lookup is_terminal sort keys mark_ready_loop insert node_of
    dependencies_completed not_positive normalize_spawned all_nodes_completed values
    has_unrecovered_failure has_compensation_work all_nodes_terminal is_terminal_node on_stack
    has_lease contains has is_negative
cancelled_run_states = (refl, refl, refl)

execute-Stays_example :
    Stays cancelled_run.st.run_state
      (execute world (fail (failure_of_task "a" true)) cancelled_run).st.run_state
unfolding start_run execute apply lookup is_terminal sort keys mark_ready_loop insert node_of
    dependencies_completed not_positive normalize_spawned all_nodes_completed values
    has_unrecovered_failure has_compensation_work all_nodes_terminal is_terminal_node on_stack
    has_lease contains has is_negative
execute-Stays_example =
    execute-Stays world (fail (failure_of_task "a" true)) Reach-cancelled_run refl
