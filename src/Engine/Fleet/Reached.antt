-- ===== src/Engine/Fleet/Reached.antt =====
-- internal/engine/engine.go: the runs of every engine, through any operations and restarts.
use grael.Prelude.{refl, sym, subst, inl, inr, String, List, [], ◌∷◌, Bool-cases, Option-cases}
use grael.Prelude.Int.{ℤ}
use grael.Prelude.Map.{Map, lookup}
use grael.Result.{Error, wal_failed, Result, ok, Result-cases}
use grael.Runtime.{Time, Values, ActivityType, WorkflowDefinition}
use grael.State.View.{view}
use grael.Worker.{register, touch}
use grael.Engine.{World, Session}
use grael.Engine.Start.{start_run}
use grael.Engine.Runs.{
  complete, fail, cancel, approve, heartbeat, expire, fire, read, resume, execute, started,
}
use grael.Engine.Runs.Named.{start_run-run_id}
use grael.Engine.Fleet.{
  Entry, Engine, at_capacity, left_behind, read_back, with_run, read_entry, register_worker,
  get_run, list_events, admit_run, heartbeat_worker, expire_overdue_leases, fire_all_timers,
  try_claim_task, poll_task, reload, reload_all, restart,
}
use grael.Engine.Fleet.Entries.{
  IsServed, AllServed, AllServed-lookup, AllServed-insert, execute-IsServed, read_back-IsServed,
  unread-IsServed,
}
use grael.Engine.Fleet.Served.{
  Served, opens, starts, registers, polls, beats, completes, fails, cancels, approves, gets, lists,
  expires, fires, restarts, fetch-served, on_run-AllServed, each-AllServed, claim_run-AllServed,
}

module _ (worlds : String → World) where
  pub heartbeat_worker-AllServed :
      (now : Time) (worker : String) (e : Engine)
      → AllServed worlds e.runs
      → AllServed worlds (heartbeat_worker worlds now worker e).1.runs
  unfolding heartbeat_worker execute
  heartbeat_worker-AllServed now worker e served =
      elim (Result-cases (touch now worker e.workers)) [
        | inr (x, refused) ↦ rw (heartbeat_worker, refused) served
        | inl (workers, known) ↦
            let kept = each-AllServed worlds e (heartbeat now worker) served in
            rw (heartbeat_worker, known) kept
      ]

  poll_task-AllServed :
      (now : Time) (worker : String) (e : Engine)
      → AllServed worlds e.runs
      → AllServed worlds (poll_task worlds now worker e).1.runs
  unfolding poll_task try_claim_task
  poll_task-AllServed now worker e served =
      let beat = heartbeat_worker-AllServed now worker e served in
      elim (Result-cases (heartbeat_worker worlds now worker e).0) [
        | inr (x, refused) ↦ rw (poll_task, refused) beat
        | inl (_, known) ↦ rw (poll_task, known) (claim_run-AllServed worlds worker _ _ beat)
      ]

  register_worker-AllServed :
      (now : Time) (worker : String) (activities : List ActivityType) (e : Engine)
      → AllServed worlds e.runs
      → AllServed worlds (register_worker now worker activities e).1.runs
  unfolding register_worker
  register_worker-AllServed now worker activities e served =
      elim (Result-cases (register now worker activities e.workers)) [
        | inr (x, refused) ↦ rw (register_worker, refused) served
        | inl (workers, done) ↦ rw (register_worker, done) served
      ]

  get_run-AllServed :
      (id : String) (e : Engine)
      → AllServed worlds e.runs
      → AllServed worlds (get_run worlds id e).1.runs
  unfolding get_run
  get_run-AllServed id e served =
      let after = λ (p : Result Session × Engine).
        AllServed worlds (with_run p (λ s e'. (ok (view s.st), e'))).1.runs in
      elim (fetch-served worlds e id served) [
        | inl (x, runs, kept, failed) ↦ subst after (sym failed) kept
        | inr (r, runs, kept, at, found) ↦ subst after (sym found) kept
      ]

  list_events-AllServed :
      (id : String) (e : Engine)
      → AllServed worlds e.runs
      → AllServed worlds (list_events worlds id e).1.runs
  unfolding list_events execute
  list_events-AllServed id e served = elim (Option-cases (lookup id e.runs)) [
    | inl absent ↦ rw (list_events, absent) served
    | inr (r, at) ↦
        rw (list_events, at)
          (AllServed-insert worlds id _ e.runs served
            (execute-IsServed worlds id r read (AllServed-lookup worlds id r e.runs served at)))
  ]

  -- A run comes back from its files and is then reconciled, or is skipped.
  reload-IsServed :
      (id : String) (r : Entry) → IsServed worlds id r → IsServed worlds id (reload worlds id r)
  unfolding reload execute
  reload-IsServed id r served = elim (Result-cases (read_entry worlds id r)) [
    | inr (x, failed) ↦ rw (reload, failed) (unread-IsServed worlds id r served)
    | inl (st, done) ↦
        rw (reload, done)
          (execute-IsServed worlds id (read_back st r) resume
            (read_back-IsServed worlds id r st done served))
  ]

  reload_all-AllServed :
      (runs : Map Entry) → AllServed worlds runs → AllServed worlds (reload_all worlds runs)
  unfolding reload_all
  reload_all-AllServed [] served = tt
  reload_all-AllServed ((id, r) ∷ runs) (first, rest) =
      (reload-IsServed id r first, reload_all-AllServed runs rest)

  left_behind-AllServed :
      (id : String) (x : Error) (e : Engine)
      → AllServed worlds e.runs
      → AllServed worlds (left_behind id x e).runs
  left_behind-AllServed id wal_failed e served =
      AllServed-insert worlds id _ e.runs served (λ sound. absurd (cc))
  left_behind-AllServed id _ e served = served

  admit_run-AllServed :
      (run_id : String) (hash : WorkflowDefinition → String) (def : WorkflowDefinition)
      (input : Values) (e : Engine)
      → AllServed worlds e.runs
      → AllServed worlds (admit_run worlds run_id hash def input e).1.runs
  unfolding admit_run
  admit_run-AllServed run_id hash def input e served = elim (Bool-cases (at_capacity e)) [
    | inl full ↦ rw (admit_run, full) served
    | inr room ↦ elim (Result-cases (start_run (worlds run_id) run_id hash def input)) [
      | inr (x, refused) ↦ rw (admit_run, room, refused) (left_behind-AllServed run_id x e served)
      | inl (s, begun) ↦
          rw (admit_run, room, begun)
            (AllServed-insert worlds run_id _ e.runs served (λ _. (
              started run_id hash def input begun,
              start_run-run_id (worlds run_id) run_id hash def input s begun,
            )))
    ]
  ]

  pub Served-AllServed : {max : ℤ} {e : Engine} → Served worlds max e → AllServed worlds e.runs
  unfolding execute expire_overdue_leases fire_all_timers restart
  Served-AllServed opens = tt
  Served-AllServed (starts {e} run_id hash def input before fresh) =
      admit_run-AllServed run_id hash def input e (Served-AllServed before)
  Served-AllServed (registers {e} now worker activities before) =
      register_worker-AllServed now worker activities e (Served-AllServed before)
  Served-AllServed (polls {e} now worker before) =
      poll_task-AllServed now worker e (Served-AllServed before)
  Served-AllServed (beats {e} now worker before) =
      heartbeat_worker-AllServed now worker e (Served-AllServed before)
  Served-AllServed (completes {e} req before) =
      on_run-AllServed worlds e req.run_id _ (complete req) (λ s. refl) (Served-AllServed before)
  Served-AllServed (fails {e} req before) =
      on_run-AllServed worlds e req.run_id _ (fail req) (λ s. refl) (Served-AllServed before)
  Served-AllServed (cancels {e} run_id before) =
      on_run-AllServed worlds e run_id _ cancel (λ s. refl) (Served-AllServed before)
  Served-AllServed (approves {e} run_id node_id before) =
      on_run-AllServed worlds e run_id _ (approve node_id) (λ s. refl) (Served-AllServed before)
  Served-AllServed (gets {e} run_id before) = get_run-AllServed run_id e (Served-AllServed before)
  Served-AllServed (lists {e} run_id before) =
      list_events-AllServed run_id e (Served-AllServed before)
  Served-AllServed (expires {e} now before) =
      each-AllServed worlds e (expire now) (Served-AllServed before)
  Served-AllServed (fires {e} now before) =
      each-AllServed worlds e (fire now) (Served-AllServed before)
  Served-AllServed (restarts {e} before) = reload_all-AllServed e.runs (Served-AllServed before)
