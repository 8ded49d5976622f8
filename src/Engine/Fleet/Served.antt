-- ===== src/Engine/Fleet/Served.antt =====
-- internal/engine/engine.go: the engines that a new one becomes by its operations, restarts included.
use grael.Prelude.{
  ◌≡◌, refl, sym, ap, ◌∙◌, subst, ◌⊎◌, inl, inr, String, eq_iff, false, some, none, Option, List,
  [], ◌∷◌, arith, Bool-cases, Option-cases,
}
use grael.Prelude.Int.{ℤ}
use grael.Prelude.Map.{Map, lookup, lookup-insert, insert, has}
use grael.Result.{Error, Result, ok, err, run_not_found, Result-cases}
use grael.Runtime.{
  Time, Values, ActivityType, WorkerTask, WorkflowDefinition, CompleteTaskRequest, FailTaskRequest,
}
use grael.Worker.{can_handle}
use grael.Engine.{World, Session, Op}
use grael.Engine.Claim.{claim_ready_task}
use grael.Engine.Control.{cancel_run, approve_checkpoint}
use grael.Engine.Tasks.{complete_task, fail_task}
use grael.Engine.Runs.{Command, claim, execute}
use grael.Engine.Fleet.{
  Entry, Engine, was_doubtful, put, read_back, unread, each_run, read_entry, fetch, with_run,
  claim_next, on_run, register_worker, get_run, list_events, admit_run, heartbeat_worker,
  expire_overdue_leases, fire_all_timers, claim_run, poll_task, restart,
}
use grael.Engine.Fleet.Entries.{
  AllServed, AllServed-lookup, AllServed-insert, AllServed-each, execute-IsServed,
  read_back-IsServed, unread-IsServed,
}

pub lookup-same :
    (id : String) (r : Entry) (runs : Map Entry) → lookup id (insert id r runs) ≡ some r
lookup-same id r runs = ground (arith, lookup-insert id id r runs, eq_iff id id)

module _ (worlds : String → World) where
  -- One operation after the other, from a process in an empty directory on. `StartRun` is one of them: its
  -- test of the capacity and the start are not parted.
  pub data Served (max : ℤ) : Engine → Type 0 where
    opens : Served max (record { runs = []; workers = []; max_active_runs = max })
    starts :
        {e : Engine} (run_id : String) (hash : WorkflowDefinition → String)
        (def : WorkflowDefinition) (input : Values)
        → Served max e
        → has e.runs run_id ≡ false
        → Served max (admit_run worlds run_id hash def input e).1
    registers :
        {e : Engine} (now : Time) (worker : String) (activities : List ActivityType)
        → Served max e
        → Served max (register_worker now worker activities e).1
    polls :
        {e : Engine} (now : Time) (worker : String)
        → Served max e
        → Served max (poll_task worlds now worker e).1
    beats :
        {e : Engine} (now : Time) (worker : String)
        → Served max e
        → Served max (heartbeat_worker worlds now worker e).1
    completes :
        {e : Engine} (req : CompleteTaskRequest)
        → Served max e
        → Served max (on_run worlds req.run_id (complete_task (worlds req.run_id) req) e).1
    fails :
        {e : Engine} (req : FailTaskRequest)
        → Served max e
        → Served max (on_run worlds req.run_id (fail_task (worlds req.run_id) req) e).1
    cancels :
        {e : Engine} (run_id : String)
        → Served max e
        → Served max (on_run worlds run_id (cancel_run (worlds run_id)) e).1
    approves :
        {e : Engine} (run_id node_id : String)
        → Served max e
        → Served max (on_run worlds run_id (approve_checkpoint (worlds run_id) node_id) e).1
    gets : {e : Engine} (run_id : String) → Served max e → Served max (get_run worlds run_id e).1
    lists :
        {e : Engine} (run_id : String) → Served max e → Served max (list_events worlds run_id e).1
    expires :
        {e : Engine} (now : Time) → Served max e → Served max (expire_overdue_leases worlds now e)
    fires : {e : Engine} (now : Time) → Served max e → Served max (fire_all_timers worlds now e)
    restarts : {e : Engine} → Served max e → Served max (restart worlds e)

  -- The run under an id after an operation on it.
  pub put-AllServed :
      (e : Engine) (id : String) (r : Entry) (c : Command)
      → AllServed worlds e.runs
      → lookup id e.runs ≡ some r
      → AllServed worlds (put id (execute (worlds id) c r.session) e).runs
  put-AllServed e id r c served at =
      let here = AllServed-lookup worlds id r e.runs served at in
      let before = lookup id e.runs in
      let same : was_doubtful before ≡ r.doubtful = ap was_doubtful at in
      AllServed-insert worlds id _ e.runs served
        (λ sound. execute-IsServed worlds id r c here (sym same ∙ sound))

  -- A run is answered by an error, or is in memory then. Other runs stay as they are.
  abbrev pub Fetched : String → Engine → Type 0
  Fetched id e =
      ((x : Error) × (runs : Map Entry) × AllServed worlds runs
        × (fetch worlds id e ≡ (err x, record e { runs = runs })))
      ⊎ (r : Entry) × (runs : Map Entry) × AllServed worlds runs
        × (lookup id runs ≡ some r)
        × (fetch worlds id e ≡ (ok r.session, record e { runs = runs }))

  pub fetch-served : (e : Engine) (id : String) → AllServed worlds e.runs → Fetched id e
  unfolding fetch
  fetch-served e id served = elim (Option-cases (lookup id e.runs)) [
    | inl absent ↦ inl (run_not_found, e.runs, served, rw (fetch, absent) refl)
    | inr (r, at) ↦
        let here = AllServed-lookup worlds id r e.runs served at in
        elim (Bool-cases r.loaded) [
          | inl loaded ↦ inr (r, e.runs, served, at, rw (fetch, at, loaded) refl)
          | inr away ↦ elim (Result-cases (read_entry worlds id r)) [
            | inl (st, done) ↦ inr (
              read_back st r,
              insert id (read_back st r) e.runs,
              AllServed-insert worlds id _ e.runs served
                  (read_back-IsServed worlds id r st done here),
              lookup-same id (read_back st r) e.runs,
              rw (fetch, at, away, done) refl,
            )
            | inr (x, failed) ↦ inl (
              x,
              insert id (unread r) e.runs,
              AllServed-insert worlds id _ e.runs served (unread-IsServed worlds id r here),
              rw (fetch, at, away, failed) refl,
            )
          ]
        ]
  ]

  pub on_run-AllServed :
      {A : Type 0} (e : Engine) (id : String) (op : Op A) (c : Command)
      → ((s : Session) → (op s).1 ≡ execute (worlds id) c s)
      → AllServed worlds e.runs
      → AllServed worlds (on_run worlds id op e).1.runs
  unfolding on_run execute
  on_run-AllServed e id op c same served =
      let after = λ (p : Result Session × Engine).
        AllServed worlds (with_run p (λ s e'. ((op s).0, put id (op s).1 e'))).1.runs in
      elim (fetch-served e id served) [
        | inl (x, runs, kept, failed) ↦ subst after (sym failed) kept
        | inr (r, runs, kept, at, found) ↦
            let e' = record e { runs = runs } in
            subst after (sym found) (
              subst (λ s. AllServed worlds (put id s e').runs) (sym (same r.session))
                (put-AllServed e' id r c kept at))
      ]

  pub each-AllServed :
      (e : Engine) (c : Command)
      → AllServed worlds e.runs
      → AllServed worlds (each_run (λ id s. execute (worlds id) c s) e.runs)
  each-AllServed e c served =
      AllServed-each worlds _ (λ id r here. execute-IsServed worlds id r c here) e.runs served

  claim_next-AllServed :
      (answer : Result (Option WorkerTask) × Session) (id : String) (e : Engine)
      (next : Engine → Result (Option WorkerTask) × Engine)
      → ((f : Engine) → AllServed worlds f.runs → AllServed worlds (next f).1.runs)
      → AllServed worlds (put id answer.1 e).runs
      → AllServed worlds (claim_next answer id e next).1.runs
  claim_next-AllServed (err x, s) id e next rest kept = kept
  claim_next-AllServed (ok (some task), s) id e next rest kept = kept
  claim_next-AllServed (ok none, s) id e next rest kept = rest (put id s e) kept

  pub claim_run-AllServed :
      (worker : String) (ids : List String) (e : Engine)
      → AllServed worlds e.runs
      → AllServed worlds (claim_run worlds worker ids e).1.runs
  unfolding claim_run execute
  claim_run-AllServed worker [] e served = served
  claim_run-AllServed worker (id ∷ ids) e served =
      let can = can_handle e.workers worker in
      let after = λ (p : Result Session × Engine).
        AllServed worlds
          (with_run p (λ s e'.
            claim_next (claim_ready_task (worlds id) can worker s) id e'
              (claim_run worlds worker ids))).1.runs in
      elim (fetch-served e id served) [
        | inl (x, runs, kept, failed) ↦ subst after (sym failed) kept
        | inr (r, runs, kept, at, found) ↦
            let e' = record e { runs = runs } in
            subst after (sym found) (
              claim_next-AllServed _ id e' _ (claim_run-AllServed worker ids)
                (put-AllServed e' id r (claim can worker) kept at))
      ]
