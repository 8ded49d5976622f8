-- ===== src/Engine/Fleet/Poll.antt =====
-- internal/engine/engine.go: what `PollTask` hands out.
use grael.Prelude.{◌≡◌, ◌⊎◌, String, true, some, Option}
use grael.Prelude.Map.{lookup}
use grael.Result.{Result, ok}
use grael.Runtime.{WorkerTask}
use grael.Worker.{can_handle}
use grael.Engine.{World}
use grael.Engine.Leases.Claim.{IsLeased}
use grael.Engine.Fleet.{Entry, Engine}
use grael.Engine.Fleet.Served.{Served}

-- The run that the task names has leased it to the worker, who is registered for its activity; or the
-- run from whose state the task has the name of its run is doubtful.
abbrev pub HasLease : String → WorkerTask → Engine → Type 0
HasLease worker t e =
    ((r : Entry) × (lookup t.run_id e.runs ≡ some r)
      × IsLeased (can_handle e.workers worker) worker t r.session)
    ⊎ (id : String) × (r : Entry) × (lookup id e.runs ≡ some r)
      × (t.run_id ≡ r.session.st.run_id)
      × (r.doubtful ≡ true)

module _ (worlds : String → World) (worker : String) (t : WorkerTask) where
  -- What a part of the loop answers.
  abbrev Answers : Result (Option WorkerTask) × Engine → Type 0
  Answers p = p.0 ≡ ok (some t) → HasLease worker t p.1
