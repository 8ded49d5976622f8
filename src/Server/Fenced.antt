-- ===== src/Server/Fenced.antt =====
-- internal/grpcserver/server.go: how the server answers a report on a task that the worker has no lease for.
use grael.Prelude.{ℕ, ◌≡◌, ◌⊎◌, String, Bool, true, false, none, some}
use grael.Prelude.Map.{lookup}
use grael.Result.{Result}
use grael.Runtime.{CompleteTaskRequest}
use grael.Engine.Leases.{has_lease}
use grael.Engine.Fleet.{Entry, Engine}
use grael.Server.Status.{Status, Code}
use grael.Server.Handlers.{Reply, failed}

-- Whether the engine has given the lease: to the worker, with the attempt, in the run.
unfoldable pub gave_lease :
    Engine
    → (run_id : String) (compensation : Bool) (node_id worker_id : String) (attempt : ℕ) → Bool
unfolding has_lease
gave_lease e run_id compensation node_id worker_id attempt = elim (lookup run_id e.runs) [
  | none ↦ false
  | some r ↦ has_lease r.session.st compensation node_id worker_id attempt
]

-- The codes that tell a worker that its task is gone.
abbrev pub IsGone : Code → Type 0
IsGone code = (code ≡ Code.not_found) ⊎ (code ≡ Code.failed_precondition)

-- The run is in memory, or there is none, so that no file has to be read.
abbrev pub IsInMemory : String → Engine → Type 0
IsInMemory run_id e =
    (lookup run_id e.runs ≡ none)
    ⊎ (r : Entry) × (lookup run_id e.runs ≡ some r) × (r.loaded ≡ true)

-- No run has changed: its state, its log, its snapshot.
abbrev pub SameRuns : Engine → Engine → Type 0
SameRuns e e' = (id : String) → lookup id e'.runs ≡ lookup id e.runs

-- The call is answered by a status with such a code, and no run has changed.
abbrev pub IsFenced : {A : Type 0} → Reply A × Engine → (Code → Type 0) → Engine → Type 0
IsFenced r P e = ((status : Status) × (r.0 ≡ failed status) × P status.code) × SameRuns e r.1

-- The lease that a request names.
abbrev Named : Type 0
Named = String × Bool × String × String × ℕ

abbrev gave_lease-of : Engine → Named → Bool
gave_lease-of e (run_id, compensation, node_id, worker_id, attempt) =
    gave_lease e run_id compensation node_id worker_id attempt

abbrev named_by : CompleteTaskRequest → Named
named_by m = (m.run_id, m.compensation, m.node_id, m.worker_id, m.attempt)
