-- ===== src/Sdk/Worker/Laws.antt =====
-- sdk/worker.go: the reports of a worker against the leases of the engine.
use grael.Prelude.{◌≡◌, true}
use grael.Engine.Fleet.{Engine}
use grael.Engine.Fleet.Served.{Served}
use grael.Server.Fenced.{gave_lease}
use grael.Sdk.Worker.{Report, completion, failure, no_report}

-- The report, if there is one, goes to a run of the engine that has given the lease which it names.
abbrev pub NamesLease : Engine → Report → Type 0
NamesLease e (completion req) =
    gave_lease e req.run_id req.compensation req.node_id req.worker_id req.attempt ≡ true
NamesLease e (failure req) =
    gave_lease e req.run_id req.compensation req.node_id req.worker_id req.attempt ≡ true
NamesLease e no_report = Unit
