-- ===== src/Engine/Start.antt =====
-- internal/engine/engine.go: `StartRun`, at the run that it makes.
use grael.Prelude.{String, false, none, []}
use grael.Result.{Result, ok, err}
use grael.Runtime.{Values, WorkflowDefinition, workflow_started}
use grael.State.{new}
use grael.Workflow.{normalize}
use grael.Engine.{World, Session, emit, save}

-- A run before its first event: `state.New()` and no file.
abbrev pub blank : Session
blank = record { st = new; log = []; damaged = false; snapshot = none; torn = false; calls = 0 }

module _ (world : World) where
  -- The first event carries the definition as it was given; only its hash is of the normal form.
  unfoldable pub start_event :
      String → WorkflowDefinition → String → Values → Result (Unit {0}) × Session
  unfolding emit
  start_event run_id def hash input =
      emit world run_id (world.time 0) (workflow_started def hash input) blank

  -- `StartRun`
  unfoldable pub start_run :
      (run_id : String)
      → (hash : WorkflowDefinition → String) → WorkflowDefinition
      → Values
      → Result Session
  unfolding start_event save normalize
  start_run run_id hash def input = elim (normalize def) [
    | err e ↦ err e
    | ok normal ↦
        let (r, s) = start_event run_id def (hash normal) input in
        elim r [ err e ↦ err e | ok _ ↦ ok (save world s).1 ]
  ]
