-- ===== src/Engine/Runs/Named.antt =====
-- internal/engine/engine.go: the id of a run.
use grael.Prelude.{◌≡◌, refl, sym, ◌∙◌, subst, String}
use grael.Runtime.{Payload, Event}
use grael.State.{ExecutionState, new}
use grael.State.Flags.{run_id_after, run_id-apply}
use grael.Engine.{World, Session}
use grael.Engine.Legal.{Legal, complete_run}
use grael.Engine.Steps.{Steps, Steps-keep}
use grael.Engine.Runs.{Command, execute, execute-Steps, Reach}
use grael.Engine.Runs.Reached.{IsStart, begun, start_run-Steps, Reach-IsWellFormed}
use grael.Engine.Start.{start_run}
use grael.Runtime.{Values, WorkflowDefinition}
use grael.Result.{ok}

Legal-run_id :
    (s : ExecutionState) {p : Payload} (given : String)
    → Legal s p
    → run_id_after p given s.run_id ≡ s.run_id
Legal-run_id s given (complete_run live all) = refl
Legal-run_id s given _ = refl

Steps-run_id : (id : String) {s t : Session} → Steps s t → s.st.run_id ≡ id → t.st.run_id ≡ id
Steps-run_id id =
    Steps-keep (λ st _. st.run_id ≡ id)
      (λ e st _ legal named. run_id-apply e st ∙ Legal-run_id st e.run_id legal ∙ named)

-- A run keeps its id, and starts with the one that it is given.
pub execute-run_id :
    (world : World) {s : Session} (c : Command)
    → Reach world s
    → (execute world c s).st.run_id ≡ s.st.run_id
execute-run_id world {s} c reach =
    Steps-run_id s.st.run_id (execute-Steps world c s (Reach-IsWellFormed world reach)) refl

begun-run_id : (e : Event) → IsStart e → (begun e).st.run_id ≡ e.run_id
begun-run_id e start =
    run_id-apply e new
    ∙ subst (λ p. run_id_after p e.run_id new.run_id ≡ e.run_id) (sym start.payload_is) refl

pub start_run-run_id :
    (world : World) (run_id : String) (hash : WorkflowDefinition → String)
    (def : WorkflowDefinition) (input : Values) (s : Session)
    → start_run world run_id hash def input ≡ ok s
    → s.st.run_id ≡ run_id
start_run-run_id world run_id hash def input s h =
    let (e, same, start, steps) = start_run-Steps world run_id hash def input s h in
    Steps-run_id run_id steps (begun-run_id e start ∙ same)
