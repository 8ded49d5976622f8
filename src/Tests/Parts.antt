-- ===== src/Tests/Parts.antt =====
-- Runs of the workflow definitions, the loop of `markReadyNodes` and the checks of
-- spawned nodes on small inputs.
use grael.Prelude.{◌≡◌, refl, ◌↔◌, String, Bool, true, Option, some, inl, [], ◌∷◌, eq_iff, arith}
use grael.Prelude.Lists.{contains, sort}
use grael.Prelude.Int.{negsuc, is_negative, not_positive}
use grael.Prelude.Map.{Map, lookup, insert, keys, values, has}
use grael.Result.{ok}
use grael.State.{Node, node_of, is_terminal, dependencies_completed, mark_ready_loop}
use grael.State.Apply.{apply}
use grael.State.Ready.{promoted, mark_ready_loop_order}
use grael.Workflow.{normalize}
use grael.Workflow.Laws.{IsValid, normal_form, normalize-IsValid}
use grael.Engine.Queries.{all_nodes_completed, has_unrecovered_failure}
use grael.Engine.Spawn.{normalize_spawned}
use grael.Engine.Spawn.Accepted.{IsSpawnable, normalize_spawned-IsSpawnable}
use grael.Engine.Cycle.{has_cycle}
use grael.Engine.Cycle.Search.{Cycle}
use grael.Engine.Cycle.Verdict.{has_cycle-Cycle}
use grael.Engine.Leases.{has_lease}
use grael.Engine.Start.{start_run}
use grael.Engine.Runs.{execute}
use grael.Runtime.{WorkflowDefinition}
use grael.Wal.{Bytes}
use grael.Workflow.Load.{load_json, first_event, load_json-start_run}
use grael.Engine.{Session}
use grael.Tests.{world, hash, flow, task, node_a, one_done}

normalize-IsValid_example : (normalize flow ≡ ok flow) ↔ (IsValid flow × (flow ≡ normal_form flow))
normalize-IsValid_example = normalize-IsValid flow flow

abbrev two_nodes : Map Node
two_nodes = ("a", node_a) ∷ ("b", node_of (task "b" ("a" ∷ []))) ∷ []

two_keys : (k : String) → contains ("b" ∷ "a" ∷ []) k ≡ has two_nodes k
unfolding contains has lookup
two_keys k = ground (arith, eq_iff "a" k, eq_iff "b" k)

mark_ready_loop_order_example :
    lookup "b" (mark_ready_loop ("b" ∷ "a" ∷ []) two_nodes)
    ≡ promoted two_nodes (lookup "b" two_nodes)
mark_ready_loop_order_example = mark_ready_loop_order ("b" ∷ "a" ∷ []) two_nodes "b" two_keys

spawned_c :
    normalize_spawned one_done.st "a" (task "c" ("b" ∷ []) ∷ []) ≡ ok (task "c" ("b" ∷ []) ∷ [])
unfolding start_run execute apply lookup is_terminal sort keys mark_ready_loop insert node_of
    dependencies_completed not_positive normalize_spawned all_nodes_completed values
    has_unrecovered_failure has_lease contains has is_negative
spawned_c = refl

normalize_spawned-IsSpawnable_example : IsSpawnable one_done.st (task "c" ("b" ∷ []) ∷ [])
normalize_spawned-IsSpawnable_example =
    normalize_spawned-IsSpawnable one_done.st "a" (task "c" ("b" ∷ []) ∷ [])
      (task "c" ("b" ∷ []) ∷ []) spawned_c

has_cycle-Cycle_example :
    (b : Bool) × (has_cycle (("a", "b" ∷ []) ∷ ("b", "a" ∷ []) ∷ []) ≡ some b)
    × ((b ≡ true) ↔ Cycle (("a", "b" ∷ []) ∷ ("b", "a" ∷ []) ∷ []))
has_cycle-Cycle_example = has_cycle-Cycle (("a", "b" ∷ []) ∷ ("b", "a" ∷ []) ∷ [])

-- A file that is decoded to a definition with a negative deadline, which `LoadJSON` sets to 0.
abbrev negative_flow : (content : Bytes) → Option WorkflowDefinition
negative_flow content =
    some (record flow { nodes = record (task "a" []) { execution_deadline = negsuc 4 } ∷ [] })

loaded_flow :
    load_json (some []) negative_flow ≡ ok (record { name = "flow"; nodes = task "a" [] ∷ [] })
unfolding load_json is_negative
loaded_flow = refl

load_json-start_run_example :
    (s : Session) × (start_run world "run-1" hash
        (record { name = "flow"; nodes = task "a" [] ∷ [] })
        []
      ≡ ok s)
    × (s.log
        ≡ first_event world "run-1" hash [] (record { name = "flow"; nodes = task "a" [] ∷ [] })
          ∷ [])
load_json-start_run_example =
    load_json-start_run world "run-1" hash [] (some []) negative_flow "linear-noop"
      (record { name = "flow"; nodes = task "a" [] ∷ [] }) (inl loaded_flow) refl
