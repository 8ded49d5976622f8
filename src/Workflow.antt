-- ===== src/Workflow.antt =====
-- internal/workflowdef/loader.go: `Normalize` and `NormalizeNode`. The children hold their laws, and
-- the two sources of definitions.
pub mod Loops
pub mod Laws
pub mod Load
use grael.Prelude.{
  String, Bool, true, false, Option, none, some, List, [], ◌∷◌, ◌++◌, ◌==◌, if◌then◌else◌,
}
use grael.Prelude.Lists.{contains}
use grael.Prelude.Int.{ℤ, pos, is_negative}
use grael.Result.{
  Result, ok, err, and_then, name_required, no_nodes, id_required, activity_required,
  duplicate_node, self_dependency, unknown_dependency,
}
use grael.Runtime.{RetryPolicy, NodeDefinition, WorkflowDefinition}

-- `normalizeExecutionDeadline`; `normalizeRetryPolicy` does the same to its two fields.
unfoldable pub normalize_deadline : ℤ → ℤ
normalize_deadline d = if is_negative d then pos 0 else d

unfoldable pub normalize_retry_policy : Option RetryPolicy → Option RetryPolicy
unfolding normalize_deadline
normalize_retry_policy none = none
normalize_retry_policy (some p) = some (record {
  max_attempts = if is_negative p.max_attempts then pos 0 else p.max_attempts;
  backoff = if is_negative p.backoff then pos 0 else p.backoff;
})

-- The value that `NormalizeNode` returns where it returns no error.
unfoldable pub normalized : NodeDefinition → NodeDefinition
unfolding normalize_deadline normalize_retry_policy
normalized node = record {
  id = node.id;
  activity_type = node.activity_type;
  input = node.input;
  depends_on = node.depends_on;
  retry_policy = normalize_retry_policy node.retry_policy;
  compensation_activity = node.compensation_activity;
  checkpoint_timeout = normalize_deadline node.checkpoint_timeout;
  execution_deadline = normalize_deadline node.execution_deadline;
  absolute_deadline = normalize_deadline node.absolute_deadline;
}

-- `NormalizeNode`
unfoldable pub normalize_node : NodeDefinition → Result NodeDefinition
unfolding normalized
normalize_node node =
    if node.id == ""
    then err id_required
    else if node.activity_type == ""
    then err (activity_required node.id)
    else ok (normalized node)

-- The first loop of `Normalize`: `seen` are the ids of the nodes before.
unfoldable pub normalize_nodes :
    (seen : List String) → List NodeDefinition → Result (List NodeDefinition)
unfolding normalize_node contains
normalize_nodes seen [] = ok []
normalize_nodes seen (node ∷ nodes) =
    let rest = normalize_nodes (node.id ∷ seen) nodes in
    if contains seen node.id
    then err (duplicate_node node.id)
    else and_then (normalize_node node) (λ n. and_then rest (λ ns. ok (n ∷ ns)))

-- The inner loop over the dependencies of a node.
unfoldable pub check_dependencies :
    (seen : List String) (id : String) → List String → Result (Unit {0})
unfolding contains
check_dependencies seen id [] = ok tt
check_dependencies seen id (dep ∷ deps) =
    let rest = check_dependencies seen id deps in
    if dep == id
    then err (self_dependency id)
    else if contains seen dep
    then rest
    else err (unknown_dependency id dep)

unfoldable pub check_nodes : (seen : List String) → List NodeDefinition → Result (Unit {0})
unfolding check_dependencies
check_nodes seen [] = ok tt
check_nodes seen (node ∷ nodes) =
    and_then (check_dependencies seen node.id node.depends_on) (λ _. check_nodes seen nodes)

unfoldable pub ids : List NodeDefinition → List String
ids [] = []
ids (node ∷ nodes) = node.id ∷ ids nodes

-- `Normalize`
unfoldable pub normalize : WorkflowDefinition → Result WorkflowDefinition
unfolding normalize_nodes check_nodes ids
normalize def = if def.name == "" then err name_required else elim def.nodes [
  | [] ↦ err no_nodes
  | node ∷ nodes ↦ and_then (normalize_nodes [] (node ∷ nodes)) (λ ns.
      and_then (check_nodes (ids (node ∷ nodes)) ns)
        (λ _. ok (record { name = def.name; nodes = ns })))
]
