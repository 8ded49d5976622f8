-- ===== src/Engine/Spawn.antt =====
-- internal/engine/engine.go: `normalizeSpawnedNodes`, the check of the nodes that a task adds.
pub mod Fresh
pub mod Accepted
use grael.Prelude.{
  String, Bool, true, false, ◌||◌, Option, none, some, List, [], ◌∷◌, ◌==◌, if◌then◌else◌,
}
use grael.Prelude.Lists.{contains}
use grael.Prelude.Map.{Map, insert, has}
use grael.Result.{
  Result, ok, err, and_then, id_required, activity_required, duplicate_node, already_exists,
  self_dependency, unknown_dependency, would_cycle,
}
use grael.Runtime.{NodeDefinition}
use grael.Workflow.{normalize_node}
use grael.State.{Node, ExecutionState}
use grael.Engine.Cycle.{Graph, has_cycle}

-- The first loop: `spawned` are the ids of the candidates before.
unfoldable pub collect_spawned :
    Map Node → (spawned : List String) → List NodeDefinition → Result (List NodeDefinition)
unfolding contains has
collect_spawned nodes spawned [] = ok []
collect_spawned nodes spawned (candidate ∷ rest) =
    let others = collect_spawned nodes (candidate.id ∷ spawned) rest in
    and_then (normalize_node candidate) λ def.
      if def.id == ""
      then err id_required
      else if def.activity_type == ""
      then err (activity_required def.id)
      else if has nodes def.id
      then err (already_exists def.id)
      else if contains spawned def.id
      then err (duplicate_node def.id)
      else and_then others (λ defs. ok (def ∷ defs))

-- The check of the dependencies of one spawned node.
unfoldable pub check_spawned :
    Map Node → (spawned : List String) → (id : String) → List String → Result (Unit {0})
unfolding contains has
check_spawned nodes spawned id [] = ok tt
check_spawned nodes spawned id (dep ∷ deps) =
    let rest = check_spawned nodes spawned id deps in
    if dep == id
    then err (self_dependency id)
    else if has nodes dep || contains spawned dep
    then rest
    else err (unknown_dependency id dep)

unfoldable pub check_all_spawned :
    Map Node → (spawned : List String) → List NodeDefinition → Result (Unit {0})
unfolding check_spawned
check_all_spawned nodes spawned [] = ok tt
check_all_spawned nodes spawned (def ∷ defs) =
    and_then (check_spawned nodes spawned def.id def.depends_on)
      (λ _. check_all_spawned nodes spawned defs)

-- The dependencies of the nodes that are there.
unfoldable pub graph_of : Map Node → Graph
graph_of [] = []
graph_of ((id, n) ∷ nodes) = (id, n.depends_on) ∷ graph_of nodes

unfoldable pub add_to_graph : List NodeDefinition → Graph → Graph
unfolding insert
add_to_graph [] g = g
add_to_graph (def ∷ defs) g = add_to_graph defs (insert def.id def.depends_on g)

unfoldable pub definition_ids : List NodeDefinition → List String
definition_ids [] = []
definition_ids (def ∷ defs) = def.id ∷ definition_ids defs

-- Refused unless the search says that there is no cycle.
abbrev pub refuse_cycle : String → List NodeDefinition → Option Bool → Result (List NodeDefinition)
refuse_cycle parent defs (some false) = ok defs
refuse_cycle parent defs _ = err (would_cycle parent)

-- `normalizeSpawnedNodes`
unfoldable pub normalize_spawned :
    ExecutionState → (parent : String) → List NodeDefinition → Result (List NodeDefinition)
unfolding collect_spawned check_all_spawned graph_of add_to_graph definition_ids has_cycle
normalize_spawned st parent [] = ok []
normalize_spawned st parent (candidate ∷ rest) =
    and_then (collect_spawned st.nodes [] (candidate ∷ rest)) λ defs.
      and_then (check_all_spawned st.nodes (definition_ids defs) defs)
        λ _. refuse_cycle parent defs (has_cycle (add_to_graph defs (graph_of st.nodes)))
