-- ===== src/Engine/Cycle.antt =====
-- internal/engine/engine.go: `hasCycle`, the depth-first search for a cycle of dependencies. The
-- recursion of `visit` takes fuel, and `none` means that it ran out.
pub mod Marks
pub mod Search
pub mod Verdict
use grael.Prelude.{ℕ, zero, suc, ◌+◌, String, Bool, true, false, Option, none, some, List, [], ◌∷◌}
use grael.Prelude.Lists.{length}
use grael.Prelude.Map.{Map, lookup, insert, keys, has}

abbrev pub Graph : Type 0
Graph = Map (List String)

-- A node with no mark is unvisited.
pub data Mark : Type 0 where
  visiting visited : Mark

abbrev pub Marks : Type 0
Marks = Map Mark

-- The answer of `visit`, and `stateByNode` as it leaves it.
abbrev pub Answer : Type 0
Answer = Option (Bool × Marks)

-- The loop of `visit` over the dependencies of a node.
unfoldable pub visit_dependencies : (String → Marks → Answer) → Graph → List String → Marks → Answer
visit_dependencies visit g [] marks = some (false, marks)
visit_dependencies visit g (dep ∷ deps) marks = elim (has g dep) [
  | false ↦ visit_dependencies visit g deps marks
  | true ↦ elim (visit dep marks) [
    | none ↦ none
    | some (true, marks') ↦ some (true, marks')
    | some (false, marks') ↦ visit_dependencies visit g deps marks'
  ]
]

-- `graph[nodeID]`, empty for a node that is not there.
unfoldable pub dependencies : Graph → String → List String
dependencies g id = elim (lookup id g) [ none ↦ [] | some deps ↦ deps ]

-- `stateByNode[nodeID] = visited`, on the way out of `visit`.
abbrev pub leave : String → Answer → Answer
leave id none = none
leave id (some (true, marks)) = some (true, marks)
leave id (some (false, marks)) = some (false, insert id visited marks)

unfoldable pub visit : ℕ → Graph → String → Marks → Answer
unfolding visit_dependencies dependencies
visit zero g id marks = none
visit (suc fuel) g id marks = elim (lookup id marks) [
  | some visiting ↦ some (true, marks)
  | some visited ↦ some (false, marks)
  | none ↦
      leave id (visit_dependencies (visit fuel g) g (dependencies g id) (insert id visiting marks))
]

-- The loop over the nodes of the graph.
unfoldable pub search_nodes : ℕ → Graph → List String → Marks → Option Bool
unfolding visit
search_nodes fuel g [] marks = some false
search_nodes fuel g (id ∷ ids) marks = elim (visit fuel g id marks) [
  | none ↦ none
  | some (true, _) ↦ some true
  | some (false, marks') ↦ search_nodes fuel g ids marks'
]

-- One more than the number of nodes is enough fuel: each call below another one marks a node.
unfoldable pub has_cycle : Graph → Option Bool
unfolding search_nodes keys
has_cycle g = search_nodes (length (keys g) + 1) g (keys g) []
