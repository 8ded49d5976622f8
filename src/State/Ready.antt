-- ===== src/State/Ready.antt =====
-- internal/state/state.go: the loop of `markReadyNodes` writes into the map that it reads, in an order
-- that the language leaves open.
use grael.Prelude.{
  String, ◌≡◌, refl, Option, none, some, List, [], ◌∷◌, ◌==◌, eq_iff, arith, if◌then◌else◌, ap, inl,
  inr, Option-cases,
}
use grael.Prelude.Lists.{contains}
use grael.Prelude.Map.{Map, lookup, keys, has, lookup-insert, contains-keys}
use grael.State.{
  Node, ExecutionState, completed_at, dependencies_completed, promote, mark_ready_node,
  mark_ready_loop, mark_ready_nodes,
}

-- The node under `k` after the loop, from the nodes before it.
abbrev pub promoted : Map Node → Option Node → Option Node
promoted nodes none = none
promoted nodes (some n) = some (promote nodes n)

-- Two maps with the same completed nodes.
abbrev pub SameCompleted : Map Node → Map Node → Type 0
SameCompleted m m' = (k : String) → completed_at m' k ≡ completed_at m k

pub dependencies_completed-cong :
    (m m' : Map Node) (deps : List String)
    → SameCompleted m m'
    → dependencies_completed m' deps ≡ dependencies_completed m deps
unfolding dependencies_completed
dependencies_completed-cong m m' [] same = refl
dependencies_completed-cong m m' (dep ∷ deps) same =
    ground (arith, same dep, dependencies_completed-cong m m' deps same)

promote-cong : (m m' : Map Node) (n : Node) → SameCompleted m m' → promote m' n ≡ promote m n
unfolding promote
promote-cong m m' n same = ground (arith, dependencies_completed-cong m m' n.depends_on same)

promote_idem : (m : Map Node) (n : Node) → promote m (promote m n) ≡ promote m n
unfolding promote
promote_idem m n = ground arith

lookup-mark_ready_node :
    (j : String) (m : Map Node) (k : String)
    → lookup k (mark_ready_node j m) ≡ (if j == k then promoted m (lookup k m) else lookup k m)
unfolding mark_ready_node
lookup-mark_ready_node j m k = elim (Option-cases (lookup j m)) [
  | inl e ↦ rw (e, mark_ready_node) (ground (arith, eq_iff j k))
  | inr (n, e) ↦
      rw (e, mark_ready_node) (ground (arith, eq_iff j k, lookup-insert j k (promote m n) m))
]

mark_ready_node-SameCompleted : (j : String) (m : Map Node) → SameCompleted m (mark_ready_node j m)
unfolding completed_at promote
mark_ready_node-SameCompleted j m k = ground (arith, lookup-mark_ready_node j m k)

promoted-cong :
    (m m' : Map Node) (o : Option Node) → SameCompleted m m' → promoted m' o ≡ promoted m o
promoted-cong m m' none same = refl
promoted-cong m m' (some n) same = ap some (promote-cong m m' n same)

promoted_idem : (m : Map Node) (o : Option Node) → promoted m (promoted m o) ≡ promoted m o
promoted_idem m none = refl
promoted_idem m (some n) = ap some (promote_idem m n)

-- Whatever the order of the rounds, each node that has one is promoted by the nodes before the loop.
pub lookup-mark_ready_loop :
    (ks : List String) (m : Map Node) (k : String)
    → lookup k (mark_ready_loop ks m)
      ≡ (if contains ks k then promoted m (lookup k m) else lookup k m)
unfolding mark_ready_loop contains
lookup-mark_ready_loop [] m k = refl
lookup-mark_ready_loop (j ∷ ks) m k =
    let same = mark_ready_node-SameCompleted j m in
    ground (
      arith,
      lookup-mark_ready_loop ks (mark_ready_node j m) k,
      lookup-mark_ready_node j m k,
      promoted-cong m (mark_ready_node j m) (lookup k (mark_ready_node j m)) same,
      promoted_idem m (lookup k m),
    )

-- The loop over the keys of the map, in any order, promotes each node as the map before the loop says.
pub mark_ready_loop_order :
    (ks : List String) (m : Map Node) (k : String)
    → ((j : String) → contains ks j ≡ has m j)
    → lookup k (mark_ready_loop ks m) ≡ promoted m (lookup k m)
unfolding has
mark_ready_loop_order ks m k every = ground (arith, lookup-mark_ready_loop ks m k, every k)

pub lookup-mark_ready :
    (s : ExecutionState) (k : String)
    → lookup k (mark_ready_nodes s).nodes ≡ promoted s.nodes (lookup k s.nodes)
unfolding mark_ready_nodes
lookup-mark_ready s k = mark_ready_loop_order (keys s.nodes) s.nodes k (contains-keys s.nodes)

-- The loop completes no node.
pub mark_ready_SameCompleted :
    (s : ExecutionState) → SameCompleted s.nodes (mark_ready_nodes s).nodes
unfolding completed_at promote
mark_ready_SameCompleted s k = ground (arith, lookup-mark_ready s k)
