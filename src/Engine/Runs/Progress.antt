-- ===== src/Engine/Runs/Progress.antt =====
-- internal/engine/engine.go: what stands in the way of a pending node.
use grael.Prelude.{
  String, ◌≡◌, refl, inl, inr, Bool, true, false, some, List, [], ◌∷◌, eq_iff, arith, Bool-cases,
}
use grael.Prelude.Lists.{contains}
use grael.Prelude.Map.{Map, lookup, has, lookup-has}
use grael.Runtime.{NodeState, is_pending}
use grael.State.{Node, completed_at, dependencies_completed}
use grael.State.Waits.{AllWait}
use grael.Engine.{World, Session}
use grael.Engine.Cycle.{dependencies, has_cycle}
use grael.Engine.Cycle.Marks.{Grounded, grounded}
use grael.Engine.Cycle.Verdict.{has_cycle_verdict}
use grael.Engine.Spawn.{graph_of}
use grael.Engine.Runs.{Reach}
use grael.Engine.Runs.Reached.{Reach-keeps}
use grael.Engine.Runs.Waits.{AllWait-holds}
use grael.Engine.Runs.Closed.{AllThere, IsClosed, IsClosed-holds}

-- The first dependency that is not completed.
incomplete :
    (nodes : Map Node) (deps : List String)
    → AllThere nodes deps
    → dependencies_completed nodes deps ≡ false
    → (d : String) × (contains deps d ≡ true)
      × (has nodes d ≡ true)
      × (completed_at nodes d ≡ false)
unfolding dependencies_completed contains
incomplete nodes [] there h = absurd (ground arith)
incomplete nodes (d ∷ deps) (first, rest) h = elim (Bool-cases (completed_at nodes d)) [
  | inr undone ↦ (d, ground (arith, eq_iff d d), first, undone)
  | inl done ↦
      let (d', listed, there, waits) = incomplete nodes deps rest (ground arith) in
      (d', ground arith, there, waits)
]

has-graph_of : (nodes : Map Node) (k : String) → has (graph_of nodes) k ≡ has nodes k
unfolding has lookup graph_of
has-graph_of [] k = refl
has-graph_of ((id, n) ∷ nodes) k = ground (arith, has-graph_of nodes k)

dependencies-graph_of :
    (nodes : Map Node) (k : String) (n : Node)
    → lookup k nodes ≡ some n
    → dependencies (graph_of nodes) k ≡ n.depends_on
unfolding lookup graph_of dependencies
dependencies-graph_of [] k n at = absurd (ground arith)
dependencies-graph_of ((id, m) ∷ nodes) k n at = ground (arith, dependencies-graph_of nodes k n)

-- A node that neither waits nor is completed.
abbrev pub is_between : NodeState → Bool
is_between NodeState.pending = false
is_between NodeState.completed = false
is_between _ = true

blocker :
    (nodes : Map Node)
    → IsClosed nodes
    → AllWait nodes
    → (k : String) (n : Node) → Grounded (graph_of nodes) k
    → lookup k nodes ≡ some n
    → is_pending n.state ≡ true
    → (j : String) × (m : Node) × (lookup j nodes ≡ some m) × (is_between m.state ≡ true)
unfolding completed_at
blocker nodes closed waits k n (grounded below) at waiting =
    let (d, listed, there, undone) =
      incomplete nodes n.depends_on (closed k n at) (waits k n at waiting) in
    let (m, found) = lookup-has d nodes there in
    elim (Bool-cases (is_pending m.state)) [
      | inr moved ↦ (d, m, found, ground arith)
      | inl still ↦
          let listed' : contains (dependencies (graph_of nodes) k) d ≡ true =
            rw (dependencies-graph_of nodes k n at) listed in
          let there' : has (graph_of nodes) d ≡ true = rw (has-graph_of nodes d) there in
          blocker nodes closed waits d m (below d (listed', there')) found still
    ]

module _ (world : World) where
  -- In a run that is reached, whose nodes `hasCycle` finds without a cycle, and where a node is pending, some
  -- node is ready, running, awaiting approval, failed or cancelled.
  pub Reach-blocker :
      {s : Session} (k : String) (n : Node)
      → Reach world s
      → has_cycle (graph_of s.st.nodes) ≡ some false
      → lookup k s.st.nodes ≡ some n
      → n.state ≡ NodeState.pending
      → (j : String) × (m : Node) × (lookup j s.st.nodes ≡ some m) × (is_between m.state ≡ true)
  Reach-blocker {s} k n reach acyclic at waiting = elim (has_cycle_verdict (graph_of s.st.nodes)) [
    | inl (cyclic, _) ↦ absurd (ground arith)
    | inr (_, below) ↦
        let closed = (Reach-keeps (λ st _ _. IsClosed st.nodes) IsClosed-holds world reach).1 in
        let waits = (Reach-keeps (λ st _ _. AllWait st.nodes) AllWait-holds world reach).1 in
        blocker s.st.nodes closed waits k n (below k) at (ground arith)
  ]
