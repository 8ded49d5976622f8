-- ===== src/State/Complete.antt =====
-- internal/state/state.go: the nodes after a `NodeCompleted` or a `WorkflowStarted` event, which add
-- nodes and then promote the ones that can run.
use grael.Prelude.{
  ℕ, String, ◌≡◌, subst, inl, inr, some, List, ◌==◌, eq_iff, arith, Bool-cases, Option-cases,
}
use grael.Prelude.Map.{Map, lookup, insert, lookup-insert}
use grael.Runtime.{Values, NodeState, NodeDefinition}
use grael.State.Apply.{complete_node, push_compensation}
use grael.State.{
  Node, ExecutionState, node_of, add_nodes, dependencies_completed, promote, mark_ready_nodes,
}
use grael.State.Ready.{dependencies_completed-cong, lookup-mark_ready, mark_ready_SameCompleted}
use grael.State.Moves.{
  AllMove, IsNew, OnlyNew, lookup-insert_old, IsFresh, IsFresh-ne, lookup-add_nodes_ne,
  lookup-add_nodes, AllMove-mark_ready,
}

-- A definition that is promoted right after it is added.
IsNew-promote :
    (s : ExecutionState) (k : String) (def : NodeDefinition)
    → def.id ≡ k
    → IsNew (mark_ready_nodes s).nodes k (promote s.nodes (node_of def))
unfolding promote node_of
IsNew-promote s k def e =
    let same =
      dependencies_completed-cong s.nodes (mark_ready_nodes s).nodes def.depends_on
        (mark_ready_SameCompleted s) in
    elim (Bool-cases (dependencies_completed s.nodes def.depends_on)) [
      | inl go ↦ record { named = ground arith; waits = inr (ground arith, ground arith) }
      | inr stay ↦ record { named = ground arith; waits = inl (ground arith) }
    ]

-- What is added and promoted is new, or was there before.
pub OnlyNew-add :
    (s : ExecutionState) (nodes : Map Node) (defs : List NodeDefinition)
    → s.nodes ≡ add_nodes defs nodes
    → OnlyNew nodes (mark_ready_nodes s).nodes
OnlyNew-add s nodes defs built k n' e = elim (Option-cases (lookup k nodes)) [
  | inr old ↦ inl old
  | inl absent ↦ elim (lookup-add_nodes defs nodes k) [
    | inl none_there ↦ absurd (ground (arith, lookup-mark_ready s k))
    | inr (def, there, named) ↦
        let at : lookup k s.nodes ≡ some (node_of def) = cc in
        let e' : promote s.nodes (node_of def) ≡ n' = ground (arith, lookup-mark_ready s k) in
        inr (subst (λ x. IsNew (mark_ready_nodes s).nodes k x) e' (IsNew-promote s k def named))
  ]
]

module _ (s : ExecutionState) (nodes : Map Node) (id : String) (n₀ n₁ : Node)
    (defs : List NodeDefinition) (at : lookup id nodes ≡ some n₀)
    (built : s.nodes ≡ add_nodes defs (insert id n₁ nodes)) where
  pub OnlyNew-complete : OnlyNew nodes (mark_ready_nodes s).nodes
  OnlyNew-complete k n' e = elim (OnlyNew-add s (insert id n₁ nodes) defs built k n' e) [
    | inl (n, there) ↦ inl (lookup-insert_old nodes id n₀ n₁ at k n there)
    | inr new ↦ inr new
  ]

  -- The completed node takes one edge, and each other one at most the edge of its promotion.
  pub AllMove-complete :
      n₀.state ≡ NodeState.running
      → n₁.state ≡ NodeState.completed
      → n₁.id ≡ n₀.id
      → n₁.depends_on ≡ n₀.depends_on
      → IsFresh nodes defs
      → AllMove nodes (mark_ready_nodes s).nodes
  AllMove-complete runs done same_id same_deps fresh k n e =
      let kept =
        lookup-add_nodes_ne defs (insert id n₁ nodes) k (IsFresh-ne defs nodes k n fresh e) in
      elim (Bool-cases (id == k)) [
        | inr other ↦ AllMove-mark_ready s k n (ground (arith, kept, lookup-insert id k n₁ nodes))
        | inl same ↦
            let e' : n₀ ≡ n = cc ((eq_iff id k).0 same) in
            let there : lookup k s.nodes ≡ some n₁ =
              ground (arith, kept, lookup-insert id k n₁ nodes) in
            let (n', now, move) = AllMove-mark_ready s k n₁ there in
            elim move [
              | inl still ↦ (
                n',
                now,
                inr (record {
                  along = ground arith;
                  same_id = ground arith;
                  same_deps = ground arith;
                  met = λ p r. ground arith;
                }),
              )
              | inr moved ↦ absurd (ground (arith, moved.along))
            ]
      ]

module _ (id worker : String) (attempt : ℕ) (output : Values) (spawned : List NodeDefinition) where
  -- The node that a `NodeCompleted` event leaves.
  abbrev pub completed_node : Node → Node
  completed_node n = record n {
    state = NodeState.completed;
    worker_id = worker;
    attempt = attempt;
    last_heartbeat_at = 0;
    last_error = "";
    output = output;
  }

  -- The state that it makes, before `markReadyNodes`.
  abbrev pub completion : Node → ExecutionState → ExecutionState
  completion n s = record s {
    compensation_stack = push_compensation n s.compensation_stack;
    nodes = add_nodes spawned (insert id (completed_node n) s.nodes);
  }

  pub complete_node-completion :
      (s : ExecutionState) (n : Node)
      → lookup id s.nodes ≡ some n
      → (complete_node id worker attempt output spawned s).1 ≡ mark_ready_nodes (completion n s)
  unfolding complete_node
  complete_node-completion s n at = rw (at, complete_node)
