-- ===== src/State/Moves.antt =====
-- internal/state/state.go: the state machine of a node, and how the nodes of two states compare.
use grael.Prelude.{
  String, ◌≡◌, refl, subst, ◌⊎◌, inl, inr, Bool, true, false, ◌&&◌, some, List, [], ◌∷◌, ◌==◌,
  eq_iff, arith, Bool-cases,
}
use grael.Prelude.Lists.{All}
use grael.Prelude.Map.{Map, lookup, insert, has, lookup-insert}
use grael.Runtime.{NodeState, NodeDefinition, is_pending, is_ready}
use grael.State.{
  Node, ExecutionState, node_of, add_nodes, dependencies_completed, promote, mark_ready_nodes,
}
use grael.State.Ready.{dependencies_completed-cong, lookup-mark_ready, mark_ready_SameCompleted}

-- The edges of the state machine of a node. A ready node may be leased, and a running one may send a
-- heartbeat, without a change of state.
abbrev pub edge : NodeState → NodeState → Bool
edge NodeState.pending NodeState.ready = true
edge NodeState.pending NodeState.cancelled = true
edge NodeState.ready NodeState.ready = true
edge NodeState.ready NodeState.running = true
edge NodeState.ready NodeState.cancelled = true
edge NodeState.ready NodeState.failed = true
edge NodeState.running NodeState.running = true
edge NodeState.running NodeState.ready = true
edge NodeState.running NodeState.awaiting_approval = true
edge NodeState.running NodeState.completed = true
edge NodeState.running NodeState.cancelled = true
edge NodeState.running NodeState.failed = true
edge NodeState.awaiting_approval NodeState.ready = true
edge NodeState.awaiting_approval NodeState.cancelled = true
edge NodeState.awaiting_approval NodeState.failed = true
edge NodeState.failed NodeState.ready = true
edge _ _ = false

-- A node that changes keeps its definition, and leaves `pending` for `ready` only where its
-- dependencies are completed.
pub record Changed (nodes' : Map Node) (n n' : Node) : Type 0 where
  pub along : edge n.state n'.state ≡ true
  pub same_id : n'.id ≡ n.id
  pub same_deps : n'.depends_on ≡ n.depends_on
  pub met :
      is_pending n.state ≡ true
      → is_ready n'.state ≡ true
      → dependencies_completed nodes' n.depends_on ≡ true

-- A node that changes in its last heartbeat at most. That of a compensation task is noted at the
-- completed node too, where its attempt and worker agree.
abbrev pub IsKept : Node → Node → Type 0
IsKept n n' = n' ≡ record n { last_heartbeat_at = n'.last_heartbeat_at }

abbrev pub Moves : Map Node → Node → Node → Type 0
Moves nodes' n n' = IsKept n n' ⊎ Changed nodes' n n'

-- Every node is still there, where it was or one edge further.
abbrev pub AllMove : Map Node → Map Node → Type 0
AllMove nodes nodes' =
    (k : String) (n : Node)
    → lookup k nodes ≡ some n
    → (n' : Node) × (lookup k nodes' ≡ some n') × Moves nodes' n n'

-- A new node has the id that it stands under, was never leased, and waits or is ready.
pub record IsNew (nodes' : Map Node) (k : String) (n : Node) : Type 0 where
  pub named : n.id ≡ k
  pub waits :
      (n.state ≡ NodeState.pending)
      ⊎ ((n.state ≡ NodeState.ready) × (dependencies_completed nodes' n.depends_on ≡ true))

abbrev pub OnlyNew : Map Node → Map Node → Type 0
OnlyNew nodes nodes' =
    (k : String) (n' : Node)
    → lookup k nodes' ≡ some n'
    → ((n : Node) × (lookup k nodes ≡ some n)) ⊎ IsNew nodes' k n'

pub AllMove-refl : (nodes : Map Node) → AllMove nodes nodes
AllMove-refl nodes k n e = (n, e, inl refl)

pub OnlyNew-refl : (nodes : Map Node) → OnlyNew nodes nodes
OnlyNew-refl nodes k n e = inl (n, e)

-- A write to a node that is there.
pub AllMove-insert :
    (nodes : Map Node) (id : String) (n₀ n₁ : Node)
    → lookup id nodes ≡ some n₀
    → Moves (insert id n₁ nodes) n₀ n₁
    → AllMove nodes (insert id n₁ nodes)
AllMove-insert nodes id n₀ n₁ at move k n e = elim (Bool-cases (id == k)) [
  | inl same ↦
      let e' : n₀ ≡ n = cc ((eq_iff id k).0 same) in
      (
        n₁,
        ground (arith, lookup-insert id k n₁ nodes),
        subst (λ x. Moves (insert id n₁ nodes) x n₁) e' move,
      )
  | inr other ↦ (n, ground (arith, lookup-insert id k n₁ nodes), inl refl)
]

pub lookup-insert_old :
    (nodes : Map Node) (id : String) (n₀ n₁ : Node)
    → lookup id nodes ≡ some n₀
    → (k : String) (n' : Node) → lookup k (insert id n₁ nodes) ≡ some n'
    → (n : Node) × (lookup k nodes ≡ some n)
lookup-insert_old nodes id n₀ n₁ at k n e = elim (Bool-cases (id == k)) [
  | inl same ↦ (n₀, ground (arith, eq_iff id k))
  | inr other ↦ (n, ground (arith, lookup-insert id k n₁ nodes))
]

pub OnlyNew-insert :
    (nodes : Map Node) (id : String) (n₀ n₁ : Node)
    → lookup id nodes ≡ some n₀
    → OnlyNew nodes (insert id n₁ nodes)
OnlyNew-insert nodes id n₀ n₁ at k n e = inl (lookup-insert_old nodes id n₀ n₁ at k n e)

-- The definitions that `add_nodes` puts under the key, by what stands there afterwards.
pub lookup-add_nodes :
    (defs : List NodeDefinition) (nodes : Map Node) (k : String)
    → (lookup k (add_nodes defs nodes) ≡ lookup k nodes)
      ⊎ ((def : NodeDefinition) × (lookup k (add_nodes defs nodes) ≡ some (node_of def))
          × (def.id ≡ k))
unfolding add_nodes
lookup-add_nodes [] nodes k = inl refl
lookup-add_nodes (def ∷ defs) nodes k =
    elim (lookup-add_nodes defs (insert def.id (node_of def) nodes) k) [
      | inr new ↦ inr new
      | inl old ↦ elim (Bool-cases (def.id == k)) [
        | inl same ↦ inr (
          def,
          ground (arith, lookup-insert def.id k (node_of def) nodes),
          (eq_iff def.id k).0 same,
        )
        | inr other ↦ inl (ground (arith, lookup-insert def.id k (node_of def) nodes))
      ]
    ]

-- Definitions under new ids leave the other nodes alone.
abbrev pub IsFresh : Map Node → List NodeDefinition → Type 0
IsFresh nodes = All (λ def. has nodes def.id ≡ false)

pub IsFresh-ne :
    (defs : List NodeDefinition) (nodes : Map Node) (k : String) (n : Node)
    → IsFresh nodes defs
    → lookup k nodes ≡ some n
    → All (λ def. (def.id == k) ≡ false) defs
unfolding has
IsFresh-ne [] nodes k n fresh e = tt
IsFresh-ne (def ∷ defs) nodes k n fresh e =
    (ground (arith, eq_iff def.id k), IsFresh-ne defs nodes k n fresh.1 e)

pub lookup-add_nodes_ne :
    (defs : List NodeDefinition) (nodes : Map Node) (k : String)
    → All (λ def. (def.id == k) ≡ false) defs
    → lookup k (add_nodes defs nodes) ≡ lookup k nodes
unfolding add_nodes
lookup-add_nodes_ne [] nodes k others = refl
lookup-add_nodes_ne (def ∷ defs) nodes k others = ground (
  arith,
  lookup-add_nodes_ne defs (insert def.id (node_of def) nodes) k,
  lookup-insert def.id k (node_of def) nodes,
)

-- `markReadyNodes` moves nodes along one edge, and adds none.
pub AllMove-mark_ready : (s : ExecutionState) → AllMove s.nodes (mark_ready_nodes s).nodes
unfolding promote
AllMove-mark_ready s k n e =
    let at = lookup-mark_ready s k in
    let same =
      dependencies_completed-cong s.nodes (mark_ready_nodes s).nodes n.depends_on
        (mark_ready_SameCompleted s) in
    elim (Bool-cases (is_pending n.state && dependencies_completed s.nodes n.depends_on)) [
      | inl go ↦ (
        record n { state = NodeState.ready },
        ground arith,
        inr (record {
          along = ground arith;
          same_id = refl;
          same_deps = refl;
          met = λ p r. ground arith;
        }),
      )
      | inr stay ↦ (n, ground arith, inl refl)
    ]
