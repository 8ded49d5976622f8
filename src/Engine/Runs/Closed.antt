-- ===== src/Engine/Runs/Closed.antt =====
-- internal/engine/engine.go and internal/state/state.go: the dependencies of the nodes of a run are nodes
-- of the run.
use grael.Prelude.{
  ℕ, String, ◌≡◌, refl, sym, ap, ◌∙◌, subst, inl, inr, true, false, ◌||◌, ◌==◌, some, List, [], ◌∷◌,
  arith, Bool-cases, Option-cases,
}
use grael.Prelude.Lists.{All, All-map, contains}
use grael.Prelude.Map.{Map, lookup, insert, has, lookup-insert}
use grael.Runtime.{Time, Values, NodeDefinition, Payload, Event}
use grael.State.{Node, ExecutionState, new, node_of, add_nodes, promote, mark_ready_nodes}
use grael.State.Apply.{apply, apply_payload}
use grael.State.Complete.{completed_node, completion, complete_node-completion}
use grael.State.Keys.{adds_nodes, lookup-before}
use grael.State.Ready.{lookup-mark_ready}
use grael.Workflow.{ids}
use grael.Workflow.Loops.{IsValidNode}
use grael.Engine.Spawn.{definition_ids}
use grael.Engine.Spawn.Accepted.{Knows}
use grael.Engine.Legal.{Legal, complete}
use grael.Engine.Legal.Nodes.{Legal-Evolves}
use grael.Engine.Legal.WellFormed.{has-AllMove}
use grael.Engine.Steps.Nodes.{nodes-advance_seq}
use grael.Engine.Runs.Reached.{IsStart, unpromoted, Holds}

-- Each of these ids is a node.
abbrev pub AllThere : Map Node → List String → Type 0
AllThere nodes = All (λ d. has nodes d ≡ true)

abbrev pub IsClosed : Map Node → Type 0
IsClosed nodes = (k : String) (n : Node) → lookup k nodes ≡ some n → AllThere nodes n.depends_on

has-insert :
    (id k : String) (n : Node) (nodes : Map Node)
    → has (insert id n nodes) k ≡ (id == k || has nodes k)
unfolding has
has-insert id k n nodes = ground (arith, lookup-insert id k n nodes)

has-add_nodes :
    (defs : List NodeDefinition) (nodes : Map Node) (k : String)
    → has (add_nodes defs nodes) k ≡ (contains (definition_ids defs) k || has nodes k)
unfolding add_nodes definition_ids contains
has-add_nodes [] nodes k = refl
has-add_nodes (def ∷ defs) nodes k = ground (
  arith,
  has-add_nodes defs (insert def.id (node_of def) nodes) k,
  has-insert def.id k (node_of def) nodes,
)

-- A property of dependencies that the nodes and the definitions have.
add_nodes-all :
    (P : List String → Type 0) (defs : List NodeDefinition) (nodes : Map Node)
    → All (λ def. P def.depends_on) defs
    → ((k : String) (n : Node) → lookup k nodes ≡ some n → P n.depends_on)
    → (k : String) (n : Node) → lookup k (add_nodes defs nodes) ≡ some n
    → P n.depends_on
unfolding add_nodes node_of
add_nodes-all P [] nodes all old k n at = old k n at
add_nodes-all P (def ∷ defs) nodes (first, rest) old k n at =
    add_nodes-all P defs (insert def.id (node_of def) nodes) rest below k n at
  where
    below :
        (j : String) (m : Node)
        → lookup j (insert def.id (node_of def) nodes) ≡ some m
        → P m.depends_on
    below j m there = elim (Bool-cases (def.id == j)) [
      | inl same ↦
          let e : node_of def ≡ m = ground (arith, lookup-insert def.id j (node_of def) nodes) in
          subst (λ x. P x.depends_on) e first
      | inr other ↦ old j m (ground (arith, lookup-insert def.id j (node_of def) nodes))
    ]

has-mark_ready :
    (s : ExecutionState) (k : String) → has (mark_ready_nodes s).nodes k ≡ has s.nodes k
unfolding has
has-mark_ready s k = ground (arith, lookup-mark_ready s k)

IsClosed-mark_ready : (s : ExecutionState) → IsClosed s.nodes → IsClosed (mark_ready_nodes s).nodes
unfolding promote
IsClosed-mark_ready s closed k n at = elim (Option-cases (lookup k s.nodes)) [
  | inl absent ↦ absurd (ground (arith, lookup-mark_ready s k))
  | inr (m, e) ↦
      let same : n.depends_on ≡ m.depends_on = ground (arith, lookup-mark_ready s k) in
      rw same (All-map (λ d there. has-mark_ready s d ∙ there) m.depends_on (closed k m e))
]

definition_ids_eq : (defs : List NodeDefinition) → definition_ids defs ≡ ids defs
unfolding definition_ids ids
definition_ids_eq [] = refl
definition_ids_eq (def ∷ defs) = ap (λ rest. def.id ∷ rest) (definition_ids_eq defs)

IsClosed-begun : (e : Event) (start : IsStart e) → IsClosed (unpromoted e start).nodes
IsClosed-begun e start =
    let defs = start.workflow.nodes in
    add_nodes-all (AllThere (add_nodes defs [])) defs [] (all_known defs start.valid.valid)
      (λ k n at. absurd (unfold lookup in ground arith))
  where
    all_known :
        (rest : List NodeDefinition)
        → All (IsValidNode (ids start.workflow.nodes)) rest
        → All (λ def. AllThere (add_nodes start.workflow.nodes []) def.depends_on) rest
    all_known [] valid = tt
    all_known (def ∷ rest) (first, others) = (
      All-map
          (λ d known.
            let listed : contains (definition_ids start.workflow.nodes) d ≡ true =
              rw (definition_ids_eq start.workflow.nodes) known.1 in
            has-add_nodes start.workflow.nodes [] d ∙ (rw listed refl))
          def.depends_on first.depends_on_known,
      all_known rest others,
    )

module _ (id worker : String) (attempt : ℕ) (output : Values) (spawned : List NodeDefinition)
    (s : ExecutionState) (n : Node) where
  abbrev after : ExecutionState
  after = completion id worker attempt output spawned n s

  -- The nodes that are there, and the spawned ones, are there after a completion.
  has-completion :
      (d : String)
      → (has s.nodes d || contains (definition_ids spawned) d) ≡ true
      → has after.nodes d ≡ true
  has-completion d known =
      let node = completed_node id worker attempt output spawned n in
      ground (arith, has-add_nodes spawned (insert id node s.nodes) d, has-insert id d node s.nodes)

  IsClosed-completion :
      lookup id s.nodes ≡ some n
      → All (λ def. Knows s.nodes spawned def.depends_on) spawned
      → IsClosed s.nodes
      → IsClosed after.nodes
  IsClosed-completion at known closed =
      let node = completed_node id worker attempt output spawned n in
      let kept = λ (k : String) (m : Node) (there : lookup k s.nodes ≡ some m).
        All-map (λ d h. has-completion d (rw h refl)) m.depends_on (closed k m there) in
      add_nodes-all (AllThere after.nodes) spawned (insert id node s.nodes)
        (All-map (λ def deps. All-map has-completion def.depends_on deps) spawned known)
        (λ k m there. elim (Bool-cases (id == k)) [
          | inl same ↦
              let e : node ≡ m = ground (arith, lookup-insert id k node s.nodes) in
              subst (λ x. AllThere after.nodes x.depends_on) e (kept id n at)
          | inr other ↦ kept k m (ground (arith, lookup-insert id k node s.nodes))
        ])

-- An event that adds no node.
IsClosed-other :
    (run_id : String) (now : Time) (p : Payload) (s : ExecutionState)
    → adds_nodes p ≡ false
    → Legal s p
    → IsClosed s.nodes
    → IsClosed (apply_payload run_id now p s).1.nodes
IsClosed-other run_id now p s other legal closed k n' at =
    let evolves = Legal-Evolves s run_id now legal in
    let (n, before) = lookup-before run_id now p s other k n' at in
    let (m, now_at, move) = evolves.all_move k n before in
    let same : n'.depends_on ≡ n.depends_on = elim move [
      | inl kept ↦ ground arith
      | inr c ↦ ground (arith, c.same_deps)
    ] in
    rw same (
      All-map (λ d there. has-AllMove s.nodes _ d evolves.all_move there) n.depends_on
        (closed k n before))

Legal-IsClosed :
    (s : ExecutionState) (run_id : String) (now : Time) {p : Payload}
    → Legal s p
    → IsClosed s.nodes
    → IsClosed (apply_payload run_id now p s).1.nodes
unfolding apply_payload
Legal-IsClosed s run_id now
      (complete {id} {worker} {attempt} {output} {spawned} n at is held same kept spawns) closed =
    rw (complete_node-completion id worker attempt output spawned s n at) (
      IsClosed-mark_ready (completion id worker attempt output spawned n s)
        (IsClosed-completion id worker attempt output spawned s n at spawns.known closed))
Legal-IsClosed s run_id now {p} legal closed = IsClosed-other run_id now p s refl legal closed

pub IsClosed-holds : Holds (λ st _ _. IsClosed st.nodes)
unfolding apply apply_payload
IsClosed-holds = record {
  begin = λ e start.
      subst (λ p. IsClosed (apply (record e { payload = p }) new).1.nodes) (sym start.payload_is)
        (IsClosed-mark_ready (unpromoted e start) (IsClosed-begun e start));
  event = λ e st log snapshot wf legal closed.
      subst IsClosed (sym (nodes-advance_seq e.seq _ _))
        (Legal-IsClosed st e.run_id e.timestamp legal closed);
  save = λ st log snapshot closed. closed;
}
