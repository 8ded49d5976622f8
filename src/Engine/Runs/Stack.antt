-- ===== src/Engine/Runs/Stack.antt =====
-- internal/state/state.go and internal/engine/engine.go: the compensation stack of every run that is
-- reached.
pub mod Pushed
use grael.Prelude.{
  ℕ, ◌≡◌, refl, sym, ap, subst, not, ◌∙◌, ◌⊎◌, inl, inr, Bool, true, false, ◌&&◌, ◌||◌, Option,
  none, some, List, [], ◌∷◌, ◌++◌, String, ◌==◌, eq_iff, arith, if◌then◌else◌, Bool-cases,
  Option-cases, append-nil,
}
use grael.Prelude.Lists.{Distinct, contains, contains-append, All}
use grael.Prelude.Map.{Map, lookup, insert, has, lookup-insert}
use grael.Runtime.{
  Time, NodeState, Values, NodeDefinition, Payload, Event, node_completed, workflow_started,
  compensation_task_started, compensation_task_completed, is_completed,
}
use grael.Result.{Result, ok, err}
use grael.State.{
  Node, CompensationEntry, ExecutionState, completed_at, with_node, set_attempt, set_completed,
  on_stack, add_nodes, mark_ready_nodes,
}
use grael.State.Apply.{
  apply, apply_payload, heartbeat, expire_lease, start_compensation_task, fire_timer, complete_node,
  push_compensation, advance_seq,
}
use grael.State.Ready.{mark_ready_SameCompleted}
use grael.State.Moves.{AllMove, IsFresh, IsFresh-ne, lookup-add_nodes_ne}
use grael.Engine.{World, Session}
use grael.Engine.Legal.{Legal, complete}
use grael.Engine.Legal.WellFormed.{IsWellFormed}
use grael.Engine.Steps.Nodes.{apply-Evolves, nodes-advance_seq}
use grael.Engine.Runs.{Reach}
use grael.Engine.Runs.Reached.{IsStart, begun, Holds, Reach-keeps}
use grael.Engine.Runs.Stack.Pushed.{stack_ids, pushed, stack_ids-apply}
use grael.Engine.Runs.Nodes.{completed_at-AllMove}

-- Each node of the list is completed.
abbrev pub AllDone : Map Node → List String → Type 0
AllDone nodes = All (λ k. completed_at nodes k ≡ true)

AllDone-AllMove :
    (nodes nodes' : Map Node) (ks : List String)
    → AllMove nodes nodes'
    → AllDone nodes ks
    → AllDone nodes' ks
AllDone-AllMove nodes nodes' [] moves done = tt
AllDone-AllMove nodes nodes' (k ∷ ks) moves done =
    (completed_at-AllMove nodes nodes' k moves done.0, AllDone-AllMove nodes nodes' ks moves done.1)

AllDone-contains :
    (nodes : Map Node) (ks : List String) (k : String)
    → AllDone nodes ks
    → completed_at nodes k ≡ false
    → contains ks k ≡ false
unfolding contains
AllDone-contains nodes [] k done h = refl
AllDone-contains nodes (j ∷ ks) k done h =
    ground (arith, AllDone-contains nodes ks k done.1 h, done.0, eq_iff j k)

AllDone-append :
    (nodes : Map Node) (ks : List String) (k : String)
    → AllDone nodes ks
    → completed_at nodes k ≡ true
    → AllDone nodes (ks ++ k ∷ [])
AllDone-append nodes [] k done h = (h, tt)
AllDone-append nodes (j ∷ ks) k done h = (done.0, AllDone-append nodes ks k done.1 h)

Distinct-append :
    (ks : List String) (k : String) → Distinct ks → contains ks k ≡ false → Distinct (ks ++ k ∷ [])
unfolding contains
Distinct-append [] k d h = (refl, tt)
Distinct-append (j ∷ ks) k d h = (
  ground (arith, contains-append ks (k ∷ []) j, d.0, eq_iff j k, eq_iff k j),
  Distinct-append ks k d.1 (ground arith),
)

completed_at-add :
    (spawned : List NodeDefinition) (nodes : Map Node) (id : String) (n n' : Node)
    → lookup id nodes ≡ some n
    → IsFresh nodes spawned
    → is_completed n'.state ≡ true
    → completed_at (add_nodes spawned (insert id n' nodes)) id ≡ true
unfolding completed_at
completed_at-add spawned nodes id n n' at fresh done =
    let others =
      lookup-add_nodes_ne spawned (insert id n' nodes) id
        (IsFresh-ne spawned nodes id n fresh at) in
    ground (arith, lookup-insert id id n' nodes, eq_iff id id)

completed_at-mark_ready :
    (s : ExecutionState) (k : String)
    → completed_at s.nodes k ≡ true
    → completed_at (mark_ready_nodes s).nodes k ≡ true
completed_at-mark_ready s k h = mark_ready_SameCompleted s k ∙ h

-- The node of a completion is completed.
completed_at-complete_node :
    (id worker : String) (attempt : ℕ) (output : Values) (spawned : List NodeDefinition)
    (s : ExecutionState) (n : Node)
    → lookup id s.nodes ≡ some n
    → IsFresh s.nodes spawned
    → completed_at (complete_node id worker attempt output spawned s).1.nodes id ≡ true
unfolding complete_node completed_at
completed_at-complete_node id worker attempt output spawned s n at fresh =
    let n' : Node = record n {
      state = NodeState.completed;
      worker_id = worker;
      attempt = attempt;
      last_heartbeat_at = 0;
      last_error = "";
      output = output;
    } in
    let s' : ExecutionState = record s {
      compensation_stack = push_compensation n s.compensation_stack;
      nodes = add_nodes spawned (insert id n' s.nodes);
    } in
    rw (at, complete_node)
      (completed_at-mark_ready s' id (completed_at-add spawned s.nodes id n n' at fresh refl))

record IsStacked (st : ExecutionState) : Type 0 where
  distinct : Distinct (stack_ids st.compensation_stack)
  done : AllDone st.nodes (stack_ids st.compensation_stack)

-- What a legal event puts on the stack was not completed before, and is completed afterwards.
Legal-pushed :
    (s : ExecutionState) (run_id : String) (now : Time) (p : Payload)
    → IsWellFormed s
    → Legal s p
    → (pushed p s ≡ [])
      ⊎ ((k : String) × (pushed p s ≡ k ∷ [])
          × (completed_at s.nodes k ≡ false)
          × (completed_at (apply_payload run_id now p s).1.nodes k ≡ true))
unfolding pushed apply_payload completed_at
Legal-pushed s run_id now (node_completed id worker attempt output spawned) wf
      (complete n at runs held same kept spawns) =
    elim (Bool-cases (n.compensation_activity == "")) [
      | inl nothing ↦ inl (ground arith)
      | inr some_act ↦
          let named = wf.named id n at in
          let done =
            completed_at-complete_node id worker attempt output spawned s n at spawns.fresh in
          inr (id, ground (arith, named), ground (arith, runs), done)
    ]
Legal-pushed s run_id now _ wf legal = inl refl

IsStacked-event :
    (e : Event) (s : ExecutionState)
    → IsWellFormed s
    → Legal s e.payload
    → IsStacked s
    → IsStacked (apply e s).1
unfolding apply
IsStacked-event e s wf legal old =
    let ids = stack_ids s.compensation_stack in
    let nodes' = (apply e s).1.nodes in
    let grown = stack_ids-apply e s in
    let done' = AllDone-AllMove s.nodes nodes' ids (apply-Evolves e s legal).all_move old.done in
    elim (Legal-pushed s e.run_id e.timestamp e.payload wf legal) [
      | inl nothing ↦
          let same : stack_ids (apply e s).1.compensation_stack ≡ ids =
            grown ∙ ap (λ ks. ids ++ ks) nothing ∙ append-nil ids in
          record {
            distinct = subst Distinct (sym same) old.distinct;
            done = subst (AllDone nodes') (sym same) done';
          }
      | inr (k, one, before, now_done) ↦
          let same : stack_ids (apply e s).1.compensation_stack ≡ ids ++ k ∷ [] =
            grown ∙ ap (λ ks. ids ++ ks) one in
          let there : completed_at nodes' k ≡ true =
            subst (λ m. completed_at m k ≡ true) (sym (nodes-advance_seq e.seq _ _)) now_done in
          record {
            distinct = subst Distinct (sym same) (
                Distinct-append ids k old.distinct
                  (AllDone-contains s.nodes ids k old.done before));
            done = subst (AllDone nodes') (sym same) (AllDone-append nodes' ids k done' there);
          }
    ]

stack-begun : (e : Event) → IsStart e → stack_ids (begun e).st.compensation_stack ≡ []
unfolding apply apply_payload mark_ready_nodes stack_ids
stack-begun e start = simp (start.payload_is, apply)

IsStacked-holds : Holds (λ st _ _. IsStacked st)
IsStacked-holds = record {
  begin = λ e start. record {
    distinct = subst Distinct (sym (stack-begun e start)) tt;
    done = subst (AllDone (begun e).st.nodes) (sym (stack-begun e start)) tt;
  };
  event = λ e st log snapshot wf legal h. IsStacked-event e st wf legal h;
  save = λ st log snapshot h. h;
}

module _ (world : World) where
  -- In every run that is reached, no node is on the compensation stack twice, and each node on it is
  -- completed.
  pub Reach-stack :
      {s : Session}
      → Reach world s
      → Distinct (stack_ids s.st.compensation_stack)
        × AllDone s.st.nodes (stack_ids s.st.compensation_stack)
  Reach-stack reach =
      let h = (Reach-keeps (λ st _ _. IsStacked st) IsStacked-holds world reach).1 in
      (h.distinct, h.done)
