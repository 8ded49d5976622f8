-- ===== src/Engine/Runs/Outcome.antt =====
-- internal/engine/engine.go, `advanceRunStateLocked`: what a completed run has done.
use grael.Prelude.{
  ◌≡◌, refl, sym, ap, ◌∙◌, ◌⊎◌, inl, inr, true, false, some, [], ◌∷◌, String, ◌==◌, arith,
  Bool-cases, Option-cases,
}
use grael.Prelude.Lists.{all}
use grael.Prelude.Map.{Map, lookup, has, values}
use grael.Runtime.{NodeState, RunState, Payload, Event, is_completed}
use grael.State.{Node, ExecutionState, new}
use grael.State.Apply.{apply, apply_payload}
use grael.State.Flags.{run_state_after, run_state-apply}
use grael.State.Keys.{adds_nodes, has-apply_payload}
use grael.Engine.{World, Session}
use grael.Engine.Queries.{all_nodes_completed}
use grael.Engine.Legal.{Legal, complete, complete_run}
use grael.Engine.Steps.Nodes.{apply-Evolves, nodes-advance_seq}
use grael.Engine.Runs.{Reach}
use grael.Engine.Runs.Reached.{Holds, Reach-keeps}
use grael.Engine.Runs.Nodes.{Moves-completed}

abbrev pub AllCompleted : Map Node → Type 0
AllCompleted nodes = (k : String) (n : Node) → lookup k nodes ≡ some n → is_completed n.state ≡ true

all-AllCompleted :
    (nodes : Map Node) → all (λ n. is_completed n.state) (values nodes) ≡ true → AllCompleted nodes
unfolding values lookup
all-AllCompleted [] h k n at = absurd (ground arith)
all-AllCompleted ((j, m) ∷ nodes) h k n at = elim (Bool-cases (j == k)) [
  | inl same ↦ let same_node : m ≡ n = ground arith in ground arith
  | inr other ↦ all-AllCompleted nodes (ground arith) k n (ground arith)
]

-- An event that adds no node keeps it that all are completed.
AllCompleted-event :
    (e : Event) (s : ExecutionState)
    → Legal s e.payload
    → adds_nodes e.payload ≡ false
    → AllCompleted s.nodes
    → AllCompleted (apply e s).1.nodes
unfolding has apply
AllCompleted-event e s legal none_added done k n' at = elim (Option-cases (lookup k s.nodes)) [
  | inl absent ↦
      let same = has-apply_payload e.run_id e.timestamp e.payload s k none_added in
      let nodes' = (apply_payload e.run_id e.timestamp e.payload s).1.nodes in
      let changed = apply_payload e.run_id e.timestamp e.payload s in
      let kept : (apply e s).1.nodes ≡ nodes' = nodes-advance_seq e.seq changed.0 changed.1 in
      let at' : lookup k nodes' ≡ some n' = ap (lookup k) (sym kept) ∙ at in absurd (ground arith)
  | inr (n, before) ↦
      let (m, now, move) = (apply-Evolves e s legal).all_move k n before in
      let done_m = Moves-completed (apply e s).1.nodes n m move (done k n before) in
      let same : m ≡ n' = ground arith in ground arith
]

-- Where all nodes are completed, no legal event adds one.
adds_none :
    (s : ExecutionState) {p : Payload} → Legal s p → AllCompleted s.nodes → adds_nodes p ≡ false
adds_none s (complete {id} n at runs held same kept spawns) done =
    let completed = done id n at in absurd (ground arith)
adds_none s _ done = refl

-- The run state is `completed` after an event only by the event that ends the run, or as it was.
ends_by :
    (s : ExecutionState) {p : Payload}
    → Legal s p
    → run_state_after p s.run_state ≡ RunState.completed
    → (s.run_state ≡ RunState.completed) ⊎ (all_nodes_completed s ≡ true)
ends_by s (complete_run live all_done) h = inr all_done
ends_by s _ h = ground arith

abbrev Outcome : ExecutionState → Type 0
Outcome s = s.run_state ≡ RunState.completed → AllCompleted s.nodes

Outcome-event :
    (e : Event) (s : ExecutionState) → Legal s e.payload → Outcome s → Outcome (apply e s).1
unfolding all_nodes_completed
Outcome-event e s legal out h =
    let before : AllCompleted s.nodes = elim (ends_by s legal (sym (run_state-apply e s) ∙ h)) [
      | inl same ↦ out same
      | inr all_done ↦ all-AllCompleted s.nodes (ground arith)
    ] in
    AllCompleted-event e s legal (adds_none s legal before) before

Outcome-holds : Holds (λ st _ _. Outcome st)
Outcome-holds = record {
  begin = λ e start h. absurd (
      let running : run_state_after e.payload new.run_state ≡ RunState.running =
        rw start.payload_is refl in
      let after = run_state-apply e new in ground arith);
  event = λ e st log snapshot wf legal out. Outcome-event e st legal out;
  save = λ st log snapshot out. out;
}

module _ (world : World) where
  -- Every node of a run that is reached and is COMPLETED is completed.
  pub Reach-completed :
      {s : Session} (k : String) (n : Node)
      → Reach world s
      → s.st.run_state ≡ RunState.completed
      → lookup k s.st.nodes ≡ some n
      → n.state ≡ NodeState.completed
  Reach-completed k n reach ended at =
      let out = (Reach-keeps (λ st _ _. Outcome st) Outcome-holds world reach).1 in
      let done = out ended k n at in ground arith
