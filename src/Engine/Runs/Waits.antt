-- ===== src/Engine/Runs/Waits.antt =====
-- internal/engine/engine.go and internal/state/state.go: what the pending nodes of a run that is reached
-- wait for.
use grael.Prelude.{String, ◌≡◌, refl, sym, subst, inl, inr, true, false, List, [], ◌∷◌, arith}
use grael.Runtime.{Time, Payload}
use grael.State.{ExecutionState, new, dependencies_completed}
use grael.State.Apply.{apply, apply_payload}
use grael.State.Keys.{adds_nodes, lookup-before}
use grael.State.Moves.{Moves}
use grael.State.Complete.{completion, complete_node-completion}
use grael.State.Waits.{AllWait, mark_ready-AllWait, completed_at-apply_payload}
use grael.Engine.Legal.{Legal, complete}
use grael.Engine.Legal.Nodes.{Legal-Evolves}
use grael.Engine.Steps.Nodes.{nodes-advance_seq}
use grael.Engine.Runs.Reached.{unpromoted, Holds}

-- Dependencies that are completed after an event that completes no node were completed before it.
dependencies_completed-before :
    (run_id : String) (now : Time) (p : Payload) (s : ExecutionState) (deps : List String)
    → adds_nodes p ≡ false
    → dependencies_completed (apply_payload run_id now p s).1.nodes deps ≡ true
    → dependencies_completed s.nodes deps ≡ true
unfolding dependencies_completed
dependencies_completed-before run_id now p s [] other h = refl
dependencies_completed-before run_id now p s (d ∷ deps) other h = ground (
  arith,
  completed_at-apply_payload run_id now p s d other,
  dependencies_completed-before run_id now p s deps other,
)

-- An event that adds no node lets no node begin to wait.
AllWait-other :
    (run_id : String) (now : Time) (p : Payload) (s : ExecutionState)
    → adds_nodes p ≡ false
    → Legal s p
    → AllWait s.nodes
    → AllWait (apply_payload run_id now p s).1.nodes
AllWait-other run_id now p s other legal waits k n' at waiting =
    let evolves = Legal-Evolves s run_id now legal in
    let (n, before) = lookup-before run_id now p s other k n' at in
    let (m, now_at, move) = evolves.all_move k n before in
    let same : m ≡ n' = ground arith in
    let moved = subst (Moves (apply_payload run_id now p s).1.nodes n) same move in
    elim moved [
      | inr c ↦ absurd (ground (arith, c.along))
      | inl kept ↦
          let still = waits k n before (ground arith) in
          let back = dependencies_completed-before run_id now p s n.depends_on other in ground arith
    ]

Legal-AllWait :
    (s : ExecutionState) (run_id : String) (now : Time) {p : Payload}
    → Legal s p
    → AllWait s.nodes
    → AllWait (apply_payload run_id now p s).1.nodes
unfolding apply_payload
Legal-AllWait s run_id now
      (complete {id} {worker} {attempt} {output} {spawned} n at is held same kept spawns) waits =
    rw (complete_node-completion id worker attempt output spawned s n at)
      (mark_ready-AllWait (completion id worker attempt output spawned n s))
Legal-AllWait s run_id now {p} legal waits = AllWait-other run_id now p s refl legal waits

pub AllWait-holds : Holds (λ st _ _. AllWait st.nodes)
unfolding apply apply_payload
AllWait-holds = record {
  begin = λ e start.
      subst (λ p. AllWait (apply (record e { payload = p }) new).1.nodes) (sym start.payload_is)
        (mark_ready-AllWait (unpromoted e start));
  event = λ e st log snapshot wf legal waits.
      subst AllWait (sym (nodes-advance_seq e.seq _ _))
        (Legal-AllWait st e.run_id e.timestamp legal waits);
  save = λ st log snapshot waits. waits;
}
