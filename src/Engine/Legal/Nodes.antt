-- ===== src/Engine/Legal/Nodes.antt =====
-- internal/state/state.go and internal/engine/engine.go: what a legal event does to the nodes.
use grael.Prelude.{
  ℕ, String, ◌≡◌, refl, inl, inr, true, false, ◌&&◌, some, List, ◌==◌, nat_eq, arith, if◌then◌else◌,
  Bool-cases, Option-cases,
}
use grael.Prelude.Map.{Map, lookup, insert}
use grael.Runtime.{
  Time, NodeState, Values, NodeDefinition, TimerPurpose, Payload, is_pending, is_ready, is_failed,
}
use grael.State.{Node, ExecutionState, add_nodes, with_node, on_stack, holds_compensation}
use grael.State.Apply.{
  apply_payload, heartbeat, expire_lease, fire_timer, complete_node, start_compensation_task, retry,
  is_retry, push_compensation,
}
use grael.State.Moves.{
  edge, Moves, AllMove, OnlyNew, AllMove-refl, OnlyNew-refl, AllMove-insert, OnlyNew-insert,
}
use grael.State.Complete.{AllMove-complete, OnlyNew-complete}
use grael.State.Moves.{IsFresh}
use grael.Engine.Legal.{Legal}
use grael.Engine.Legal.{
  grant, start, beat, beat_task, expire, start_task, fire, reach, approve, cancel, stop, complete,
  fail,
}

moved :
    (nodes' : Map Node) (n n' : Node)
    → edge n.state n'.state ≡ true
    → n'.id ≡ n.id
    → n'.depends_on ≡ n.depends_on
    → (is_pending n.state && is_ready n'.state) ≡ false
    → Moves nodes' n n'
moved nodes' n n' along same_id same_deps other =
    inr (record {
      along = along;
      same_id = same_id;
      same_deps = same_deps;
      met = λ p r. ground arith;
    })

-- The nodes of two states, of which the second is reached by a legal event.
pub record Evolves (nodes nodes' : Map Node) : Type 0 where
  pub all_move : AllMove nodes nodes'
  pub only_new : OnlyNew nodes nodes'

Evolves-refl : (nodes : Map Node) → Evolves nodes nodes
Evolves-refl nodes = record { all_move = AllMove-refl nodes; only_new = OnlyNew-refl nodes }

Evolves-insert :
    (nodes : Map Node) (id : String) (n n' : Node)
    → lookup id nodes ≡ some n
    → Moves (insert id n' nodes) n n'
    → Evolves nodes (insert id n' nodes)
Evolves-insert nodes id n n' at move = record {
  all_move = AllMove-insert nodes id n n' at move;
  only_new = OnlyNew-insert nodes id n n' at;
}

Evolves-with_node :
    (s : ExecutionState) (id : String) (f : Node → Node) (n : Node)
    → lookup id s.nodes ≡ some n
    → Moves (insert id (f n) s.nodes) n (f n)
    → Evolves s.nodes (with_node id f s).1.nodes
unfolding with_node
Evolves-with_node s id f n at move = rw (at, with_node) (Evolves-insert s.nodes id n (f n) at move)

-- A heartbeat changes no more of a node than its last heartbeat.
Evolves-heartbeat :
    (s : ExecutionState) (now : Time) (id worker : String) (attempt : ℕ)
    → Evolves s.nodes (heartbeat now id worker attempt s).1.nodes
unfolding heartbeat
Evolves-heartbeat s now id worker attempt = elim (Option-cases (lookup id s.nodes)) [
  | inl e ↦
      rw (e, heartbeat)
        (elim (Bool-cases (holds_compensation s.active_compensation id worker attempt)) [
          | inl h ↦ rw h (Evolves-refl s.nodes)
          | inr h ↦ rw h (Evolves-refl s.nodes)
        ])
  | inr (n, e) ↦
      rw (e, heartbeat)
        (Evolves-insert s.nodes id n
          (if nat_eq n.attempt attempt && n.worker_id == worker
            then record n { last_heartbeat_at = now }
            else n)
          e (inl (ground arith)))
]

Evolves-expire :
    (s : ExecutionState) (id : String) (attempt : ℕ) (n : Node)
    → lookup id s.nodes ≡ some n
    → n.state ≡ NodeState.running
    → n.attempt ≡ attempt
    → Evolves s.nodes (expire_lease id attempt s).1.nodes
unfolding expire_lease
Evolves-expire s id attempt n at runs same =
    let e : nat_eq n.attempt attempt ≡ true = ground arith in
    rw (at, expire_lease)
      (rw e
        (Evolves-insert s.nodes id n _ at (moved _ n _ (ground arith) refl refl (ground arith))))

Evolves-start_task :
    (s : ExecutionState) (now : Time) (id worker : String) (attempt : ℕ)
    → Evolves s.nodes (start_compensation_task now id worker attempt s).nodes
unfolding start_compensation_task
Evolves-start_task s now id worker attempt = elim (Bool-cases (on_stack id s.compensation_stack)) [
  | inl h ↦ rw (h, start_compensation_task) (Evolves-refl s.nodes)
  | inr h ↦ rw (h, start_compensation_task) (Evolves-refl s.nodes)
]

retry-Moves : (nodes' : Map Node) (attempt : ℕ) (n : Node) → Moves nodes' n (retry attempt n)
retry-Moves nodes' attempt n = elim (Bool-cases (nat_eq n.attempt attempt && is_failed n.state)) [
  | inl h ↦ rw h (moved nodes' n _ (ground arith) refl refl (ground arith))
  | inr h ↦ rw h (inl refl)
]

Evolves-retry :
    (s : ExecutionState) (id : String) (attempt : ℕ)
    → Evolves s.nodes (with_node id (retry attempt) s).1.nodes
unfolding with_node
Evolves-retry s id attempt = elim (Option-cases (lookup id s.nodes)) [
  | inl e ↦ rw (e, with_node) (Evolves-refl s.nodes)
  | inr (n, e) ↦ Evolves-with_node s id (retry attempt) n e (retry-Moves _ attempt n)
]

Evolves-fire :
    (s : ExecutionState) (timer_id id : String) (attempt : ℕ) (purpose : TimerPurpose)
    → Evolves s.nodes (fire_timer timer_id id attempt purpose s).1.nodes
unfolding fire_timer
Evolves-fire s timer_id id attempt purpose = elim (Option-cases (lookup timer_id s.timers)) [
  | inl e ↦ rw (e, fire_timer) (Evolves-refl s.nodes)
  | inr (t, e) ↦
      let timers = insert timer_id (record t { fired = true }) s.timers in
      rw (e, fire_timer)
        (elim (Bool-cases (is_retry purpose)) [
          | inl h ↦ rw h (Evolves-retry (record s { timers = timers }) id attempt)
          | inr h ↦ rw h (Evolves-refl s.nodes)
        ])
]

Evolves-complete :
    (s : ExecutionState) (id worker : String) (attempt : ℕ) (output : Values)
    (spawned : List NodeDefinition) (n : Node)
    → lookup id s.nodes ≡ some n
    → n.state ≡ NodeState.running
    → IsFresh s.nodes spawned
    → Evolves s.nodes (complete_node id worker attempt output spawned s).1.nodes
unfolding complete_node
Evolves-complete s id worker attempt output spawned n at runs fresh =
    let n' = record n {
      state = NodeState.completed;
      worker_id = worker;
      attempt = attempt;
      last_heartbeat_at = 0;
      last_error = "";
      output = output;
    } in
    let s' = record s {
      compensation_stack = push_compensation n s.compensation_stack;
      nodes = add_nodes spawned (insert id n' s.nodes);
    } in
    rw (at, complete_node)
      (record {
        all_move = AllMove-complete s' s.nodes id n n' spawned at refl runs refl refl refl fresh;
        only_new = OnlyNew-complete s' s.nodes id n n' spawned at refl;
      })

-- A legal event removes no node, moves each node along at most one edge of its state machine, from
-- pending to ready only where its dependencies are completed, and adds only nodes that stand under
-- their ids and are pending, or ready with completed dependencies.
pub Legal-Evolves :
    (s : ExecutionState) (run_id : String) (now : Time) {p : Payload}
    → Legal s p
    → Evolves s.nodes (apply_payload run_id now p s).1.nodes
unfolding apply_payload
Legal-Evolves s run_id now (grant n at is same live) =
    Evolves-with_node s _ _ n at (moved _ n _ (ground arith) refl refl (ground arith))
Legal-Evolves s run_id now (start n at is same held) =
    Evolves-with_node s _ _ n at (moved _ n _ (ground arith) refl refl (ground arith))
Legal-Evolves s run_id now (beat n at is held same) = Evolves-heartbeat s now _ _ _
Legal-Evolves s run_id now (beat_task a at id held same) = Evolves-heartbeat s now _ _ _
Legal-Evolves s run_id now (expire n at is same) = Evolves-expire s _ _ n at is same
Legal-Evolves s run_id now (start_task c live next same e) = Evolves-start_task s now _ _ _
Legal-Evolves s run_id now (fire t at unfired id same purpose live) = Evolves-fire s _ _ _ _
Legal-Evolves s run_id now (reach n at is kept) =
    Evolves-with_node s _ _ n at (moved _ n _ (ground arith) refl refl (ground arith))
Legal-Evolves s run_id now (approve n at is live) = Evolves-with_node s _ _ n at (ground (arith))
Legal-Evolves s run_id now (cancel n at is asked) =
    Evolves-with_node s _ _ n at (moved _ n _ (ground arith) refl refl (ground arith))
Legal-Evolves s run_id now (stop n at is) =
    Evolves-with_node s _ _ n at (moved _ n _ (ground arith) refl refl (ground arith))
Legal-Evolves s run_id now (complete n at is held same kept spawns) =
    Evolves-complete s _ _ _ _ _ n at is spawns.fresh
Legal-Evolves s run_id now (fail n at is same) =
    Evolves-with_node s _ _ n at (moved _ n _ (ground arith) refl refl (ground arith))
Legal-Evolves s run_id now _ = Evolves-refl s.nodes
