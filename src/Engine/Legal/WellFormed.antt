-- ===== src/Engine/Legal/WellFormed.antt =====
-- internal/state/state.go and internal/engine/engine.go: the invariant of the two maps of a run, and
-- `Apply` under it.
use grael.Prelude.{
  ℕ, String, ◌≡◌, refl, sym, subst, ◌∙◌, ◌⊎◌, inl, inr, Bool, true, false, not, ◌||◌, some, List,
  ◌==◌, eq_iff, arith, Bool-cases, Option-cases,
}
use grael.Prelude.Map.{Map, lookup, insert, has, lookup-insert, has-lookup}
use grael.Result.{ok}
use grael.Runtime.{Time, Values, NodeDefinition, TimerPurpose, Payload, compensation_task_started}
use grael.State.Flags.{run_state_after, run_state-apply_payload}
use grael.Engine.Queries.{is_some}
use grael.State.{Node, Timer, ExecutionState, with_node, holds_compensation, mark_ready_nodes}
use grael.State.Apply.{
  apply_payload, heartbeat, expire_lease, fire_timer, complete_node, start_compensation_task, retry,
  is_retry,
}
use grael.State.Moves.{AllMove}
use grael.Engine.Legal.{
  Legal, grant, start, beat, beat_task, expire, start_task, schedule, fire, reach, approve, cancel,
  stop, complete, fail, compensate, fail_run, fail_compensation, complete_run, may_compensate,
}
use grael.Engine.Legal.Nodes.{Legal-Evolves}

-- Nodes and timers stand under their ids, each timer is about a node that is there, and a compensation
-- task is active only in a run that is being compensated, or has been cancelled meanwhile.
pub record IsWellFormed (s : ExecutionState) : Type 0 where
  pub named : (k : String) (n : Node) → lookup k s.nodes ≡ some n → n.id ≡ k
  pub timer_named : (k : String) (t : Timer) → lookup k s.timers ≡ some t → t.id ≡ k
  pub timer_node :
      (k : String) (t : Timer) → lookup k s.timers ≡ some t → has s.nodes t.node_id ≡ true
  pub settled : (not (is_some s.active_compensation) || may_compensate s.run_state) ≡ true

-- A timer afterwards is one from before, fired or not, or a new one.
abbrev TimerFrom : ExecutionState → String → Timer → Type 0
TimerFrom s k t' =
    ((t : Timer) × (lookup k s.timers ≡ some t) × (t'.id ≡ t.id) × (t'.node_id ≡ t.node_id))
    ⊎ ((t'.id ≡ k) × (has s.nodes t'.node_id ≡ true))

abbrev TimersFrom : ExecutionState → Map Timer → Type 0
TimersFrom s timers' = (k : String) (t' : Timer) → lookup k timers' ≡ some t' → TimerFrom s k t'

TimersFrom-same :
    (s : ExecutionState) (timers' : Map Timer) → timers' ≡ s.timers → TimersFrom s timers'
TimersFrom-same s timers' e k t' at = inl (t', ground arith, refl, refl)

timers-with_node :
    (s : ExecutionState) (id : String) (f : Node → Node) → (with_node id f s).1.timers ≡ s.timers
unfolding with_node
timers-with_node s id f = ground arith

timers-heartbeat :
    (s : ExecutionState) (now : Time) (id worker : String) (attempt : ℕ)
    → (heartbeat now id worker attempt s).1.timers ≡ s.timers
unfolding heartbeat
timers-heartbeat s now id worker attempt = ground arith

timers-expire :
    (s : ExecutionState) (id : String) (attempt : ℕ)
    → (expire_lease id attempt s).1.timers ≡ s.timers
unfolding expire_lease
timers-expire s id attempt = ground arith

timers-start_task :
    (s : ExecutionState) (now : Time) (id worker : String) (attempt : ℕ)
    → (start_compensation_task now id worker attempt s).timers ≡ s.timers
unfolding start_compensation_task
timers-start_task s now id worker attempt = ground arith

timers-complete_node :
    (s : ExecutionState) (id worker : String) (attempt : ℕ) (output : Values)
    (spawned : List NodeDefinition)
    → (complete_node id worker attempt output spawned s).1.timers ≡ s.timers
unfolding complete_node mark_ready_nodes
timers-complete_node s id worker attempt output spawned = ground arith

TimersFrom-insert :
    (s : ExecutionState) (timers' : Map Timer) (k : String) (t₁ : Timer)
    → timers' ≡ insert k t₁ s.timers
    → TimerFrom s k t₁
    → TimersFrom s timers'
TimersFrom-insert s timers' k t₁ e from j t' at = elim (Bool-cases (k == j)) [
  | inl same ↦
      let e' : t₁ ≡ t' = ground (arith, lookup-insert k j t₁ s.timers) in
      subst (λ x. TimerFrom s j x) e' (subst (λ i. TimerFrom s i t₁) ((eq_iff k j).0 same) from)
  | inr other ↦ inl (t', ground (arith, lookup-insert k j t₁ s.timers), refl, refl)
]

timers-fire :
    (s : ExecutionState) (timer_id id : String) (attempt : ℕ) (purpose : TimerPurpose) (t : Timer)
    → lookup timer_id s.timers ≡ some t
    → (fire_timer timer_id id attempt purpose s).1.timers
      ≡ insert timer_id (record t { fired = true }) s.timers
unfolding fire_timer
timers-fire s timer_id id attempt purpose t at =
    rw (at, fire_timer)
      (elim (Bool-cases (is_retry purpose)) [
        | inl h ↦ rw h (timers-with_node _ id (retry attempt))
        | inr h ↦ rw h refl
      ])

Legal-TimersFrom :
    (s : ExecutionState) (run_id : String) (now : Time) {p : Payload}
    → Legal s p
    → TimersFrom s (apply_payload run_id now p s).1.timers
unfolding apply_payload
Legal-TimersFrom s run_id now (grant n at is same live) =
    TimersFrom-same s _ (timers-with_node s _ _)
Legal-TimersFrom s run_id now (start n at is same held) =
    TimersFrom-same s _ (timers-with_node s _ _)
Legal-TimersFrom s run_id now (beat {id} {worker} {attempt} n at is held same) =
    TimersFrom-same s _ (timers-heartbeat s now id worker attempt)
Legal-TimersFrom s run_id now (beat_task {id} {worker} {attempt} a at named held same) =
    TimersFrom-same s _ (timers-heartbeat s now id worker attempt)
Legal-TimersFrom s run_id now (expire {id} {worker} {attempt} n at is same) =
    TimersFrom-same s _ (timers-expire s id attempt)
Legal-TimersFrom s run_id now (start_task {id} {worker} {attempt = a} c live next same e) =
    TimersFrom-same s _ (timers-start_task s now id worker a)
Legal-TimersFrom s run_id now
      (schedule {timer_id} {id} {attempt = a} {fire_at = t} {purpose = p} n at) =
    TimersFrom-insert s _ timer_id _ refl (inr (refl, has-lookup id n s.nodes at))
Legal-TimersFrom s run_id now
      (fire {timer_id} {id} {attempt = a} {purpose = p} t at unfired same e f live) =
    TimersFrom-insert s _ timer_id (record t { fired = true }) (timers-fire s timer_id id a p t at)
      (inl (t, at, refl, refl))
Legal-TimersFrom s run_id now (reach n at is kept) = TimersFrom-same s _ (timers-with_node s _ _)
Legal-TimersFrom s run_id now (approve n at is live) = TimersFrom-same s _ (timers-with_node s _ _)
Legal-TimersFrom s run_id now (cancel n at is asked) = TimersFrom-same s _ (timers-with_node s _ _)
Legal-TimersFrom s run_id now (stop n at is) = TimersFrom-same s _ (timers-with_node s _ _)
Legal-TimersFrom s run_id now
      (complete {id} {worker} {attempt} {output} {spawned} n at is held same kept spawns) =
    TimersFrom-same s _ (timers-complete_node s id worker attempt output spawned)
Legal-TimersFrom s run_id now (fail n at is same) = TimersFrom-same s _ (timers-with_node s _ _)
Legal-TimersFrom s run_id now _ = TimersFrom-same s _ refl

-- A node that is there is there afterwards, under the same id.
pub has-AllMove :
    (nodes nodes' : Map Node) (k : String)
    → AllMove nodes nodes'
    → has nodes k ≡ true
    → has nodes' k ≡ true
unfolding has
has-AllMove nodes nodes' k moves h = elim (Option-cases (lookup k nodes)) [
  | inl e ↦ absurd (ground arith)
  | inr (n, e) ↦ let (n', e', _) = moves k n e in ground arith
]

named-AllMove :
    (nodes nodes' : Map Node) (k : String) (n n' : Node)
    → AllMove nodes nodes'
    → lookup k nodes ≡ some n
    → n.id ≡ k
    → lookup k nodes' ≡ some n'
    → n'.id ≡ k
named-AllMove nodes nodes' k n n' moves at named at' =
    let (m, e, move) = moves k n at in
    elim move [ inl kept ↦ ground arith | inr c ↦ ground (arith, c.same_id) ]

abbrev starts_task : Payload → Bool
starts_task (compensation_task_started _ _ _ _) = true
starts_task _ = false

-- A compensation task is active afterwards only where it was, or where the event starts it.
active-apply_payload :
    (run_id : String) (now : Time) (p : Payload) (s : ExecutionState)
    → is_some (apply_payload run_id now p s).1.active_compensation ≡ true
    → (starts_task p || is_some s.active_compensation) ≡ true
unfolding apply_payload heartbeat expire_lease fire_timer complete_node with_node mark_ready_nodes
active-apply_payload run_id now _ s active = ground arith

Legal-settled :
    (s : ExecutionState) (run_id : String) (now : Time) {p : Payload}
    → Legal s p
    → (not (is_some s.active_compensation) || may_compensate s.run_state) ≡ true
    → (not (is_some (apply_payload run_id now p s).1.active_compensation)
        || may_compensate (apply_payload run_id now p s).1.run_state)
      ≡ true
Legal-settled s run_id now {p} legal settled =
    rw (run_state-apply_payload run_id now p s) (go legal (active-apply_payload run_id now p s))
  where
    go :
        {p' : Payload} {b : Bool}
        → Legal s p'
        → (b ≡ true → (starts_task p' || is_some s.active_compensation) ≡ true)
        → (not b || may_compensate (run_state_after p' s.run_state)) ≡ true
    go (start_task c live next same e) active = ground (arith, live.run)
    go (compensate live failure work) active = ground arith
    go (Legal.compensated live done idle) active = ground (arith, idle)
    go (fail_run live failure work) active = ground (arith, live.run)
    go (fail_compensation idle because state) active = ground (arith, idle)
    go (complete_run live all) active = ground (arith, live.run)
    go _ active = ground arith

-- The invariant is kept by legal events.
pub Legal-IsWellFormed :
    (s : ExecutionState) (run_id : String) (now : Time) {p : Payload}
    → Legal s p
    → IsWellFormed s
    → IsWellFormed (apply_payload run_id now p s).1
Legal-IsWellFormed s run_id now {p} legal wf =
    let s' = (apply_payload run_id now p s).1 in
    let nodes = Legal-Evolves s run_id now legal in
    let timers = Legal-TimersFrom s run_id now legal in
    record {
      named = λ k n' at. elim (nodes.only_new k n' at) [
        | inl (n, before) ↦
            named-AllMove s.nodes s'.nodes k n n' nodes.all_move before (wf.named k n before) at
        | inr new ↦ new.named
      ];
      timer_named = λ k t' at. elim (timers k t' at) [
        | inl (t, before, same, _) ↦ same ∙ wf.timer_named k t before
        | inr (named, _) ↦ named
      ];
      timer_node = λ k t' at.
          has-AllMove s.nodes s'.nodes t'.node_id nodes.all_move (elim (timers k t' at) [
            | inl (t, before, _, same) ↦ rw same (wf.timer_node k t before)
            | inr (_, there) ↦ there
          ]);
      settled = Legal-settled s run_id now legal wf.settled;
    }

-- `Apply` accepts a legal event in a well-formed state.
pub apply-legal :
    (s : ExecutionState) (run_id : String) (now : Time) {p : Payload}
    → IsWellFormed s
    → Legal s p
    → (apply_payload run_id now p s).0 ≡ ok tt
unfolding apply_payload with_node heartbeat expire_lease complete_node fire_timer has
    holds_compensation
apply-legal s run_id now wf (grant n at is same live) = ground arith
apply-legal s run_id now wf (start n at is same held) = ground arith
apply-legal s run_id now wf (beat n at is held same) = ground arith
apply-legal s run_id now wf (beat_task {id} {worker} {attempt} a at named held same) =
    let h : holds_compensation s.active_compensation id worker attempt ≡ true =
      ground (arith, eq_iff a.node_id id, eq_iff a.worker_id worker) in
    elim (Option-cases (lookup id s.nodes)) [
      | inl e ↦ rw (e, heartbeat) (rw h refl)
      | inr (n, e) ↦ rw (e, heartbeat) refl
    ]
apply-legal s run_id now wf (expire n at is same) = ground arith
apply-legal s run_id now wf
      (fire {timer_id} {id} {attempt = a} {purpose = p} t at unfired same e f live) =
    ground (arith, wf.timer_node timer_id t at)
apply-legal s run_id now wf (reach n at is kept) = ground arith
apply-legal s run_id now wf (approve n at is live) = ground arith
apply-legal s run_id now wf (cancel n at is asked) = ground arith
apply-legal s run_id now wf (stop n at is) = ground arith
apply-legal s run_id now wf (complete n at is held same kept spawns) = ground arith
apply-legal s run_id now wf (fail n at is same) = ground arith
apply-legal s run_id now wf _ = refl

-- A node is found under its own id.
pub lookup-node_id :
    (s : ExecutionState) (id : String) (n : Node)
    → IsWellFormed s
    → lookup id s.nodes ≡ some n
    → lookup n.id s.nodes ≡ some n
lookup-node_id s id n wf e = subst (λ i. lookup i s.nodes ≡ some n) (sym (wf.named id n e)) e
