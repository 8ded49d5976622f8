-- ===== src/State/Waits.antt =====
-- internal/state/state.go: which nodes wait after `markReadyNodes`, and which events complete a node.
use grael.Prelude.{
  ℕ, ◌≡◌, inl, inr, true, false, ◌&&◌, some, String, ◌==◌, eq_iff, nat_eq, arith, if◌then◌else◌,
  Bool-cases, Option-cases,
}
use grael.Prelude.Map.{Map, lookup, insert, lookup-insert}
use grael.Runtime.{
  Time, TimerPurpose, Payload, workflow_started, lease_granted, heartbeat_recorded,
  compensation_task_started, timer_fired, checkpoint_reached, checkpoint_approved, node_ready,
  node_started, node_cancelled, node_completed, node_failed, is_pending, is_completed,
}
use grael.State.{
  Node, ExecutionState, completed_at, dependencies_completed, promote, mark_ready_nodes, with_node,
}
use grael.State.Apply.{
  apply_payload, heartbeat, expire_lease, fire_timer, start_compensation_task, is_retry, retry,
}
use grael.State.Ready.{dependencies_completed-cong, lookup-mark_ready, mark_ready_SameCompleted}
use grael.State.Keys.{adds_nodes}

-- Each pending node waits for a dependency that is not completed.
abbrev pub AllWait : Map Node → Type 0
AllWait nodes =
    (k : String) (n : Node)
    → lookup k nodes ≡ some n
    → is_pending n.state ≡ true
    → dependencies_completed nodes n.depends_on ≡ false

pub mark_ready-AllWait : (s : ExecutionState) → AllWait (mark_ready_nodes s).nodes
unfolding promote
mark_ready-AllWait s k n at waits = elim (Option-cases (lookup k s.nodes)) [
  | inl absent ↦ absurd (ground (arith, lookup-mark_ready s k))
  | inr (m, e) ↦
      let same =
        dependencies_completed-cong s.nodes (mark_ready_nodes s).nodes m.depends_on
          (mark_ready_SameCompleted s) in
      ground (arith, lookup-mark_ready s k)
]

-- A write that completes no node.
abbrev CompletesNone : (Node → Node) → Type 0
CompletesNone f = (n : Node) → is_completed (f n).state ≡ true → is_completed n.state ≡ true

completed_at-insert :
    (nodes : Map Node) (id k : String) (n n' : Node)
    → lookup id nodes ≡ some n
    → (is_completed n'.state ≡ true → is_completed n.state ≡ true)
    → completed_at (insert id n' nodes) k ≡ true
    → completed_at nodes k ≡ true
unfolding completed_at
completed_at-insert nodes id k n n' at none_done h =
    ground (arith, lookup-insert id k n' nodes, eq_iff id k)

completed_at-with_node :
    (s : ExecutionState) (id k : String) (f : Node → Node)
    → CompletesNone f
    → completed_at (with_node id f s).1.nodes k ≡ true
    → completed_at s.nodes k ≡ true
unfolding with_node
completed_at-with_node s id k f none_done h = elim (Option-cases (lookup id s.nodes)) [
  | inl e ↦ (rw (e, with_node) at h)
  | inr (n, e) ↦ completed_at-insert s.nodes id k n (f n) e (none_done n) (rw (e, with_node) at h)
]

completed_at-heartbeat :
    (s : ExecutionState) (now : Time) (id worker k : String) (attempt : ℕ)
    → completed_at (heartbeat now id worker attempt s).1.nodes k ≡ true
    → completed_at s.nodes k ≡ true
unfolding heartbeat
completed_at-heartbeat s now id worker k attempt h = elim (Option-cases (lookup id s.nodes)) [
  | inl e ↦ ground arith
  | inr (n, e) ↦
      completed_at-insert s.nodes id k n
        (if nat_eq n.attempt attempt && n.worker_id == worker
          then record n { last_heartbeat_at = now }
          else n)
        e (λ d. ground arith) (rw (e, heartbeat) at h)
]

completed_at-expire :
    (s : ExecutionState) (id k : String) (attempt : ℕ)
    → completed_at (expire_lease id attempt s).1.nodes k ≡ true
    → completed_at s.nodes k ≡ true
unfolding expire_lease
completed_at-expire s id k attempt h = elim (Option-cases (lookup id s.nodes)) [
  | inl e ↦ (rw (e, expire_lease) at h)
  | inr (n, e) ↦ elim (Bool-cases (nat_eq n.attempt attempt)) [
    | inl g ↦ completed_at-insert s.nodes id k n _ e (λ d. cc) (rw g at (rw (e, expire_lease) at h))
    | inr g ↦ (rw g at (rw (e, expire_lease) at h))
  ]
]

completed_at-fire :
    (s : ExecutionState) (timer_id id k : String) (attempt : ℕ) (purpose : TimerPurpose)
    → completed_at (fire_timer timer_id id attempt purpose s).1.nodes k ≡ true
    → completed_at s.nodes k ≡ true
unfolding fire_timer
completed_at-fire s timer_id id k attempt purpose h =
    elim (Option-cases (lookup timer_id s.timers)) [
      | inl e ↦ (rw (e, fire_timer) at h)
      | inr (t, e) ↦ elim (Bool-cases (is_retry purpose)) [
        | inl g ↦
            completed_at-with_node _ id k (retry attempt) (λ n d. ground arith)
              (rw g at (rw (e, fire_timer) at h))
        | inr g ↦ (rw g at (rw (e, fire_timer) at h))
      ]
    ]

completed_at-start_task :
    (s : ExecutionState) (now : Time) (id worker k : String) (attempt : ℕ)
    → completed_at (start_compensation_task now id worker attempt s).nodes k ≡ true
    → completed_at s.nodes k ≡ true
unfolding start_compensation_task
completed_at-start_task s now id worker k attempt h = ground arith

-- Only a `NodeCompleted` event completes a node.
pub completed_at-apply_payload :
    (run_id : String) (now : Time) (p : Payload) (s : ExecutionState) (k : String)
    → adds_nodes p ≡ false
    → completed_at (apply_payload run_id now p s).1.nodes k ≡ true
    → completed_at s.nodes k ≡ true
unfolding apply_payload
completed_at-apply_payload run_id now (workflow_started _ _ _) s k g h = absurd (ground arith)
completed_at-apply_payload run_id now (node_completed _ _ _ _ _) s k g h = absurd (ground arith)
completed_at-apply_payload run_id now (lease_granted id _ _ _) s k g h =
    completed_at-with_node s id k _ (λ n d. d) h
completed_at-apply_payload run_id now (heartbeat_recorded id worker attempt) s k g h =
    completed_at-heartbeat s now id worker k attempt h
completed_at-apply_payload run_id now (Payload.lease_expired id _ attempt) s k g h =
    completed_at-expire s id k attempt h
completed_at-apply_payload run_id now (compensation_task_started id worker attempt _) s k g h =
    completed_at-start_task s now id worker k attempt h
completed_at-apply_payload run_id now (timer_fired timer_id id attempt purpose) s k g h =
    completed_at-fire s timer_id id k attempt purpose h
completed_at-apply_payload run_id now (checkpoint_reached id _ _ _) s k g h =
    completed_at-with_node s id k _ (λ n d. cc) h
completed_at-apply_payload run_id now (checkpoint_approved id) s k g h =
    completed_at-with_node s id k _ (λ n d. ground arith) h
completed_at-apply_payload run_id now (node_ready id) s k g h =
    completed_at-with_node s id k _ (λ n d. ground arith) h
completed_at-apply_payload run_id now (node_started id _ _) s k g h =
    completed_at-with_node s id k _ (λ n d. cc) h
completed_at-apply_payload run_id now (node_cancelled id _ _) s k g h =
    completed_at-with_node s id k _ (λ n d. cc) h
completed_at-apply_payload run_id now (node_failed id _ _ _ _ _) s k g h =
    completed_at-with_node s id k _ (λ n d. cc) h
completed_at-apply_payload run_id now _ s k g h = h
