-- ===== src/State/Keys.antt =====
-- internal/state/state.go: which events add nodes.
use grael.Prelude.{
  ℕ, ◌≡◌, refl, sym, ◌∙◌, inl, inr, Bool, true, false, some, String, eq_iff, nat_eq, arith,
  Bool-cases, Option-cases,
}
use grael.Prelude.Map.{Map, lookup, insert, has, lookup-insert, has-lookup, lookup-has}
use grael.Runtime.{
  Time, TimerPurpose, Payload, workflow_started, lease_granted, heartbeat_recorded,
  compensation_task_started, timer_fired, checkpoint_reached, checkpoint_approved, node_ready,
  node_started, node_cancelled, node_completed, node_failed,
}
use grael.State.{Node, ExecutionState, with_node}
use grael.State.Apply.{
  apply_payload, heartbeat, expire_lease, fire_timer, start_compensation_task, is_retry, retry,
}

abbrev pub adds_nodes : Payload → Bool
adds_nodes (workflow_started _ _ _) = true
adds_nodes (node_completed _ _ _ _ _) = true
adds_nodes _ = false

has-insert :
    (nodes : Map Node) (id k : String) (n n' : Node)
    → lookup id nodes ≡ some n
    → has (insert id n' nodes) k ≡ has nodes k
unfolding has
has-insert nodes id k n n' at = ground (arith, lookup-insert id k n' nodes, eq_iff id k)

has-with_node :
    (s : ExecutionState) (id k : String) (f : Node → Node)
    → has (with_node id f s).1.nodes k ≡ has s.nodes k
unfolding with_node
has-with_node s id k f = elim (Option-cases (lookup id s.nodes)) [
  | inl e ↦ rw (e, with_node) refl
  | inr (n, e) ↦ rw (e, with_node) (has-insert s.nodes id k n (f n) e)
]

has-heartbeat :
    (s : ExecutionState) (now : Time) (id worker k : String) (attempt : ℕ)
    → has (heartbeat now id worker attempt s).1.nodes k ≡ has s.nodes k
unfolding heartbeat
has-heartbeat s now id worker k attempt = elim (Option-cases (lookup id s.nodes)) [
  | inl e ↦ ground arith
  | inr (n, e) ↦ rw (e, heartbeat) (has-insert s.nodes id k n _ e)
]

has-expire_lease :
    (s : ExecutionState) (id k : String) (attempt : ℕ)
    → has (expire_lease id attempt s).1.nodes k ≡ has s.nodes k
unfolding expire_lease
has-expire_lease s id k attempt = elim (Option-cases (lookup id s.nodes)) [
  | inl e ↦ rw (e, expire_lease) refl
  | inr (n, e) ↦ elim (Bool-cases (nat_eq n.attempt attempt)) [
    | inl h ↦ rw (e, expire_lease) (rw h (has-insert s.nodes id k n _ e))
    | inr h ↦ rw (e, expire_lease) (rw h refl)
  ]
]

has-fire_timer :
    (s : ExecutionState) (timer_id id k : String) (attempt : ℕ) (purpose : TimerPurpose)
    → has (fire_timer timer_id id attempt purpose s).1.nodes k ≡ has s.nodes k
unfolding fire_timer
has-fire_timer s timer_id id k attempt purpose = elim (Option-cases (lookup timer_id s.timers)) [
  | inl e ↦ rw (e, fire_timer) refl
  | inr (t, e) ↦ elim (Bool-cases (is_retry purpose)) [
    | inl h ↦ rw (e, fire_timer) (rw h (has-with_node _ id k (retry attempt)))
    | inr h ↦ rw (e, fire_timer) (rw h refl)
  ]
]

has-start_task :
    (s : ExecutionState) (now : Time) (id worker k : String) (attempt : ℕ)
    → has (start_compensation_task now id worker attempt s).nodes k ≡ has s.nodes k
unfolding start_compensation_task
has-start_task s now id worker k attempt = ground arith

-- The nodes that are there, after any other event.
pub has-apply_payload :
    (run_id : String) (now : Time) (p : Payload) (s : ExecutionState) (k : String)
    → adds_nodes p ≡ false
    → has (apply_payload run_id now p s).1.nodes k ≡ has s.nodes k
unfolding apply_payload
has-apply_payload run_id now (workflow_started _ _ _) s k h = absurd (ground arith)
has-apply_payload run_id now (node_completed _ _ _ _ _) s k h = absurd (ground arith)
has-apply_payload run_id now (lease_granted id _ _ _) s k h = has-with_node s id k _
has-apply_payload run_id now (heartbeat_recorded id worker attempt) s k h =
    has-heartbeat s now id worker k attempt
has-apply_payload run_id now (Payload.lease_expired id _ attempt) s k h =
    has-expire_lease s id k attempt
has-apply_payload run_id now (compensation_task_started id worker attempt _) s k h =
    has-start_task s now id worker k attempt
has-apply_payload run_id now (timer_fired timer_id id attempt purpose) s k h =
    has-fire_timer s timer_id id k attempt purpose
has-apply_payload run_id now (checkpoint_reached id _ _ _) s k h = has-with_node s id k _
has-apply_payload run_id now (checkpoint_approved id) s k h = has-with_node s id k _
has-apply_payload run_id now (node_ready id) s k h = has-with_node s id k _
has-apply_payload run_id now (node_started id _ _) s k h = has-with_node s id k _
has-apply_payload run_id now (node_cancelled id _ _) s k h = has-with_node s id k _
has-apply_payload run_id now (node_failed id _ _ _ _ _) s k h = has-with_node s id k _
has-apply_payload run_id now _ s k h = refl

-- A node that is there after such an event was there before it.
pub lookup-before :
    (run_id : String) (now : Time) (p : Payload) (s : ExecutionState)
    → adds_nodes p ≡ false
    → (k : String) (n' : Node) → lookup k (apply_payload run_id now p s).1.nodes ≡ some n'
    → (n : Node) × (lookup k s.nodes ≡ some n)
lookup-before run_id now p s other k n' at = lookup-has k s.nodes (
    sym (has-apply_payload run_id now p s k other)
    ∙ has-lookup k n' (apply_payload run_id now p s).1.nodes at)
