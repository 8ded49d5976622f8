-- ===== src/Engine/Steps/Tasks.antt =====
-- internal/engine/engine.go: the steps of `CompleteTask` and `FailTask`.
use grael.Prelude.{
  ℕ, String, ◌≡◌, refl, sym, subst, inl, inr, ap, ◌∙◌, true, false, not, ◌&&◌, Option, none, some,
  List, eq_iff, arith, if◌then◌else◌, Option-cases,
}
use grael.Prelude.Map.{lookup}
use grael.Result.{Error, ok, Result-cases, pure, ◌>>◌}
use grael.Runtime.{
  NodeState, NodeDefinition, Payload, Event, CompleteTaskRequest, FailTaskRequest, node_failed,
  checkpoint_reached, compensation_task_failed,
}
use grael.State.{Node, ActiveCompensation, ExecutionState, holds_compensation}
use grael.State.Apply.{apply}
use grael.Engine.{World, Session, stamp, save}
use grael.Engine.Queries.{is_some}
use grael.Engine.Advance.{advance}
use grael.Engine.Timers.{schedule_checkpoint_timeout, schedule_retry}
use grael.Engine.Spawn.{normalize_spawned}
use grael.Engine.Spawn.Accepted.{IsSpawnable, normalize_spawned-IsSpawnable}
use grael.Engine.Tasks.{
  check_lease, emit_for, complete_compensation, fail_compensation, fail_for_invalid_spawn,
  reach_checkpoint, finish_node, complete_leased, complete_task, cancel_leased, retry_node,
  fail_node, fail_task,
}
use grael.State.Flags.{run_state-apply}
use grael.Engine.Legal.{Legal, may_compensate}
use grael.Engine.Legal.WellFormed.{IsWellFormed}
use grael.Engine.Steps.{Steps, Steps-refl}
use grael.Engine.Steps.Rules.{Steps-bind, Steps-if, Steps-if_op, Steps-emit, Steps-save, st-emit}
use grael.Engine.Steps.Nodes.{Steps-stays}
use grael.Engine.Steps.Timers.{Steps-schedule_checkpoint, Steps-schedule_retry}
use grael.Engine.Steps.Advance.{Steps-advance}

-- What the check of a lease has found when it finds no error.
pub check_lease-none :
    (n : Node) (worker : String) (attempt : ℕ)
    → check_lease n worker attempt ≡ none
    → (n.state ≡ NodeState.running) × (n.worker_id ≡ worker) × (n.attempt ≡ attempt)
unfolding check_lease
check_lease-none n worker attempt e = ground (arith, eq_iff n.worker_id worker)

-- Who holds the active compensation.
pub holds_compensation-some :
    (active : Option ActiveCompensation) (id worker : String) (attempt : ℕ)
    → holds_compensation active id worker attempt ≡ true
    → (a : ActiveCompensation) × (active ≡ some a)
      × (a.node_id ≡ id)
      × (a.worker_id ≡ worker)
      × (a.attempt ≡ attempt)
unfolding holds_compensation
holds_compensation-some none id worker attempt e = cc
holds_compensation-some (some a) id worker attempt e = (
  a,
  refl,
  ground (arith, eq_iff a.node_id id),
  ground (arith, eq_iff a.worker_id worker),
  ground arith,
)

-- After a compensation task has failed none is active.
inactive-apply :
    (e : Event) (s : ExecutionState) (id worker message : String) (attempt : ℕ)
    → e.payload ≡ compensation_task_failed id worker attempt message
    → (apply e s).1.active_compensation ≡ none
unfolding apply
inactive-apply e s id worker message attempt is = rw (is, apply)

module _ (world : World) where
  Steps-emit_for :
      (run_id : String) (p : Payload) (s : Session)
      → Legal s.st p
      → Steps s (emit_for world run_id p s).1
  unfolding emit_for
  Steps-emit_for run_id p s legal = Steps-emit world run_id (world.time s.calls) p s legal

  -- The two calls that end most handlers.
  Steps-advance_save : (s : Session) → Steps s ((advance world >> save world) s).1
  Steps-advance_save s =
      Steps-bind (advance world) _ s (Steps-advance world s) (λ _ _. Steps-save world _)

  Steps-complete_compensation :
      (req : CompleteTaskRequest) (s : Session) → Steps s (complete_compensation world req s).1
  unfolding complete_compensation
  Steps-complete_compensation req s =
      Steps-if (is_some s.st.active_compensation) _ _ s
        (λ _.
          Steps-if
            (holds_compensation s.st.active_compensation req.node_id req.worker_id req.attempt) _ _
            s
            (λ held.
              let (a, at, id, worker, attempt) = holds_compensation-some _ _ _ _ held in
              Steps-bind (emit_for world req.run_id _) _ s
                (Steps-emit_for req.run_id _ s (Legal.finish_task a at id worker attempt))
                (λ _ _. Steps-advance_save _))
            (λ _. Steps-refl s))
        (λ _. Steps-refl s)

  inactive :
      (req : FailTaskRequest) (s : Session)
      → (emit_for world req.run_id
          (compensation_task_failed req.node_id req.worker_id req.attempt req.message)
          s).0
        ≡ ok tt
      → (emit_for world req.run_id
          (compensation_task_failed req.node_id req.worker_id req.attempt req.message)
          s).1.st.active_compensation
        ≡ none
  unfolding emit_for
  inactive req s e =
      let p = compensation_task_failed req.node_id req.worker_id req.attempt req.message in
      ap (λ st. st.active_compensation) (st-emit world req.run_id (world.time s.calls) p s e)
      ∙ inactive-apply (stamp world s req.run_id (world.time s.calls) p) s.st req.node_id
          req.worker_id req.message req.attempt (unfold stamp in refl)

  -- The run is still one in which a compensation task may be active.
  unended :
      (req : FailTaskRequest) (s : Session)
      → (emit_for world req.run_id
          (compensation_task_failed req.node_id req.worker_id req.attempt req.message)
          s).0
        ≡ ok tt
      → may_compensate s.st.run_state ≡ true
      → may_compensate
          (emit_for world req.run_id
            (compensation_task_failed req.node_id req.worker_id req.attempt req.message)
            s).1.st.run_state
        ≡ true
  unfolding emit_for stamp
  unended req s e state =
      let p = compensation_task_failed req.node_id req.worker_id req.attempt req.message in
      ap (λ st. may_compensate st.run_state) (st-emit world req.run_id (world.time s.calls) p s e)
      ∙ ap may_compensate (run_state-apply (stamp world s req.run_id (world.time s.calls) p) s.st)
      ∙ state

  Steps-fail_compensation :
      (req : FailTaskRequest) (s : Session)
      → IsWellFormed s.st
      → Steps s (fail_compensation world req s).1
  unfolding fail_compensation
  Steps-fail_compensation req s wf =
      let p = compensation_task_failed req.node_id req.worker_id req.attempt req.message in
      Steps-if (is_some s.st.active_compensation) _ _ s
        (λ _.
          Steps-if
            (holds_compensation s.st.active_compensation req.node_id req.worker_id req.attempt) _ _
            s
            (λ held.
              let (a, at, id, worker, attempt) = holds_compensation-some _ _ _ _ held in
              Steps-bind (emit_for world req.run_id p) _ s
                (Steps-emit_for req.run_id p s (Legal.fail_task a at id worker attempt))
                λ _ e.
                  Steps-bind (emit_for world req.run_id _) _ _
                    (Steps-emit_for req.run_id _ _ (
                      Legal.fail_compensation (inactive req s e) refl
                        (unended req s e (ground (arith, wf.settled, at)))))
                    (λ _ _. Steps-save world _))
            (λ _. Steps-refl s))
        (λ _. Steps-refl s)

  Steps-fail_for_invalid_spawn :
      (req : CompleteTaskRequest) (x : Error) (n : Node) (s : Session)
      → lookup req.node_id s.st.nodes ≡ some n
      → n.state ≡ NodeState.running
      → n.attempt ≡ req.attempt
      → Steps s (fail_for_invalid_spawn world req x s).1
  unfolding fail_for_invalid_spawn
  Steps-fail_for_invalid_spawn req x n s at is same =
      Steps-bind (emit_for world req.run_id _) _ s
        (Steps-emit_for req.run_id _ s (Legal.fail n at (ground arith) same))
        λ _ _.
          Steps-bind (advance world) _ _ (Steps-advance world _)
            λ _ _. Steps-bind (save world) _ _ (Steps-save world _) (λ _ _. Steps-refl _)

  Steps-reach_checkpoint :
      (req : CompleteTaskRequest) (n : Node) (reason : String) (s : Session)
      → lookup req.node_id s.st.nodes ≡ some n
      → n.id ≡ req.node_id
      → n.state ≡ NodeState.running
      → s.st.cancel_requested ≡ false
      → Steps s (reach_checkpoint world req n reason s).1
  unfolding reach_checkpoint
  Steps-reach_checkpoint req n reason s at named is kept =
      let first =
        Steps-emit_for req.run_id (checkpoint_reached req.node_id req.worker_id req.attempt reason)
          s (Legal.reach n at is kept) in
      let (m, at') =
        Steps-stays n.id n first (subst (λ i. lookup i s.st.nodes ≡ some n) (sym named) at) in
      Steps-bind (emit_for world req.run_id _) _ s first λ _ _.
        Steps-bind (schedule_checkpoint_timeout world n req.attempt) _ _
          (Steps-schedule_checkpoint world n m req.attempt _ at') (λ _ _. Steps-save world _)

  Steps-finish_node :
      (req : CompleteTaskRequest) (spawned : List NodeDefinition) (n : Node) (s : Session)
      → lookup req.node_id s.st.nodes ≡ some n
      → (n.state ≡ NodeState.running) × (n.worker_id ≡ req.worker_id) × (n.attempt ≡ req.attempt)
      → s.st.cancel_requested ≡ false
      → IsSpawnable s.st spawned
      → Steps s (finish_node world req spawned s).1
  unfolding finish_node
  Steps-finish_node req spawned n s at (is, worker, attempt) kept spawns =
      Steps-bind (emit_for world req.run_id _) _ s
        (Steps-emit_for req.run_id _ s (Legal.complete n at is worker attempt kept spawns))
        (λ _ _. Steps-advance_save _)

  Steps-complete_leased :
      (req : CompleteTaskRequest) (n : Node) (s : Session)
      → lookup req.node_id s.st.nodes ≡ some n
      → n.id ≡ req.node_id
      → (n.state ≡ NodeState.running) × (n.worker_id ≡ req.worker_id) × (n.attempt ≡ req.attempt)
      → Steps s (complete_leased world req n s).1
  unfolding complete_leased
  Steps-complete_leased req n s at named lease = elim (Option-cases req.checkpoint) [
    | inr (reason, e) ↦
        simp (e, complete_leased)
          (Steps-if s.st.cancel_requested _ _ s (λ _. Steps-refl s)
            (λ kept. Steps-reach_checkpoint req n reason s at named lease.0 kept))
    | inl e ↦ elim (Result-cases (normalize_spawned s.st req.node_id req.spawned_nodes)) [
      | inl (spawned, e') ↦
          simp (e, e', complete_leased)
            (Steps-if s.st.cancel_requested _ _ s (λ _. Steps-refl s)
              λ kept.
                Steps-finish_node req spawned n s at lease kept
                  (normalize_spawned-IsSpawnable s.st req.node_id req.spawned_nodes spawned e'))
      | inr (x, e') ↦
          simp (e, e', complete_leased)
            (Steps-if s.st.cancel_requested _ _ s (λ _. Steps-refl s)
              (λ _. Steps-fail_for_invalid_spawn req x n s at lease.0 lease.2))
    ]
  ]

  -- `CompleteTask` takes legal steps, whatever the request says.
  pub Steps-complete_task :
      (req : CompleteTaskRequest) (s : Session)
      → IsWellFormed s.st
      → Steps s (complete_task world req s).1
  unfolding complete_task
  Steps-complete_task req s wf = elim (Option-cases (lookup req.node_id s.st.nodes)) [
    | inl e ↦
        rw (e, complete_task)
          (Steps-if req.compensation _ _ s (λ _. Steps-complete_compensation req s)
            (λ _. Steps-refl s))
    | inr (n, e) ↦
        rw (e, complete_task)
          (Steps-if req.compensation _ _ s (λ _. Steps-complete_compensation req s)
            λ _. elim (Option-cases (check_lease n req.worker_id req.attempt)) [
              | inl clear ↦ rw clear (
                  Steps-complete_leased req n s e (wf.named req.node_id n e)
                    (check_lease-none n req.worker_id req.attempt clear))
              | inr (x, refused) ↦ rw refused (Steps-refl s)
            ])
  ]

  Steps-cancel_leased :
      (req : FailTaskRequest) (n : Node) (s : Session)
      → lookup req.node_id s.st.nodes ≡ some n
      → n.state ≡ NodeState.running
      → Steps s (cancel_leased world req s).1
  unfolding cancel_leased
  Steps-cancel_leased req n s at is =
      Steps-bind (emit_for world req.run_id _) _ s
        (Steps-emit_for req.run_id _ s (Legal.stop n at is)) (λ _ _. Steps-advance_save _)

  Steps-retry_node :
      (req : FailTaskRequest) (n m : Node) (s : Session)
      → lookup n.id s.st.nodes ≡ some m
      → Steps s (retry_node world req n s).1
  unfolding retry_node
  Steps-retry_node req n m s at =
      Steps-if req.retryable _ _ s
        (λ _.
          Steps-bind (schedule_retry world n req) _ s (Steps-schedule_retry world n m req s at)
            (λ _ _. Steps-refl _))
        (λ _. Steps-refl s)

  Steps-fail_node :
      (req : FailTaskRequest) (n : Node) (s : Session)
      → lookup req.node_id s.st.nodes ≡ some n
      → n.id ≡ req.node_id
      → (n.state ≡ NodeState.running) × (n.worker_id ≡ req.worker_id) × (n.attempt ≡ req.attempt)
      → Steps s (fail_node world req n s).1
  unfolding fail_node
  Steps-fail_node req n s at named lease =
      let first =
        Steps-emit_for req.run_id
          (node_failed req.node_id req.worker_id req.attempt req.message req.retryable false) s
          (Legal.fail n at (ground arith) lease.2) in
      let (m, at') =
        Steps-stays n.id n first (subst (λ i. lookup i s.st.nodes ≡ some n) (sym named) at) in
      Steps-bind (emit_for world req.run_id _) _ s first λ _ _.
        Steps-bind (retry_node world req n) _ _ (Steps-retry_node req n m _ at') λ scheduled _.
          Steps-bind (if scheduled then pure tt else advance world) _ _
            (Steps-if_op scheduled _ _ _ (λ _. Steps-refl _) (λ _. Steps-advance world _))
            (λ _ _. Steps-save world _)

  -- `FailTask` takes legal steps, whatever the request says.
  pub Steps-fail_task :
      (req : FailTaskRequest) (s : Session) → IsWellFormed s.st → Steps s (fail_task world req s).1
  unfolding fail_task
  Steps-fail_task req s wf = elim (Option-cases (lookup req.node_id s.st.nodes)) [
    | inl e ↦
        rw (e, fail_task)
          (Steps-if req.compensation _ _ s (λ _. Steps-fail_compensation req s wf)
            (λ _. Steps-refl s))
    | inr (n, e) ↦
        rw (e, fail_task)
          (Steps-if req.compensation _ _ s (λ _. Steps-fail_compensation req s wf)
            λ _. elim (Option-cases (check_lease n req.worker_id req.attempt)) [
              | inl clear ↦
                  let lease = check_lease-none n req.worker_id req.attempt clear in
                  rw clear (
                    Steps-if (s.st.cancel_requested && not req.cancelled) _ _ s (λ _. Steps-refl s)
                      λ _.
                        Steps-if req.cancelled _ _ s (λ _. Steps-cancel_leased req n s e lease.0)
                          (λ _. Steps-fail_node req n s e (wf.named req.node_id n e) lease))
              | inr (x, refused) ↦ rw refused (Steps-refl s)
            ])
  ]
