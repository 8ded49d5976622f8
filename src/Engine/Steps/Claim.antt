-- ===== src/Engine/Steps/Claim.antt =====
-- internal/engine/engine.go: the steps of `claimReadyTaskLocked`.
use grael.Prelude.{
  ℕ, String, ◌≡◌, refl, inl, inr, Bool, ◌||◌, some, List, [], ◌∷◌, arith, eq_refl, Option-cases, ap,
  ◌∙◌,
}
use grael.Prelude.Lists.{sort}
use grael.Prelude.Map.{lookup, keys, lookup-insert}
use grael.Runtime.{
  Time, NodeState, RunState, ActivityType, Event, lease_granted, node_started, next_attempt,
  is_compensating,
}
use grael.State.{Node, CompensationEntry, ExecutionState, is_terminal, with_node}
use grael.State.Apply.{apply, apply_payload}
use grael.Engine.{World, Session, stamp, emit_now, save}
use grael.Engine.Queries.{next_compensation_entry}
use grael.Engine.Timers.{schedule_execution_deadline, schedule_absolute_deadline}
use grael.Engine.Claim.{
  grant, claimable, claim_node, claim_entry, claim_compensation, claim_ready_task,
}
use grael.Engine.Legal
use grael.Engine.Legal.{IsLive}
use grael.Engine.Legal.WellFormed.{IsWellFormed, lookup-node_id}
use grael.Engine.Steps.{Steps, Steps-refl}
use grael.Engine.Steps.Rules.{Steps-bind, Steps-if, Steps-emit_now, Steps-save, st-emit_now}
use grael.Engine.Steps.Nodes.{Steps-stays}
use grael.Engine.Steps.Timers.{Steps-schedule_execution, Steps-schedule_absolute}
use grael.Engine.Steps.Advance.{IsLive-running}

-- What a lease makes of its node.
abbrev pub leased : Time → String → ℕ → Node → Node
leased now worker attempt n = record n {
  attempt = attempt;
  worker_id = worker;
  last_heartbeat_at = now;
  last_error = "";
}

pub lookup-lease :
    (e : Event) (s : ExecutionState) (id worker activity : String) (attempt : ℕ) (n : Node)
    → e.payload ≡ lease_granted id worker attempt activity
    → lookup id s.nodes ≡ some n
    → lookup id (apply e s).1.nodes ≡ some (leased e.timestamp worker attempt n)
unfolding apply apply_payload with_node
lookup-lease e s id worker activity attempt n is at =
    rw (is, apply)
      (ground
        (arith, lookup-insert id id (leased e.timestamp worker attempt n) s.nodes, eq_refl id))

module _ (world : World) (can_handle : ActivityType → Bool) (worker : String) where
  Steps-grant :
      (n : Node) (s : Session)
      → lookup n.id s.st.nodes ≡ some n
      → n.state ≡ NodeState.ready
      → IsLive s.st RunState.running
      → Steps s (grant world can_handle worker n s).1
  unfolding grant
  Steps-grant n s at is live =
      let attempt = next_attempt n.attempt in
      let event =
        stamp world s s.st.run_id (world.time s.calls)
          (lease_granted n.id worker attempt n.activity_type) in
      let lease = lease_granted n.id worker attempt n.activity_type in
      let first = Steps-emit_now world lease s (Legal.grant n at is refl live) in
      Steps-bind (emit_now world lease) _ s first λ _ e.
        let at' : lookup n.id (emit_now world lease s).1.st.nodes
            ≡ some (leased event.timestamp worker attempt n) =
          ap (λ st. lookup n.id st.nodes) (st-emit_now world lease s e)
          ∙ lookup-lease event s.st n.id worker n.activity_type attempt n (unfold stamp in refl)
              at in
        let begun =
          Steps-emit_now world (node_started n.id worker attempt) _
            (Legal.start _ at' is refl refl) in
        let (n₂, at₂) = Steps-stays n.id _ begun at' in
        let timed = Steps-schedule_execution world n n₂ worker attempt _ at₂ in
        let (n₃, at₃) = Steps-stays n.id _ timed at₂ in
        Steps-bind (emit_now world (node_started n.id worker attempt)) _ _ begun λ _ _.
          Steps-bind (schedule_execution_deadline world n worker attempt) _ _ timed λ _ _.
            Steps-bind (schedule_absolute_deadline world n worker) _ _
              (Steps-schedule_absolute world n n₃ worker _ at₃)
              λ _ _. Steps-bind (save world) _ _ (Steps-save world _) (λ _ _. Steps-refl _)

  claimable-ready :
      (s : ExecutionState) (id : String) (n : Node)
      → claimable world can_handle worker s.nodes id ≡ some n
      → (lookup id s.nodes ≡ some n) × (n.state ≡ NodeState.ready)
  unfolding claimable
  claimable-ready s id n e = ground arith

  Steps-claim_node :
      (ids : List String) (s : Session)
      → IsLive s.st RunState.running
      → IsWellFormed s.st
      → Steps s (claim_node world can_handle worker ids s).1
  unfolding claim_node
  Steps-claim_node [] s live wf = Steps-refl s
  Steps-claim_node (id ∷ ids) s live wf =
      elim (Option-cases (claimable world can_handle worker s.st.nodes id)) [
        | inl e ↦ rw (e, claim_node) (Steps-claim_node ids s live wf)
        | inr (n, e) ↦
            let (at, is) = claimable-ready s.st id n e in
            rw (e, claim_node) (Steps-grant n s (lookup-node_id s.st id n wf at) is live)
      ]

  Steps-claim_entry :
      (c : CompensationEntry) (s : Session)
      → next_compensation_entry s.st ≡ some c
      → IsLive s.st RunState.compensating
      → Steps s (claim_entry world can_handle worker c s).1
  unfolding claim_entry
  Steps-claim_entry c s e live =
      Steps-bind (emit_now world _) _ s
        (Steps-emit_now world _ s (Legal.start_task c live e refl refl))
        λ _ _. Steps-bind (save world) _ _ (Steps-save world _) (λ _ _. Steps-refl _)

  Steps-claim_compensation :
      (s : Session)
      → IsLive s.st RunState.compensating
      → Steps s (claim_compensation world can_handle worker s).1
  unfolding claim_compensation
  Steps-claim_compensation s live = elim (Option-cases (next_compensation_entry s.st)) [
    | inl e ↦ rw (e, claim_compensation) (Steps-refl s)
    | inr (c, e) ↦
        rw (e, claim_compensation)
          (Steps-if _ _ _ s (λ _. Steps-claim_entry c s e live) (λ _. Steps-refl s))
  ]

  pub Steps-claim_ready_task :
      (s : Session) → IsWellFormed s.st → Steps s (claim_ready_task world can_handle worker s).1
  unfolding claim_ready_task
  Steps-claim_ready_task s wf =
      Steps-if (is_terminal s.st || s.st.cancel_requested) _ _ s (λ _. Steps-refl s)
        λ live.
          Steps-if (is_compensating s.st.run_state) _ _ s
            (λ c. Steps-claim_compensation s (record { run = ground arith; kept = ground arith }))
            (λ c.
              Steps-claim_node (sort (keys s.st.nodes)) s
                (IsLive-running s.st (ground arith) (ground arith) c) wf)
