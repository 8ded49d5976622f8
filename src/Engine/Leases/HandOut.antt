-- ===== src/Engine/Leases/HandOut.antt =====
-- internal/engine/engine.go: a task that `claimReadyTaskLocked` hands out, of a node or of a
-- compensation.
use grael.Prelude.{
  ℕ, ◌≡◌, refl, sym, ap, subst, ◌∙◌, inl, inr, Bool, true, ◌||◌, some, String, eq_iff, arith,
  Bool-cases, Option-cases,
}
use grael.Prelude.Lists.{sort}
use grael.Prelude.Map.{keys}
use grael.Result.{ok, bind-eq-ok}
use grael.Runtime.{
  ActivityType, WorkerTask, Event, compensation_task_started, next_attempt, is_compensating,
}
use grael.State.{CompensationEntry, ExecutionState, is_terminal, on_stack, holds_compensation}
use grael.State.Apply.{apply, apply_payload, start_compensation_task}
use grael.Engine.{World, Session, stamp, emit_now, save}
use grael.Engine.Queries.{next_compensation_entry}
use grael.Engine.Claim.{claim_node, claim_entry, claim_compensation, claim_ready_task}
use grael.Engine.Legal.WellFormed.{IsWellFormed}
use grael.Engine.Steps.Rules.{st-emit_now}
use grael.Engine.Leases.{has_lease}
use grael.Engine.Leases.Stack.{on_stack-next}
use grael.Engine.Leases.Claim.{IsLeased, IsLeased-result, IsLeased-same, claim_node-lease, st-save}

-- The lease of a compensation task, after its event.
holds-start_task :
    (e : Event) (s : ExecutionState) (id worker activity : String) (attempt : ℕ)
    → e.payload ≡ compensation_task_started id worker attempt activity
    → on_stack id s.compensation_stack ≡ true
    → has_lease (apply e s).1 true id worker attempt ≡ true
unfolding apply apply_payload start_compensation_task has_lease holds_compensation
holds-start_task e s id worker activity attempt is there =
    simp (is, apply) (ground (arith, eq_iff id id, eq_iff worker worker))

module _ (world : World) (can_handle : ActivityType → Bool) (worker : String) where
  claim_entry-lease :
      (c : CompensationEntry) (s : Session) (t : WorkerTask)
      → next_compensation_entry s.st ≡ some c
      → can_handle c.activity_type ≡ true
      → (claim_entry world can_handle worker c s).0 ≡ ok (some t)
      → IsLeased can_handle worker t (claim_entry world can_handle worker c s).1
  unfolding claim_entry
  claim_entry-lease c s t next can h =
      let attempt = next_attempt c.attempt in
      let begin = compensation_task_started c.node_id worker attempt c.activity_type in
      let (_, e₁, r₁) = bind-eq-ok (emit_now world begin) _ s h in
      let s₁ = (emit_now world begin s).1 in
      let (_, e₂, r₂) = bind-eq-ok (save world) _ s₁ (ap (λ r. r.0) (sym r₁) ∙ h) in
      let s₂ = (save world s₁).1 in
      let event = stamp world s s.st.run_id (world.time s.calls) begin in
      let held₁ : has_lease s₁.st true c.node_id worker attempt ≡ true =
        subst (λ st. has_lease st true c.node_id worker attempt ≡ true)
          (sym (st-emit_now world begin s e₁))
          (holds-start_task event s.st c.node_id worker c.activity_type attempt
            (unfold stamp in refl) (on_stack-next s.st c next)) in
      IsLeased-result can_handle worker (claim_entry world can_handle worker c s) _ s₂ t (r₁ ∙ r₂) h
        (record {
          in_run = refl;
          leased_to =
              subst (λ st. has_lease st true c.node_id worker attempt ≡ true)
                (sym (st-save world s₁)) held₁;
          handled = can;
        })

  claim_compensation-lease :
      (s : Session) (t : WorkerTask)
      → (claim_compensation world can_handle worker s).0 ≡ ok (some t)
      → IsLeased can_handle worker t (claim_compensation world can_handle worker s).1
  unfolding claim_compensation
  claim_compensation-lease s t h = elim (Option-cases (next_compensation_entry s.st)) [
    | inl e ↦ absurd (ground arith)
    | inr (c, e) ↦ elim (Bool-cases (can_handle c.activity_type)) [
      | inr cannot ↦ absurd (ground arith)
      | inl can ↦
          IsLeased-same world can_handle worker _ (claim_entry world can_handle worker c s) t
            (rw (e, claim_compensation) (rw can refl)) h (λ h'. claim_entry-lease c s t e can h')
    ]
  ]

  -- Where a task of a well-formed run is handed out, of a node or of a compensation, it names the run, the
  -- worker can handle its activity, and afterwards holds exactly the lease that the task names.
  pub claim_ready_task-lease :
      (s : Session) (t : WorkerTask)
      → IsWellFormed s.st
      → (claim_ready_task world can_handle worker s).0 ≡ ok (some t)
      → IsLeased can_handle worker t (claim_ready_task world can_handle worker s).1
  unfolding claim_ready_task
  claim_ready_task-lease s t wf h = elim (Bool-cases (is_terminal s.st || s.st.cancel_requested)) [
    | inl over ↦ absurd (ground arith)
    | inr live ↦ elim (Bool-cases (is_compensating s.st.run_state)) [
      | inl c ↦
          IsLeased-same world can_handle worker _ (claim_compensation world can_handle worker s) t
            (rw (live, claim_ready_task) (rw c refl)) h (λ h'. claim_compensation-lease s t h')
      | inr c ↦
          IsLeased-same world can_handle worker _
            (claim_node world can_handle worker (sort (keys s.st.nodes)) s) t
            (rw (live, claim_ready_task) (rw c refl)) h
            (λ h'. claim_node-lease world can_handle worker (sort (keys s.st.nodes)) s t wf h')
    ]
  ]
