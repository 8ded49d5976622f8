-- ===== src/Engine/Leases/Claim.antt =====
-- internal/engine/engine.go: the task of a node that `claimReadyTaskLocked` hands out.
use grael.Prelude.{
  ℕ, ◌≡◌, refl, sym, ap, subst, ◌∙◌, inl, inr, Bool, true, false, Option, none, some, List, [], ◌∷◌,
  String, eq_iff, arith, Option-cases,
}
use grael.Prelude.Map.{lookup, lookup-insert}
use grael.Result.{Result, ok, bind-eq-ok}
use grael.Runtime.{
  NodeState, ActivityType, WorkerTask, Event, lease_granted, node_started, next_attempt,
}
use grael.State.{Node, ExecutionState, with_node}
use grael.State.Apply.{apply, apply_payload}
use grael.Engine.{World, Session, stamp, emit, emit_now, save}
use grael.Engine.Timers.{emit_timer, schedule_execution_deadline, schedule_absolute_deadline}
use grael.Engine.Claim.{grant, claimable, claim_node}
use grael.Engine.Tasks.{holds_lease}
use grael.Engine.Legal.WellFormed.{IsWellFormed, lookup-node_id}
use grael.Engine.Steps.Rules.{st-emit_now}
use grael.Engine.Steps.Claim.{leased, lookup-lease}
use grael.Engine.Leases.{has_lease}

-- The node of a lease, after both of its events.
lookup-start :
    (e : Event) (s : ExecutionState) (id worker : String) (attempt : ℕ) (n : Node)
    → e.payload ≡ node_started id worker attempt
    → lookup id s.nodes ≡ some n
    → has_lease (apply e s).1 false id worker attempt ≡ true
unfolding apply apply_payload with_node has_lease holds_lease
lookup-start e s id worker attempt n is at =
    let n' : Node = record n {
      attempt = attempt;
      worker_id = worker;
      last_heartbeat_at = e.timestamp;
      state = NodeState.running;
    } in
    simp (is, apply)
      (ground (arith, lookup-insert id id n' s.nodes, eq_iff id id, eq_iff worker worker))

module _ (world : World) where
  nodes-schedule_execution :
      (n : Node) (worker : String) (attempt : ℕ) (s : Session)
      → (schedule_execution_deadline world n worker attempt s).1.st.nodes ≡ s.st.nodes
  unfolding schedule_execution_deadline emit_timer emit apply apply_payload
  nodes-schedule_execution n worker attempt s = ground arith

  nodes-schedule_absolute :
      (n : Node) (worker : String) (s : Session)
      → (schedule_absolute_deadline world n worker s).1.st.nodes ≡ s.st.nodes
  unfolding schedule_absolute_deadline emit_timer emit apply apply_payload
  nodes-schedule_absolute n worker s = ground arith

  pub st-save : (s : Session) → (save world s).1.st ≡ s.st
  unfolding save
  st-save s = ground arith

has_lease-cong :
    (s s' : ExecutionState) (id worker : String) (attempt : ℕ)
    → s'.nodes ≡ s.nodes
    → has_lease s false id worker attempt ≡ true
    → has_lease s' false id worker attempt ≡ true
unfolding has_lease
has_lease-cong s s' id worker attempt same h = ground arith

-- What is promised of a task: it names the run, and is leased there to the worker, who can handle it.
pub record IsLeased (can_handle : ActivityType → Bool) (worker : String) (t : WorkerTask)
    (s : Session) : Type 0 where
  pub in_run : t.run_id ≡ s.st.run_id
  pub leased_to : has_lease s.st t.compensation t.node_id worker t.attempt ≡ true
  pub handled : can_handle t.activity_type ≡ true

pub IsLeased-result :
    (can_handle : ActivityType → Bool) (worker : String) (r : Result (Option WorkerTask) × Session)
    (t₀ : WorkerTask) (s : Session) (t : WorkerTask)
    → r ≡ (ok (some t₀), s)
    → r.0 ≡ ok (some t)
    → IsLeased can_handle worker t₀ s
    → IsLeased can_handle worker t r.1
IsLeased-result can_handle worker r t₀ s t e h leased =
    let same : t₀ ≡ t = cc (ap (λ x. x.0) e) in
    subst (λ x. IsLeased can_handle worker x r.1) same
      (subst (IsLeased can_handle worker t₀) (sym (ap (λ x. x.1) e)) leased)

module _ (world : World) (can_handle : ActivityType → Bool) (worker : String) where
  grant-lease :
      (n : Node) (s : Session) (t : WorkerTask)
      → lookup n.id s.st.nodes ≡ some n
      → can_handle n.activity_type ≡ true
      → (grant world can_handle worker n s).0 ≡ ok (some t)
      → IsLeased can_handle worker t (grant world can_handle worker n s).1
  unfolding grant
  grant-lease n s t at can h =
      let attempt = next_attempt n.attempt in
      let lease = lease_granted n.id worker attempt n.activity_type in
      let begin = node_started n.id worker attempt in
      let (_, e₁, r₁) = bind-eq-ok (emit_now world lease) _ s h in
      let s₁ = (emit_now world lease s).1 in
      let (_, e₂, r₂) = bind-eq-ok (emit_now world begin) _ s₁ (ap (λ r. r.0) (sym r₁) ∙ h) in
      let s₂ = (emit_now world begin s₁).1 in
      let (_, e₃, r₃) =
        bind-eq-ok (schedule_execution_deadline world n worker attempt) _ s₂
          (ap (λ r. r.0) (sym (r₁ ∙ r₂)) ∙ h) in
      let s₃ = (schedule_execution_deadline world n worker attempt s₂).1 in
      let (_, e₄, r₄) =
        bind-eq-ok (schedule_absolute_deadline world n worker) _ s₃
          (ap (λ r. r.0) (sym (r₁ ∙ r₂ ∙ r₃)) ∙ h) in
      let s₄ = (schedule_absolute_deadline world n worker s₃).1 in
      let (_, e₅, r₅) =
        bind-eq-ok (save world) _ s₄ (ap (λ r. r.0) (sym (r₁ ∙ r₂ ∙ r₃ ∙ r₄)) ∙ h) in
      let whole = r₁ ∙ r₂ ∙ r₃ ∙ r₄ ∙ r₅ in
      let s₅ = (save world s₄).1 in
      let event₁ = stamp world s s.st.run_id (world.time s.calls) lease in
      let event₂ = stamp world s₁ s₁.st.run_id (world.time s₁.calls) begin in
      let n₁ = leased event₁.timestamp worker attempt n in
      let at₁ : lookup n.id s₁.st.nodes ≡ some n₁ =
        ap (λ st. lookup n.id st.nodes) (st-emit_now world lease s e₁)
        ∙ lookup-lease event₁ s.st n.id worker n.activity_type attempt n (unfold stamp in refl)
            at in
      let held₂ : has_lease s₂.st false n.id worker attempt ≡ true =
        subst (λ st. has_lease st false n.id worker attempt ≡ true)
          (sym (st-emit_now world begin s₁ e₂))
          (lookup-start event₂ s₁.st n.id worker attempt n₁ (unfold stamp in refl) at₁) in
      let kept : s₅.st.nodes ≡ s₂.st.nodes =
        ap (λ st. st.nodes) (st-save world s₄)
        ∙ nodes-schedule_absolute world n worker s₃
        ∙ nodes-schedule_execution world n worker attempt s₂ in
      IsLeased-result can_handle worker (grant world can_handle worker n s) _ s₅ t whole h (record {
        in_run = refl;
        leased_to = has_lease-cong s₂.st s₅.st n.id worker attempt kept held₂;
        handled = can;
      })

  claimable-some :
      (s : ExecutionState) (id : String) (n : Node)
      → claimable world can_handle worker s.nodes id ≡ some n
      → (lookup id s.nodes ≡ some n) × (can_handle n.activity_type ≡ true)
  unfolding claimable
  claimable-some s id n e = ground arith

  claim_node-skip :
      (id : String) (ids : List String) (s : Session)
      → claimable world can_handle worker s.st.nodes id ≡ none
      → claim_node world can_handle worker (id ∷ ids) s ≡ claim_node world can_handle worker ids s
  unfolding claim_node
  claim_node-skip id ids s e = rw (e, claim_node) refl

  claim_node-grant :
      (id : String) (ids : List String) (s : Session) (n : Node)
      → claimable world can_handle worker s.st.nodes id ≡ some n
      → claim_node world can_handle worker (id ∷ ids) s ≡ grant world can_handle worker n s
  unfolding claim_node
  claim_node-grant id ids s n e = rw (e, claim_node) refl

  -- Two results that are equal promise the same.
  pub IsLeased-same :
      (r r' : Result (Option WorkerTask) × Session) (t : WorkerTask)
      → r ≡ r'
      → r.0 ≡ ok (some t)
      → (r'.0 ≡ ok (some t) → IsLeased can_handle worker t r'.1)
      → IsLeased can_handle worker t r.1
  IsLeased-same r r' t e h promise =
      subst (λ x. IsLeased can_handle worker t x.1) (sym e) (promise (ap (λ x. x.0) (sym e) ∙ h))

  pub claim_node-lease :
      (ids : List String) (s : Session) (t : WorkerTask)
      → IsWellFormed s.st
      → (claim_node world can_handle worker ids s).0 ≡ ok (some t)
      → IsLeased can_handle worker t (claim_node world can_handle worker ids s).1
  claim_node-lease [] s t wf h = absurd (unfold claim_node in ground arith)
  claim_node-lease (id ∷ ids) s t wf h =
      elim (Option-cases (claimable world can_handle worker s.st.nodes id)) [
        | inl e ↦
            IsLeased-same _ _ t (claim_node-skip id ids s e) h
              (λ h'. claim_node-lease ids s t wf h')
        | inr (n, e) ↦
            let (at, can) = claimable-some s.st id n e in
            IsLeased-same _ _ t (claim_node-grant id ids s n e) h
              (λ h'. grant-lease n s t (lookup-node_id s.st id n wf at) can h')
      ]
