-- ===== src/Engine/Leases/Names.antt =====
-- internal/engine/engine.go: a task that `claimReadyTaskLocked` hands out names the run that it is of.
use grael.Prelude.{
  ◌≡◌, refl, sym, subst, inl, inr, ap, ◌∙◌, Bool, ◌||◌, Option, none, some, List, [], ◌∷◌, String,
  Bool-cases, Option-cases,
}
use grael.Prelude.Lists.{sort}
use grael.Prelude.Map.{keys}
use grael.Result.{Result, ok, ◌>>=◌, bind-eq-ok}
use grael.Runtime.{
  ActivityType, WorkerTask, lease_granted, compensation_task_started, node_started, next_attempt,
  is_compensating,
}
use grael.State.{Node, is_terminal}
use grael.Engine.{World, Session, Op, emit_now, save}
use grael.Engine.Timers.{schedule_execution_deadline, schedule_absolute_deadline}
use grael.Engine.Queries.{next_compensation_entry}
use grael.Engine.Claim.{
  grant, claimable, claim_node, claim_entry, claim_compensation, claim_ready_task,
}

-- The task of an answer, if it has one, names the run as it is then.
record NamesRun (t : WorkerTask) (r : Result (Option WorkerTask) × Session) : Type 0 where
  names : r.0 ≡ ok (some t) → t.run_id ≡ r.1.st.run_id

NamesRun-same :
    (t : WorkerTask) (r r' : Result (Option WorkerTask) × Session)
    → r ≡ r'
    → NamesRun t r'
    → NamesRun t r
NamesRun-same t r r' e n = subst (NamesRun t) (sym e) n

NamesRun-bind :
    {A : Type 0} (t : WorkerTask) (m : Op A) (f : A → Op (Option WorkerTask)) (s : Session)
    → ((a : A) (s' : Session) → NamesRun t (f a s'))
    → NamesRun t ((m >>= f) s)
NamesRun-bind t m f s rest = record {
  names = λ h.
      let (a, _, e) = bind-eq-ok m f s h in
      (NamesRun-same t ((m >>= f) s) (f a (m s).1) e (rest a (m s).1)).names h;
}

NamesRun-none : (t : WorkerTask) (s : Session) → NamesRun t (ok none, s)
NamesRun-none t s = record { names = λ h. absurd (cc) }

NamesRun-done :
    (t t₀ : WorkerTask) (s : Session) → t₀.run_id ≡ s.st.run_id → NamesRun t (ok (some t₀), s)
NamesRun-done t t₀ s named = record {
  names = λ h. let same : t₀ ≡ t = cc in ap (λ x. x.run_id) (sym same) ∙ named;
}

module _ (world : World) (can_handle : ActivityType → Bool) (worker : String) (t : WorkerTask) where
  grant-NamesRun : (n : Node) (s : Session) → NamesRun t (grant world can_handle worker n s)
  unfolding grant
  grant-NamesRun n s =
      let attempt = next_attempt n.attempt in
      let lease = lease_granted n.id worker attempt n.activity_type in
      NamesRun-bind t (emit_now world lease) _ s λ _ s₁.
        NamesRun-bind t (emit_now world (node_started n.id worker attempt)) _ s₁ λ _ s₂.
          NamesRun-bind t (schedule_execution_deadline world n worker attempt) _ s₂ λ _ s₃.
            NamesRun-bind t (schedule_absolute_deadline world n worker) _ s₃
              λ _ s₄. NamesRun-bind t (save world) _ s₄ (λ _ s₅. NamesRun-done t _ s₅ refl)

  claim_node-NamesRun :
      (ids : List String) (s : Session) → NamesRun t (claim_node world can_handle worker ids s)
  unfolding claim_node
  claim_node-NamesRun [] s = NamesRun-none t s
  claim_node-NamesRun (id ∷ ids) s =
      elim (Option-cases (claimable world can_handle worker s.st.nodes id)) [
        | inl e ↦ rw (e, claim_node) (claim_node-NamesRun ids s)
        | inr (n, e) ↦ rw (e, claim_node) (grant-NamesRun n s)
      ]

  claim_compensation-NamesRun :
      (s : Session) → NamesRun t (claim_compensation world can_handle worker s)
  unfolding claim_compensation claim_entry
  claim_compensation-NamesRun s = elim (Option-cases (next_compensation_entry s.st)) [
    | inl e ↦ rw (e, claim_compensation) (NamesRun-none t s)
    | inr (c, e) ↦ elim (Bool-cases (can_handle c.activity_type)) [
      | inr cannot ↦ rw (e, claim_compensation, cannot) (NamesRun-none t s)
      | inl can ↦
          rw (e, claim_compensation, can)
            (NamesRun-bind t
              (emit_now world (
                compensation_task_started c.node_id worker (next_attempt c.attempt)
                  c.activity_type))
              _ s λ _ s₁. NamesRun-bind t (save world) _ s₁ (λ _ s₂. NamesRun-done t _ s₂ refl))
    ]
  ]

  claim_ready_task-NamesRun :
      (s : Session) → NamesRun t (claim_ready_task world can_handle worker s)
  unfolding claim_ready_task
  claim_ready_task-NamesRun s = elim (Bool-cases (is_terminal s.st || s.st.cancel_requested)) [
    | inl over ↦ rw (over, claim_ready_task) (NamesRun-none t s)
    | inr live ↦ elim (Bool-cases (is_compensating s.st.run_state)) [
      | inl c ↦
          NamesRun-same t _ (claim_compensation world can_handle worker s)
            (rw (live, claim_ready_task) (rw c refl)) (claim_compensation-NamesRun s)
      | inr c ↦
          NamesRun-same t _ (claim_node world can_handle worker (sort (keys s.st.nodes)) s)
            (rw (live, claim_ready_task) (rw c refl))
            (claim_node-NamesRun (sort (keys s.st.nodes)) s)
    ]
  ]

  pub claim_ready_task-run_id :
      (s : Session)
      → (claim_ready_task world can_handle worker s).0 ≡ ok (some t)
      → t.run_id ≡ (claim_ready_task world can_handle worker s).1.st.run_id
  claim_ready_task-run_id s h = (claim_ready_task-NamesRun s).names h
