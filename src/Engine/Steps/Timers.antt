-- ===== src/Engine/Steps/Timers.antt =====
-- internal/engine/engine.go: the steps of the functions that schedule timers.
use grael.Prelude.{ℕ, String, ◌≡◌, inl, inr, some, ◌||◌, Option-cases}
use grael.Prelude.Int.{not_positive, le_nat}
use grael.Prelude.Map.{lookup}
use grael.Runtime.{Duration, FailTaskRequest, TimerPurpose}
use grael.State.{Node}
use grael.Engine.{World, Session}
use grael.Engine.Timers.{
  emit_timer, schedule_execution_deadline, schedule_absolute_deadline, schedule_checkpoint_timeout,
  schedule_retry,
}
use grael.Engine.Queries.{has_pending_abs_timer}
use grael.Engine.Legal.{schedule}
use grael.Engine.Steps.{Steps, Steps-refl}
use grael.Engine.Steps.Rules.{Steps-if, Steps-emit}

module _ (world : World) (n m : Node) where
  Steps-emit_timer :
      (timer_id : String) (attempt : ℕ) (purpose : TimerPurpose) (after : Duration)
      (worker : String) (s : Session)
      → lookup n.id s.st.nodes ≡ some m
      → Steps s (emit_timer world timer_id n.id attempt purpose after worker s).1
  unfolding emit_timer
  Steps-emit_timer timer_id attempt purpose after worker s at =
      Steps-emit world s.st.run_id (world.time s.calls) _ s (schedule m at)

  pub Steps-schedule_execution :
      (worker : String) (attempt : ℕ) (s : Session)
      → lookup n.id s.st.nodes ≡ some m
      → Steps s (schedule_execution_deadline world n worker attempt s).1
  unfolding schedule_execution_deadline
  Steps-schedule_execution worker attempt s at =
      Steps-if (not_positive n.execution_deadline) _ _ s (λ _. Steps-refl s)
        (λ _. Steps-emit_timer _ _ _ _ _ s at)

  pub Steps-schedule_absolute :
      (worker : String) (s : Session)
      → lookup n.id s.st.nodes ≡ some m
      → Steps s (schedule_absolute_deadline world n worker s).1
  unfolding schedule_absolute_deadline
  Steps-schedule_absolute worker s at =
      Steps-if (not_positive n.absolute_deadline) _ _ s (λ _. Steps-refl s)
        λ _.
          Steps-if (has_pending_abs_timer s.st n.id) _ _ s (λ _. Steps-refl s)
            (λ _. Steps-emit_timer _ _ _ _ _ s at)

  pub Steps-schedule_checkpoint :
      (attempt : ℕ) (s : Session)
      → lookup n.id s.st.nodes ≡ some m
      → Steps s (schedule_checkpoint_timeout world n attempt s).1
  unfolding schedule_checkpoint_timeout
  Steps-schedule_checkpoint attempt s at =
      Steps-if (not_positive n.checkpoint_timeout) _ _ s (λ _. Steps-refl s)
        (λ _. Steps-emit_timer _ _ _ _ _ s at)

  pub Steps-schedule_retry :
      (req : FailTaskRequest) (s : Session)
      → lookup n.id s.st.nodes ≡ some m
      → Steps s (schedule_retry world n req s).1
  unfolding schedule_retry
  Steps-schedule_retry req s at = elim (Option-cases n.retry_policy) [
    | inl e ↦ simp (e, schedule_retry) (Steps-refl s)
    | inr (policy, e) ↦
        simp (e, schedule_retry)
          (Steps-if (le_nat policy.max_attempts 1 || le_nat policy.max_attempts req.attempt) _ _ s
            (λ _. Steps-refl s) (λ _. Steps-emit_timer _ _ _ _ _ s at))
  ]
