-- ===== src/Engine/Timers.antt =====
-- internal/engine/engine.go: the four places that schedule a timer.
use Prim.Native.String.{◌++◌}
use grael.Prelude.{ℕ, String, ◌||◌, none, some, if◌then◌else◌}
use grael.Prelude.Int.{not_positive, add_duration, le_nat}
use grael.Result.{pure}
use grael.Runtime.{
  Duration, FailTaskRequest, TimerPurpose, retry_backoff, checkpoint_deadline, exec_deadline,
  abs_deadline, timer_scheduled,
}
use grael.State.{Node}
use grael.Engine.{World, Op, emit}
use grael.Engine.Queries.{has_pending_abs_timer}

-- The text of a `TimerPurpose`.
unfoldable pub purpose_text : TimerPurpose → String
purpose_text retry_backoff = "retry_backoff"
purpose_text checkpoint_deadline = "checkpoint_timeout"
purpose_text exec_deadline = "node_exec_deadline"
purpose_text abs_deadline = "node_abs_deadline"

module _ (world : World) where
  -- `fmt.Sprintf("%s:%s:%d:%s", ...)`
  unfoldable pub timer_id : (run_id node_id : String) → ℕ → TimerPurpose → String
  unfolding purpose_text
  timer_id run_id node_id attempt purpose =
      run_id ++ ":" ++ node_id ++ ":" ++ world.decimal attempt ++ ":" ++ purpose_text purpose

  -- The event that the four functions below share: a timer that fires a while from now.
  unfoldable pub emit_timer :
      (timer_id node_id : String)
      → ℕ
      → TimerPurpose
      → Duration
      → (worker_id : String) → Op (Unit {0})
  unfolding emit
  emit_timer timer_id node_id attempt purpose after worker s =
      emit world s.st.run_id (world.time s.calls)
        (timer_scheduled timer_id node_id attempt purpose (add_duration (world.time s.calls) after)
          worker)
        s

  -- `scheduleExecutionDeadlineTimerLocked`
  unfoldable pub schedule_execution_deadline : Node → (worker_id : String) → ℕ → Op (Unit {0})
  unfolding timer_id emit_timer
  schedule_execution_deadline n worker attempt s =
      if not_positive n.execution_deadline
      then pure tt s
      else emit_timer (timer_id s.st.run_id n.id attempt exec_deadline) n.id attempt exec_deadline
          n.execution_deadline worker s

  -- `scheduleAbsoluteDeadlineTimerLocked`
  unfoldable pub schedule_absolute_deadline : Node → (worker_id : String) → Op (Unit {0})
  unfolding purpose_text emit_timer
  schedule_absolute_deadline n worker s =
      if not_positive n.absolute_deadline
      then pure tt s
      else if has_pending_abs_timer s.st n.id
      then pure tt s
      else emit_timer (s.st.run_id ++ ":" ++ n.id ++ ":" ++ purpose_text abs_deadline) n.id 0
          abs_deadline n.absolute_deadline worker s

  -- `scheduleCheckpointTimeoutLocked`
  unfoldable pub schedule_checkpoint_timeout : Node → ℕ → Op (Unit {0})
  unfolding timer_id emit_timer
  schedule_checkpoint_timeout n attempt s =
      if not_positive n.checkpoint_timeout
      then pure tt s
      else emit_timer (timer_id s.st.run_id n.id attempt checkpoint_deadline) n.id attempt
          checkpoint_deadline n.checkpoint_timeout "" s

  -- `scheduleRetryTimerLocked`
  unfoldable pub schedule_retry : Node → FailTaskRequest → Op (Unit {0})
  unfolding timer_id emit_timer
  schedule_retry n req s = elim n.retry_policy [
    | none ↦ pure tt s
    | some policy ↦
        if le_nat policy.max_attempts 1 || le_nat policy.max_attempts req.attempt
        then pure tt s
        else emit_timer (timer_id s.st.run_id n.id req.attempt retry_backoff) n.id req.attempt
            retry_backoff policy.backoff req.worker_id s
  ]
