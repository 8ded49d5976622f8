-- ===== src/State/Flags.antt =====
-- internal/state/state.go: which events change the flags and the run state of a run.
use grael.Prelude.{String, ◌≡◌, refl, Bool, true, false, ◌||◌, arith}
use grael.Runtime.{
  Time, RunState, Payload, Event, workflow_started, cancellation_requested, cancellation_completed,
  compensation_started, compensation_completed, workflow_failed, workflow_completed,
}
use grael.State.{ExecutionState}
use grael.State.Apply.{apply_payload, apply}

abbrev pub is_request : Payload → Bool
is_request cancellation_requested = true
is_request _ = false

-- The run state that an event sets.
abbrev pub run_state_after : Payload → RunState → RunState
run_state_after (workflow_started _ _ _) r = RunState.running
run_state_after cancellation_completed r = RunState.cancelled
run_state_after compensation_started r = RunState.compensating
run_state_after compensation_completed r = RunState.compensated
run_state_after (workflow_failed _) r = RunState.failed
run_state_after workflow_completed r = RunState.completed
run_state_after _ r = r

pub cancel_requested-apply_payload :
    (run_id : String) (now : Time) (p : Payload) (s : ExecutionState)
    → (apply_payload run_id now p s).1.cancel_requested ≡ (is_request p || s.cancel_requested)
unfolding apply_payload
cancel_requested-apply_payload run_id now cancellation_requested s = refl
cancel_requested-apply_payload run_id now _ s = ground arith

pub run_state-apply_payload :
    (run_id : String) (now : Time) (p : Payload) (s : ExecutionState)
    → (apply_payload run_id now p s).1.run_state ≡ run_state_after p s.run_state
unfolding apply_payload
run_state-apply_payload run_id now cancellation_requested s = refl
run_state-apply_payload run_id now _ s = ground arith

-- `LastSeq` is all that `Apply` adds to the change that the payload makes.
pub cancel_requested-apply :
    (e : Event) (s : ExecutionState)
    → (apply e s).1.cancel_requested ≡ (is_request e.payload || s.cancel_requested)
unfolding apply
cancel_requested-apply e s =
    ground (arith, cancel_requested-apply_payload e.run_id e.timestamp e.payload s)

pub run_state-apply :
    (e : Event) (s : ExecutionState)
    → (apply e s).1.run_state ≡ run_state_after e.payload s.run_state
unfolding apply
run_state-apply e s = ground (arith, run_state-apply_payload e.run_id e.timestamp e.payload s)

-- Only the first event names the run.
abbrev pub run_id_after : Payload → (given run_id : String) → String
run_id_after (workflow_started _ _ _) given run_id = given
run_id_after _ given run_id = run_id

run_id-apply_payload :
    (run_id : String) (now : Time) (p : Payload) (s : ExecutionState)
    → (apply_payload run_id now p s).1.run_id ≡ run_id_after p run_id s.run_id
unfolding apply_payload
run_id-apply_payload run_id now cancellation_requested s = refl
run_id-apply_payload run_id now _ s = ground arith

pub run_id-apply :
    (e : Event) (s : ExecutionState)
    → (apply e s).1.run_id ≡ run_id_after e.payload e.run_id s.run_id
unfolding apply
run_id-apply e s = ground (arith, run_id-apply_payload e.run_id e.timestamp e.payload s)
