-- ===== src/Engine/Leases.antt =====
-- internal/engine/engine.go: the lease under which `CompleteTask` and `FailTask` take a report.
pub mod Stack
pub mod Claim
pub mod HandOut
pub mod Names
use grael.Prelude.{
  ℕ, ◌≡◌, refl, ◌⊎◌, inl, inr, Bool, true, false, ◌&&◌, not, none, some, String, nat_eq, arith,
  Bool-cases, Option-cases,
}
use grael.Prelude.Map.{lookup}
use grael.Result.{Result, err, task_not_found, attempt_mismatch, lease_expired}
use grael.Runtime.{CompleteTaskRequest, FailTaskRequest, is_running}
use grael.State.{Node, ExecutionState, holds_compensation}
use grael.Engine.{World, Session}
use grael.Engine.Queries.{is_some}
use grael.Engine.Tasks.{
  holds_lease, check_lease, complete_compensation, fail_compensation, complete_task, fail_task,
}

-- What a lease is: a running node, or the active compensation, with this worker and attempt.
unfoldable pub has_lease :
    ExecutionState → (compensation : Bool) → (node_id worker_id : String) → ℕ → Bool
unfolding holds_lease holds_compensation
has_lease s true id worker attempt = holds_compensation s.active_compensation id worker attempt
has_lease s false id worker attempt = elim (lookup id s.nodes) [
  | none ↦ false
  | some n ↦ holds_lease n worker attempt
]

-- The report is refused, and the run is as it was: state, log, snapshot, and no call was made.
abbrev pub Refused : Result (Unit {0}) × Session → Session → Type 0
Refused r s =
    (r ≡ (err task_not_found, s)) ⊎ (r ≡ (err attempt_mismatch, s)) ⊎ (r ≡ (err lease_expired, s))

check_lease-refuses :
    (n : Node) (worker : String) (attempt : ℕ)
    → holds_lease n worker attempt ≡ false
    → (check_lease n worker attempt ≡ some lease_expired)
      ⊎ (check_lease n worker attempt ≡ some attempt_mismatch)
unfolding check_lease
check_lease-refuses n worker attempt h =
    elim (Bool-cases (nat_eq n.attempt attempt && not (is_running n.state))) [
      | inl gone ↦ inl (ground arith)
      | inr other ↦ inr (ground arith)
    ]

complete_compensation-refuses :
    (world : World) (req : CompleteTaskRequest) (s : Session)
    → holds_compensation s.st.active_compensation req.node_id req.worker_id req.attempt ≡ false
    → Refused (complete_compensation world req s) s
unfolding complete_compensation
complete_compensation-refuses world req s h = elim (Bool-cases (is_some s.st.active_compensation)) [
  | inl some_a ↦ inr (inl (rw (some_a, complete_compensation) (rw h refl)))
  | inr none_a ↦ inl (rw (none_a, complete_compensation) refl)
]

fail_compensation-refuses :
    (world : World) (req : FailTaskRequest) (s : Session)
    → holds_compensation s.st.active_compensation req.node_id req.worker_id req.attempt ≡ false
    → Refused (fail_compensation world req s) s
unfolding fail_compensation
fail_compensation-refuses world req s h = elim (Bool-cases (is_some s.st.active_compensation)) [
  | inl some_a ↦ inr (inl (rw (some_a, fail_compensation) (rw h refl)))
  | inr none_a ↦ inl (rw (none_a, fail_compensation) refl)
]

module _ (world : World) where
  -- `CompleteTask` refuses the report of a worker that does not hold exactly the lease that the report
  -- names, of a node or of a compensation, with one of three errors, and the run stays as it was.
  pub complete_task-fenced :
      (req : CompleteTaskRequest) (s : Session)
      → has_lease s.st req.compensation req.node_id req.worker_id req.attempt ≡ false
      → Refused (complete_task world req s) s
  unfolding complete_task has_lease
  complete_task-fenced req s h = elim (Bool-cases req.compensation) [
    | inl c ↦ simp (c, complete_task) (complete_compensation-refuses world req s (ground arith))
    | inr c ↦ elim (Option-cases (lookup req.node_id s.st.nodes)) [
      | inl e ↦ inl (simp (c, e, complete_task))
      | inr (n, e) ↦ elim (check_lease-refuses n req.worker_id req.attempt (ground arith)) [
        | inl l ↦ inr (inr (simp (c, e, l, complete_task)))
        | inr l ↦ inr (inl (simp (c, e, l, complete_task)))
      ]
    ]
  ]

  -- `FailTask` refuses the report of a worker that does not hold exactly the lease that the report
  -- names, of a node or of a compensation, with one of three errors, and the run stays as it was.
  pub fail_task-fenced :
      (req : FailTaskRequest) (s : Session)
      → has_lease s.st req.compensation req.node_id req.worker_id req.attempt ≡ false
      → Refused (fail_task world req s) s
  unfolding fail_task has_lease
  fail_task-fenced req s h = elim (Bool-cases req.compensation) [
    | inl c ↦ simp (c, fail_task) (fail_compensation-refuses world req s (ground arith))
    | inr c ↦ elim (Option-cases (lookup req.node_id s.st.nodes)) [
      | inl e ↦ inl (simp (c, e, fail_task))
      | inr (n, e) ↦ elim (check_lease-refuses n req.worker_id req.attempt (ground arith)) [
        | inl l ↦ inr (inr (simp (c, e, l, fail_task)))
        | inr l ↦ inr (inl (simp (c, e, l, fail_task)))
      ]
    ]
  ]
