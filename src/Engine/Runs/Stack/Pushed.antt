-- ===== src/Engine/Runs/Stack/Pushed.antt =====
-- internal/state/state.go: what each event puts on the compensation stack.
use grael.Prelude.{
  ℕ, ◌≡◌, refl, sym, ap, ◌∙◌, inl, inr, none, some, List, [], ◌∷◌, ◌++◌, String, ◌==◌, arith,
  if◌then◌else◌, Bool-cases, Option-cases, append-nil,
}
use grael.Prelude.Map.{lookup}
use grael.Runtime.{
  Time, Values, NodeDefinition, Payload, Event, node_completed, compensation_task_started,
  compensation_task_completed,
}
use grael.Result.{Result, ok, err}
use grael.State.{
  CompensationEntry, ExecutionState, with_node, set_attempt, set_completed, mark_ready_nodes,
}
use grael.State.Apply.{
  apply, apply_payload, heartbeat, expire_lease, start_compensation_task, fire_timer, complete_node,
  advance_seq,
}

-- The nodes on the stack, the oldest first.
unfoldable pub stack_ids : List CompensationEntry → List String
stack_ids [] = []
stack_ids (c ∷ cs) = c.node_id ∷ stack_ids cs

-- What an event puts on the stack.
unfoldable pub pushed : Payload → ExecutionState → List String
pushed (node_completed id _ _ _ _) s = elim (lookup id s.nodes) [
  | none ↦ []
  | some n ↦ if n.compensation_activity == "" then [] else n.id ∷ []
]
pushed _ s = []

stack_ids-append :
    (cs ds : List CompensationEntry) → stack_ids (cs ++ ds) ≡ stack_ids cs ++ stack_ids ds
unfolding stack_ids
stack_ids-append [] ds = refl
stack_ids-append (c ∷ cs) ds = ap (λ ks. c.node_id ∷ ks) (stack_ids-append cs ds)

stack_ids-set_attempt :
    (id : String) (attempt : ℕ) (cs : List CompensationEntry)
    → stack_ids (set_attempt id attempt cs) ≡ stack_ids cs
unfolding stack_ids set_attempt
stack_ids-set_attempt id attempt [] = refl
stack_ids-set_attempt id attempt (c ∷ cs) = ground (arith, stack_ids-set_attempt id attempt cs)

stack_ids-set_completed :
    (id : String) (cs : List CompensationEntry) → stack_ids (set_completed id cs) ≡ stack_ids cs
unfolding stack_ids set_completed
stack_ids-set_completed id [] = refl
stack_ids-set_completed id (c ∷ cs) = ground (arith, stack_ids-set_completed id cs)

stack_ids-start_task :
    (now : Time) (id worker : String) (attempt : ℕ) (s : ExecutionState)
    → stack_ids (start_compensation_task now id worker attempt s).compensation_stack
      ≡ stack_ids s.compensation_stack
unfolding start_compensation_task
stack_ids-start_task now id worker attempt s =
    ground (arith, stack_ids-set_attempt id attempt s.compensation_stack)

stack_ids-complete_node :
    (id worker : String) (attempt : ℕ) (output : Values) (spawned : List NodeDefinition)
    (s : ExecutionState)
    → stack_ids (complete_node id worker attempt output spawned s).1.compensation_stack
      ≡ stack_ids s.compensation_stack ++ pushed (node_completed id worker attempt output spawned) s
unfolding complete_node pushed mark_ready_nodes stack_ids
stack_ids-complete_node id worker attempt output spawned s =
    elim (Option-cases (lookup id s.nodes)) [
      | inl e ↦ rw (e, complete_node, pushed) (sym (append-nil (stack_ids s.compensation_stack)))
      | inr (n, e) ↦ elim (Bool-cases (n.compensation_activity == "")) [
        | inl h ↦
            rw (e, complete_node, pushed) (rw h (sym (append-nil (stack_ids s.compensation_stack))))
        | inr h ↦ rw (e, complete_node, pushed) (rw h (stack_ids-append s.compensation_stack _))
      ]
    ]

stack_ids-apply_payload :
    (run_id : String) (now : Time) (p : Payload) (s : ExecutionState)
    → stack_ids (apply_payload run_id now p s).1.compensation_stack
      ≡ stack_ids s.compensation_stack ++ pushed p s
unfolding apply_payload pushed with_node heartbeat expire_lease fire_timer mark_ready_nodes
stack_ids-apply_payload run_id now (node_completed id worker attempt output spawned) s =
    stack_ids-complete_node id worker attempt output spawned s
stack_ids-apply_payload run_id now (compensation_task_started id worker attempt activity) s =
    stack_ids-start_task now id worker attempt s ∙ sym (append-nil (stack_ids s.compensation_stack))
stack_ids-apply_payload run_id now (compensation_task_completed id worker attempt) s =
    stack_ids-set_completed id s.compensation_stack
    ∙ sym (append-nil (stack_ids s.compensation_stack))
stack_ids-apply_payload run_id now _ s = ground (arith, append-nil (stack_ids s.compensation_stack))

stack-advance_seq :
    (seq : ℕ) (r : Result (Unit {0})) (s : ExecutionState)
    → (advance_seq seq r s).compensation_stack ≡ s.compensation_stack
stack-advance_seq seq (ok _) s = refl
stack-advance_seq seq (err _) s = refl

pub stack_ids-apply :
    (e : Event) (s : ExecutionState)
    → stack_ids (apply e s).1.compensation_stack
      ≡ stack_ids s.compensation_stack ++ pushed e.payload s
unfolding apply
stack_ids-apply e s =
    ap stack_ids (stack-advance_seq e.seq _ _)
    ∙ stack_ids-apply_payload e.run_id e.timestamp e.payload s
