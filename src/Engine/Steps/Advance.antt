-- ===== src/Engine/Steps/Advance.antt =====
-- internal/engine/engine.go: the steps of `advanceRunStateLocked`, `cancelEligibleNodesLocked` and
-- `reconcileRunLocked`.
use grael.Prelude.{
  String, ◌≡◌, inl, inr, true, false, List, [], ◌∷◌, arith, if◌then◌else◌, Option-cases,
}
use grael.Prelude.Lists.{sort}
use grael.Prelude.Map.{lookup, keys}
use grael.Result.{pure}
use grael.Runtime.{RunState, is_compensating}
use grael.State.{ExecutionState, is_terminal}
use grael.State.Flags.{cancel_requested-apply}
use grael.Engine.{World, Session}
use grael.Engine.Advance.{advance, cancel_node, cancel_nodes, cancel_eligible_nodes, reconcile}
use grael.Engine.Legal.{IsLive, cancelled, compensate, compensated, cancel, fail_run, complete_run}
use grael.Engine.Legal.WellFormed.{IsWellFormed, lookup-node_id}
use grael.Engine.Steps.{Steps, Steps-refl, Steps-keep}
use grael.Engine.Steps.Rules.{Steps-IsWellFormed, Steps-bind, Steps-if, Steps-if_op, Steps-emit_now}

IsLive-compensating :
    (s : ExecutionState)
    → s.cancel_requested ≡ false
    → is_compensating s.run_state ≡ true
    → IsLive s RunState.compensating
IsLive-compensating s kept c = record { run = ground arith; kept = kept }

pub IsLive-running :
    (s : ExecutionState)
    → is_terminal s ≡ false
    → s.cancel_requested ≡ false
    → is_compensating s.run_state ≡ false
    → IsLive s RunState.running
unfolding is_terminal
IsLive-running s live kept c = record { run = ground arith; kept = kept }

-- A requested cancellation stays requested.
pub Steps-asked :
    {s t : Session} → Steps s t → s.st.cancel_requested ≡ true → t.st.cancel_requested ≡ true
Steps-asked steps asked =
    Steps-keep (λ st _. st.cancel_requested ≡ true)
      (λ e st _ _ h. ground (arith, cancel_requested-apply e st)) steps asked

module _ (world : World) where
  pub Steps-advance : (s : Session) → Steps s (advance world s).1
  unfolding advance
  Steps-advance s =
      Steps-if _ _ _ s (λ _. Steps-refl s)
        λ live.
          Steps-if _ _ _ s
            (λ asked.
              Steps-if _ _ _ s (λ ended. Steps-emit_now world _ s (cancelled live asked ended))
                (λ _. Steps-refl s))
            λ kept.
              Steps-if _ _ _ s
                (λ c.
                  Steps-if _ _ _ s (λ _. Steps-refl s)
                    λ idle.
                      Steps-emit_now world _ s (
                        compensated (IsLive-compensating s.st kept c) (ground arith)
                          (ground arith)))
                λ c.
                  let alive = IsLive-running s.st live kept c in
                  Steps-if _ _ _ s (λ full. Steps-emit_now world _ s (complete_run alive full))
                    λ _.
                      Steps-if _ _ _ s
                        (λ failed.
                          Steps-if _ _ _ s
                            (λ work. Steps-emit_now world _ s (compensate alive failed work))
                            (λ none_left.
                              Steps-emit_now world _ s (fail_run alive failed none_left)))
                        (λ _. Steps-refl s)

  Steps-cancel_node :
      (id : String) (s : Session)
      → s.st.cancel_requested ≡ true
      → IsWellFormed s.st
      → Steps s (cancel_node world id s).1
  unfolding cancel_node
  Steps-cancel_node id s asked wf = elim (Option-cases (lookup id s.st.nodes)) [
    | inl e ↦ rw (e, cancel_node) (Steps-refl s)
    | inr (n, e) ↦
        rw (e, cancel_node)
          (Steps-if _ _ _ s
            (λ may. Steps-emit_now world _ s (cancel n (lookup-node_id s.st id n wf e) may asked))
            (λ _. Steps-refl s))
  ]

  Steps-cancel_nodes :
      (ids : List String) (s : Session)
      → s.st.cancel_requested ≡ true
      → IsWellFormed s.st
      → Steps s (cancel_nodes world ids s).1
  unfolding cancel_nodes
  Steps-cancel_nodes [] s asked wf = Steps-refl s
  Steps-cancel_nodes (id ∷ ids) s asked wf =
      let first = Steps-cancel_node id s asked wf in
      Steps-bind (cancel_node world id) (λ _. cancel_nodes world ids) s first
        λ _ _.
          Steps-cancel_nodes ids (cancel_node world id s).1 (Steps-asked first asked)
            (Steps-IsWellFormed first wf)

  pub Steps-cancel_eligible :
      (s : Session)
      → s.st.cancel_requested ≡ true
      → IsWellFormed s.st
      → Steps s (cancel_eligible_nodes world s).1
  unfolding cancel_eligible_nodes
  Steps-cancel_eligible s asked wf = Steps-cancel_nodes (sort (keys s.st.nodes)) s asked wf

  pub Steps-reconcile : (s : Session) → IsWellFormed s.st → Steps s (reconcile world s).1
  unfolding reconcile
  Steps-reconcile s wf =
      Steps-if _ _ _ s (λ _. Steps-refl s)
        λ _.
          Steps-bind (if s.st.cancel_requested then cancel_eligible_nodes world else pure tt)
            (λ _. advance world) s
            (Steps-if_op _ _ _ s (λ asked. Steps-cancel_eligible s asked wf) (λ _. Steps-refl s))
            (λ _ _. Steps-advance _)
