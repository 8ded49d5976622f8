-- ===== src/Engine/Steps/Control.antt =====
-- internal/engine/engine.go: the steps of `CancelRun` and `ApproveCheckpoint`.
use grael.Prelude.{String, ◌≡◌, ap, ◌∙◌, inl, inr, true, ◌||◌, arith, Option-cases}
use grael.Prelude.Map.{lookup}
use grael.Result.{ok}
use grael.Runtime.{cancellation_requested, checkpoint_approved, is_awaiting}
use grael.State.{is_terminal}
use grael.State.Flags.{cancel_requested-apply}
use grael.Engine.{World, Session, stamp, emit_now}
use grael.Engine.Advance.{advance, cancel_eligible_nodes}
use grael.Engine.Control.{cancel_run, approve_checkpoint}
use grael.Engine.Legal.{request, approve}
use grael.Engine.Legal.WellFormed.{IsWellFormed}
use grael.Engine.Steps.{Steps, Steps-refl}
use grael.Engine.Steps.Rules.{
  Steps-IsWellFormed, Steps-bind, Steps-if, Steps-emit_now, Steps-save, st-emit_now,
}
use grael.Engine.Steps.Advance.{Steps-advance, Steps-cancel_eligible}

-- A request that was recorded has been made.
asked-emit :
    (world : World) (s : Session)
    → (emit_now world cancellation_requested s).0 ≡ ok tt
    → (emit_now world cancellation_requested s).1.st.cancel_requested ≡ true
unfolding stamp
asked-emit world s e =
    let event = stamp world s s.st.run_id (world.time s.calls) cancellation_requested in
    ap (λ st. st.cancel_requested) (st-emit_now world cancellation_requested s e)
    ∙ cancel_requested-apply event s.st

module _ (world : World) where
  pub Steps-cancel_run : (s : Session) → IsWellFormed s.st → Steps s (cancel_run world s).1
  unfolding cancel_run
  Steps-cancel_run s wf =
      Steps-if (is_terminal s.st || s.st.cancel_requested) _ _ s (λ _. Steps-refl s)
        λ live.
          let first =
            Steps-emit_now world cancellation_requested s (request (ground arith) (ground arith)) in
          Steps-bind (emit_now world cancellation_requested) _ s first λ a e.
            Steps-bind (cancel_eligible_nodes world) _ _
              (Steps-cancel_eligible world _ (asked-emit world s e) (Steps-IsWellFormed first wf))
              λ _ _.
                Steps-bind (advance world) _ _ (Steps-advance world _) (λ _ _. Steps-save world _)

  pub Steps-approve_checkpoint :
      (id : String) (s : Session) → Steps s (approve_checkpoint world id s).1
  unfolding approve_checkpoint
  Steps-approve_checkpoint id s = elim (Option-cases (lookup id s.st.nodes)) [
    | inl e ↦ rw (e, approve_checkpoint) (Steps-if _ _ _ s (λ _. Steps-refl s) (λ _. Steps-refl s))
    | inr (n, e) ↦
        rw (e, approve_checkpoint)
          (Steps-if _ _ _ s (λ _. Steps-refl s)
            λ live.
              Steps-if (is_awaiting n.state) _ _ s
                (λ waits.
                  Steps-bind (emit_now world (checkpoint_approved id)) _ s
                    (Steps-emit_now world _ s (approve n e (ground arith) live))
                    (λ _ _. Steps-save world _))
                (λ _. Steps-refl s))
  ]
