-- ===== src/Engine/Control.antt =====
-- internal/engine/engine.go: what a client asks of a run (`CancelRun`, `ApproveCheckpoint`).
use grael.Prelude.{String, ◌||◌, none, some, if◌then◌else◌}
use grael.Prelude.Map.{lookup}
use grael.Result.{raise, pure, ◌>>=◌, ◌>>◌, task_not_found, checkpoint_not_waiting}
use grael.Runtime.{cancellation_requested, checkpoint_approved, is_awaiting}
use grael.State.{is_terminal}
use grael.Engine.{World, Op, emit_now, save}
use grael.Engine.Advance.{advance, cancel_eligible_nodes}

module _ (world : World) where
  -- `CancelRun`
  unfoldable pub cancel_run : Op (Unit {0})
  unfolding emit_now cancel_eligible_nodes advance save
  cancel_run s =
      if is_terminal s.st || s.st.cancel_requested
      then pure tt s
      else (do
        emit_now world cancellation_requested
        cancel_eligible_nodes world
        advance world
        save world)
          s

  -- `ApproveCheckpoint`
  unfoldable pub approve_checkpoint : String → Op (Unit {0})
  unfolding emit_now save
  approve_checkpoint id s =
      if is_terminal s.st then raise checkpoint_not_waiting s else elim (lookup id s.st.nodes) [
        | none ↦ raise task_not_found s
        | some n ↦
            if is_awaiting n.state
            then (emit_now world (checkpoint_approved id) >>= λ _. save world) s
            else raise checkpoint_not_waiting s
      ]
