-- ===== src/Engine/Runs/Ended.antt =====
-- internal/engine/engine.go and internal/state/state.go: runs that have ended.
use grael.Prelude.{◌≡◌, refl, sym, subst, ◌⊎◌, inl, true, arith}
use grael.Runtime.{RunState, Payload, Event}
use grael.State.{ExecutionState, is_terminal}
use grael.State.Apply.{apply}
use grael.State.Flags.{run_state_after, run_state-apply}
use grael.Engine.{World, Session}
use grael.Engine.Legal.{Legal, compensate, fail_run, complete_run, fail_compensation}
use grael.Engine.Steps.{Steps-keep}
use grael.Engine.Runs.{Command, execute, execute-Steps, Reach}
use grael.Engine.Runs.Reached.{Reach-IsWellFormed}

ended-after :
    (s : ExecutionState) {p : Payload}
    → Legal s p
    → is_terminal s ≡ true
    → is_terminal (record s { run_state = run_state_after p s.run_state }) ≡ true
unfolding is_terminal
ended-after s (compensate live failure work) ended = absurd (ground (arith, live.run))
ended-after s _ ended = ground arith

is_terminal-apply :
    (e : Event) (s : ExecutionState)
    → Legal s e.payload
    → is_terminal s ≡ true
    → is_terminal (apply e s).1 ≡ true
unfolding is_terminal
is_terminal-apply e s legal ended =
    rw (is_terminal, run_state-apply e s) (ended-after s legal ended)

-- The run state that ends a run stays, or a cancelled run fails.
abbrev pub Stays : RunState → RunState → Type 0
Stays r r' = (r' ≡ r) ⊎ ((r ≡ RunState.cancelled) × (r' ≡ RunState.failed))

Legal-Stays :
    (s : ExecutionState) {p : Payload}
    → Legal s p
    → is_terminal s ≡ true
    → Stays s.run_state (run_state_after p s.run_state)
unfolding is_terminal
Legal-Stays s (compensate live failure work) ended = absurd (ground (arith, live.run))
Legal-Stays s (Legal.compensated live done idle) ended = absurd (ground (arith, live.run))
Legal-Stays s (fail_run live failure work) ended = absurd (ground (arith, live.run))
Legal-Stays s (complete_run live all) ended = absurd (ground (arith, live.run))
Legal-Stays s (fail_compensation idle because state) ended = ground arith
Legal-Stays s (Legal.cancelled unended asked all) ended = absurd (ground (arith, unended))
Legal-Stays s _ ended = inl refl

Stays-trans : {r r' r'' : RunState} → Stays r r' → Stays r' r'' → Stays r r''
Stays-trans first second = ground arith

-- No command changes the run state of a run that is reached and has ended, but that a cancelled run may
-- become a failed one.
pub execute-Stays :
    (world : World) {s : Session} (c : Command)
    → Reach world s
    → is_terminal s.st ≡ true
    → Stays s.st.run_state (execute world c s).st.run_state
execute-Stays world {s} c reach ended =
    (Steps-keep (λ st _. (is_terminal st ≡ true) × Stays s.st.run_state st.run_state)
      (λ e st _ legal h. (
        is_terminal-apply e st legal h.0,
        Stays-trans h.1
            (subst (Stays st.run_state) (sym (run_state-apply e st)) (Legal-Stays st legal h.0)),
      ))
      (execute-Steps world c s (Reach-IsWellFormed world reach)) (ended, inl refl)).1
