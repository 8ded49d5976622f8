-- ===== src/Engine/Steps/Monitor.antt =====
-- internal/engine/engine.go: the steps of `Heartbeat`, `expireOverdueLeases` and `fireDueTimers`.
use grael.Prelude.{
  ◌-◌, String, ◌≡◌, refl, inl, inr, Bool, true, false, not, ◌&&◌, ◌||◌, some, List, [], ◌∷◌, ◌==◌,
  eq_iff, ltb, nat_eq, arith, if◌then◌else◌, Option-cases, subst, sym,
}
use grael.Prelude.Map.{lookup, keys}
use grael.Result.{ignore}
use grael.Runtime.{Time, NodeState, Payload, timer_fired, is_running}
use grael.State.{Node, Timer, is_terminal}
use grael.State.Apply.{is_retry}
use grael.Engine.{World, Session}
use grael.Engine.Queries.{should_fail}
use grael.Engine.Advance.{reconcile}
use grael.Engine.Monitor.{
  Loop, heartbeat_timeout, try_emit, beat_node, beat_nodes, beat_compensation, save_changed,
  beat_run, heartbeat_run, is_overdue, expire_node, expire_nodes, expire_compensation, settle,
  expire_run, expire_leases, fail_for_timer, time_out, fire_due, fire_timers, fire_run,
  fire_due_timers,
}
use grael.Engine.Legal.{Legal, can_fail}
use grael.Engine.Legal.WellFormed.{IsWellFormed, lookup-node_id}
use grael.Engine.Steps.{Steps, Steps-refl, Steps-trans}
use grael.Engine.Steps.Rules.{Steps-IsWellFormed, Steps-emit, Steps-save}
use grael.Engine.Steps.Advance.{Steps-reconcile}

-- A branch of a loop, or of what follows one.
Steps-branch :
    (b : Bool) (m n : Bool × Session) (s : Session)
    → (b ≡ true → Steps s m.1)
    → (b ≡ false → Steps s n.1)
    → Steps s (if b then m else n).1
Steps-branch true m n s yes' no' = yes' refl
Steps-branch false m n s yes' no' = no' refl

Steps-choice :
    (b : Bool) (m n : Session) (s : Session)
    → (b ≡ true → Steps s m)
    → (b ≡ false → Steps s n)
    → Steps s (if b then m else n)
Steps-choice true m n s yes' no' = yes' refl
Steps-choice false m n s yes' no' = no' refl

should_fail-can_fail : (n : Node) (t : Timer) → should_fail n t ≡ true → can_fail n.state ≡ true
unfolding should_fail
should_fail-can_fail n t h = ground arith

module _ (world : World) (now : Time) where
  Steps-try_emit :
      (p : Payload) (changed : Bool) (s : Session)
      → Legal s.st p
      → Steps s (try_emit world now p changed s).1
  unfolding try_emit
  Steps-try_emit p changed s legal = Steps-emit world s.st.run_id now p s legal

  Steps-beat_node :
      (worker id : String) (changed : Bool) (s : Session)
      → IsWellFormed s.st
      → Steps s (beat_node world now worker id changed s).1
  unfolding beat_node
  Steps-beat_node worker id changed s wf = elim (Option-cases (lookup id s.st.nodes)) [
    | inl e ↦ rw (e, beat_node) (Steps-refl s)
    | inr (n, e) ↦
        rw (e, beat_node)
          (Steps-branch (is_running n.state && n.worker_id == worker) _ _ s
            (λ h. Steps-try_emit _ changed s (
              Legal.beat n (lookup-node_id s.st id n wf e) (ground arith)
                (ground (arith, eq_iff n.worker_id worker)) refl))
            (λ _. Steps-refl s))
  ]

  Steps-beat_nodes :
      (worker : String) (ids : List String) (changed : Bool) (s : Session)
      → IsWellFormed s.st
      → Steps s (beat_nodes world now worker ids changed s).1
  unfolding beat_nodes
  Steps-beat_nodes worker [] changed s wf = Steps-refl s
  Steps-beat_nodes worker (id ∷ ids) changed s wf =
      let first = Steps-beat_node worker id changed s wf in
      Steps-trans first (Steps-beat_nodes worker ids _ _ (Steps-IsWellFormed first wf))

  Steps-beat_compensation :
      (worker : String) (changed : Bool) (s : Session)
      → Steps s (beat_compensation world now worker changed s).1
  unfolding beat_compensation
  Steps-beat_compensation worker changed s = elim (Option-cases s.st.active_compensation) [
    | inl e ↦ simp (e, beat_compensation) (Steps-refl s)
    | inr (a, e) ↦
        simp (e, beat_compensation)
          (Steps-branch (a.worker_id == worker) _ _ s
            (λ h.
              Steps-try_emit _ changed s
                (Legal.beat_task a e refl ((eq_iff a.worker_id worker).0 h) refl))
            (λ _. Steps-refl s))
  ]

  Steps-save_changed :
      (m : Loop) (s : Session) → Steps s (m s).1 → Steps s (save_changed world now m s)
  unfolding save_changed
  Steps-save_changed m s loop =
      Steps-choice (m s).0 _ _ s (λ _. Steps-trans loop (Steps-save world (m s).1)) (λ _. loop)

  Steps-beat_run :
      (worker : String) (s : Session) → IsWellFormed s.st → Steps s (beat_run world now worker s).1
  unfolding beat_run
  Steps-beat_run worker s wf =
      let (changed, t) = beat_nodes world now worker (keys s.st.nodes) false s in
      Steps-trans (Steps-beat_nodes worker (keys s.st.nodes) false s wf)
        (Steps-beat_compensation worker changed t)

  -- `Heartbeat` takes legal steps.
  pub Steps-heartbeat_run :
      (worker : String) (s : Session)
      → IsWellFormed s.st
      → Steps s (heartbeat_run world now worker s)
  unfolding heartbeat_run
  Steps-heartbeat_run worker s wf =
      Steps-choice (is_terminal s.st) _ _ s (λ _. Steps-refl s)
        λ _. Steps-save_changed (beat_run world now worker) s (Steps-beat_run worker s wf)

  overdue-running : (n : Node) → is_overdue world now n ≡ true → n.state ≡ NodeState.running
  unfolding is_overdue
  overdue-running n h = ground arith

  Steps-expire_node :
      (id : String) (changed : Bool) (s : Session)
      → IsWellFormed s.st
      → Steps s (expire_node world now id changed s).1
  unfolding expire_node
  Steps-expire_node id changed s wf = elim (Option-cases (lookup id s.st.nodes)) [
    | inl e ↦ rw (e, expire_node) (Steps-refl s)
    | inr (n, e) ↦
        rw (e, expire_node)
          (Steps-branch (is_overdue world now n) _ _ s
            (λ h.
              Steps-try_emit _ changed s
                (Legal.expire n (lookup-node_id s.st id n wf e) (overdue-running n h) refl))
            (λ _. Steps-refl s))
  ]

  Steps-expire_nodes :
      (ids : List String) (changed : Bool) (s : Session)
      → IsWellFormed s.st
      → Steps s (expire_nodes world now ids changed s).1
  unfolding expire_nodes
  Steps-expire_nodes [] changed s wf = Steps-refl s
  Steps-expire_nodes (id ∷ ids) changed s wf =
      let first = Steps-expire_node id changed s wf in
      Steps-trans first (Steps-expire_nodes ids _ _ (Steps-IsWellFormed first wf))

  Steps-expire_compensation :
      (changed : Bool) (s : Session) → Steps s (expire_compensation world now changed s).1
  unfolding expire_compensation
  Steps-expire_compensation changed s = elim (Option-cases s.st.active_compensation) [
    | inl e ↦ simp (e, expire_compensation) (Steps-refl s)
    | inr (a, e) ↦
        simp (e, expire_compensation)
          (Steps-branch
            (not (nat_eq a.last_heartbeat_at 0)
              && ltb heartbeat_timeout (now - a.last_heartbeat_at))
            _ _ s (λ h. Steps-try_emit _ changed s (Legal.expire_task a e)) (λ _. Steps-refl s))
  ]

  Steps-reconcile_ignored :
      (s : Session) → IsWellFormed s.st → Steps s (ignore (reconcile world) s).1
  Steps-reconcile_ignored s wf = Steps-reconcile world s wf

  Steps-settle :
      (m : Loop) (s : Session)
      → IsWellFormed s.st
      → Steps s (m s).1
      → Steps s (settle world now m s)
  unfolding settle
  Steps-settle m s wf loop =
      Steps-choice (m s).0 _ _ s
        (λ _. Steps-trans loop (
          Steps-trans (Steps-reconcile_ignored (m s).1 (Steps-IsWellFormed loop wf))
            (Steps-save world _)))
        (λ _. loop)

  Steps-expire_run : (s : Session) → IsWellFormed s.st → Steps s (expire_run world now s).1
  unfolding expire_run
  Steps-expire_run s wf =
      let (changed, t) = expire_nodes world now (keys s.st.nodes) false s in
      Steps-trans (Steps-expire_nodes (keys s.st.nodes) false s wf)
        (Steps-expire_compensation changed t)

  -- `expireOverdueLeases` takes legal steps.
  pub Steps-expire_leases : (s : Session) → IsWellFormed s.st → Steps s (expire_leases world now s)
  unfolding expire_leases
  Steps-expire_leases s wf = Steps-settle (expire_run world now) s wf (Steps-expire_run s wf)

  Steps-fail_for_timer :
      (t : Timer) (id : String) (n : Node) (s : Session)
      → lookup id s.st.nodes ≡ some n
      → can_fail n.state ≡ true
      → IsWellFormed s.st
      → Steps s (fail_for_timer world now t n s)
  unfolding fail_for_timer
  Steps-fail_for_timer t id n s at may wf =
      let first =
        Steps-try_emit _ false s (Legal.fail n (lookup-node_id s.st id n wf at) may refl) in
      Steps-choice _ _ _ s
        (λ _. Steps-trans first (Steps-reconcile_ignored _ (Steps-IsWellFormed first wf)))
        (λ _. first)

  Steps-time_out : (t : Timer) (s : Session) → IsWellFormed s.st → Steps s (time_out world now t s)
  unfolding time_out
  Steps-time_out t s wf = elim (Option-cases (lookup t.node_id s.st.nodes)) [
    | inl e ↦
        rw (e, time_out)
          (Steps-choice (is_retry t.purpose) _ _ s (λ _. Steps-refl s) (λ _. Steps-refl s))
    | inr (n, e) ↦
        rw (e, time_out)
          (Steps-choice (is_retry t.purpose) _ _ s (λ _. Steps-refl s)
            λ _.
              Steps-choice (should_fail n t) _ _ s
                (λ h. Steps-fail_for_timer t t.node_id n s e (should_fail-can_fail n t h) wf)
                (λ _. Steps-refl s))
  ]

  Steps-fire_due :
      (id : String) (t : Timer) (changed : Bool) (s : Session)
      → lookup id s.st.timers ≡ some t
      → IsWellFormed s.st
      → Steps s (fire_due world now t changed s).1
  unfolding fire_due
  Steps-fire_due id t changed s at wf =
      Steps-branch (is_terminal s.st || (t.fired || ltb now t.fire_at)) _ _ s (λ _. Steps-refl s)
        λ h.
          let at' = subst (λ i. lookup i s.st.timers ≡ some t) (sym (wf.timer_named id t at)) at in
          let first =
            Steps-try_emit _ false s
              (Legal.fire t at' (ground arith) refl refl refl (ground arith)) in
          Steps-branch
            (try_emit world now (timer_fired t.id t.node_id t.attempt t.purpose) false s).0
            (
              true,
              time_out world now t
                  (try_emit world now (timer_fired t.id t.node_id t.attempt t.purpose) false s).1,
            )
            _ s (λ _. Steps-trans first (Steps-time_out t _ (Steps-IsWellFormed first wf)))
            (λ _. first)

  Steps-fire_timers :
      (ids : List String) (changed : Bool) (s : Session)
      → IsWellFormed s.st
      → Steps s (fire_timers world now ids changed s).1
  unfolding fire_timers
  Steps-fire_timers [] changed s wf = Steps-refl s
  Steps-fire_timers (id ∷ ids) changed s wf = elim (Option-cases (lookup id s.st.timers)) [
    | inl e ↦ rw (e, fire_timers) (Steps-fire_timers ids changed s wf)
    | inr (t, e) ↦
        let first = Steps-fire_due id t changed s e wf in
        rw (e, fire_timers)
          (Steps-trans first (Steps-fire_timers ids _ _ (Steps-IsWellFormed first wf)))
  ]

  -- `fireDueTimers` takes legal steps.
  pub Steps-fire_due_timers :
      (s : Session) → IsWellFormed s.st → Steps s (fire_due_timers world now s)
  unfolding fire_due_timers
  Steps-fire_due_timers s wf =
      Steps-settle (fire_run world now) s wf
        (unfold fire_run in Steps-fire_timers (keys s.st.timers) false s wf)
