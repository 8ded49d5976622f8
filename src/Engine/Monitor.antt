-- ===== src/Engine/Monitor.antt =====
-- internal/engine/engine.go: what `Heartbeat`, `expireOverdueLeases` and `fireDueTimers` do to one
-- run. Their loops drop every error and go on; `changed` says whether anything was written.
use grael.Prelude.{
  ◌-◌, String, Bool, true, false, not, ◌&&◌, ◌||◌, none, some, List, [], ◌∷◌, ◌==◌, ltb, nat_eq,
  if◌then◌else◌,
}
use grael.Prelude.Map.{lookup, keys}
use grael.Result.{Result, ok, err, ignore}
use grael.Runtime.{
  Time, heartbeat_recorded, lease_expired, compensation_task_expired, timer_fired, node_failed,
  is_running, Payload,
}
use grael.State.{Node, Timer, is_terminal}
use grael.State.Apply.{is_retry}
use grael.Engine.{World, Session, emit, save}
use grael.Engine.Queries.{should_fail, timeout_message}
use grael.Engine.Advance.{reconcile}

-- `defaultHeartbeatTimeout`, 150 milliseconds.
abbrev pub heartbeat_timeout : Time
heartbeat_timeout = 150_000_000

abbrev pub Loop : Type 0
Loop = Session → Bool × Session

-- `changed` after an attempt to write an event.
abbrev pub written : Bool → Result (Unit {0}) → Bool
written changed (ok _) = true
written changed (err _) = changed

module _ (world : World) (now : Time) where
  -- An event whose error is dropped.
  unfoldable pub try_emit : Payload → Bool → Loop
  unfolding emit
  try_emit payload changed s =
      let (r, t) = emit world s.st.run_id now payload s in (written changed r, t)

  -- One round of the loop of `Heartbeat`.
  unfoldable pub beat_node : (worker id : String) → Bool → Loop
  unfolding try_emit
  beat_node worker id changed s = elim (lookup id s.st.nodes) [
    | none ↦ (changed, s)
    | some n ↦
        if is_running n.state && n.worker_id == worker
        then try_emit (heartbeat_recorded n.id worker n.attempt) changed s
        else (changed, s)
  ]

  unfoldable pub beat_nodes : (worker : String) → List String → Bool → Loop
  unfolding beat_node
  beat_nodes worker [] changed s = (changed, s)
  beat_nodes worker (id ∷ ids) changed s =
      let (changed', t) = beat_node worker id changed s in beat_nodes worker ids changed' t

  unfoldable pub beat_compensation : (worker : String) → Bool → Loop
  unfolding try_emit
  beat_compensation worker changed s = elim s.st.active_compensation [
    | none ↦ (changed, s)
    | some a ↦
        if a.worker_id == worker
        then try_emit (heartbeat_recorded a.node_id worker a.attempt) changed s
        else (changed, s)
  ]

  -- `if changed { _ = e.snapshots.Save(st) }`
  unfoldable pub save_changed : Loop → Session → Session
  unfolding save
  save_changed m s = let (changed, t) = m s in if changed then (save world t).1 else t

  -- The two loops of `Heartbeat`.
  unfoldable pub beat_run : (worker : String) → Loop
  unfolding beat_nodes beat_compensation
  beat_run worker s =
      let (changed, t) = beat_nodes worker (keys s.st.nodes) false s in
      beat_compensation worker changed t

  -- `Heartbeat`, at one run.
  unfoldable pub heartbeat_run : (worker : String) → Session → Session
  unfolding beat_run save_changed
  heartbeat_run worker s = if is_terminal s.st then s else save_changed (beat_run worker) s

  -- Whether a node's last heartbeat is too old, or there was none.
  unfoldable pub is_overdue : Node → Bool
  is_overdue n =
      is_running n.state
      && (not (n.worker_id == "")
          && (nat_eq n.last_heartbeat_at 0 || ltb heartbeat_timeout (now - n.last_heartbeat_at)))

  -- One round of the loop of `expireOverdueLeases`.
  unfoldable pub expire_node : String → Bool → Loop
  unfolding try_emit is_overdue
  expire_node id changed s = elim (lookup id s.st.nodes) [
    | none ↦ (changed, s)
    | some n ↦
        if is_overdue n
        then try_emit (lease_expired n.id n.worker_id n.attempt) changed s
        else (changed, s)
  ]

  unfoldable pub expire_nodes : List String → Bool → Loop
  unfolding expire_node
  expire_nodes [] changed s = (changed, s)
  expire_nodes (id ∷ ids) changed s =
      let (changed', t) = expire_node id changed s in expire_nodes ids changed' t

  unfoldable pub expire_compensation : Bool → Loop
  unfolding try_emit
  expire_compensation changed s = elim s.st.active_compensation [
    | none ↦ (changed, s)
    | some a ↦
        if not (nat_eq a.last_heartbeat_at 0) && ltb heartbeat_timeout (now - a.last_heartbeat_at)
        then try_emit (compensation_task_expired a.node_id a.worker_id a.attempt) changed s
        else (changed, s)
  ]

  -- `if changed { _ = e.reconcileRunLocked(st) }` and the save.
  unfoldable pub settle : Loop → Session → Session
  unfolding reconcile save
  settle m s =
      let (changed, t) = m s in if changed then (save world (ignore (reconcile world) t).1).1 else t

  -- The two loops of `expireOverdueLeases`.
  unfoldable pub expire_run : Loop
  unfolding expire_nodes expire_compensation
  expire_run s =
      let (changed, t) = expire_nodes (keys s.st.nodes) false s in expire_compensation changed t

  -- `expireOverdueLeases`, at one run.
  unfoldable pub expire_leases : Session → Session
  unfolding expire_run settle
  expire_leases s = settle expire_run s

  -- The timer's node times out: the event, and the run moves on if it could be written.
  unfoldable pub fail_for_timer : Timer → Node → Session → Session
  unfolding try_emit reconcile
  fail_for_timer t n s =
      let (done, u) =
        try_emit (node_failed n.id n.worker_id n.attempt (timeout_message t.purpose) false true)
          false s in
      if done then (ignore (reconcile world) u).1 else u

  -- What `fireDueTimers` does after the event of a deadline or a checkpoint timeout.
  unfoldable pub time_out : Timer → Session → Session
  unfolding fail_for_timer
  time_out t s = if is_retry t.purpose then s else elim (lookup t.node_id s.st.nodes) [
    | none ↦ s
    | some n ↦ if should_fail n t then fail_for_timer t n s else s
  ]

  -- One round of the loop of `fireDueTimers`, at a timer that is there.
  unfoldable pub fire_due : Timer → Bool → Loop
  unfolding try_emit time_out
  fire_due t changed s =
      if is_terminal s.st || (t.fired || ltb now t.fire_at)
      then (changed, s)
      else let (done, u) = try_emit (timer_fired t.id t.node_id t.attempt t.purpose) false s in
        if done then (true, time_out t u) else (changed, u)

  unfoldable pub fire_timers : List String → Bool → Loop
  unfolding fire_due
  fire_timers [] changed s = (changed, s)
  fire_timers (id ∷ ids) changed s = elim (lookup id s.st.timers) [
    | none ↦ fire_timers ids changed s
    | some t ↦ let (changed', u) = fire_due t changed s in fire_timers ids changed' u
  ]

  -- The loop of `fireDueTimers`.
  unfoldable pub fire_run : Loop
  unfolding fire_timers
  fire_run s = fire_timers (keys s.st.timers) false s

  -- `fireDueTimers`, at one run.
  unfoldable pub fire_due_timers : Session → Session
  unfolding fire_run settle
  fire_due_timers s = settle fire_run s
