-- ===== src/Tests/Demo.antt =====
-- The dashboard on small logs: a node that fails and is tried again, and a run that a worker has polled.
use grael.Prelude.{ℕ, ◌≡◌, refl, String, true, false, none, some, List, [], ◌∷◌, ◌++◌}
use grael.Prelude.Lists.{length, contains, Distinct}
use grael.Prelude.Map.{lookup, insert, keys}
use grael.Result.{ok, err}
use grael.Runtime.{
  Payload, Event, workflow_started, lease_granted, node_started, node_failed, timer_scheduled,
  timer_fired, retry_backoff,
}
use grael.State.{ExecutionState, new, mark_ready_loop, node_of, dependencies_completed}
use grael.State.Apply.{apply, rehydrate}
use grael.State.View.{view}
use grael.Engine.Start.{blank}
use grael.Engine.Fleet.{Entry, Engine, poll_task}
use grael.Demo.Events.{event_node_ids, edge_key}
use grael.Demo.Analysis.{list_at, analyze_events}
use grael.Demo.Graph.{ReplayFrame, build_replay_frames, snapshot_of}
use grael.Demo.Frames.{IsPicture, build_replay_frames-IsPicture}
use grael.Demo.Marks.{first_about, last_about, analyze_events-about}
use grael.Demo.Signals.{gives_signal, analyze_events-signals}
use grael.Tests.{flow}
use grael.Tests.Fleet.{worlds, with_run_a}

abbrev decimal : ℕ → String
decimal _ = "1"

abbrev event : ℕ → Payload → Event
event seq payload = record { seq = seq; run_id = "run-1"; timestamp = 10; payload = payload }

abbrev retry_log : List Event
retry_log =
    event 1 (workflow_started flow "hash" [])
    ∷ event 2 (lease_granted "a" "w" 1 "work")
    ∷ event 3 (node_started "a" "w" 1)
    ∷ event 4 (node_failed "a" "w" 1 "no" true false)
    ∷ event 5 (timer_scheduled "t" "a" 2 retry_backoff 20 "")
    ∷ event 6 (timer_fired "t" "a" 2 retry_backoff)
    ∷ []

abbrev first_events : List Event
first_events =
    event 1 (workflow_started flow "hash" []) ∷ event 2 (lease_granted "a" "w" 1 "work") ∷ []

abbrev started_a : Event
started_a = event 3 (node_started "a" "w" 1)

abbrev last_events : List Event
last_events =
    event 4 (node_failed "a" "w" 1 "no" true false)
    ∷ event 5 (timer_scheduled "t" "a" 2 retry_backoff 20 "")
    ∷ event 6 (timer_fired "t" "a" 2 retry_backoff)
    ∷ []

abbrev retried : ExecutionState
unfolding rehydrate
retried = elim (rehydrate retry_log) [ ok st ↦ st | err _ ↦ new ]

rehydrate-retry_log : rehydrate (first_events ++ started_a ∷ last_events) ≡ ok retried
unfolding rehydrate apply lookup insert mark_ready_loop keys node_of dependencies_completed retried
rehydrate-retry_log = refl

build_replay_frames-IsPicture_example :
    (shown : ExecutionState) × (f : ReplayFrame) × (earlier later : List ReplayFrame) × (rehydrate
        (first_events ++ started_a ∷ [])
      ≡ ok shown)
    × (build_replay_frames decimal retry_log ≡ earlier ++ f ∷ later)
    × (length earlier ≡ 2)
    × (length later ≡ 3)
    × (f.seq ≡ 3)
    × IsPicture f (snapshot_of decimal (view shown) (first_events ++ started_a ∷ []) 1)
build_replay_frames-IsPicture_example =
    build_replay_frames-IsPicture decimal first_events started_a last_events 1 rehydrate-retry_log

analyze_events-about_example :
    (lookup "a" (analyze_events retry_log).created ≡ some 2)
    × (lookup "a" (analyze_events retry_log).latest ≡ some 6)
unfolding first_about last_about contains event_node_ids
analyze_events-about_example = analyze_events-about retry_log "a"

analyze_events-signals_example :
    (contains (list_at "a" (analyze_events retry_log).signals) "retried" ≡ true)
    × Distinct (list_at "a" (analyze_events retry_log).signals)
unfolding gives_signal
analyze_events-signals_example = analyze_events-signals retry_log "a" "retried"

-- Two different edges with one key.
same_key : edge_key "a->b" "c" ≡ edge_key "a" "b->c"
unfolding edge_key
same_key = refl

abbrev polled : Engine
unfolding poll_task
polled = (poll_task worlds 2 "w" with_run_a).1

abbrev polled_entry : Entry
unfolding lookup polled
polled_entry = elim (lookup "run-1" polled.runs) [
  | some r ↦ r
  | none ↦ record { loaded = false; doubtful = false; session = blank }
]

abbrev seen : List Event → List Event
seen [] = []
seen (e ∷ events) = e ∷ []

abbrev unseen : List Event → List Event
unseen [] = []
unseen (e ∷ events) = events
