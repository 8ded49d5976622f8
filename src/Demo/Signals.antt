-- ===== src/Demo/Signals.antt =====
-- demo/adapter/adapter.go: the signals that `analyzeEvents` gives to a node.
use grael.Prelude.{
  ℕ, ◌≡◌, refl, ◌∙◌, inl, inr, Bool-cases, arith, String, Bool, true, false, not, ◌&&◌, ◌||◌, List,
  [], ◌∷◌, ◌==◌,
}
use grael.Prelude.Lists.{any, contains, Distinct}
use grael.Prelude.Map.{lookup}
use grael.Runtime.{
  NodeDefinition, Payload, Event, timer_fired, checkpoint_reached, checkpoint_approved,
  node_completed, node_failed, workflow_completed, retry_backoff, checkpoint_deadline,
  exec_deadline, abs_deadline,
}
use grael.Demo.Events.{event_node_ids, spawned_ids}
use grael.Demo.Analysis.{
  Analysis, no_events, list_at, is_empty, is_backoff, complete_with, note_nodes, add_signal,
  add_spawn_edge, note_spawned_node, note_spawned, note_retryable, note_payload, analyze_event,
  analyze_loop, analyze_events,
}
use grael.Demo.Gains.{
  IsTidy, Gains, Gains-none, Gains-trans, add_signal-Gains, SameSignals, SameSignals-IsTidy,
  Gains-same, Gains-as,
}

-- The signals that an event of the log gives.
unfoldable pub gives_signal : Payload → (id signal : String) → Bool
unfolding spawned_ids contains
gives_signal (node_completed _ _ _ _ spawned) id signal =
    contains (spawned_ids spawned) id && "spawned" == signal
gives_signal (node_failed node_id _ _ _ retryable timed_out) id signal =
    node_id == id && (retryable && "retrying" == signal || timed_out && "timed_out" == signal)
gives_signal (timer_fired _ node_id _ purpose) id signal =
    node_id == id && (is_backoff purpose && "retried" == signal)
gives_signal (checkpoint_reached node_id _ _ _) id signal = node_id == id && "checkpoint" == signal
gives_signal (checkpoint_approved node_id) id signal = node_id == id && "approved" == signal
gives_signal _ id signal = false

add_spawn_edge-SameSignals :
    (parent id : String) (a : Analysis) → SameSignals a (add_spawn_edge parent id a)
unfolding add_spawn_edge
add_spawn_edge-SameSignals parent id a = ground arith

note_spawned_node-Gains :
    (parent : String) (def : NodeDefinition) (a : Analysis)
    → IsTidy a
    → Gains (λ id signal. def.id == id && "spawned" == signal) a (note_spawned_node parent def a)
unfolding note_spawned_node
note_spawned_node-Gains parent def a tidy =
    let signalled = add_signal def.id "spawned" a in
    let gain = add_signal-Gains def.id "spawned" a refl tidy in
    elim (Bool-cases (is_empty def.depends_on)) [
      | inl bare ↦
          rw (note_spawned_node, bare)
            (Gains-same (add_spawn_edge parent def.id signalled) gain
              (add_spawn_edge-SameSignals parent def.id signalled))
      | inr linked ↦ rw (note_spawned_node, linked) gain
    ]

note_spawned-Gains :
    (parent : String) (defs : List NodeDefinition) (a : Analysis)
    → IsTidy a
    → Gains
        (λ id signal. contains (spawned_ids defs) id && "spawned" == signal)
        a
        (note_spawned parent defs a)
unfolding note_spawned spawned_ids contains
note_spawned-Gains parent [] a tidy = Gains-none a tidy
note_spawned-Gains parent (def ∷ defs) a tidy =
    let first = note_spawned_node-Gains parent def a tidy in
    let others = note_spawned-Gains parent defs (note_spawned_node parent def a) first.tidy in
    Gains-as (λ id signal. ground arith) (Gains-trans first others)

note_failed-Gains :
    (seq : ℕ) (node_id worker : String) (attempt : ℕ) (message : String)
    (retryable timed_out : Bool) (a : Analysis)
    → IsTidy a
    → Gains
        (gives_signal (node_failed node_id worker attempt message retryable timed_out))
        a
        (note_payload seq (node_failed node_id worker attempt message retryable timed_out) a)
unfolding note_payload note_retryable gives_signal
note_failed-Gains seq node_id worker attempt message false false a tidy =
    Gains-as (λ id signal. ground arith) (Gains-none a tidy)
note_failed-Gains seq node_id worker attempt message false true a tidy =
    Gains-as (λ id signal. ground arith) (add_signal-Gains node_id "timed_out" a refl tidy)
note_failed-Gains seq node_id worker attempt message true false a tidy =
    let gain = add_signal-Gains node_id "retrying" a refl tidy in
    Gains-as (λ id signal. ground arith)
      (Gains-same (note_retryable seq node_id true a) gain (refl, refl))
note_failed-Gains seq node_id worker attempt message true true a tidy =
    let retried = note_retryable seq node_id true a in
    let first = Gains-same retried (add_signal-Gains node_id "retrying" a refl tidy) (refl, refl) in
    let second = add_signal-Gains node_id "timed_out" retried refl first.tidy in
    Gains-as (λ id signal. ground arith) (Gains-trans first second)

note_payload-Gains :
    (seq : ℕ) (payload : Payload) (a : Analysis)
    → IsTidy a
    → Gains (gives_signal payload) a (note_payload seq payload a)
unfolding note_payload gives_signal spawned_ids contains
note_payload-Gains seq (node_completed id _ _ _ []) a tidy =
    Gains-as (λ id signal. ground arith) (Gains-none a tidy)
note_payload-Gains seq (node_completed id _ _ _ (def ∷ defs)) a tidy =
    let marked : Analysis = record a { spawn_phase = complete_with seq id a.spawn_phase } in
    let gain =
      note_spawned-Gains id (def ∷ defs) marked (SameSignals-IsTidy a marked (refl, refl) tidy) in
    record { tidy = gain.tidy; gains = gain.gains }
note_payload-Gains seq (node_failed id worker attempt message retryable timed_out) a tidy =
    note_failed-Gains seq id worker attempt message retryable timed_out a tidy
note_payload-Gains seq (timer_fired _ node_id _ retry_backoff) a tidy =
    Gains-as (λ id signal. ground arith)
      (Gains-same _ (add_signal-Gains node_id "retried" a refl tidy) (refl, refl))
note_payload-Gains seq (timer_fired _ id _ checkpoint_deadline) a tidy =
    Gains-as (λ id signal. ground arith) (Gains-none a tidy)
note_payload-Gains seq (timer_fired _ id _ exec_deadline) a tidy =
    Gains-as (λ id signal. ground arith) (Gains-none a tidy)
note_payload-Gains seq (timer_fired _ id _ abs_deadline) a tidy =
    Gains-as (λ id signal. ground arith) (Gains-none a tidy)
note_payload-Gains seq (checkpoint_reached node_id _ _ _) a tidy =
    Gains-same _ (add_signal-Gains node_id "checkpoint" a refl tidy) (refl, refl)
note_payload-Gains seq (checkpoint_approved node_id) a tidy =
    Gains-same _ (add_signal-Gains node_id "approved" a refl tidy) (refl, refl)
note_payload-Gains seq workflow_completed a tidy = Gains-same _ (Gains-none a tidy) (refl, refl)
note_payload-Gains seq _ a tidy = Gains-none a tidy

note_nodes-SameSignals :
    (seq : ℕ) (ids : List String) (a : Analysis) → SameSignals a (note_nodes seq ids a)
unfolding note_nodes
note_nodes-SameSignals seq [] a = (refl, refl)
note_nodes-SameSignals seq (id ∷ ids) a = note_nodes-SameSignals seq ids _

analyze_loop-Gains :
    (events : List Event) (a : Analysis)
    → IsTidy a
    → Gains
        (λ id signal. any (λ event. gives_signal event.payload id signal) events)
        a
        (analyze_loop events a)
unfolding analyze_loop analyze_event
analyze_loop-Gains [] a tidy = Gains-none a tidy
analyze_loop-Gains (event ∷ events) a tidy =
    let noted = note_nodes event.seq (event_node_ids event.payload) a in
    let same = note_nodes-SameSignals event.seq (event_node_ids event.payload) a in
    let first =
      note_payload-Gains event.seq event.payload noted (SameSignals-IsTidy a noted same tidy) in
    let others =
      analyze_loop-Gains events (note_payload event.seq event.payload noted) first.tidy in
    let all = Gains-trans first others in
    record { tidy = all.tidy; gains = λ id signal. all.gains id signal ∙ rw (same.1) refl }

-- `analyzeEvents` gives a node that has a name the signals that the events give it, each once, and a
-- node without a name none.
pub analyze_events-signals :
    (events : List Event) (id signal : String)
    → (contains (list_at id (analyze_events events).signals) signal
        ≡ (not (id == "") && any (λ event. gives_signal event.payload id signal) events))
      × Distinct (list_at id (analyze_events events).signals)
unfolding analyze_events list_at contains lookup
analyze_events-signals events id signal =
    let gain =
      analyze_loop-Gains events no_events
        (record { agrees = λ id' signal'. refl; distinct = λ id'. tt }) in
    (gain.gains id signal, gain.tidy.distinct id)
