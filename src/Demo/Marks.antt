-- ===== src/Demo/Marks.antt =====
-- demo/adapter/adapter.go: the numbers at which `analyzeEvents` sees a node for the first and the last time.
use grael.Prelude.{
  ℕ, ◌≡◌, refl, ◌∙◌, ap, ◌||◌, inl, inr, Bool-cases, arith, String, Bool, true, false, Option, none,
  some, List, [], ◌∷◌, ◌==◌, if◌then◌else◌,
}
use text.Mathlib.TextEquality.{eq_iff}
use grael.Prelude.Lists.{contains}
use grael.Prelude.Map.{Map, lookup, insert, has, lookup-insert}
use grael.Runtime.{
  NodeDefinition, Payload, Event, timer_fired, checkpoint_reached, checkpoint_approved,
  node_completed, node_failed, workflow_completed, retry_backoff, checkpoint_deadline,
  exec_deadline, abs_deadline,
}
use grael.Demo.Events.{event_node_ids}
use grael.Demo.Analysis.{
  Analysis, no_events, is_empty, complete_with, note_nodes, add_signal, add_spawn_edge,
  note_spawned_node, note_spawned, note_retryable, note_payload, analyze_event, analyze_loop,
  analyze_events,
}

-- The number of the first, and of the last, event that is about a node.
unfoldable pub first_about : String → List Event → Option ℕ
first_about id [] = none
first_about id (event ∷ events) =
    let later = first_about id events in
    if contains (event_node_ids event.payload) id then some event.seq else later

unfoldable pub last_about : String → List Event → Option ℕ
last_about id [] = none
last_about id (event ∷ events) = elim (last_about id events) [
  | some seq ↦ some seq
  | none ↦ if contains (event_node_ids event.payload) id then some event.seq else none
]

-- The two maps of nodes are those of before.
abbrev SameMarks : Analysis → Analysis → Type 0
SameMarks a b = (a.created ≡ b.created) × (a.latest ≡ b.latest)

add_signal-SameMarks : (id signal : String) (a : Analysis) → SameMarks (add_signal id signal a) a
unfolding add_signal
add_signal-SameMarks id signal a = ground arith

add_spawn_edge-SameMarks :
    (parent id : String) (a : Analysis) → SameMarks (add_spawn_edge parent id a) a
unfolding add_spawn_edge
add_spawn_edge-SameMarks parent id a = ground arith

note_spawned_node-SameMarks :
    (parent : String) (def : NodeDefinition) (a : Analysis)
    → SameMarks (note_spawned_node parent def a) a
unfolding note_spawned_node
note_spawned_node-SameMarks parent def a =
    let signalled = add_signal def.id "spawned" a in
    let signal = add_signal-SameMarks def.id "spawned" a in
    let edge = add_spawn_edge-SameMarks parent def.id signalled in
    elim (Bool-cases (is_empty def.depends_on)) [
      | inl bare ↦ rw (note_spawned_node, bare) (edge.0 ∙ signal.0, edge.1 ∙ signal.1)
      | inr linked ↦ rw (note_spawned_node, linked) signal
    ]

note_spawned-SameMarks :
    (parent : String) (defs : List NodeDefinition) (a : Analysis)
    → SameMarks (note_spawned parent defs a) a
unfolding note_spawned
note_spawned-SameMarks parent [] a = (refl, refl)
note_spawned-SameMarks parent (def ∷ defs) a =
    let others = note_spawned-SameMarks parent defs (note_spawned_node parent def a) in
    let first = note_spawned_node-SameMarks parent def a in (others.0 ∙ first.0, others.1 ∙ first.1)

note_failed-SameMarks :
    (seq : ℕ) (id : String) (attempt : ℕ) (worker message : String) (retryable timed_out : Bool)
    (a : Analysis)
    → SameMarks (note_payload seq (node_failed id worker attempt message retryable timed_out) a) a
unfolding note_payload note_retryable
note_failed-SameMarks seq id attempt worker message false false a = (refl, refl)
note_failed-SameMarks seq id attempt worker message false true a =
    add_signal-SameMarks id "timed_out" a
note_failed-SameMarks seq id attempt worker message true false a =
    add_signal-SameMarks id "retrying" a
note_failed-SameMarks seq id attempt worker message true true a =
    let first = add_signal-SameMarks id "retrying" a in
    let second = add_signal-SameMarks id "timed_out" (note_retryable seq id true a) in
    (second.0 ∙ first.0, second.1 ∙ first.1)

note_payload-SameMarks :
    (seq : ℕ) (payload : Payload) (a : Analysis) → SameMarks (note_payload seq payload a) a
unfolding note_payload
note_payload-SameMarks seq (node_completed id _ _ _ []) a = (refl, refl)
note_payload-SameMarks seq (node_completed id _ _ _ (def ∷ defs)) a =
    note_spawned-SameMarks id (def ∷ defs)
      (record a { spawn_phase = complete_with seq id a.spawn_phase })
note_payload-SameMarks seq (node_failed id worker attempt message retryable timed_out) a =
    note_failed-SameMarks seq id attempt worker message retryable timed_out a
note_payload-SameMarks seq (timer_fired _ id _ retry_backoff) a =
    add_signal-SameMarks id "retried" a
note_payload-SameMarks seq (timer_fired _ id _ checkpoint_deadline) a = (refl, refl)
note_payload-SameMarks seq (timer_fired _ id _ exec_deadline) a = (refl, refl)
note_payload-SameMarks seq (timer_fired _ id _ abs_deadline) a = (refl, refl)
note_payload-SameMarks seq (checkpoint_reached id _ _ _) a = add_signal-SameMarks id "checkpoint" a
note_payload-SameMarks seq (checkpoint_approved id) a = add_signal-SameMarks id "approved" a
note_payload-SameMarks seq workflow_completed a = (refl, refl)
note_payload-SameMarks seq _ a = (refl, refl)

-- What an event about the nodes `ids`, with the number `seq`, does to an entry of the maps.
abbrev kept_or : Bool → ℕ → Option ℕ → Option ℕ
kept_or about seq (some old) = some old
kept_or about seq none = if about then some seq else none

created-lookup :
    (seq : ℕ) (first id : String) (m : Map ℕ)
    → lookup id (if has m first then m else insert first seq m)
      ≡ kept_or (first == id) seq (lookup id m)
unfolding has
created-lookup seq first id m = ground (arith, lookup-insert first id seq m, eq_iff first id)

kept_or-or :
    (one others : Bool) (seq : ℕ) (o : Option ℕ)
    → kept_or others seq (kept_or one seq o) ≡ kept_or (one || others) seq o
kept_or-or one others seq o = ground arith

note_nodes-lookup :
    (seq : ℕ) (ids : List String) (id : String) (a : Analysis)
    → (lookup id (note_nodes seq ids a).created
        ≡ kept_or (contains ids id) seq (lookup id a.created))
      × (lookup id (note_nodes seq ids a).latest
          ≡ (if contains ids id then some seq else lookup id a.latest))
unfolding note_nodes contains
note_nodes-lookup seq [] id a = (ground arith, refl)
note_nodes-lookup seq (first ∷ ids) id a =
    let noted : Analysis = record a {
      created = if has a.created first then a.created else insert first seq a.created;
      latest = insert first seq a.latest;
    } in
    let others = note_nodes-lookup seq ids id noted in
    (
      others.0
          ∙ ap (kept_or (contains ids id) seq) (created-lookup seq first id a.created)
          ∙ kept_or-or (first == id) (contains ids id) seq (lookup id a.created),
      ground (arith, others.1, lookup-insert first id seq a.latest),
    )

-- The entries after more events.
abbrev later_or : Option ℕ → Option ℕ → Option ℕ
later_or (some seq) old = some seq
later_or none old = old

analyze_loop-lookup :
    (id : String) (events : List Event) (a : Analysis)
    → (lookup id (analyze_loop events a).created
        ≡ later_or (lookup id a.created) (first_about id events))
      × (lookup id (analyze_loop events a).latest
          ≡ later_or (last_about id events) (lookup id a.latest))
unfolding analyze_loop analyze_event first_about last_about
analyze_loop-lookup id [] a = (ground arith, refl)
analyze_loop-lookup id (event ∷ events) a =
    let ids = event_node_ids event.payload in
    let noted = note_nodes event.seq ids a in
    let same = note_payload-SameMarks event.seq event.payload noted in
    let here = note_nodes-lookup event.seq ids id a in
    let others = analyze_loop-lookup id events (note_payload event.seq event.payload noted) in
    (others.0 ∙ rw (same.0, here.0) (ground arith), others.1 ∙ rw (same.1, here.1) (ground arith))

-- `analyzeEvents` records for each node the number of the first event that is about it as the one at
-- which it was created, and that of the last such event as its latest, and no number for a node that no
-- event is about.
pub analyze_events-about :
    (events : List Event) (id : String)
    → (lookup id (analyze_events events).created ≡ first_about id events)
      × (lookup id (analyze_events events).latest ≡ last_about id events)
unfolding analyze_events lookup first_about
analyze_events-about events id =
    let h = analyze_loop-lookup id events no_events in (h.0, h.1 ∙ ground arith)
