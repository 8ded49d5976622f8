-- ===== src/Engine/Runs/Reached.antt =====
-- internal/engine/engine.go: how a property of every run that is reached is proved: at the run's first
-- event, at each legal event, and at each snapshot.
use grael.Prelude.{
  String, ◌≡◌, refl, sym, subst, inl, inr, Bool, true, false, not, ◌||◌, Option, none, some, List,
  [], ◌∷◌, ◌++◌, arith, Bool-cases,
}
use grael.Prelude.Map.{lookup}
use grael.Result.{ok, Result-cases}
use grael.Runtime.{Values, WorkflowDefinition, workflow_started, Event, RunState}
use grael.State.{ExecutionState, new, add_nodes, mark_ready_nodes}
use grael.State.Apply.{apply, apply_payload}
use grael.State.Moves.{OnlyNew}
use grael.State.Complete.{OnlyNew-add}
use grael.Workflow.{normalize}
use grael.Workflow.Laws.{IsValid, normalize-IsValid}
use grael.Engine.{World, Session, stamp, emit, save}
use grael.Engine.Start.{blank, start_run, start_event}
use grael.Engine.Queries.{is_some}
use grael.Engine.Legal.{Legal, may_compensate}
use grael.Engine.Legal.WellFormed.{IsWellFormed}
use grael.Engine.Steps.{Steps, here, Steps-trans, Keeps, Steps-keeps}
use grael.Engine.Steps.Rules.{apply-IsWellFormed, Steps-save}
use grael.Engine.Runs.{execute-Steps, Reach, started, then_}

-- The first event of a run.
pub record IsStart (e : Event) : Type 0 where
  pub workflow : WorkflowDefinition
  pub hash : String
  pub input : Values
  pub payload_is : e.payload ≡ workflow_started workflow hash input
  pub first : e.seq ≡ 1
  pub valid : IsValid workflow

-- The state, the log and the snapshot after it.
abbrev pub begun : Event → Session
begun e = record {
  st = (apply e new).1;
  log = e ∷ [];
  damaged = false;
  snapshot = none;
  torn = false;
  calls = 1;
}

-- The state that the first event builds, before `markReadyNodes`.
abbrev pub unpromoted : (e : Event) → IsStart e → ExecutionState
unpromoted e start = record new {
  run_id = e.run_id;
  workflow = start.workflow.name;
  definition_hash = start.hash;
  input = start.input;
  run_state = RunState.running;
  created_at = e.timestamp;
  nodes = add_nodes start.workflow.nodes [];
}

-- All nodes after it are new.
pub begun-OnlyNew : (e : Event) → IsStart e → OnlyNew [] (begun e).st.nodes
unfolding apply apply_payload
begun-OnlyNew e start =
    subst (λ p. OnlyNew [] (apply (record e { payload = p }) new).1.nodes) (sym start.payload_is)
      (OnlyNew-add (unpromoted e start) [] start.workflow.nodes refl)

begun-timers : (e : Event) → IsStart e → (begun e).st.timers ≡ []
unfolding apply apply_payload mark_ready_nodes
begun-timers e start = simp (start.payload_is, apply)

begun-settled :
    (e : Event) (start : IsStart e)
    → (not (is_some (begun e).st.active_compensation) || may_compensate (begun e).st.run_state)
      ≡ true
unfolding apply apply_payload mark_ready_nodes
begun-settled e start = simp (start.payload_is, apply)

pub begun-IsWellFormed : (e : Event) → IsStart e → IsWellFormed (begun e).st
unfolding lookup
begun-IsWellFormed e start =
    let timers = begun-timers e start in
    record {
      named = λ k n' at. elim (begun-OnlyNew e start k n' at) [
        | inl (n, before) ↦ absurd (ground arith)
        | inr new' ↦ new'.named
      ];
      timer_named = λ k t' at. absurd (ground arith);
      timer_node = λ k t' at. absurd (ground arith);
      settled = begun-settled e start;
    }

module _ (world : World) where
  saved-Steps :
      (e : Event) (damaged : Bool) (t : Session)
      → IsStart e
      → t ≡ (save world (record (begun e) { damaged = damaged })).1
      → (e' : Event) × (e'.run_id ≡ e.run_id) × IsStart e' × Steps (begun e') t
  saved-Steps e damaged t start h =
      let recorded = record (begun e) { damaged = damaged } in
      let written : Steps (begun e) recorded =
        here (record { same_st = refl; same_log = refl; snapped = refl; intact = λ _. refl }) in
      (
        e,
        refl,
        start,
        subst (λ x. Steps (begun e) x) (sym h) (Steps-trans written (Steps-save world recorded)),
      )

  -- A run that starts has recorded its first event, and perhaps a snapshot.
  pub start_run-Steps :
      (run_id : String) (hash : WorkflowDefinition → String) (def : WorkflowDefinition)
      (input : Values) (s : Session)
      → start_run world run_id hash def input ≡ ok s
      → (e : Event) × (e.run_id ≡ run_id) × IsStart e × Steps (begun e) s
  unfolding start_run start_event stamp emit apply
  start_run-Steps run_id hash def input s h = elim (Result-cases (normalize def)) [
    | inr (x, e) ↦ absurd (ground arith)
    | inl (normal, e) ↦ elim (Bool-cases (world.wal_ok 0)) [
      | inr f ↦ absurd (ground arith)
      | inl w ↦
          let first =
            stamp world blank run_id (world.time 0) (workflow_started def (hash normal) input) in
          saved-Steps first (not (world.wal_clean 0)) s
            (record {
              workflow = def;
              hash = hash normal;
              input = input;
              payload_is = refl;
              first = refl;
              valid = ((normalize-IsValid def normal).0 e).0;
            })
            (let done : start_run world run_id hash def input
                  ≡ ok (save world (record (begun first) { damaged = not (world.wal_clean 0) })).1 =
                ground arith in
              cc)
    ]
  ]

-- A property that the first event brings about, and that events and snapshots keep.
pub record Holds {ℓ} (P : ExecutionState → List Event → Option ExecutionState → Type ℓ)
    : Type ℓ where
  pub begin : (e : Event) → IsStart e → P (begun e).st (e ∷ []) none
  pub event :
      (e : Event) (st : ExecutionState) (log : List Event) (snapshot : Option ExecutionState)
      → IsWellFormed st
      → Legal st e.payload
      → P st log snapshot
      → P (apply e st).1 (log ++ e ∷ []) snapshot
  pub save :
      (st : ExecutionState) (log : List Event) (snapshot : Option ExecutionState)
      → P st log snapshot
      → P st log (some st)

module _ {ℓ} (P : ExecutionState → List Event → Option ExecutionState → Type ℓ)
    (holds : Holds P) where
  abbrev Both : ExecutionState → List Event → Option ExecutionState → Type ℓ
  Both st log snapshot = IsWellFormed st × P st log snapshot

  Keeps-Both : Keeps Both
  Keeps-Both = record {
    event = λ e st log snapshot legal h.
        (apply-IsWellFormed e st legal h.0, holds.event e st log snapshot h.0 legal h.1);
    save = λ st log snapshot h. (h.0, holds.save st log snapshot h.1);
  }

  pub Reach-keeps :
      (world : World) {s : Session} → Reach world s → IsWellFormed s.st × P s.st s.log s.snapshot
  Reach-keeps world (started run_id hash def input e) =
      let (first, _, start, steps) = start_run-Steps world run_id hash def input _ e in
      Steps-keeps Both Keeps-Both steps (begun-IsWellFormed first start, holds.begin first start)
  Reach-keeps world (then_ {s} c reach) =
      let h = Reach-keeps world reach in Steps-keeps Both Keeps-Both (execute-Steps world c s h.0) h

-- In a run that is reached nodes and timers stand under their ids, each timer is about a node that is
-- there, and a compensation task is active only where the run is being compensated or has been
-- cancelled.
pub Reach-IsWellFormed : (world : World) {s : Session} → Reach world s → IsWellFormed s.st
Reach-IsWellFormed world reach =
    (Reach-keeps (λ _ _ _. Unit {0})
      (record { begin = λ _ _. tt; event = λ _ _ _ _ _ _ _. tt; save = λ _ _ _ _. tt }) world
      reach).0
