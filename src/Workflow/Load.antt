-- ===== src/Workflow/Load.antt =====
-- internal/workflowdef/loader.go: `LoadJSON` and `BuiltIn`, and what a run makes of their definitions.
use grael.Prelude.{
  ◌≡◌, refl, sym, ap, subst, arith, String, true, not, Option, none, some, List, [], ◌∷◌, map, ◌==◌,
  if◌then◌else◌, ◌⊎◌, inl, inr, Option-cases, Bool-cases,
}
use grael.Prelude.Lists.{length, All}
use grael.Prelude.Int.{pos}
use grael.Result.{Result, ok, err, read_workflow_failed, decode_workflow_failed, unknown_example}
use grael.Runtime.{Values, NodeDefinition, WorkflowDefinition, Event, workflow_started}
use grael.State.Apply.{apply}
use grael.Wal.{Bytes}
use grael.Workflow.{ids, normalized, normalize}
use grael.Workflow.Loops.{IsValidNode}
use grael.Workflow.Laws.{IsValid, normal_form, normalize-IsValid, normalized_idem}
use grael.Engine.{World, Session, stamp, emit, save}
use grael.Engine.Start.{blank, start_event, start_run}

-- `LoadJSON`, at the bytes of the file, if it can be read, and with `json.Unmarshal`.
unfoldable pub load_json :
    (content : Option Bytes) (unmarshal : Bytes → Option WorkflowDefinition)
    → Result WorkflowDefinition
unfolding normalize
load_json none unmarshal = err read_workflow_failed
load_json (some bytes) unmarshal = elim (unmarshal bytes) [
  | none ↦ err decode_workflow_failed
  | some def ↦ normalize def
]

-- A node with the fields that are not left out in the example.
abbrev noop : (id : String) (depends_on : List String) → NodeDefinition
noop id depends_on = record {
  id = id;
  activity_type = "noop";
  input = [];
  depends_on = depends_on;
  retry_policy = none;
  compensation_activity = "";
  checkpoint_timeout = pos 0;
  execution_deadline = pos 0;
  absolute_deadline = pos 0;
}

abbrev linear_noop : WorkflowDefinition
linear_noop = record {
  name = "linear-noop";
  nodes = noop "A" [] ∷ noop "B" ("A" ∷ []) ∷ noop "C" ("B" ∷ []) ∷ [];
}

-- `BuiltIn`
unfoldable pub built_in : (name : String) → Result WorkflowDefinition
unfolding normalize
built_in name = if name == "linear-noop" then normalize linear_noop else err (unknown_example name)

ids-normalized : (nodes : List NodeDefinition) → ids (map normalized nodes) ≡ ids nodes
unfolding ids normalized
ids-normalized [] = refl
ids-normalized (n ∷ ns) = ap (λ is. n.id ∷ is) (ids-normalized ns)

All-normalized :
    (known : List String) (nodes : List NodeDefinition)
    → All (IsValidNode known) nodes
    → All (IsValidNode known) (map normalized nodes)
unfolding normalized
All-normalized known [] all = tt
All-normalized known (n ∷ ns) (valid, all) = (
  record {
    has_id = valid.has_id;
    has_activity = valid.has_activity;
    depends_on_known = valid.depends_on_known;
  },
  All-normalized known ns all,
)

length-normalized : (nodes : List NodeDefinition) → length (map normalized nodes) ≡ length nodes
length-normalized [] = refl
length-normalized (n ∷ ns) = omega (arith, length-normalized ns)

IsValid-normal_form : (def : WorkflowDefinition) → IsValid def → IsValid (normal_form def)
IsValid-normal_form def v = record {
  has_name = v.has_name;
  has_nodes = rw (length-normalized def.nodes) v.has_nodes;
  distinct = rw (ids-normalized def.nodes) v.distinct;
  valid = rw (ids-normalized def.nodes) (All-normalized (ids def.nodes) def.nodes v.valid);
}

map-normalized_idem :
    (nodes : List NodeDefinition) → map normalized (map normalized nodes) ≡ map normalized nodes
map-normalized_idem [] = refl
map-normalized_idem (n ∷ ns) = rw (normalized_idem n, map-normalized_idem ns) refl

-- What `Normalize` returns it accepts, and returns it as it is.
pub normalize-stable :
    (def normal : WorkflowDefinition) → normalize def ≡ ok normal → normalize normal ≡ ok normal
normalize-stable def normal done =
    let (valid, is) = (normalize-IsValid def normal).0 done in
    subst (λ n. normalize n ≡ ok n) (sym is)
      ((normalize-IsValid (normal_form def) (normal_form def)).1 (
        IsValid-normal_form def valid,
        ap (λ ns. record { name = def.name; nodes = ns }) (sym (map-normalized_idem def.nodes)),
      ))

load_json-normal :
    (content : Option Bytes) (unmarshal : Bytes → Option WorkflowDefinition)
    {def : WorkflowDefinition}
    → load_json content unmarshal ≡ ok def
    → normalize def ≡ ok def
unfolding load_json
load_json-normal none unmarshal h = absurd (cc)
load_json-normal (some bytes) unmarshal {def} h = elim (Option-cases (unmarshal bytes)) [
  | inl failed ↦ absurd (ground (arith, failed))
  | inr (given, decoded) ↦ normalize-stable given def (rw (load_json, decoded) at h)
]

built_in-normal :
    (name : String) {def : WorkflowDefinition} → built_in name ≡ ok def → normalize def ≡ ok def
unfolding built_in
built_in-normal name {def} h = elim (Bool-cases (name == "linear-noop")) [
  | inl known ↦ normalize-stable linear_noop def (rw (built_in, known) at h)
  | inr unknown ↦ absurd (ground (arith, unknown))
]

module _ (world : World) (run_id : String) (hash : WorkflowDefinition → String)
    (input : Values) where
  -- The first event of a run of the definition.
  abbrev pub first_event : WorkflowDefinition → Event
  first_event def = stamp world blank run_id (world.time 0) (workflow_started def (hash def) input)

  start_event-written :
      (def : WorkflowDefinition)
      → world.wal_ok 0 ≡ true
      → start_event world run_id def (hash def) input ≡ (
        ok tt,
        record blank {
          st = (apply (first_event def) blank.st).1;
          log = first_event def ∷ [];
          damaged = not (world.wal_clean 0);
          calls = 1;
        },
      )
  unfolding start_event emit stamp apply
  start_event-written def written = rw (start_event, emit, written) refl

  -- The end of `StartRun`.
  abbrev begins : Result (Unit {0}) → Session → Result Session
  begins r s = elim r [ err e ↦ err e | ok _ ↦ ok (save world s).1 ]

  log-save : (s : Session) → (save world s).1.log ≡ s.log
  unfolding save
  log-save s = ground arith

  start_run-normal :
      (def : WorkflowDefinition)
      → normalize def ≡ ok def
      → world.wal_ok 0 ≡ true
      → (s : Session) × (start_run world run_id hash def input ≡ ok s)
        × (s.log ≡ first_event def ∷ [])
  unfolding start_run start_event emit save stamp apply
  start_run-normal def normal written =
      let event = first_event def in
      let started : Session = record blank {
        st = (apply event blank.st).1;
        log = event ∷ [];
        damaged = not (world.wal_clean 0);
        calls = 1;
      } in
      (
        (save world started).1,
        rw (start_run, normal)
            (ap (λ made. begins made.0 made.1) (start_event-written def written)),
        log-save started,
      )

  -- Where the first write to the log succeeds, `StartRun` starts a run of every definition that
  -- `LoadJSON` or `BuiltIn` returns, and its first event records the definition that was hashed.
  pub load_json-start_run :
      (content : Option Bytes) (unmarshal : Bytes → Option WorkflowDefinition) (name : String)
      (def : WorkflowDefinition)
      → (load_json content unmarshal ≡ ok def) ⊎ (built_in name ≡ ok def)
      → world.wal_ok 0 ≡ true
      → (s : Session) × (start_run world run_id hash def input ≡ ok s)
        × (s.log ≡ first_event def ∷ [])
  load_json-start_run content unmarshal name def (inl from_file) written =
      start_run-normal def (load_json-normal content unmarshal from_file) written
  load_json-start_run content unmarshal name def (inr from_name) written =
      start_run-normal def (built_in-normal name from_name) written
