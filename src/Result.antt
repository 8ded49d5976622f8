-- ===== src/Result.antt =====
-- Go's error returns. A method that mutates an object and may fail is an action on the object: what
-- it wrote before the error stays written.
use grael.Prelude.{ℕ, String, ◌≡◌, refl, ap, arith, ◌⊎◌, inl, inr, Bool, true, false, if◌then◌else◌}

pub data Error : Type 0 where
  -- The sentinel errors of internal/engine/engine.go.
  run_not_found worker_unavailable task_not_found attempt_mismatch lease_expired : Error
  checkpoint_not_waiting run_cancelled capacity_exceeded : Error
  -- `Apply` in internal/state/state.go: an event about a node or a timer that is not there.
  unknown_node : (id : String) → Error
  stale_attempt : (id : String) → Error
  unknown_timer : (id : String) → Error
  -- Input and output: the event log and the snapshot file.
  wal_failed save_failed : Error
  -- internal/wal/wal.go.
  make_dir_failed open_failed line_too_long corrupt_tail_found : Error
  marshal_failed append_failed no_such_run read_dir_failed : Error
  -- internal/workflowdef/loader.go, and the validation of spawned nodes in the engine.
  name_required no_nodes id_required : Error
  activity_required : (id : String) → Error
  duplicate_node : (id : String) → Error
  self_dependency : (id : String) → Error
  unknown_dependency : (id dep : String) → Error
  already_exists : (id : String) → Error
  would_cycle : (parent : String) → Error
  read_workflow_failed decode_workflow_failed : Error
  unknown_example : (name : String) → Error
  -- sdk/worker.go.
  no_handlers : Error
  no_handler : (activity : String) → Error
  -- sdk/fanout.go.
  fan_out_activity_required : Error
  fan_out_id_required : (index : ℕ) → Error
  fan_out_duplicate : (id : String) → Error
  -- internal/worker/registry.go.
  worker_required activities_required : Error
  unknown_worker : (id : String) → Error
  -- internal/snapshot/store.go.
  marshal_state_failed marshal_snapshot_failed write_failed read_failed : Error
  decode_failed decode_state_failed corrupt_snapshot : Error
  -- internal/grpcserver/server.go: the conversions, and what `fmt.Errorf` wraps.
  workflow_is_required node_definition_required invalid_duration invalid_struct : Error
  in_node : (id : String) → Error → Error
  in_field : (name : String) → Error → Error

pub data Result {ℓ} (A : Type ℓ) : Type ℓ where
  ok : A → Result A
  err : Error → Result A

-- A function that may fail and mutates nothing.
abbrev pub and_then {ℓ κ} : {A : Type ℓ} {B : Type κ} → Result A → (A → Result B) → Result B
and_then (ok a) f = f a
and_then (err e) f = err e

abbrev pub Action : Type 0 → Type 0 → Type 0
Action S A = S → Result A × S

module _ {S A : Type 0} where
  abbrev pub pure : A → Action S A
  pure a s = (ok a, s)

  abbrev pub raise : Error → Action S A
  raise e s = (err e, s)

  abbrev pub gets : (S → A) → Action S A
  gets f s = (ok (f s), s)

module _ {S A B : Type 0} where
  abbrev pub continue : Result A → (A → Action S B) → Action S B
  continue (ok a) f s = f a s
  continue (err e) f s = (err e, s)

  infixl 5 ◌>>=◌ ◌>>◌
  abbrev pub ◌>>=◌ : Action S A → (A → Action S B) → Action S B
  ◌>>=◌ m f s = continue (m s).0 f (m s).1

  abbrev pub ◌>>◌ : Action S A → Action S B → Action S B
  m >> n = m >>= λ _. n

-- `_ = m`: the error is dropped.
abbrev pub ignore : {S : Type 0} → Action S (Unit {0}) → Action S (Unit {0})
ignore m s = (ok tt, (m s).1)

-- What a chain that succeeds has gone through.
pub and_then-eq-ok {ℓ κ} :
    {A : Type ℓ} {B : Type κ} (m : Result A) (f : A → Result B) {b : B}
    → and_then m f ≡ ok b
    → (a : A) × (m ≡ ok a) × (f a ≡ ok b)
and_then-eq-ok (ok a) f h = (a, refl, h)
and_then-eq-ok (err e) f h = cc

-- A guard that did not stop the function.
pub if-eq-ok {ℓ} :
    {A : Type ℓ} (b : Bool) (e : Error) (r : Result A) {a : A}
    → (if b then err e else r) ≡ ok a
    → (b ≡ false) × (r ≡ ok a)
if-eq-ok true e r h = cc
if-eq-ok false e r h = (refl, h)

pub Result-cases {ℓ} :
    {A : Type ℓ} (r : Result A) → ((a : A) × (r ≡ ok a)) ⊎ ((e : Error) × (r ≡ err e))
Result-cases (ok a) = inl (a, refl)
Result-cases (err e) = inr (e, refl)

-- A step of a chain of actions that succeeds has succeeded, and the rest went on from there.
pub bind-eq-ok :
    {S A B : Type 0} (m : Action S A) (f : A → Action S B) (s : S) {b : B}
    → ((m >>= f) s).0 ≡ ok b
    → (a : A) × ((m s).0 ≡ ok a) × ((m >>= f) s ≡ f a (m s).1)
bind-eq-ok {S} {A} {B} m f s {b} h = go (m s).0 refl h
  where
    go :
        (r : Result A)
        → (m s).0 ≡ r
        → (continue r f (m s).1).0 ≡ ok b
        → (a : A) × ((m s).0 ≡ ok a) × (continue (m s).0 f (m s).1 ≡ f a (m s).1)
    go (ok a) e k = (a, e, ap (λ r. continue r f (m s).1) e)
    go (err x) e k = absurd (ground arith)
