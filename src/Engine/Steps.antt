-- ===== src/Engine/Steps.antt =====
-- internal/engine/engine.go: `Steps s t` says that a run gets from `s` to `t` by recording legal events,
-- each with the next sequence number and applied as it is recorded.
pub mod Rules
pub mod Nodes
pub mod Timers
pub mod Advance
pub mod Tasks
pub mod Claim
pub mod Control
pub mod Monitor
use mathlib.Core.Path.{subst₃}
use grael.Prelude.{◌+◌, ◌≡◌, refl, false, sym, ◌∙◌, Option, some, List, [], ◌∷◌, ◌++◌}
use grael.Prelude.Lists.{length}
use grael.Runtime.{Event}
use grael.State.{ExecutionState}
use grael.State.Apply.{apply}
use grael.Engine.{Session}
use grael.Engine.Legal.{Legal}

-- What one event makes of a run. The counter of calls may differ, and the log file may be damaged.
pub record Recorded (e : Event) (s t : Session) : Type 0 where
  pub legal : Legal s.st e.payload
  pub numbered : s.damaged ≡ false → e.seq ≡ length s.log + 1
  pub applied : t.st ≡ (apply e s.st).1
  pub logged : t.log ≡ s.log ++ e ∷ []
  pub unsaved : t.snapshot ≡ s.snapshot
  pub intact : t.damaged ≡ false → s.damaged ≡ false

-- The run as it was, with its snapshot as it was or taken anew.
pub record SameRun (s t : Session) (snapshot : Option ExecutionState) : Type 0 where
  pub same_st : t.st ≡ s.st
  pub same_log : t.log ≡ s.log
  pub snapped : t.snapshot ≡ snapshot
  pub intact : t.damaged ≡ false → s.damaged ≡ false

pub data Steps (s : Session) : Session → Type 0 where
  here : {t : Session} → SameRun s t s.snapshot → Steps s t
  saved : {t u : Session} → Steps s t → SameRun t u (some t.st) → Steps s u
  next : {t u : Session} (e : Event) → Steps s t → Recorded e t u → Steps s u

pub Steps-refl : (s : Session) → Steps s s
Steps-refl s = here (record { same_st = refl; same_log = refl; snapped = refl; intact = λ h. h })

Steps-same : {s t u : Session} → Steps s t → SameRun t u t.snapshot → Steps s u
Steps-same (here same) e = here (record {
  same_st = e.same_st ∙ same.same_st;
  same_log = e.same_log ∙ same.same_log;
  snapped = e.snapped ∙ same.snapped;
  intact = λ h. same.intact (e.intact h);
})
Steps-same (saved steps same) e = saved steps (record {
  same_st = e.same_st ∙ same.same_st;
  same_log = e.same_log ∙ same.same_log;
  snapped = e.snapped ∙ same.snapped;
  intact = λ h. same.intact (e.intact h);
})
Steps-same (next event steps r) e = next event steps (record {
  legal = r.legal;
  numbered = r.numbered;
  applied = e.same_st ∙ r.applied;
  logged = e.same_log ∙ r.logged;
  unsaved = e.snapped ∙ r.unsaved;
  intact = λ h. r.intact (e.intact h);
})

pub Steps-trans : {s t u : Session} → Steps s t → Steps t u → Steps s u
Steps-trans steps (here same) = Steps-same steps same
Steps-trans steps (saved more same) = saved (Steps-trans steps more) same
Steps-trans steps (next event more r) = next event (Steps-trans steps more) r

-- A property of runs that a legal event keeps, and a new snapshot.
pub record Keeps {ℓ} (P : ExecutionState → List Event → Option ExecutionState → Type ℓ)
    : Type ℓ where
  pub event :
      (e : Event) (st : ExecutionState) (log : List Event) (snapshot : Option ExecutionState)
      → Legal st e.payload
      → P st log snapshot
      → P (apply e st).1 (log ++ e ∷ []) snapshot
  pub save :
      (st : ExecutionState) (log : List Event) (snapshot : Option ExecutionState)
      → P st log snapshot
      → P st log (some st)

pub Steps-keeps {ℓ} :
    (P : ExecutionState → List Event → Option ExecutionState → Type ℓ) {s t : Session}
    → Keeps P
    → Steps s t
    → P s.st s.log s.snapshot
    → P t.st t.log t.snapshot
Steps-keeps P keeps (here same) h =
    subst₃ P (sym same.same_st) (sym same.same_log) (sym same.snapped) h
Steps-keeps P keeps (saved {t} steps same) h =
    subst₃ P (sym same.same_st) (sym same.same_log) (sym same.snapped)
      (keeps.save t.st t.log t.snapshot (Steps-keeps P keeps steps h))
Steps-keeps P keeps (next {t} e steps r) h =
    subst₃ P (sym r.applied) (sym r.logged) (sym r.unsaved)
      (keeps.event e t.st t.log t.snapshot r.legal (Steps-keeps P keeps steps h))

-- The same for a property that looks at no snapshot.
pub Steps-keep {ℓ} :
    (P : ExecutionState → List Event → Type ℓ)
    → ((e : Event) (st : ExecutionState) (log : List Event)
        → Legal st e.payload
        → P st log
        → P (apply e st).1 (log ++ e ∷ []))
    → {s t : Session} → Steps s t
    → P s.st s.log
    → P t.st t.log
Steps-keep P keep steps h =
    Steps-keeps (λ st log _. P st log)
      (record { event = λ e st log _ l p. keep e st log l p; save = λ st log _ p. p }) steps h
