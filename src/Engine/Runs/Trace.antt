-- ===== src/Engine/Runs/Trace.antt =====
-- internal/engine/engine.go: the log of every run that is reached, as a trace of the specification.
use grael.Prelude.{◌≡◌, refl, sym, subst, ◌∙◌, List, [], ◌∷◌, ◌++◌}
use grael.Result.{ok}
use grael.Runtime.{Event}
use grael.State.{ExecutionState}
use grael.State.Apply.{apply}
use grael.Engine.{World, Session}
use grael.Engine.Legal.{Legal}
use grael.Engine.Legal.WellFormed.{IsWellFormed}
use grael.Engine.Runs.{Reach}
use grael.Engine.Runs.Reached.{IsStart, begun, Holds, Reach-keeps}
use grael.Engine.Runs.Durable.{apply-ok}

-- The state after some events.
abbrev pub after : List Event → ExecutionState → ExecutionState
after [] s = s
after (e ∷ es) s = after es (apply e s).1

-- Events each of which is legal in the state before it, and accepted there.
abbrev pub LegalLog : List Event → ExecutionState → Type 0
LegalLog [] s = Unit
LegalLog (e ∷ es) s = Legal s e.payload × ((apply e s).0 ≡ ok tt) × LegalLog es (apply e s).1

-- A run's first event, then legal ones.
pub record IsTrace (st : ExecutionState) (log : List Event) : Type 0 where
  pub first : Event
  pub others : List Event
  pub start : IsStart first
  pub log_is : log ≡ first ∷ others
  pub legal : LegalLog others (begun first).st
  pub reaches : after others (begun first).st ≡ st

after-append :
    (es : List Event) (e : Event) (s : ExecutionState)
    → after (es ++ e ∷ []) s ≡ (apply e (after es s)).1
after-append [] e s = refl
after-append (x ∷ es) e s = after-append es e (apply x s).1

LegalLog-append :
    (es : List Event) (e : Event) (s : ExecutionState)
    → LegalLog es s
    → Legal (after es s) e.payload
    → (apply e (after es s)).0 ≡ ok tt
    → LegalLog (es ++ e ∷ []) s
LegalLog-append [] e s legal l accepted = (l, accepted, tt)
LegalLog-append (x ∷ es) e s legal l accepted =
    (legal.0, legal.1, LegalLog-append es e (apply x s).1 legal.2 l accepted)

IsTrace-event :
    (e : Event) (st : ExecutionState) (log : List Event)
    → IsWellFormed st
    → Legal st e.payload
    → IsTrace st log
    → IsTrace (apply e st).1 (log ++ e ∷ [])
IsTrace-event e st log wf legal t =
    let s₀ = (begun t.first).st in
    let back = sym t.reaches in
    record {
      first = t.first;
      others = t.others ++ e ∷ [];
      start = t.start;
      log_is = cc (t.log_is);
      legal =
          LegalLog-append t.others e s₀ t.legal (subst (λ s. Legal s e.payload) back legal)
            (subst (λ s. (apply e s).0 ≡ ok tt) back (apply-ok e st wf legal).0);
      reaches =
          after-append t.others e s₀
          ∙ subst (λ s. (apply e (after t.others s₀)).1 ≡ (apply e s).1) t.reaches refl;
    }

IsTrace-holds : Holds (λ st log _. IsTrace st log)
IsTrace-holds = record {
  begin = λ e start. record {
    first = e;
    others = [];
    start = start;
    log_is = refl;
    legal = tt;
    reaches = refl;
  };
  event = λ e st log snapshot wf legal t. IsTrace-event e st log wf legal t;
  save = λ st log snapshot t. t;
}

module _ (world : World) where
  -- The events that `Append` has acknowledged in a run that is reached are a trace of the specification: a
  -- `WorkflowStarted` event, then events of which each is legal in the state that the ones before it make,
  -- and is accepted by `Apply` there. The state in memory is the one that all of them make, in a run whose
  -- log file is damaged as well.
  pub Reach-IsTrace : {s : Session} → Reach world s → IsTrace s.st s.log
  Reach-IsTrace reach = (Reach-keeps (λ st log _. IsTrace st log) IsTrace-holds world reach).1
