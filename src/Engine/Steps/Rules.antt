-- ===== src/Engine/Steps/Rules.antt =====
-- internal/engine/engine.go: the rules by which an action is shown to take legal steps only.
use grael.Prelude.{ℕ, String, ◌≡◌, refl, Bool, true, false, arith, if◌then◌else◌}
use grael.Result.{Result, ok, err, ◌>>=◌, continue}
use grael.Runtime.{Time, Payload, Event}
use grael.State.{ExecutionState}
use grael.State.Apply.{apply, advance_seq}
use grael.Engine.{
  Left, kept, replaced, part, after_failure, World, Session, Op, stamp, emit, emit_now, save,
}
use grael.Engine.Legal.{Legal}
use grael.Engine.Legal.WellFormed.{IsWellFormed, Legal-IsWellFormed}
use grael.Engine.Steps.{Steps, here, saved, next, Steps-refl, Steps-trans, Steps-keep}

advance_seq-IsWellFormed :
    (seq : ℕ) (r : Result (Unit {0})) (s : ExecutionState)
    → IsWellFormed s
    → IsWellFormed (advance_seq seq r s)
advance_seq-IsWellFormed seq (ok _) s wf = record {
  named = wf.named;
  timer_named = wf.timer_named;
  timer_node = wf.timer_node;
  settled = wf.settled;
}
advance_seq-IsWellFormed seq (err _) s wf = wf

pub apply-IsWellFormed :
    (e : Event) (s : ExecutionState)
    → Legal s e.payload
    → IsWellFormed s
    → IsWellFormed (apply e s).1
unfolding apply
apply-IsWellFormed e s legal wf =
    advance_seq-IsWellFormed e.seq _ _ (Legal-IsWellFormed s e.run_id e.timestamp legal wf)

pub Steps-IsWellFormed : {s t : Session} → Steps s t → IsWellFormed s.st → IsWellFormed t.st
Steps-IsWellFormed steps wf =
    Steps-keep (λ st _. IsWellFormed st) (λ e st _ legal h. apply-IsWellFormed e st legal h) steps
      wf

pub Steps-bind :
    {A B : Type 0} (m : Op A) (f : A → Op B) (s : Session)
    → Steps s (m s).1
    → ((a : A) → (m s).0 ≡ ok a → Steps (m s).1 (f a (m s).1).1)
    → Steps s ((m >>= f) s).1
Steps-bind {A} {B} m f s first then_ = go (m s).0 refl
  where
    go : (r : Result A) → (m s).0 ≡ r → Steps s (continue r f (m s).1).1
    go (ok a) e = Steps-trans first (then_ a e)
    go (err x) e = first

pub Steps-if :
    {A : Type 0} (b : Bool) (m n : Result A × Session) (s : Session)
    → (b ≡ true → Steps s m.1)
    → (b ≡ false → Steps s n.1)
    → Steps s (if b then m else n).1
Steps-if true m n s yes' no' = yes' refl
Steps-if false m n s yes' no' = no' refl

pub Steps-if_op :
    {A : Type 0} (b : Bool) (m n : Op A) (s : Session)
    → (b ≡ true → Steps s (m s).1)
    → (b ≡ false → Steps s (n s).1)
    → Steps s ((if b then m else n) s).1
Steps-if_op true m n s yes' no' = yes' refl
Steps-if_op false m n s yes' no' = no' refl

Steps-after_failure : (left : Left) (s : Session) → Steps s (after_failure left s)
Steps-after_failure kept s =
    here (record { same_st = refl; same_log = refl; snapped = refl; intact = λ h. h })
Steps-after_failure replaced s =
    saved (Steps-refl s)
      (record { same_st = refl; same_log = refl; snapped = refl; intact = λ h. h })
Steps-after_failure part s =
    here (record { same_st = refl; same_log = refl; snapped = refl; intact = λ h. h })

module _ (world : World) where
  pub Steps-emit :
      (run_id : String) (now : Time) (p : Payload) (s : Session)
      → Legal s.st p
      → Steps s (emit world run_id now p s).1
  unfolding emit
  Steps-emit run_id now p s legal =
      Steps-if (world.wal_ok s.calls) _ _ s
        (λ _. next (stamp world s run_id now p) (Steps-refl s) (record {
          legal = unfold stamp in legal;
          numbered = λ intact. unfold stamp in rw intact refl;
          applied = refl;
          logged = refl;
          unsaved = refl;
          intact = λ h. ground arith;
        }))
        (λ _.
          here (record {
            same_st = refl;
            same_log = refl;
            snapped = refl;
            intact = λ h. ground arith;
          }))

  pub Steps-emit_now : (p : Payload) (s : Session) → Legal s.st p → Steps s (emit_now world p s).1
  unfolding emit_now
  Steps-emit_now p s legal = Steps-emit s.st.run_id (world.time s.calls) p s legal

  pub Steps-save : (s : Session) → Steps s (save world s).1
  unfolding save
  Steps-save s =
      Steps-if (world.save_ok s.calls) _ _ s
        (λ _.
          saved (Steps-refl s)
            (record { same_st = refl; same_log = refl; snapped = refl; intact = λ h. h }))
        (λ _. Steps-after_failure (world.save_left s.calls) s)

  -- What an event that was recorded and applied has made of the state.
  pub st-emit :
      (run_id : String) (now : Time) (p : Payload) (s : Session)
      → (emit world run_id now p s).0 ≡ ok tt
      → (emit world run_id now p s).1.st ≡ (apply (stamp world s run_id now p) s.st).1
  unfolding emit
  st-emit run_id now p s e = ground arith

  pub st-emit_now :
      (p : Payload) (s : Session)
      → (emit_now world p s).0 ≡ ok tt
      → (emit_now world p s).1.st
        ≡ (apply (stamp world s s.st.run_id (world.time s.calls) p) s.st).1
  unfolding emit_now
  st-emit_now p s e = st-emit s.st.run_id (world.time s.calls) p s e
