-- ===== src/Engine/Runs/Durable.antt =====
-- internal/engine/engine.go, `loadStateLocked`: the state in memory against the log and the snapshot
-- from which a restart builds it again.
use mathlib.Core.Path.{subst₃}
use grael.Prelude.{
  ℕ, suc, ◌+◌, ◌≡◌, refl, sym, subst, ◌∙◌, leb, true, false, Option, none, some, ◌⊎◌, inl, inr,
  List, [], ◌∷◌, ◌++◌, arith, ◌≢◌, Bool-cases,
}
use grael.Prelude.Lists.{length, length-append}
use grael.Result.{Error, Result, ok, err, decode_failed, and_then}
use grael.Runtime.{Event}
use grael.State.{ExecutionState, new}
use grael.State.Apply.{apply, apply_payload, replay, rehydrate}
use grael.Engine.{Read, whole, refused, rotten, World, Session}
use grael.Engine.Load.{
  Loaded, missing, corrupt, unreadable, replay_after, rehydrate_run, load_state, saved_file,
  read_file, loaded_of, list_log,
}
use grael.Engine.Legal.{Legal}
use grael.Engine.Legal.WellFormed.{IsWellFormed, apply-legal}
use grael.Engine.Steps.{Steps, here, saved, next}
use grael.Engine.Steps.Rules.{Steps-IsWellFormed}
use grael.Engine.Runs.{execute-Steps, Reach, started, then_}
use grael.Engine.Runs.Reached.{
  IsStart, begun, begun-IsWellFormed, start_run-Steps, Reach-IsWellFormed,
}

-- Sequence numbers that count up by one.
abbrev pub NumberedFrom : ℕ → List Event → Type 0
NumberedFrom n [] = Unit
NumberedFrom n (e ∷ es) = (e.seq ≡ n) × NumberedFrom (suc n) es

NumberedFrom-append :
    (n : ℕ) (es : List Event) (e : Event)
    → NumberedFrom n es
    → e.seq ≡ length es + n
    → NumberedFrom n (es ++ e ∷ [])
NumberedFrom-append n [] e num h = (omega (arith, h), tt)
NumberedFrom-append n (x ∷ es) e num h =
    (num.0, NumberedFrom-append (suc n) es e num.1 (omega (arith, h)))

pub replay-append :
    (xs ys : List Event) (s : ExecutionState)
    → replay (xs ++ ys) s ≡ and_then (replay xs s) (replay ys)
unfolding replay
replay-append [] ys s = refl
replay-append (x ∷ xs) ys s = ground (arith, replay-append xs ys (apply x s).1)

replay_after-append :
    (xs ys : List Event) (s : ExecutionState)
    → replay_after (xs ++ ys) s ≡ and_then (replay_after xs s) (replay_after ys)
unfolding replay_after
replay_after-append [] ys s = refl
replay_after-append (x ∷ xs) ys s =
    ground (arith, replay_after-append xs ys s, replay_after-append xs ys (apply x s).1)

-- Events up to the last one are skipped.
replay_after-skip :
    (n : ℕ) (es : List Event) (s : ExecutionState)
    → NumberedFrom n es
    → leb (length es + n) (suc s.last_seq) ≡ true
    → replay_after es s ≡ ok s
unfolding replay_after
replay_after-skip n [] s num h = refl
replay_after-skip n (e ∷ es) s num h = ground (arith, num.0, replay_after-skip (suc n) es s num.1)

-- `Apply` accepts a legal event, and notes its number.
pub apply-ok :
    (e : Event) (s : ExecutionState)
    → IsWellFormed s
    → Legal s e.payload
    → ((apply e s).0 ≡ ok tt) × ((apply e s).1.last_seq ≡ e.seq)
unfolding apply
apply-ok e s wf legal =
    let accepted = apply-legal s e.run_id e.timestamp wf legal in (accepted, rw accepted refl)

-- What a run keeps on disk, against its state.
record Durable (st : ExecutionState) (log : List Event) (snapshot : Option ExecutionState)
    : Type 0 where
  some_event : leb 1 (length log) ≡ true
  numbered : NumberedFrom 1 log
  last : st.last_seq ≡ length log
  replayed : rehydrate log ≡ ok st
  restored : rehydrate_run (saved_file snapshot) log ≡ ok st

replay_one :
    (e : Event) (s : ExecutionState) → (apply e s).0 ≡ ok tt → replay (e ∷ []) s ≡ ok (apply e s).1
unfolding replay
replay_one e s accepted = ground arith

replay_after_one :
    (e : Event) (s : ExecutionState)
    → (apply e s).0 ≡ ok tt
    → leb e.seq s.last_seq ≡ false
    → replay_after (e ∷ []) s ≡ ok (apply e s).1
unfolding replay_after
replay_after_one e s accepted later = ground arith

begun-accepted :
    (e : Event) → IsStart e → ((apply e new).0 ≡ ok tt) × ((apply e new).1.last_seq ≡ 1)
unfolding apply apply_payload
begun-accepted e start = simp (start.payload_is, start.first, apply) (refl, refl)

Durable-begun : (e : Event) → IsStart e → Durable (begun e).st (e ∷ []) none
unfolding rehydrate rehydrate_run
Durable-begun e start =
    let h = begun-accepted e start in
    let done = replay_one e new h.0 in
    record {
      some_event = refl;
      numbered = (start.first, tt);
      last = h.1;
      replayed = done;
      restored = done;
    }

restore :
    (e : Event) (st : ExecutionState) (log : List Event) (snapshot : Option ExecutionState)
    → rehydrate_run (saved_file snapshot) log ≡ ok st
    → rehydrate (log ++ e ∷ []) ≡ ok (apply e st).1
    → (apply e st).0 ≡ ok tt
    → st.last_seq ≡ length log
    → e.seq ≡ length log + 1
    → rehydrate_run (saved_file snapshot) (log ++ e ∷ []) ≡ ok (apply e st).1
unfolding rehydrate_run
restore e st log none old replayed accepted last n = replayed
restore e st log (some snap) old replayed accepted last n = ground (
  arith,
  replay_after-append log (e ∷ []) snap,
  replay_after_one e st accepted (ground (arith, last, n)),
  old,
)

Durable-event :
    (e : Event) (st : ExecutionState) (log : List Event) (snapshot : Option ExecutionState)
    → IsWellFormed st
    → Legal st e.payload
    → e.seq ≡ length log + 1
    → Durable st log snapshot
    → Durable (apply e st).1 (log ++ e ∷ []) snapshot
unfolding rehydrate rehydrate_run
Durable-event e st log snapshot wf legal n d =
    let h = apply-ok e st wf legal in
    let replayed' : rehydrate (log ++ e ∷ []) ≡ ok (apply e st).1 =
      ground (arith, replay-append log (e ∷ []) new, replay_one e st h.0, d.replayed) in
    record {
      some_event = ground (arith, length-append log (e ∷ []));
      numbered = NumberedFrom-append 1 log e d.numbered n;
      last = ground (arith, length-append log (e ∷ []), h.1);
      replayed = replayed';
      restored = restore e st log snapshot d.restored replayed' h.0 d.last n;
    }

Durable-save :
    (st : ExecutionState) (log : List Event) (snapshot : Option ExecutionState)
    → Durable st log snapshot
    → Durable st log (some st)
unfolding rehydrate_run
Durable-save st log snapshot d = record {
  some_event = d.some_event;
  numbered = d.numbered;
  last = d.last;
  replayed = d.replayed;
  restored = replay_after-skip 1 log st d.numbered (ground (arith, d.last));
}

-- As long as the log file is not damaged.
abbrev DurableHere : Session → Type 0
DurableHere s = s.damaged ≡ false → Durable s.st s.log s.snapshot

Steps-DurableHere : {s t : Session} → Steps s t → IsWellFormed s.st → DurableHere s → DurableHere t
Steps-DurableHere (here same) wf d = λ intact.
    subst₃ Durable (sym same.same_st) (sym same.same_log) (sym same.snapped)
      (d (same.intact intact))
Steps-DurableHere (saved {t} steps same) wf d = λ intact.
    subst₃ Durable (sym same.same_st) (sym same.same_log) (sym same.snapped)
      (Durable-save t.st t.log t.snapshot (Steps-DurableHere steps wf d (same.intact intact)))
Steps-DurableHere (next {t} e steps r) wf d = λ intact.
    let before = r.intact intact in
    subst₃ Durable (sym r.applied) (sym r.logged) (sym r.unsaved) (
      Durable-event e t.st t.log t.snapshot (Steps-IsWellFormed steps wf) r.legal
        (r.numbered before) (Steps-DurableHere steps wf d before))

load_state-events :
    (loaded : Loaded) (log : List Event)
    → leb 1 (length log) ≡ true
    → load_state none loaded (ok log) ≡ rehydrate_run loaded log
unfolding load_state
load_state-events loaded [] some_event = cc
load_state-events loaded (e ∷ log) some_event = refl

module _ (world : World) where
  Reach-DurableHere : {s : Session} → Reach world s → DurableHere s
  Reach-DurableHere (started run_id hash def input e) =
      let (first, _, start, steps) = start_run-Steps world run_id hash def input _ e in
      Steps-DurableHere steps (begun-IsWellFormed first start) (λ _. Durable-begun first start)
  Reach-DurableHere (then_ {s} c reach) =
      let wf = Reach-IsWellFormed world reach in
      Steps-DurableHere (execute-Steps world c s wf) wf (Reach-DurableHere reach)

  -- In a run that is reached and whose log file is not damaged, the events are numbered from 1 without
  -- a gap, the last number is the state's, and `Rehydrate` accepts all of them and gives back the state
  -- in memory.
  pub Reach-rehydrate :
      {s : Session}
      → Reach world s
      → s.damaged ≡ false
      → NumberedFrom 1 s.log × (s.st.last_seq ≡ length s.log) × (rehydrate s.log ≡ ok s.st)
  Reach-rehydrate reach intact =
      let d = Reach-DurableHere reach intact in (d.numbered, d.last, d.replayed)

  -- In a run that is reached and whose log file is not damaged, a restart, which empties `e.runs`, loads
  -- the run as it was in memory, if the log can be read then and the snapshot file is found as the last
  -- whole `Save` left it, is missing or is corrupt.
  pub Reach-load_state :
      {s : Session} (loaded : Loaded)
      → Reach world s
      → s.damaged ≡ false
      → world.list_ok s.calls ≡ true
      → (loaded ≡ saved_file s.snapshot) ⊎ (loaded ≡ missing) ⊎ (loaded ≡ corrupt)
      → load_state none loaded (list_log world s) ≡ ok s.st
  unfolding rehydrate_run list_log
  Reach-load_state {s} loaded reach intact readable cases =
      let d = Reach-DurableHere reach intact in
      rw (list_log, intact, readable)
        (load_state-events loaded s.log d.some_event ∙ elim cases [
          | inl is ↦ subst (λ l. rehydrate_run l s.log ≡ ok s.st) (sym is) d.restored
          | inr (inl is) ↦ subst (λ l. rehydrate_run l s.log ≡ ok s.st) (sym is) d.replayed
          | inr (inr is) ↦ subst (λ l. rehydrate_run l s.log ≡ ok s.st) (sym is) d.replayed
        ])

  unreadable-refuses :
      (e : Error) (listed : Result (List Event)) (st : ExecutionState)
      → load_state none (unreadable e) listed ≢ ok st
  unfolding load_state rehydrate_run
  unreadable-refuses e (err x) st h = absurd (cc)
  unreadable-refuses e (ok []) st h = absurd (cc)
  unreadable-refuses e (ok (event ∷ events)) st h = absurd (cc)

  read_file-state :
      {s : Session} (read : Read) (st : ExecutionState)
      → Reach world s
      → s.damaged ≡ false
      → world.list_ok s.calls ≡ true
      → load_state none (read_file read s.snapshot) (list_log world s) ≡ ok st
      → st ≡ s.st
  read_file-state {s} whole st reach intact readable h =
      let back = Reach-load_state _ reach intact readable (inl refl) in cc
  read_file-state {s} rotten st reach intact readable h =
      let back = Reach-load_state _ reach intact readable (inr (inr refl)) in cc
  read_file-state {s} refused st reach intact readable h = absurd (unreadable-refuses _ _ st h)

  -- In a run that is reached and whose log file is not damaged, whatever the answers of the system when the
  -- log and the snapshot file are read, the snapshot file torn or not, a load that succeeds gives the
  -- state in memory.
  pub load_state-same :
      {s : Session} (st : ExecutionState)
      → Reach world s
      → s.damaged ≡ false
      → load_state none (loaded_of world s) (list_log world s) ≡ ok st
      → st ≡ s.st
  unfolding load_state loaded_of list_log
  load_state-same {s} st reach intact h = elim (Bool-cases s.torn) [
    | inl torn ↦ absurd (unreadable-refuses decode_failed _ st (rw (loaded_of, torn) at h))
    | inr sound ↦ elim (Bool-cases (world.list_ok s.calls)) [
      | inl readable ↦
          read_file-state (world.snapshot_read s.calls) st reach intact readable
            (rw (loaded_of, sound) at h)
      | inr closed ↦ absurd (ground (arith, list_log))
    ]
  ]
