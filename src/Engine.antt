-- ===== src/Engine.antt =====
-- internal/engine/engine.go: what one run is to the engine, and the calls by which it changes. Each
-- handler holds the engine's lock, so it is one action on the run. The children hold the handlers.
pub mod Queries
pub mod Advance
pub mod Timers
pub mod Cycle
pub mod Spawn
pub mod Tasks
pub mod Claim
pub mod Control
pub mod Monitor
pub mod Legal
pub mod Steps
pub mod Start
pub mod Load
pub mod Leases
pub mod Runs
pub mod Fleet
use grael.Prelude.{
  ℕ, suc, ◌+◌, String, Bool, true, false, not, ◌||◌, Option, some, List, [], ◌∷◌, ◌++◌,
  if◌then◌else◌, nat_eq,
}
use grael.Prelude.Lists.{length}
use grael.Result.{Error, Result, ok, err, Action, wal_failed, save_failed}
use grael.Runtime.{Time, Payload, Event}
use grael.State.{ExecutionState}
use grael.State.Apply.{apply}

-- What a failing `Save` leaves in the snapshot file, which `os.WriteFile` truncates first: what was
-- there, the new snapshot, or a part of it that is no JSON.
pub data Left : Type 0 where
  kept replaced part : Left

-- How reading the snapshot file goes: as it is, with an error, or with a checksum that is wrong.
pub data Read : Type 0 where
  whole refused rotten : Read

-- What the engine calls: the clock, the log and the snapshot file, and the text of an error and of a
-- number. The n-th call of a run gets the n-th answer. `wal_clean` says whether the call leaves the log
-- file as a reader expects it: a failed write may leave a part of a line or all of it, and one that
-- succeeds may be a line longer than the reader takes. Once the file is damaged, what number `Append`
-- gives and what `List` answers is left open.
pub record World : Type 0 where
  pub time : ℕ → Time
  pub wal_ok : ℕ → Bool
  pub wal_clean : ℕ → Bool
  pub number : ℕ → ℕ
  pub list_ok : ℕ → Bool
  pub damaged_list : ℕ → Result (List Event)
  pub save_ok : ℕ → Bool
  pub save_left : ℕ → Left
  pub snapshot_read : ℕ → Read
  pub error_text : Error → String
  pub decimal : ℕ → String

-- A run: its entry in `e.runs`, the events that `Append` has acknowledged, whether its log file is
-- damaged, the last whole snapshot of its snapshot file, and whether that file is torn. As long as the
-- log file is not damaged, it has exactly the acknowledged events.
pub record Session : Type 0 where
  pub st : ExecutionState
  pub log : List Event
  pub damaged : Bool
  pub snapshot : Option ExecutionState
  pub torn : Bool
  pub calls : ℕ

abbrev pub Op : Type 0 → Type 0
Op A = Action Session A

abbrev pub after_failure : Left → Session → Session
after_failure kept s = record s { calls = suc s.calls }
after_failure replaced s = record s { snapshot = some s.st; torn = false; calls = suc s.calls }
after_failure part s = record s { torn = true; calls = suc s.calls }

module _ (world : World) where
  -- The event that `wal.Append` returns: the next sequence number, and the time if it has none.
  unfoldable pub stamp : Session → String → Time → Payload → Event
  stamp s run_id now payload = record {
    seq = if s.damaged then world.number s.calls else length s.log + 1;
    run_id = run_id;
    timestamp = if nat_eq now 0 then world.time s.calls else now;
    payload = payload;
  }

  -- `e.wal.Append(event)` and then `st.Apply(event)`. An event that cannot be applied stays in the log.
  unfoldable pub emit : String → Time → Payload → Op (Unit {0})
  unfolding stamp
  emit run_id now payload s =
      let event = stamp s run_id now payload in
      let broken = s.damaged || not (world.wal_clean s.calls) in
      if world.wal_ok s.calls
      then (
        (apply event s.st).0,
        record s {
          st = (apply event s.st).1;
          log = s.log ++ event ∷ [];
          damaged = broken;
          calls = suc s.calls;
        },
      )
      else (err wal_failed, record s { damaged = broken; calls = suc s.calls })

  -- The same with `time.Now()`, for the run itself.
  unfoldable pub emit_now : Payload → Op (Unit {0})
  unfolding emit
  emit_now payload s = emit s.st.run_id (world.time s.calls) payload s

  -- `e.snapshots.Save(st)`
  unfoldable pub save : Op (Unit {0})
  save s =
      if world.save_ok s.calls
      then (ok tt, record s { snapshot = some s.st; torn = false; calls = suc s.calls })
      else (err save_failed, after_failure (world.save_left s.calls) s)
