-- ===== src/Engine/Load.antt =====
-- internal/engine/engine.go and internal/snapshot/store.go: `rehydrate` and `loadStateLocked`, which
-- read a run back after a restart, from its snapshot file and its log.
use grael.Prelude.{true, false, leb, Option, none, some, List, [], ◌∷◌, if◌then◌else◌}
use grael.Result.{Error, Result, ok, err, run_not_found, open_failed, read_failed, decode_failed}
use grael.Runtime.{Event}
use grael.State.{ExecutionState}
use grael.State.Apply.{apply, rehydrate}
use grael.Engine.{Read, whole, refused, rotten, World, Session}

-- The answers of `snapshots.Load`. A file whose checksum is wrong is corrupt, and ignored; one that
-- cannot be read or decoded is an error of its own.
pub data Loaded : Type 0 where
  missing corrupt : Loaded
  unreadable : Error → Loaded
  found : ExecutionState → Loaded

-- The loop over the events. `LastSeq` moves with each event that is applied.
unfoldable pub replay_after : List Event → ExecutionState → Result ExecutionState
replay_after [] st = ok st
replay_after (event ∷ events) st = elim (leb event.seq st.last_seq) [
  | true ↦ replay_after events st
  | false ↦ elim (apply event st).0 [
    | ok _ ↦ replay_after events (apply event st).1
    | err e ↦ err e
  ]
]

-- `rehydrate` of the engine
unfoldable pub rehydrate_run : Loaded → List Event → Result ExecutionState
unfolding replay_after rehydrate
rehydrate_run missing events = rehydrate events
rehydrate_run corrupt events = rehydrate events
rehydrate_run (unreadable e) events = err e
rehydrate_run (found st) events = replay_after events st

-- `loadStateLocked`, at the run's entry in `e.runs` and the answer of `wal.List`.
unfoldable pub load_state :
    Option ExecutionState → Loaded → Result (List Event) → Result ExecutionState
unfolding rehydrate_run
load_state (some st) loaded listed = ok st
load_state none loaded (err e) = err e
load_state none loaded (ok []) = err run_not_found
load_state none loaded (ok (event ∷ events)) = rehydrate_run loaded (event ∷ events)

-- The file that the last whole `Save` left.
abbrev pub saved_file : Option ExecutionState → Loaded
saved_file none = missing
saved_file (some st) = found st

abbrev pub read_file : Read → Option ExecutionState → Loaded
read_file whole snapshot = saved_file snapshot
read_file refused snapshot = unreadable read_failed
read_file rotten snapshot = corrupt

module _ (world : World) (s : Session) where
  -- `snapshots.Load`, at this moment: a torn file cannot be decoded.
  unfoldable pub loaded_of : Loaded
  loaded_of =
      if s.torn
      then unreadable decode_failed
      else read_file (world.snapshot_read s.calls) s.snapshot

  -- `wal.List`, at this moment: the events of a log that is not damaged, if the file can be read.
  unfoldable pub list_log : Result (List Event)
  list_log =
      if s.damaged
      then world.damaged_list s.calls
      else (if world.list_ok s.calls then ok s.log else err open_failed)
