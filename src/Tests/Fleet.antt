-- ===== src/Tests/Fleet.antt =====
-- Runs of the model of the whole engine and of a worker: one worker, one run, and a limit of one active run.
use grael.Prelude.{false, ◌≡◌, refl, String, true, [], ◌∷◌}
use grael.Prelude.Int.{pos}
use grael.Prelude.Map.{lookup, insert, has}
use grael.State.Apply.{apply}
use grael.Engine.Start.{blank, start_run}
use grael.Result.{ok, err, capacity_exceeded}
use grael.Engine.{part, World, Session}
use grael.Engine.Fleet.{Entry, Engine, register_worker, admit_run, read_entry, reload}
use grael.Engine.Fleet.Served.{Served, opens, registers, starts}
use grael.Tests.{world, flow, hash, start_flow}

abbrev pub worlds : String → World
worlds _ = world

abbrev empty_engine : Engine
empty_engine = record { runs = []; workers = []; max_active_runs = pos 1 }

unfoldable pub with_worker : Engine
unfolding register_worker
with_worker = (register_worker 1 "w" ("work" ∷ []) empty_engine).1

unfoldable pub with_run_a : Engine
unfolding admit_run
with_run_a = (admit_run worlds "run-1" hash flow [] with_worker).1

pub Served-with_run : Served worlds (pos 1) with_run_a
unfolding has lookup register_worker admit_run with_run_a apply with_worker
Served-with_run = starts "run-1" hash flow [] (registers 1 "w" ("work" ∷ []) opens) refl

second_run : (admit_run worlds "run-2" hash flow [] with_run_a).0 ≡ err capacity_exceeded
unfolding admit_run with_worker with_run_a apply insert
second_run = refl

abbrev entry : Entry
entry = record { loaded = true; doubtful = false; session = start_flow }

-- A disk on which the first write leaves a damaged log and each `Save` a torn file.
abbrev rough : World
rough = record world { wal_clean = λ _. false; save_ok = λ _. false; save_left = λ _. part }

abbrev rough_flow : Session
unfolding start_run
rough_flow = elim (start_run rough "run-1" hash flow []) [ ok s ↦ s | err _ ↦ blank ]

abbrev rough_entry : Entry
rough_entry = record { loaded = true; doubtful = false; session = rough_flow }

rough_start : (rough_flow.damaged ≡ true) × (rough_flow.torn ≡ true)
unfolding start_run apply
rough_start = (refl, refl)

-- A restart there skips the run.
rough_restart : (reload (λ _. rough) "run-1" rough_entry).loaded ≡ false
unfolding start_run apply reload read_entry
rough_restart = refl
