-- ===== src/Demo/Polls.antt =====
-- demo/adapter/adapter.go over internal/engine/engine.go: what a client of the dashboard that polls with the
-- number of the last event it has seen is told.
use grael.Prelude.{String, Bool, true, false, List, [], ◌∷◌}
use grael.Engine.{World}
use grael.Engine.Fleet.{Engine, get_run, list_events}
use grael.Engine.Fleet.Served.{Served}
use grael.Demo.Events.{TimelineEvent}
use grael.Demo.Graph.{Reader}

-- The engine as the reader of the dashboard, at one moment.
unfoldable pub engine_reader : (worlds : String → World) → Engine → Reader
unfolding get_run list_events
engine_reader worlds e = record {
  get_run = λ run_id. (get_run worlds run_id e).0;
  list_events = λ run_id. (list_events worlds run_id (get_run worlds run_id e).1).0;
}

abbrev pub is_none : List TimelineEvent → Bool
is_none [] = true
is_none (_ ∷ _) = false
