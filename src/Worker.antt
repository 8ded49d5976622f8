-- ===== src/Worker.antt =====
-- internal/worker/registry.go: which worker can handle which activity. The calls hold the registry's
-- lock, so each is one function on it.
pub mod Laws
use grael.Prelude.{String, Bool, false, Option, none, some, List, [], ◌∷◌, ◌==◌, if◌then◌else◌}
use grael.Prelude.Lists.{contains}
use grael.Prelude.Map.{Map, lookup, insert}
use grael.Result.{Result, ok, err, worker_required, activities_required, unknown_worker}
use grael.Runtime.{Time, ActivityType}

pub record Registration : Type 0 where
  pub worker_id : String
  pub activities : List ActivityType
  pub last_seen_at : Time

abbrev pub Registry : Type 0
Registry = Map Registration

-- `Register`
unfoldable pub register :
    Time → (worker_id : String) → List ActivityType → Registry → Result Registry
register now worker [] r = if worker == "" then err worker_required else err activities_required
register now worker (a ∷ as') r =
    if worker == ""
    then err worker_required
    else ok
        (insert worker (record { worker_id = worker; activities = a ∷ as'; last_seen_at = now }) r)

-- `Heartbeat`
unfoldable pub touch : Time → (worker_id : String) → Registry → Result Registry
touch now worker r = elim (lookup worker r) [
  | none ↦ err (unknown_worker worker)
  | some reg ↦ ok (insert worker (record reg { last_seen_at = now }) r)
]

-- `CanHandle`
unfoldable pub can_handle : Registry → (worker_id : String) → ActivityType → Bool
unfolding contains
can_handle r worker activity = elim (lookup worker r) [
  | none ↦ false
  | some reg ↦ contains reg.activities activity
]

-- `LastSeen`
unfoldable pub last_seen : Registry → (worker_id : String) → Option Time
last_seen r worker = elim (lookup worker r) [ none ↦ none | some reg ↦ some reg.last_seen_at ]
