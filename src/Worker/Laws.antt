-- ===== src/Worker/Laws.antt =====
-- internal/worker/registry.go: what the two writes to the registry change.
use grael.Prelude.{
  String, ◌≡◌, some, List, [], ◌∷◌, ◌==◌, eq_iff, arith, if◌then◌else◌, inl, inr, Option-cases,
}
use grael.Prelude.Lists.{contains}
use grael.Prelude.Map.{lookup, lookup-insert}
use grael.Result.{ok}
use grael.Runtime.{Time, ActivityType}
use grael.Worker.{Registration, Registry, register, touch, can_handle, last_seen}

-- After a registration that succeeds, the worker handles exactly the activities that it named, every
-- other worker handles what it did, and the worker has been seen at that time.
pub can_handle-register :
    (now : Time) (worker : String) (activities : List ActivityType) (r r' : Registry)
    (other : String) (activity : ActivityType)
    → register now worker activities r ≡ ok r'
    → (can_handle r' other activity
        ≡ (if worker == other then contains activities activity else can_handle r other activity))
      × (last_seen r' worker ≡ some now)
unfolding register can_handle last_seen
can_handle-register now worker [] r r' other activity e = absurd (ground arith)
can_handle-register now worker (a ∷ rest) r r' other activity e =
    let reg : Registration = record {
      worker_id = worker;
      activities = a ∷ rest;
      last_seen_at = now;
    } in
    (
      ground (arith, lookup-insert worker other reg r),
      ground (arith, lookup-insert worker worker reg r, eq_iff worker worker),
    )

-- After a heartbeat that succeeds, every worker handles the activities that it did, and the worker has
-- been seen at that time.
pub can_handle-touch :
    (now : Time) (worker : String) (r r' : Registry) (other : String) (activity : ActivityType)
    → touch now worker r ≡ ok r'
    → (can_handle r' other activity ≡ can_handle r other activity)
      × (last_seen r' worker ≡ some now)
unfolding touch can_handle last_seen
can_handle-touch now worker r r' other activity e = elim (Option-cases (lookup worker r)) [
  | inl none_e ↦ absurd (ground arith)
  | inr (reg, at) ↦
      let reg' : Registration = record reg { last_seen_at = now } in
      (
        ground (arith, lookup-insert worker other reg' r, eq_iff worker other),
        ground (arith, lookup-insert worker worker reg' r, eq_iff worker worker),
      )
]
