-- ===== src/Engine/Fleet/Entries.antt =====
-- internal/engine/engine.go: the map of the runs of an engine, as its operations change it.
use grael.Prelude.{
  ◌≡◌, sym, subst, ◌∙◌, subst₂, inl, inr, String, false, some, [], ◌∷◌, ◌==◌, eq_iff, arith,
  Bool-cases,
}
use grael.Prelude.Lists.{All}
use grael.Prelude.Map.{Map, lookup, insert}
use grael.Result.{ok}
use grael.State.{ExecutionState}
use grael.Engine.{World, Session}
use grael.Engine.Runs.{Command, read, execute, Reach, then_}
use grael.Engine.Runs.Named.{execute-run_id}
use grael.Engine.Runs.Durable.{load_state-same}
use grael.Engine.Fleet.{Entry, each_run, read_entry, read_back, unread}

module _ (worlds : String → World) where
  -- The run is one that a start and commands reach, if its state was never read from a damaged log.
  abbrev pub IsServed : String → Entry → Type 0
  IsServed id r = r.doubtful ≡ false → Reach (worlds id) r.session × (r.session.st.run_id ≡ id)

  pub execute-IsServed :
      (id : String) (r : Entry) (c : Command)
      → IsServed id r
      → IsServed id (record r { session = execute (worlds id) c r.session })
  execute-IsServed id r c served = λ sound.
      let (reach, named) = served sound in
      (then_ c reach, execute-run_id (worlds id) c reach ∙ named)

  pub unread-IsServed : (id : String) (r : Entry) → IsServed id r → IsServed id (unread r)
  unfolding execute
  unread-IsServed id r served = execute-IsServed id r read served

  -- What is read back is the run as it was in memory, or is doubtful.
  pub read_back-IsServed :
      (id : String) (r : Entry) (st : ExecutionState)
      → read_entry worlds id r ≡ ok st
      → IsServed id r
      → IsServed id (read_back st r)
  unfolding read_entry execute
  read_back-IsServed id r st done served = λ sound.
      let r_sound : r.doubtful ≡ false = ground arith in
      let intact : r.session.damaged ≡ false = ground arith in
      let same = load_state-same (worlds id) st (served r_sound).0 intact done in
      subst (λ x. IsServed id (read_back x r)) (sym same)
        (λ _. execute-IsServed id r read served r_sound) sound

  abbrev pub AllServed : Map Entry → Type 0
  AllServed = All (λ entry. IsServed entry.0 entry.1)

  pub AllServed-lookup :
      (id : String) (r : Entry) (runs : Map Entry)
      → AllServed runs
      → lookup id runs ≡ some r
      → IsServed id r
  unfolding lookup
  AllServed-lookup id r [] served at = absurd (ground arith)
  AllServed-lookup id r ((j, v) ∷ runs) (first, rest) at = elim (Bool-cases (j == id)) [
    | inl same ↦ let e : v ≡ r = ground arith in subst₂ IsServed ((eq_iff j id).0 same) e first
    | inr other ↦ AllServed-lookup id r runs rest (ground arith)
  ]

  pub AllServed-insert :
      (id : String) (r : Entry) (runs : Map Entry)
      → AllServed runs
      → IsServed id r
      → AllServed (insert id r runs)
  unfolding insert
  AllServed-insert id r [] served new' = (new', tt)
  AllServed-insert id r ((j, v) ∷ runs) (first, rest) new' = elim (Bool-cases (j == id)) [
    | inl same ↦ rw same (new', rest)
    | inr other ↦ rw other (first, AllServed-insert id r runs rest new')
  ]

  pub AllServed-each :
      (f : String → Session → Session)
      → ((id : String) (r : Entry)
          → IsServed id r
          → IsServed id (record r { session = f id r.session }))
      → (runs : Map Entry) → AllServed runs
      → AllServed (each_run f runs)
  unfolding each_run
  AllServed-each f keeps [] served = tt
  AllServed-each f keeps ((id, r) ∷ runs) (first, rest) = (
    elim (Bool-cases r.loaded) [
      | inl loaded ↦ rw loaded (keeps id r first)
      | inr away ↦ rw away first
    ],
    AllServed-each f keeps runs rest,
  )
