-- ===== src/Engine/Runs/Nodes.antt =====
-- internal/engine/engine.go and internal/state/state.go: the nodes of every run that is reached.
use grael.Prelude.{
  ◌≡◌, refl, ap, ◌∙◌, subst, inl, inr, Bool, true, false, some, List, [], ◌∷◌, String, arith,
  Option-cases, Bool-cases,
}
use grael.Prelude.Map.{Map, lookup}
use grael.Runtime.{NodeState, is_completed, is_pending}
use grael.State.{Node, completed_at, dependencies_completed}
use grael.State.Apply.{apply}
use grael.State.Moves.{Moves, AllMove, IsKept, IsNew}
use grael.Engine.{World, Session}
use grael.Engine.Legal.Nodes.{Evolves}
use grael.Engine.Steps.{Steps-keep}
use grael.Engine.Steps.Nodes.{apply-Evolves}
use grael.Engine.Runs.{Command, execute, execute-Steps, Reach}
use grael.Engine.Runs.Reached.{begun, begun-OnlyNew, Holds, Reach-keeps}

-- A node that was let go at some time: it neither waits nor was cancelled.
abbrev pub was_ready : NodeState → Bool
was_ready NodeState.pending = false
was_ready NodeState.cancelled = false
was_ready _ = true

-- The two states that no edge leaves.
abbrev pub is_final : NodeState → Bool
is_final NodeState.completed = true
is_final NodeState.cancelled = true
is_final _ = false

pub Moves-completed :
    (nodes' : Map Node) (n n' : Node)
    → Moves nodes' n n'
    → is_completed n.state ≡ true
    → is_completed n'.state ≡ true
Moves-completed nodes' n n' (inl kept) h = ground arith
Moves-completed nodes' n n' (inr c) h = absurd (ground (arith, c.along))

pub completed_at-AllMove :
    (nodes nodes' : Map Node) (k : String)
    → AllMove nodes nodes'
    → completed_at nodes k ≡ true
    → completed_at nodes' k ≡ true
unfolding completed_at
completed_at-AllMove nodes nodes' k moves h = elim (Option-cases (lookup k nodes)) [
  | inl e ↦ absurd (ground arith)
  | inr (n, e) ↦
      let (n', e', move) = moves k n e in
      let done = Moves-completed nodes' n n' move (ground arith) in ground arith
]

-- Dependencies that are completed stay completed.
pub dependencies_completed-AllMove :
    (nodes nodes' : Map Node) (deps : List String)
    → AllMove nodes nodes'
    → dependencies_completed nodes deps ≡ true
    → dependencies_completed nodes' deps ≡ true
unfolding dependencies_completed
dependencies_completed-AllMove nodes nodes' [] moves h = refl
dependencies_completed-AllMove nodes nodes' (dep ∷ deps) moves h = ground (
  arith,
  completed_at-AllMove nodes nodes' dep moves,
  dependencies_completed-AllMove nodes nodes' deps moves,
)

abbrev Met : Map Node → Type 0
Met nodes =
    (k : String) (n : Node)
    → lookup k nodes ≡ some n
    → was_ready n.state ≡ true
    → dependencies_completed nodes n.depends_on ≡ true

IsNew-Met :
    (nodes : Map Node) (k : String) (n : Node)
    → IsNew nodes k n
    → was_ready n.state ≡ true
    → dependencies_completed nodes n.depends_on ≡ true
IsNew-Met nodes k n new' h = elim new'.waits [
  | inl waits ↦ absurd (ground arith)
  | inr (_, met) ↦ met
]

Moves-Met :
    (nodes nodes' : Map Node) (k : String) (n n' : Node)
    → AllMove nodes nodes'
    → (was_ready n.state ≡ true → dependencies_completed nodes n.depends_on ≡ true)
    → Moves nodes' n n'
    → was_ready n'.state ≡ true
    → dependencies_completed nodes' n'.depends_on ≡ true
Moves-Met nodes nodes' k n n' moves met (inl kept) h =
    let still = dependencies_completed-AllMove nodes nodes' n.depends_on moves in ground arith
Moves-Met nodes nodes' k n n' moves met (inr c) h =
    let still = dependencies_completed-AllMove nodes nodes' n.depends_on moves in
    elim (Bool-cases (is_pending n.state)) [
      | inl waits ↦ let go = c.met waits (ground (arith, c.along)) in ground (arith, c.same_deps)
      | inr let_go ↦
          let before : was_ready n.state ≡ true = ground (arith, c.along) in
          let met' = still (met before) in ground (arith, c.same_deps)
    ]

Evolves-Met : (nodes nodes' : Map Node) → Evolves nodes nodes' → Met nodes → Met nodes'
Evolves-Met nodes nodes' ev met k n' at h = elim (ev.only_new k n' at) [
  | inr new' ↦ IsNew-Met nodes' k n' new' h
  | inl (n, before) ↦
      let (m, now, move) = ev.all_move k n before in
      let same : m ≡ n' = ground arith in
      Moves-Met nodes nodes' k n n' ev.all_move (met k n before)
        (subst (λ x. Moves nodes' n x) same move) h
]

Met-holds : Holds (λ st _ _. Met st.nodes)
unfolding lookup
Met-holds = record {
  begin = λ e start k n at h. elim (begun-OnlyNew e start k n at) [
    | inl (_, before) ↦ absurd (ground arith)
    | inr new' ↦ IsNew-Met (begun e).st.nodes k n new' h
  ];
  event = λ e st log snapshot wf legal met.
      Evolves-Met st.nodes (apply e st).1.nodes (apply-Evolves e st legal) met;
  save = λ st log snapshot met. met;
}

module _ (world : World) where
  -- In every run that is reached, a node stands under its id, and one that is ready, running, awaiting
  -- approval, completed or failed has all its dependencies completed.
  pub Reach-dependencies :
      {s : Session} (k : String) (n : Node)
      → Reach world s
      → lookup k s.st.nodes ≡ some n
      → (n.id ≡ k)
        × (was_ready n.state ≡ true → dependencies_completed s.st.nodes n.depends_on ≡ true)
  Reach-dependencies {s} k n reach at =
      let (wf, met) = Reach-keeps (λ st _ _. Met st.nodes) Met-holds world reach in
      (wf.named k n at, met k n at)

  -- In a run that is reached, no command changes a completed or a cancelled node in anything but the
  -- time of its last heartbeat.
  pub execute-final :
      {s : Session} (c : Command) (k : String) (n : Node)
      → Reach world s
      → lookup k s.st.nodes ≡ some n
      → is_final n.state ≡ true
      → (n' : Node) × (lookup k (execute world c s).st.nodes ≡ some n') × IsKept n n'
  execute-final {s} c k n reach at final =
      let wf = (Reach-keeps (λ st _ _. Met st.nodes) Met-holds world reach).0 in
      Steps-keep (λ st _. (n' : Node) × (lookup k st.nodes ≡ some n') × IsKept n n')
        (λ e st _ legal h.
          let (m, now, move) = (apply-Evolves e st legal).all_move k h.0 h.1 in
          (m, now, kept_again (apply e st).1.nodes h.0 m h.2 move))
        (execute-Steps world c s wf) (n, at, refl)
    where
      kept_again : (nodes' : Map Node) (m m' : Node) → IsKept n m → Moves nodes' m m' → IsKept n m'
      kept_again nodes' m m' kept (inl more) =
          more ∙ ap {A = Node} (λ x. record x { last_heartbeat_at = m'.last_heartbeat_at }) kept
      kept_again nodes' m m' kept (inr c') = absurd (ground (arith, c'.along))
