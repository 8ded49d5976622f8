-- ===== src/Engine/Cycle/Search.antt =====
-- internal/engine/engine.go, `hasCycle`: what one call of `visit` does to the marks, and what it answers.
use grael.Prelude.{
  ℕ, ◌≤◌, ◌<◌, ◌≡◌, refl, ◌⊎◌, inl, inr, true, false, some, List, [], ◌∷◌, String, ◌==◌, eq_iff,
  arith, Bool-cases,
}
use grael.Prelude.Lists.{contains}
use grael.Prelude.Map.{keys, has}
use grael.Engine.Cycle.{Graph, Marks, Answer, visit_dependencies}
use grael.Engine.Cycle.Marks.{Leads, Grounded, IsVisiting, IsVisited, unmarked}

-- The nodes that the search is done with are grounded.
abbrev pub Sound : Graph → Marks → Type 0
Sound g marks = (v : String) → IsVisited marks v → Grounded g v

-- Each node that is being visited leads to this one.
abbrev pub LeadsTo : Graph → Marks → String → Type 0
LeadsTo g marks id = (v : String) → IsVisiting marks v → Leads g v id

-- The marks after a search that found no cycle.
pub record Extends (g : Graph) (marks marks' : Marks) : Type 0 where
  pub fewer : unmarked marks' (keys g) ≤ unmarked marks (keys g)
  pub no_more : (v : String) → IsVisiting marks' v → IsVisiting marks v
  pub still : (v : String) → IsVisited marks v → IsVisited marks' v
  pub sound : Sound g marks → Sound g marks'

-- A cycle of dependencies.
abbrev pub Cycle : Graph → Type 0
Cycle g = (k : String) × Leads g k k

-- What is promised of a search: it ends with a cycle, or with marks that are good for the nodes that
-- it was to visit.
abbrev pub Finds : Graph → Marks → Type 0 → (Marks → Type 0) → Answer → Type 0
Finds g marks led found answer =
    ((marks' : Marks) × (answer ≡ some (true, marks')) × (led → Cycle g))
    ⊎ ((marks' : Marks) × (answer ≡ some (false, marks')) × Extends g marks marks' × found marks')

pub Extends-refl : (g : Graph) (marks : Marks) → Extends g marks marks
Extends-refl g marks = record {
  fewer = omega arith;
  no_more = λ v h. h;
  still = λ v h. h;
  sound = λ h. h;
}

pub Extends-trans : {g : Graph} {a b c : Marks} → Extends g a b → Extends g b c → Extends g a c
Extends-trans ab bc = record {
  fewer = omega (arith, ab.fewer, bc.fewer);
  no_more = λ v h. ab.no_more v (bc.no_more v h);
  still = λ v h. bc.still v (ab.still v h);
  sound = λ h. bc.sound (ab.sound h);
}

-- The call that `visit` makes of itself.
abbrev pub Visits : Graph → ℕ → (String → Marks → Answer) → Type 0
Visits g n f =
    (id : String) (marks : Marks)
    → has g id ≡ true
    → unmarked marks (keys g) < n
    → Finds g marks (LeadsTo g marks id) (λ marks'. IsVisited marks' id) (f id marks)

-- The dependencies in the list that are in the graph.
abbrev pub AllVisited : Graph → List String → Marks → Type 0
AllVisited g deps marks = (d : String) → contains deps d ≡ true → has g d ≡ true → IsVisited marks d

-- Every dependency of the list can be reached from each node that is being visited.
abbrev pub AllLed : Graph → List String → Marks → Type 0
AllLed g deps marks = (d : String) → contains deps d ≡ true → has g d ≡ true → LeadsTo g marks d

AllVisited-cons :
    (g : Graph) (dep : String) (deps : List String) (marks : Marks)
    → (has g dep ≡ true → IsVisited marks dep)
    → AllVisited g deps marks
    → AllVisited g (dep ∷ deps) marks
unfolding contains
AllVisited-cons g dep deps marks first rest d listed there = elim (Bool-cases (dep == d)) [
  | inl same ↦ ground (arith, eq_iff dep d, first)
  | inr other ↦ rest d (ground arith) there
]

AllLed-tail :
    (g : Graph) (dep : String) (deps : List String) (marks marks' : Marks)
    → ((v : String) → IsVisiting marks' v → IsVisiting marks v)
    → AllLed g (dep ∷ deps) marks
    → AllLed g deps marks'
unfolding contains
AllLed-tail g dep deps marks marks' no_more led d listed there v h =
    led d (ground arith) there v (no_more v h)

AllLed-head :
    (g : Graph) (dep : String) (deps : List String) (marks : Marks)
    → has g dep ≡ true
    → AllLed g (dep ∷ deps) marks
    → LeadsTo g marks dep
unfolding contains
AllLed-head g dep deps marks there led = led dep (ground (arith, eq_iff dep dep)) there

pub visit_dependencies-Finds :
    (g : Graph) (n : ℕ) (f : String → Marks → Answer) (deps : List String) (marks : Marks)
    → Visits g n f
    → unmarked marks (keys g) < n
    → Finds g marks (AllLed g deps marks) (AllVisited g deps) (visit_dependencies f g deps marks)
unfolding visit_dependencies
visit_dependencies-Finds g n f [] marks visits less =
    inr (
      marks,
      refl,
      Extends-refl g marks,
      λ d listed there. absurd (unfold contains in ground arith),
    )
visit_dependencies-Finds g n f (dep ∷ deps) marks visits less = elim (Bool-cases (has g dep)) [
  | inr absent ↦ elim (visit_dependencies-Finds g n f deps marks visits less) [
    | inl (m, e, cycle) ↦ inl (
      m,
      rw (absent, visit_dependencies) e,
      λ led. cycle (AllLed-tail g dep deps marks marks (λ v h. h) led),
    )
    | inr (m, e, ext, done) ↦ inr (
      m,
      rw (absent, visit_dependencies) e,
      ext,
      AllVisited-cons g dep deps m (λ there. ground arith) done,
    )
  ]
  | inl there ↦ elim (visits dep marks there less) [
    | inl (m, e, cycle) ↦ inl (
      m,
      rw (there, visit_dependencies) (rw e refl),
      λ led. cycle (AllLed-head g dep deps marks there led),
    )
    | inr (m, e, ext, done) ↦
        elim (visit_dependencies-Finds g n f deps m visits (omega (arith, ext.fewer))) [
          | inl (m', e', cycle) ↦ inl (
            m',
            rw (there, visit_dependencies) (rw e e'),
            λ led. cycle (AllLed-tail g dep deps marks m ext.no_more led),
          )
          | inr (m', e', ext', done') ↦ inr (
            m',
            rw (there, visit_dependencies) (rw e e'),
            Extends-trans ext ext',
            AllVisited-cons g dep deps m' (λ _. ext'.still dep done) done',
          )
        ]
  ]
]
