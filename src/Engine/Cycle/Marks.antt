-- ===== src/Engine/Cycle/Marks.antt =====
-- internal/engine/engine.go, `hasCycle`: paths of dependencies, and the marks of the search.
use grael.Prelude.{
  ℕ, suc, ◌≤◌, ◌<◌, ◌≡◌, refl, sym, subst, ◌⊎◌, inl, inr, true, none, some, List, [], ◌∷◌, String,
  eq_iff, arith,
}
use grael.Prelude.Lists.{length, contains}
use grael.Prelude.Map.{lookup, insert, has, lookup-insert}
use grael.Engine.Cycle.{Graph, Mark, visiting, visited, Marks, dependencies}

-- `a` lists `b` among its dependencies, and `b` is in the graph.
abbrev pub DependsOn : Graph → String → String → Type 0
DependsOn g a b = (contains (dependencies g a) b ≡ true) × (has g b ≡ true)

pub data Leads (g : Graph) : String → String → Type 0 where
  edge : {a b : String} → DependsOn g a b → Leads g a b
  further : {a b c : String} → Leads g a b → DependsOn g b c → Leads g a c

-- A node from which every chain of dependencies ends.
pub data Grounded (g : Graph) : String → Type 0 where
  grounded : {a : String} → ((b : String) → DependsOn g a b → Grounded g b) → Grounded g a

first_edge :
    {g : Graph} {a c : String}
    → Leads g a c
    → (b : String) × DependsOn g a b × ((b ≡ c) ⊎ Leads g b c)
first_edge {g} {c} (edge e) = (c, e, inl refl)
first_edge {g} (further {b} {c} path e) =
    let (d, first, rest) = first_edge path in
    (
      d,
      first,
      inr (elim rest [
        | inl same ↦ edge (subst (λ x. DependsOn g x c) (sym same) e)
        | inr more ↦ further more e
      ]),
    )

-- From such a node no path leads back to where it began.
pub Grounded-no_cycle : {g : Graph} {a : String} → Grounded g a → ¬ Leads g a a
Grounded-no_cycle {g} (grounded {a} below) path =
    let (b, e, rest) = first_edge path in
    Grounded-no_cycle (below b e) (elim rest [
      | inl same ↦ edge (subst (λ x. DependsOn g x b) (sym same) e)
      | inr more ↦ further more e
    ])

abbrev pub IsVisiting : Marks → String → Type 0
IsVisiting marks v = lookup v marks ≡ some visiting

abbrev pub IsVisited : Marks → String → Type 0
IsVisited marks v = lookup v marks ≡ some visited

-- How many of the nodes have no mark.
unfoldable pub unmarked : Marks → List String → ℕ
unmarked marks [] = 0
unmarked marks (k ∷ ks) = elim (lookup k marks) [
  | none ↦ suc (unmarked marks ks)
  | some _ ↦ unmarked marks ks
]

pub unmarked-le-length : (marks : Marks) (ks : List String) → unmarked marks ks ≤ length ks
unfolding unmarked
unmarked-le-length marks [] = omega arith
unmarked-le-length marks (k ∷ ks) = ground (arith, unmarked-le-length marks ks)

pub unmarked-insert-le :
    (id : String) (mark : Mark) (marks : Marks) (ks : List String)
    → unmarked (insert id mark marks) ks ≤ unmarked marks ks
unfolding unmarked
unmarked-insert-le id mark marks [] = omega arith
unmarked-insert-le id mark marks (k ∷ ks) =
    ground (arith, unmarked-insert-le id mark marks ks, lookup-insert id k mark marks)

pub unmarked-insert-lt :
    (id : String) (mark : Mark) (marks : Marks) (ks : List String)
    → contains ks id ≡ true
    → lookup id marks ≡ none
    → unmarked (insert id mark marks) ks < unmarked marks ks
unfolding unmarked contains
unmarked-insert-lt id mark marks [] there fresh = absurd (ground arith)
unmarked-insert-lt id mark marks (k ∷ ks) there fresh = ground (
  arith,
  unmarked-insert-lt id mark marks ks,
  unmarked-insert-le id mark marks ks,
  lookup-insert id k mark marks,
  eq_iff k id,
  eq_iff id k,
)
