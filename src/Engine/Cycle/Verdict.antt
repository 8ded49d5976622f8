-- ===== src/Engine/Cycle/Verdict.antt =====
-- internal/engine/engine.go, `hasCycle`: the answer of the whole search.
use grael.Prelude.{
  ℕ, zero, suc, ◌+◌, ◌<◌, ◌≡◌, refl, sym, subst, ◌∙◌, ◌⊎◌, inl, inr, ◌↔◌, Bool, true, false, none,
  some, List, [], ◌∷◌, String, ◌==◌, eq_iff, arith, Bool-cases, Option-cases,
}
use grael.Prelude.Lists.{length, contains}
use grael.Prelude.Map.{lookup, insert, keys, has, lookup-insert, contains-keys}
use grael.Engine.Cycle.{
  Graph, visiting, visited, Marks, dependencies, visit, search_nodes, has_cycle,
}
use grael.Engine.Cycle.Marks.{
  Leads, edge, further, Grounded, grounded, Grounded-no_cycle, IsVisiting, unmarked,
  unmarked-insert-le, unmarked-insert-lt, unmarked-le-length,
}
use grael.Engine.Cycle.Search.{
  Sound, LeadsTo, Extends, Cycle, Extends-refl, Visits, AllVisited, AllLed,
  visit_dependencies-Finds,
}

-- Once the node is marked, its dependencies are reached from all nodes that are being visited.
LeadsTo-below :
    (g : Graph) (id : String) (marks : Marks)
    → LeadsTo g marks id
    → AllLed g (dependencies g id) (insert id visiting marks)
LeadsTo-below g id marks led d listed there v h = elim (Bool-cases (id == v)) [
  | inl same ↦ subst (λ x. Leads g x d) ((eq_iff id v).0 same) (edge (listed, there))
  | inr other ↦ further (led v (ground (arith, lookup-insert id v visiting marks))) (listed, there)
]

-- A node is left when all its dependencies are done.
leave-Extends :
    (g : Graph) (id : String) (marks m : Marks)
    → lookup id marks ≡ none
    → Extends g (insert id visiting marks) m
    → AllVisited g (dependencies g id) m
    → Extends g marks (insert id visited m)
leave-Extends g id marks m fresh ext done = record {
  fewer = omega (
    arith,
    ext.fewer,
    unmarked-insert-le id visited m (keys g),
    unmarked-insert-le id visiting marks (keys g),
  );
  no_more = λ v h.
      let before = ext.no_more v in
      ground (arith, lookup-insert id v visited m, lookup-insert id v visiting marks, before);
  still = λ v h.
      let kept = ext.still v in
      ground
        (arith, lookup-insert id v visited m, lookup-insert id v visiting marks, kept, eq_iff id v);
  sound = λ before v h.
      let inside : Sound g m =
        ext.sound (λ w i. before w (ground (arith, lookup-insert id w visiting marks))) in
      elim (Bool-cases (id == v)) [
        | inl same ↦
            subst (Grounded g) ((eq_iff id v).0 same) (grounded (λ b e. inside b (done b e.0 e.1)))
        | inr other ↦ inside v (ground (arith, lookup-insert id v visited m))
      ];
}

visit_finds : (g : Graph) (fuel : ℕ) → Visits g fuel (visit fuel g)
unfolding visit
visit_finds g zero id marks there less = absurd (omega (arith, less))
visit_finds g (suc fuel) id marks there less = elim (Option-cases (lookup id marks)) [
  | inr (visiting, e) ↦ inl (marks, rw (e, visit) refl, λ led. (id, led id e))
  | inr (visited, e) ↦ inr (marks, rw (e, visit) refl, Extends-refl g marks, e)
  | inl e ↦
      let marks₁ = insert id visiting marks in
      let less₁ : unmarked marks₁ (keys g) < fuel = omega (
        arith,
        less,
        unmarked-insert-lt id visiting marks (keys g) (contains-keys g id ∙ there) e,
      ) in
      elim (visit_dependencies-Finds g fuel (visit fuel g) (dependencies g id) marks₁
        (visit_finds g fuel) less₁) [
          | inl (m, e₁, cycle) ↦
              inl (m, rw (e, visit) (rw e₁ refl), λ led. cycle (LeadsTo-below g id marks led))
          | inr (m, e₁, ext, done) ↦ inr (
            insert id visited m,
            rw (e, visit) (rw e₁ refl),
            leave-Extends g id marks m e ext done,
            ground (arith, lookup-insert id id visited m, eq_iff id id),
          )
        ]
]

search_nodes_verdict :
    (g : Graph) (fuel : ℕ) (ids : List String) (marks : Marks)
    → ((k : String) → contains ids k ≡ true → has g k ≡ true)
    → ((v : String) → ¬ IsVisiting marks v)
    → Sound g marks
    → unmarked marks (keys g) < fuel
    → ((search_nodes fuel g ids marks ≡ some true) × Cycle g)
      ⊎ ((search_nodes fuel g ids marks ≡ some false)
          × ((k : String) → contains ids k ≡ true → Grounded g k))
unfolding search_nodes contains
search_nodes_verdict g fuel [] marks known quiet sound less =
    inr (refl, λ k listed. absurd (ground arith))
search_nodes_verdict g fuel (id ∷ ids) marks known quiet sound less =
    elim (visit_finds g fuel id marks (known id (ground (arith, eq_iff id id))) less) [
      | inl (m, e, cycle) ↦ inl (rw (e, search_nodes) refl, cycle (λ v h. absurd (quiet v h)))
      | inr (m, e, ext, done) ↦
          elim (search_nodes_verdict g fuel ids m (λ k listed. known k (ground arith))
            (λ v h. quiet v (ext.no_more v h)) (ext.sound sound) (omega (arith, ext.fewer, less))) [
              | inl (e', cycle) ↦ inl (rw (e, search_nodes) e', cycle)
              | inr (e', below) ↦ inr (
                rw (e, search_nodes) e',
                λ k listed. elim (Bool-cases (id == k)) [
                  | inl same ↦ subst (Grounded g) ((eq_iff id k).0 same) (ext.sound sound id done)
                  | inr other ↦ below k (ground arith)
                ],
              )
            ]
    ]

-- A node that is not in the graph has no dependencies.
Grounded-absent : (g : Graph) (k : String) → has g k ≡ false → Grounded g k
Grounded-absent g k absent =
    grounded {a = k} (λ b e. absurd (unfold dependencies has contains in ground (arith, e.0)))

-- The search either answers that there is a cycle, and there is one, or that there is none, and every
-- chain of dependencies ends.
pub has_cycle_verdict :
    (g : Graph)
    → ((has_cycle g ≡ some true) × Cycle g)
      ⊎ ((has_cycle g ≡ some false) × ((k : String) → Grounded g k))
unfolding has_cycle
has_cycle_verdict g =
    elim (search_nodes_verdict g (length (keys g) + 1) (keys g) []
      (λ k listed. sym (contains-keys g k) ∙ listed) (λ v h. unfold lookup in ground arith)
      (λ v h. absurd (unfold lookup in ground arith))
      (omega (arith, unmarked-le-length [] (keys g)))) [
        | inl cyclic ↦ inl cyclic
        | inr (e, below) ↦ inr (
          e,
          λ k. elim (Bool-cases (has g k)) [
            | inl there ↦ below k (contains-keys g k ∙ there)
            | inr absent ↦ Grounded-absent g k absent
          ],
        )
      ]

-- `hasCycle` returns on every graph, within the fuel of one unit more than there are nodes, and its answer
-- is true exactly where some node is reached from itself by one or more dependencies.
pub has_cycle-Cycle : (g : Graph) → (b : Bool) × (has_cycle g ≡ some b) × ((b ≡ true) ↔ Cycle g)
has_cycle-Cycle g = elim (has_cycle_verdict g) [
  | inl (e, cycle) ↦ (true, e, ((λ _. cycle), λ _. refl))
  | inr (e, below) ↦ (
    false,
    e,
    ((λ h. absurd (ground arith)), λ cycle. absurd (Grounded-no_cycle (below cycle.0) cycle.1)),
  )
]
