-- ===== src/Engine/Spawn/Accepted.antt =====
-- internal/engine/engine.go, `normalizeSpawnedNodes`: the nodes that it lets a completion spawn.
use grael.Prelude.{String, ◌≡◌, refl, subst, ◌⊎◌, inl, inr, true, false, ◌||◌, List, [], ◌∷◌, arith}
use grael.Prelude.Lists.{All, contains}
use grael.Prelude.Map.{Map, has}
use grael.Result.{ok, and_then-eq-ok}
use grael.Runtime.{NodeDefinition}
use grael.State.{Node, ExecutionState}
use grael.Engine.Cycle.Marks.{Grounded}
use grael.Engine.Cycle.Verdict.{has_cycle_verdict}
use grael.Engine.Spawn.{
  collect_spawned, check_spawned, check_all_spawned, definition_ids, graph_of, add_to_graph,
  normalize_spawned,
}
use grael.Engine.Spawn.Fresh.{collect_spawned-fresh, refuse_cycle-ok}

-- The dependency is a node of the run, or spawned with it.
abbrev pub Knows : Map Node → List NodeDefinition → List String → Type 0
Knows nodes spawned = All (λ d. (has nodes d || contains (definition_ids spawned) d) ≡ true)

-- Spawned nodes have new ids and known dependencies, and close no cycle.
pub record IsSpawnable (st : ExecutionState) (spawned : List NodeDefinition) : Type 0 where
  pub fresh : All (λ def. has st.nodes def.id ≡ false) spawned
  pub known : All (λ def. Knows st.nodes spawned def.depends_on) spawned
  pub acyclic :
      (spawned ≡ []) ⊎ ((k : String) → Grounded (add_to_graph spawned (graph_of st.nodes)) k)

check_spawned-ok :
    (nodes : Map Node) (spawned : List String) (id : String) (deps : List String)
    → check_spawned nodes spawned id deps ≡ ok tt
    → All (λ d. (has nodes d || contains spawned d) ≡ true) deps
unfolding check_spawned
check_spawned-ok nodes spawned id [] h = tt
check_spawned-ok nodes spawned id (d ∷ deps) h =
    (ground arith, check_spawned-ok nodes spawned id deps (ground arith))

check_all_spawned-ok :
    (nodes : Map Node) (spawned : List String) (defs : List NodeDefinition)
    → check_all_spawned nodes spawned defs ≡ ok tt
    → All (λ def. All (λ d. (has nodes d || contains spawned d) ≡ true) def.depends_on) defs
unfolding check_all_spawned
check_all_spawned-ok nodes spawned [] h = tt
check_all_spawned-ok nodes spawned (def ∷ defs) h =
    let (_, first, rest) = and_then-eq-ok (check_spawned nodes spawned def.id def.depends_on) _ h in
    (
      check_spawned-ok nodes spawned def.id def.depends_on first,
      check_all_spawned-ok nodes spawned defs rest,
    )

-- Where `normalizeSpawnedNodes` accepts the nodes that a completion spawns, none of those that it returns
-- has the id of a node of the run, each depends only on nodes of the run and on others of them, and, if
-- there are any, every chain of dependencies in the graph of all these nodes ends.
pub normalize_spawned-IsSpawnable :
    (st : ExecutionState) (parent : String) (candidates spawned : List NodeDefinition)
    → normalize_spawned st parent candidates ≡ ok spawned
    → IsSpawnable st spawned
unfolding normalize_spawned
normalize_spawned-IsSpawnable st parent [] [] e = record {
  fresh = tt;
  known = tt;
  acyclic = inl refl;
}
normalize_spawned-IsSpawnable st parent [] (d ∷ spawned) e = absurd (ground arith)
normalize_spawned-IsSpawnable st parent (c ∷ rest) spawned e =
    let (defs, e₁, e₂) = and_then-eq-ok (collect_spawned st.nodes [] (c ∷ rest)) _ e in
    let (_, e₃, e₄) = and_then-eq-ok (check_all_spawned st.nodes (definition_ids defs) defs) _ e₂ in
    let (no_cycle, same) = refuse_cycle-ok parent defs _ spawned e₄ in
    subst (IsSpawnable st) same (record {
      fresh = collect_spawned-fresh st.nodes [] (c ∷ rest) defs e₁;
      known = check_all_spawned-ok st.nodes (definition_ids defs) defs e₃;
      acyclic = inr (elim (has_cycle_verdict (add_to_graph defs (graph_of st.nodes))) [
        | inl (cyclic, _) ↦ absurd (ground arith)
        | inr (_, below) ↦ below
      ]);
    })
