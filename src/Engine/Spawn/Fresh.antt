-- ===== src/Engine/Spawn/Fresh.antt =====
-- internal/engine/engine.go: what `normalizeSpawnedNodes` tests of the nodes that it collects.
use grael.Prelude.{String, ◌≡◌, subst, Bool, false, Option, some, List, [], ◌∷◌, ◌==◌, arith}
use grael.Prelude.Lists.{All, contains}
use grael.Prelude.Map.{Map, has}
use grael.Result.{ok, and_then-eq-ok, if-eq-ok}
use grael.Runtime.{NodeDefinition}
use grael.Workflow.{normalize_node}
use grael.State.{Node}
use grael.Engine.Spawn.{collect_spawned, refuse_cycle}

pub collect_spawned-fresh :
    (nodes : Map Node) (spawned : List String) (candidates defs : List NodeDefinition)
    → collect_spawned nodes spawned candidates ≡ ok defs
    → All (λ def. has nodes def.id ≡ false) defs
unfolding collect_spawned
collect_spawned-fresh nodes spawned [] [] e = tt
collect_spawned-fresh nodes spawned [] (d ∷ defs) e = cc
collect_spawned-fresh nodes spawned (c ∷ rest) defs e =
    let (def, e₁, e₂) = and_then-eq-ok (normalize_node c) _ e in
    let (_, e₃) = if-eq-ok (def.id == "") _ _ e₂ in
    let (_, e₄) = if-eq-ok (def.activity_type == "") _ _ e₃ in
    let (new, e₅) = if-eq-ok (has nodes def.id) _ _ e₄ in
    let (_, e₆) = if-eq-ok (contains spawned def.id) _ _ e₅ in
    let (others, e₇, e₈) = and_then-eq-ok (collect_spawned nodes (c.id ∷ spawned) rest) _ e₆ in
    let same : def ∷ others ≡ defs = cc in
    subst (All (λ d. has nodes d.id ≡ false)) same
      (new, collect_spawned-fresh nodes (c.id ∷ spawned) rest others e₇)

pub refuse_cycle-ok :
    (parent : String) (defs : List NodeDefinition) (o : Option Bool) (spawned : List NodeDefinition)
    → refuse_cycle parent defs o ≡ ok spawned
    → (o ≡ some false) × (defs ≡ spawned)
refuse_cycle-ok parent defs o spawned e = ground arith
