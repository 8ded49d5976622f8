-- ===== src/Workflow/Loops.antt =====
-- internal/workflowdef/loader.go: what the two loops of `Normalize` check.
use grael.Prelude.{◌≡◌, refl, true, false, List, [], ◌∷◌, map, String, ◌==◌, eq_iff, arith}
use grael.Prelude.Lists.{contains, All, Distinct}
use grael.Result.{ok, and_then-eq-ok, if-eq-ok}
use grael.Runtime.{NodeDefinition}
use grael.Workflow.{
  normalized, normalize_node, normalize_nodes, check_dependencies, check_nodes, ids,
}

-- A node that names itself and its activity, and depends on other nodes of the workflow only.
pub record IsValidNode (known : List String) (n : NodeDefinition) : Type 0 where
  pub has_id : (n.id == "") ≡ false
  pub has_activity : (n.activity_type == "") ≡ false
  pub depends_on_known : All (λ d. ((d == n.id) ≡ false) × (contains known d ≡ true)) n.depends_on

-- The nodes that the first loop lets pass, by the ids that it has seen.
abbrev pub Unseen : List String → List NodeDefinition → Type 0
Unseen seen [] = Unit
Unseen seen (n ∷ ns) = (contains seen n.id ≡ false) × Unseen (n.id ∷ seen) ns

abbrev IsNamed : NodeDefinition → Type 0
IsNamed n = ((n.id == "") ≡ false) × ((n.activity_type == "") ≡ false)

normalize_node-ok :
    (n m : NodeDefinition) → normalize_node n ≡ ok m → IsNamed n × (m ≡ normalized n)
unfolding normalize_node
normalize_node-ok n m h = ground arith

pub normalize_nodes-ok :
    (seen : List String) (ns ms : List NodeDefinition)
    → normalize_nodes seen ns ≡ ok ms
    → Unseen seen ns × All IsNamed ns × (ms ≡ map normalized ns)
unfolding normalize_nodes
normalize_nodes-ok seen [] ms h = (tt, tt, ground arith)
normalize_nodes-ok seen (n ∷ ns) ms h =
    let (new, h₁) = if-eq-ok (contains seen n.id) _ _ h in
    let (m, first, h₂) = and_then-eq-ok (normalize_node n) _ h₁ in
    let (rest, others, h₃) = and_then-eq-ok (normalize_nodes (n.id ∷ seen) ns) _ h₂ in
    let (named, is) = normalize_node-ok n m first in
    let (unseen, all_named, are) = normalize_nodes-ok (n.id ∷ seen) ns rest others in
    ((new, unseen), (named, all_named), ground arith)

pub normalize_nodes_complete :
    (seen : List String) (ns : List NodeDefinition)
    → Unseen seen ns
    → All IsNamed ns
    → normalize_nodes seen ns ≡ ok (map normalized ns)
unfolding normalize_nodes normalize_node
normalize_nodes_complete seen [] unseen named = refl
normalize_nodes_complete seen (n ∷ ns) unseen named =
    ground (arith, unseen.0, named.0, normalize_nodes_complete (n.id ∷ seen) ns unseen.1 named.1)

-- Ids that were not seen are distinct, and conversely.
unseen_after :
    (i : String) (seen ks : List String)
    → All (λ k. contains (i ∷ seen) k ≡ false) ks
    → (contains ks i ≡ false) × All (λ k. contains seen k ≡ false) ks
unfolding contains
unseen_after i seen [] h = (refl, tt)
unseen_after i seen (k ∷ ks) h =
    let (rest, others) = unseen_after i seen ks h.1 in
    (ground (arith, eq_iff i k, eq_iff k i, h.0), (ground (arith, h.0), others))

unseen_before :
    (i : String) (seen ks : List String)
    → contains ks i ≡ false
    → All (λ k. contains seen k ≡ false) ks
    → All (λ k. contains (i ∷ seen) k ≡ false) ks
unfolding contains
unseen_before i seen [] h others = tt
unseen_before i seen (k ∷ ks) h others = (
  ground (arith, eq_iff i k, eq_iff k i, others.0),
  unseen_before i seen ks (ground arith) others.1,
)

pub Unseen-Distinct :
    (seen : List String) (ns : List NodeDefinition)
    → Unseen seen ns
    → Distinct (ids ns) × All (λ k. contains seen k ≡ false) (ids ns)
unfolding ids
Unseen-Distinct seen [] h = (tt, tt)
Unseen-Distinct seen (n ∷ ns) h =
    let (d, others) = Unseen-Distinct (n.id ∷ seen) ns h.1 in
    let (new, old) = unseen_after n.id seen (ids ns) others in ((new, d), (h.0, old))

pub Distinct-Unseen :
    (seen : List String) (ns : List NodeDefinition)
    → Distinct (ids ns)
    → All (λ k. contains seen k ≡ false) (ids ns)
    → Unseen seen ns
unfolding ids
Distinct-Unseen seen [] d h = tt
Distinct-Unseen seen (n ∷ ns) d h =
    (h.0, Distinct-Unseen (n.id ∷ seen) ns d.1 (unseen_before n.id seen (ids ns) d.0 h.1))

pub none_seen : (ks : List String) → All (λ k. contains [] k ≡ false) ks
unfolding contains
none_seen [] = tt
none_seen (k ∷ ks) = (refl, none_seen ks)

check_dependencies-ok :
    (seen : List String) (id : String) (deps : List String)
    → check_dependencies seen id deps ≡ ok tt
    → All (λ d. ((d == id) ≡ false) × (contains seen d ≡ true)) deps
unfolding check_dependencies
check_dependencies-ok seen id [] h = tt
check_dependencies-ok seen id (d ∷ deps) h =
    ((ground arith, ground arith), check_dependencies-ok seen id deps (ground arith))

check_dependencies_complete :
    (seen : List String) (id : String) (deps : List String)
    → All (λ d. ((d == id) ≡ false) × (contains seen d ≡ true)) deps
    → check_dependencies seen id deps ≡ ok tt
unfolding check_dependencies
check_dependencies_complete seen id [] h = refl
check_dependencies_complete seen id (d ∷ deps) h =
    ground (arith, h.0.0, h.0.1, check_dependencies_complete seen id deps h.1)

-- The second loop reads the normal forms, which have the same ids and dependencies.
pub check_nodes-ok :
    (known : List String) (ns : List NodeDefinition)
    → check_nodes known (map normalized ns) ≡ ok tt
    → All IsNamed ns
    → All (IsValidNode known) ns
unfolding check_nodes normalized
check_nodes-ok known [] h named = tt
check_nodes-ok known (n ∷ ns) h named =
    let (_, first, rest) = and_then-eq-ok (check_dependencies known n.id n.depends_on) _ h in
    (
      record {
        has_id = named.0.0;
        has_activity = named.0.1;
        depends_on_known = check_dependencies-ok known n.id n.depends_on first;
      },
      check_nodes-ok known ns rest named.1,
    )

pub check_nodes_complete :
    (known : List String) (ns : List NodeDefinition)
    → All (IsValidNode known) ns
    → check_nodes known (map normalized ns) ≡ ok tt
unfolding check_nodes normalized
check_nodes_complete known [] h = refl
check_nodes_complete known (n ∷ ns) h = ground (
  arith,
  check_dependencies_complete known n.id n.depends_on h.0.depends_on_known,
  check_nodes_complete known ns h.1,
)

pub IsNamed-IsValidNode :
    (known : List String) (ns : List NodeDefinition) → All (IsValidNode known) ns → All IsNamed ns
IsNamed-IsValidNode known [] h = tt
IsNamed-IsValidNode known (n ∷ ns) h =
    ((h.0.has_id, h.0.has_activity), IsNamed-IsValidNode known ns h.1)
