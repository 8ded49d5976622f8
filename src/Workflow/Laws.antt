-- ===== src/Workflow/Laws.antt =====
-- internal/workflowdef/loader.go: `Normalize` as a whole, against what a definition in order is.
use grael.Prelude.{
  sym, subst, ◌≡◌, refl, ◌∙◌, ap, ◌↔◌, true, false, Option, none, some, List, [], ◌∷◌, map, String,
  ◌==◌, arith, leb,
}
use grael.Prelude.Lists.{length, All, Distinct}
use grael.Prelude.Int.{ℤ, pos, negsuc, is_negative}
use grael.Result.{ok, and_then-eq-ok, if-eq-ok}
use grael.Runtime.{RetryPolicy, NodeDefinition, WorkflowDefinition}
use grael.Workflow.{
  normalize_deadline, normalize_retry_policy, normalized, normalize_nodes, check_nodes, ids,
  normalize,
}
use grael.Workflow.Loops.{
  IsValidNode, normalize_nodes-ok, normalize_nodes_complete, Unseen-Distinct, Distinct-Unseen,
  none_seen, check_nodes-ok, check_nodes_complete, IsNamed-IsValidNode,
}

-- A definition in order.
pub record IsValid (def : WorkflowDefinition) : Type 0 where
  pub has_name : (def.name == "") ≡ false
  pub has_nodes : leb 1 (length def.nodes) ≡ true
  pub distinct : Distinct (ids def.nodes)
  pub valid : All (IsValidNode (ids def.nodes)) def.nodes

-- The value of the result.
abbrev pub normal_form : WorkflowDefinition → WorkflowDefinition
normal_form def = record { name = def.name; nodes = map normalized def.nodes }

normalize-ok :
    (name : String) (nodes : List NodeDefinition) (def' : WorkflowDefinition)
    → normalize (record { name = name; nodes = nodes }) ≡ ok def'
    → IsValid (record { name = name; nodes = nodes })
      × (def' ≡ record { name = name; nodes = map normalized nodes })
unfolding normalize
normalize-ok name [] def' h = absurd (ground arith)
normalize-ok name (n ∷ ns) def' h =
    let (has_name, h₁) = if-eq-ok (name == "") _ _ h in
    let (ms, passed, h₂) = and_then-eq-ok (normalize_nodes [] (n ∷ ns)) _ h₁ in
    let (unseen, named, are) = normalize_nodes-ok [] (n ∷ ns) ms passed in
    let (_, checked, h₃) = and_then-eq-ok (check_nodes (ids (n ∷ ns)) ms) _ h₂ in
    (
      record {
        has_name = has_name;
        has_nodes = ground arith;
        distinct = (Unseen-Distinct [] (n ∷ ns) unseen).0;
        valid =
            check_nodes-ok (ids (n ∷ ns)) (n ∷ ns)
              (subst (λ x. check_nodes (ids (n ∷ ns)) x ≡ ok tt) are checked) named;
      },
      ground arith,
    )

normalize_complete :
    (name : String) (nodes : List NodeDefinition)
    → IsValid (record { name = name; nodes = nodes })
    → normalize (record { name = name; nodes = nodes })
      ≡ ok (record { name = name; nodes = map normalized nodes })
unfolding normalize
normalize_complete name [] v = absurd (ground (arith, v.has_nodes))
normalize_complete name (n ∷ ns) v =
    let unseen = Distinct-Unseen [] (n ∷ ns) v.distinct (none_seen (ids (n ∷ ns))) in
    let named = IsNamed-IsValidNode (ids (n ∷ ns)) (n ∷ ns) v.valid in
    ground (
      arith,
      v.has_name,
      normalize_nodes_complete [] (n ∷ ns) unseen named,
      check_nodes_complete (ids (n ∷ ns)) (n ∷ ns) v.valid,
    )

-- `Normalize` returns a definition exactly where the workflow has a name and at least one node, no two
-- nodes share an id, and each node has an id, an activity type and dependencies that are other nodes
-- of the workflow. What it returns is the same workflow with every node in its normal form.
pub normalize-IsValid :
    (def def' : WorkflowDefinition)
    → (normalize def ≡ ok def') ↔ (IsValid def × (def' ≡ normal_form def))
normalize-IsValid def def' = (
  normalize-ok def.name def.nodes def',
  λ h. normalize_complete def.name def.nodes h.0 ∙ ap ok (sym h.1),
)

normalize_deadline_idem : (d : ℤ) → normalize_deadline (normalize_deadline d) ≡ normalize_deadline d
unfolding normalize_deadline is_negative
normalize_deadline_idem (pos n) = refl
normalize_deadline_idem (negsuc n) = refl

retry_policy_idem :
    (p : Option RetryPolicy)
    → normalize_retry_policy (normalize_retry_policy p) ≡ normalize_retry_policy p
unfolding normalize_retry_policy is_negative
retry_policy_idem none = refl
retry_policy_idem (some p) = ground arith

-- The normal form of a node is its own normal form.
pub normalized_idem : (n : NodeDefinition) → normalized (normalized n) ≡ normalized n
unfolding normalized
normalized_idem n = ground (
  arith,
  normalize_deadline_idem n.checkpoint_timeout,
  normalize_deadline_idem n.execution_deadline,
  normalize_deadline_idem n.absolute_deadline,
  retry_policy_idem n.retry_policy,
)
