-- ===== src/Server/Accepted.antt =====
-- internal/grpcserver/server.go: which definitions of a message the server takes.
use grael.Prelude.{
  ◌≡◌, refl, ap, ◌∙◌, sym, ◌↔◌, arith, Bool, true, Option, none, some, List, [], ◌∷◌,
}
use grael.Prelude.Lists.{All}
use grael.Prelude.Int.{pos}
use grael.Result.{Error, Result, ok, err, and_then, and_then-eq-ok, in_node}
use grael.Runtime.{Duration, Values, NodeDefinition, WorkflowDefinition, RetryPolicy}
use grael.Server.{
  Struct, Protobuf, ProtoDuration, ProtoRetryPolicy, ProtoNodeDefinition, ProtoWorkflowDefinition,
}
use grael.Server.Convert.{
  wrap, get_id, duration_from_proto, duration_or_error, struct_to_map, retry_policy_from_proto,
  node_definition_from_proto, nodes_from_proto, workflow_definition_from_proto,
}

wrap-eq-ok : {A : Type 0} (f : Error → Error) (r : Result A) {a : A} → wrap f r ≡ ok a → r ≡ ok a
wrap-eq-ok f (ok a) h = h
wrap-eq-ok f (err e) h = absurd (ground arith)

-- A round of the loop over the nodes that succeeds has no error in it, nor in the rounds after it.
both-ok :
    {A : Type 0} (first : Result A) (others : Result (List A)) {all : List A}
    → and_then first (λ a. and_then others λ as'. ok (a ∷ as')) ≡ ok all
    → ((a : A) × (first ≡ ok a)) × ((as' : List A) × (others ≡ ok as'))
both-ok (ok a) (ok as') h = ((a, refl), (as', refl))
both-ok (ok a) (err e) h = absurd (ground arith)
both-ok (err e) others h = absurd (ground arith)

module _ (proto : Protobuf) where
  -- A duration that is missing or valid.
  unfoldable pub is_duration : Option ProtoDuration → Bool
  is_duration none = true
  is_duration (some d) = proto.check_valid d

  -- A node that is there, and whose three durations are missing or valid.
  abbrev pub IsNode : Option ProtoNodeDefinition → Type 0
  IsNode none = ⊥
  IsNode (some n) =
      (is_duration n.checkpoint_timeout ≡ true)
      × (is_duration n.execution_deadline ≡ true)
      × (is_duration n.absolute_deadline ≡ true)

  -- What the parts of a message stand for, 0 and nothing where they are missing.
  unfoldable pub duration_of : Option ProtoDuration → Duration
  duration_of none = pos 0
  duration_of (some d) = proto.as_duration d

  unfoldable pub values_of : Option Struct → Values
  values_of none = []
  values_of (some s) = proto.as_map s

  unfoldable pub policy_of : Option ProtoRetryPolicy → Option RetryPolicy
  unfolding duration_of
  policy_of none = none
  policy_of (some p) =
      some (record { max_attempts = p.max_attempts; backoff = duration_of p.backoff })

  unfoldable pub node_of_message : ProtoNodeDefinition → NodeDefinition
  unfolding duration_of values_of policy_of
  node_of_message n = record {
    id = n.id;
    activity_type = n.activity_type;
    input = values_of n.input;
    depends_on = n.depends_on;
    retry_policy = policy_of n.retry_policy;
    compensation_activity = n.compensation_activity;
    checkpoint_timeout = duration_of n.checkpoint_timeout;
    execution_deadline = duration_of n.execution_deadline;
    absolute_deadline = duration_of n.absolute_deadline;
  }

  unfoldable pub nodes_of_messages : List (Option ProtoNodeDefinition) → List NodeDefinition
  unfolding node_of_message
  nodes_of_messages [] = []
  nodes_of_messages (none ∷ nodes) = nodes_of_messages nodes
  nodes_of_messages (some n ∷ nodes) = node_of_message n ∷ nodes_of_messages nodes

  duration_or_error-valid :
      (d : Option ProtoDuration)
      → is_duration d ≡ true
      → duration_or_error proto d ≡ ok (duration_of d)
  unfolding is_duration duration_or_error duration_from_proto duration_of
  duration_or_error-valid none valid = refl
  duration_or_error-valid (some d) valid = rw (valid) refl

  duration_or_error-ok :
      (f : Error → Error) (d : Option ProtoDuration) {t : Duration}
      → wrap f (duration_or_error proto d) ≡ ok t
      → is_duration d ≡ true
  unfolding is_duration duration_or_error duration_from_proto
  duration_or_error-ok f none h = refl
  duration_or_error-ok f (some d) h = ground arith

  struct_to_map-values : (s : Option Struct) → struct_to_map proto s ≡ ok (values_of s)
  unfolding struct_to_map values_of
  struct_to_map-values none = refl
  struct_to_map-values (some s) = refl

  duration_from_proto-value :
      (d : Option ProtoDuration) → (duration_from_proto proto d).0 ≡ duration_of d
  unfolding duration_from_proto duration_of
  duration_from_proto-value none = refl
  duration_from_proto-value (some d) = refl

  retry_policy_from_proto-policy :
      (p : Option ProtoRetryPolicy) → retry_policy_from_proto proto p ≡ policy_of p
  unfolding retry_policy_from_proto policy_of duration_from_proto duration_of
  retry_policy_from_proto-policy none = refl
  retry_policy_from_proto-policy (some p) = rw (duration_from_proto-value p.backoff) refl

  node_definition_from_proto-valid :
      (n : ProtoNodeDefinition)
      → IsNode (some n)
      → node_definition_from_proto proto (some n) ≡ ok (node_of_message n)
  unfolding node_definition_from_proto node_of_message
  node_definition_from_proto-valid n (checkpoint, execution, absolute) =
      rw
        (
          struct_to_map-values n.input,
          duration_or_error-valid n.checkpoint_timeout checkpoint,
          duration_or_error-valid n.execution_deadline execution,
          duration_or_error-valid n.absolute_deadline absolute,
          retry_policy_from_proto-policy n.retry_policy,
        )
        refl

  node_definition_from_proto-ok :
      (node : Option ProtoNodeDefinition) (f : Error → Error) {def : NodeDefinition}
      → wrap f (node_definition_from_proto proto node) ≡ ok def
      → IsNode node
  unfolding node_definition_from_proto is_duration duration_or_error duration_from_proto
  node_definition_from_proto-ok none f h = absurd (ground arith)
  node_definition_from_proto-ok (some n) f h = (ground arith, ground arith, ground arith)

  nodes_from_proto-valid :
      (in_context : Option ProtoNodeDefinition → Error → Error)
      (nodes : List (Option ProtoNodeDefinition))
      → All IsNode nodes
      → nodes_from_proto proto in_context nodes ≡ ok (nodes_of_messages nodes)
  unfolding nodes_from_proto nodes_of_messages
  nodes_from_proto-valid in_context [] all = refl
  nodes_from_proto-valid in_context (none ∷ nodes) (nothing, all) = absurd nothing
  nodes_from_proto-valid in_context (some n ∷ nodes) (valid, all) =
      rw (node_definition_from_proto-valid n valid, nodes_from_proto-valid in_context nodes all)
        refl

  nodes_from_proto-ok :
      (in_context : Option ProtoNodeDefinition → Error → Error)
      (nodes : List (Option ProtoNodeDefinition)) {defs : List NodeDefinition}
      → nodes_from_proto proto in_context nodes ≡ ok defs
      → All IsNode nodes
  unfolding nodes_from_proto
  nodes_from_proto-ok in_context [] h = tt
  nodes_from_proto-ok in_context (node ∷ nodes) h =
      let (first, others) =
        both-ok (wrap (in_context node) (node_definition_from_proto proto node))
          (nodes_from_proto proto in_context nodes) h in
      (
        node_definition_from_proto-ok node (in_context node) first.1,
        nodes_from_proto-ok in_context nodes others.1,
      )

  -- The server takes the definition of a workflow from a message exactly where each node of it is
  -- there and has durations that are missing or valid, the backoff of its retry policy aside, and the
  -- definition has the message's name and, in their order, for each node the fields of its message,
  -- with 0 for a duration that is missing and no values for an input that is missing.
  pub workflow_definition_from_proto-IsNode :
      (message : ProtoWorkflowDefinition) (def : WorkflowDefinition)
      → (workflow_definition_from_proto proto (some message) ≡ ok def) ↔ (
          All IsNode message.nodes
          × (def ≡ record { name = message.name; nodes = nodes_of_messages message.nodes }))
  unfolding workflow_definition_from_proto
  workflow_definition_from_proto-IsNode message def =
      let taken : All IsNode message.nodes
          → workflow_definition_from_proto proto (some message)
            ≡ ok (record { name = message.name; nodes = nodes_of_messages message.nodes }) =
        λ all. rw (nodes_from_proto-valid (λ node. in_node (get_id node)) message.nodes all) refl in
      (
        λ h.
            let (_, mapped, _) =
              and_then-eq-ok (nodes_from_proto proto (λ node. in_node (get_id node)) message.nodes)
                (λ nodes. ok (record { name = message.name; nodes = nodes })) h in
            let all = nodes_from_proto-ok (λ node. in_node (get_id node)) message.nodes mapped in
            (all, ground (arith, sym h ∙ taken all)),
        λ (all, same). taken all ∙ ap ok (sym same),
      )
