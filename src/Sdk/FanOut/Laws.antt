-- ===== src/Sdk/FanOut/Laws.antt =====
-- sdk/fanout.go: `ExpandFanOut` against a description of the nodes that it makes.
use grael.Prelude.{
  ℕ, suc, ◌+◌, ◌≡◌, refl, sym, ap, subst, ◌↔◌, ◌⊎◌, inl, inr, true, false, some, String, ◌==◌, List,
  [], ◌∷◌, arith, Option-cases,
}
use grael.Prelude.Lists.{contains, Distinct}
use grael.Result.{ok, and_then-eq-ok, if-eq-ok}
use grael.Runtime.{ActivityType, NodeDefinition}
use grael.Workflow.{ids}
use grael.Workflow.Loops.{Unseen, Unseen-Distinct, Distinct-Unseen, none_seen}
use grael.Sdk.FanOut.{FanOutItem, FanOutSpec, fan_out_node, item_id, expand_items, expand_fan_out}

ok_same : {xs ys : List NodeDefinition} → ok xs ≡ ok ys → xs ≡ ys
ok_same h = cc

module _ (numbered : String → ℕ → String) where
  -- The id of a node for an item at an index: the id of the item, or where it has none and there is a
  -- prefix, the prefix with the number of the item, which counts from 1.
  abbrev pub IsIdOf : (prefix : String) → ℕ → FanOutItem → (id : String) → Type 0
  IsIdOf prefix index item id =
      (((item.id == "") ≡ false) × (id ≡ item.id))
      ⊎ (((item.id == "") ≡ true) × ((prefix == "") ≡ false) × (id ≡ numbered prefix (index + 1)))

  -- The fields of a node for an item.
  pub record IsNodeOf (prefix : String) (activity : ActivityType) (index : ℕ) (item : FanOutItem)
      (n : NodeDefinition) : Type 0 where
    pub id_is : IsIdOf prefix index item n.id
    pub activity_is : n.activity_type ≡ activity
    pub input_is : n.input ≡ item.input
    pub depends_on_is : n.depends_on ≡ item.depends_on
    pub retry_policy_is : n.retry_policy ≡ item.retry_policy
    pub compensation_is : n.compensation_activity ≡ item.compensation_activity
    pub checkpoint_is : n.checkpoint_timeout ≡ item.checkpoint_timeout
    pub execution_is : n.execution_deadline ≡ item.execution_deadline
    pub absolute_is : n.absolute_deadline ≡ item.absolute_deadline

  -- One node for each item, in their order.
  abbrev pub Expands :
      (prefix : String) → ActivityType → ℕ → List FanOutItem → List NodeDefinition → Type 0
  Expands prefix activity index [] [] = Unit
  Expands prefix activity index [] (n ∷ ns) = ⊥
  Expands prefix activity index (item ∷ items) [] = ⊥
  Expands prefix activity index (item ∷ items) (n ∷ ns) =
      IsNodeOf prefix activity index item n × Expands prefix activity (suc index) items ns

  item_id-IsIdOf :
      (prefix : String) (index : ℕ) (item : FanOutItem) (id : String)
      → (item_id numbered prefix index item ≡ some id) ↔ IsIdOf prefix index item id
  unfolding item_id
  item_id-IsIdOf prefix index item id = ((λ h. ground arith), λ is. ground arith)

  fan_out_node-IsNodeOf :
      (prefix : String) (activity : ActivityType) (index : ℕ) (item : FanOutItem) (id : String)
      → item_id numbered prefix index item ≡ some id
      → IsNodeOf prefix activity index item (fan_out_node activity id item)
  fan_out_node-IsNodeOf prefix activity index item id found = record {
    id_is = (item_id-IsIdOf prefix index item id).0 found;
    activity_is = refl;
    input_is = refl;
    depends_on_is = refl;
    retry_policy_is = refl;
    compensation_is = refl;
    checkpoint_is = refl;
    execution_is = refl;
    absolute_is = refl;
  }

  IsNodeOf-fan_out_node :
      (prefix : String) (activity : ActivityType) (index : ℕ) (item : FanOutItem)
      (n : NodeDefinition)
      → IsNodeOf prefix activity index item n
      → n ≡ fan_out_node activity n.id item
  IsNodeOf-fan_out_node prefix activity index item n is = cc (
    is.activity_is, is.input_is, is.depends_on_is, is.retry_policy_is, is.compensation_is,
    is.checkpoint_is, is.execution_is, is.absolute_is,
  )

  expand_items-ok :
      (prefix : String) (activity : ActivityType) (seen : List String) (index : ℕ)
      (items : List FanOutItem) (nodes : List NodeDefinition)
      → expand_items numbered prefix activity seen index items ≡ ok nodes
      → Expands prefix activity index items nodes × Unseen seen nodes
  unfolding expand_items
  expand_items-ok prefix activity seen index [] [] h = (tt, tt)
  expand_items-ok prefix activity seen index [] (n ∷ ns) h = absurd (ground arith)
  expand_items-ok prefix activity seen index (item ∷ items) nodes h =
      elim (Option-cases (item_id numbered prefix index item)) [
        | inl missing ↦ absurd (ground (arith, (rw (missing, expand_items) at h)))
        | inr (id, found) ↦
            let (fresh, h₁) = if-eq-ok (contains seen id) _ _ (rw (found, expand_items) at h) in
            let (ns, rest, same) =
              and_then-eq-ok (expand_items numbered prefix activity (id ∷ seen) (suc index) items) _
                h₁ in
            let (expands, unseen) =
              expand_items-ok prefix activity (id ∷ seen) (suc index) items ns rest in
            let is : fan_out_node activity id item ∷ ns ≡ nodes = ok_same same in
            subst (λ ms. Expands prefix activity index (item ∷ items) ms × Unseen seen ms) is
              (
                (fan_out_node-IsNodeOf prefix activity index item id found, expands),
                (fresh, unseen),
              )
      ]

  expand_items_complete :
      (prefix : String) (activity : ActivityType) (seen : List String) (index : ℕ)
      (items : List FanOutItem) (nodes : List NodeDefinition)
      → Expands prefix activity index items nodes
      → Unseen seen nodes
      → expand_items numbered prefix activity seen index items ≡ ok nodes
  unfolding expand_items
  expand_items_complete prefix activity seen index [] [] expands unseen = refl
  expand_items_complete prefix activity seen index [] (n ∷ ns) expands unseen = absurd expands
  expand_items_complete prefix activity seen index (item ∷ items) [] expands unseen = absurd expands
  expand_items_complete prefix activity seen index (item ∷ items) (n ∷ ns) (made, expands) unseen =
      let found = (item_id-IsIdOf prefix index item n.id).1 made.id_is in
      let is = IsNodeOf-fan_out_node prefix activity index item n made in
      let rest =
        expand_items_complete prefix activity (n.id ∷ seen) (suc index) items ns expands unseen.1 in
      rw (found, expand_items, unseen.0, rest) (ap (λ m. ok (m ∷ ns)) (sym is))

  -- `ExpandFanOut` returns nodes exactly where the fan-out has an activity type and the nodes have distinct
  -- ids and are one node for each item, in their order, with that activity type and with each other field of
  -- the item: under the item's own id, or where it has none and there is a prefix, under the prefix with
  -- the number of the item, which counts from 1.
  pub expand_fan_out-Expands :
      (spec : FanOutSpec) (nodes : List NodeDefinition)
      → (expand_fan_out numbered spec ≡ ok nodes) ↔ (
          ((spec.activity_type == "") ≡ false)
          × Expands spec.id_prefix spec.activity_type 0 spec.items nodes
          × Distinct (ids nodes))
  unfolding expand_fan_out
  expand_fan_out-Expands spec nodes = (
    (λ h.
        let (named, h₁) = if-eq-ok (spec.activity_type == "") _ _ h in
        let (expands, unseen) =
          expand_items-ok spec.id_prefix spec.activity_type [] 0 spec.items nodes h₁ in
        (named, expands, (Unseen-Distinct [] nodes unseen).0)),
    λ (named, expands, distinct).
        let unseen = Distinct-Unseen [] nodes distinct (none_seen (ids nodes)) in
        rw named (
          expand_items_complete spec.id_prefix spec.activity_type [] 0 spec.items nodes expands
            unseen),
  )
