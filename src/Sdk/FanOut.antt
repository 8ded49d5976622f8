-- ===== src/Sdk/FanOut.antt =====
-- sdk/fanout.go: `ExpandFanOut`, the definitions of the nodes that a fan-out spawns.
pub mod Laws
use grael.Prelude.{ℕ, suc, ◌+◌, String, ◌==◌, Option, none, some, List, [], ◌∷◌, if◌then◌else◌}
use grael.Prelude.Lists.{contains}
use grael.Result.{
  Result, ok, err, and_then, fan_out_activity_required, fan_out_id_required, fan_out_duplicate,
}
use grael.Runtime.{Values, ActivityType, Duration, RetryPolicy, NodeDefinition}

pub record FanOutItem : Type 0 where
  pub id : String
  pub input : Values
  pub depends_on : List String
  pub retry_policy : Option RetryPolicy
  pub compensation_activity : ActivityType
  pub checkpoint_timeout : Duration
  pub execution_deadline : Duration
  pub absolute_deadline : Duration

pub record FanOutSpec : Type 0 where
  pub id_prefix : String
  pub activity_type : ActivityType
  pub items : List FanOutItem

abbrev pub fan_out_node : ActivityType → String → FanOutItem → NodeDefinition
fan_out_node activity id item = record {
  id = id;
  activity_type = activity;
  input = item.input;
  depends_on = item.depends_on;
  retry_policy = item.retry_policy;
  compensation_activity = item.compensation_activity;
  checkpoint_timeout = item.checkpoint_timeout;
  execution_deadline = item.execution_deadline;
  absolute_deadline = item.absolute_deadline;
}

-- `numbered` is `fmt.Sprintf("%s-%d", ·, ·)`.
module _ (numbered : String → ℕ → String) where
  -- The id of an item, which may be missing.
  unfoldable pub item_id : (prefix : String) → ℕ → FanOutItem → Option String
  item_id prefix index item =
      if item.id == ""
      then (if prefix == "" then none else some (numbered prefix (index + 1)))
      else some item.id

  -- The loop over the items: `seen` are the ids of the ones before.
  unfoldable pub expand_items :
      (prefix : String)
      → ActivityType
      → (seen : List String) → ℕ
      → List FanOutItem
      → Result (List NodeDefinition)
  unfolding item_id contains
  expand_items prefix activity seen index [] = ok []
  expand_items prefix activity seen index (item ∷ items) = elim (item_id prefix index item) [
    | none ↦ err (fan_out_id_required index)
    | some id ↦
        let rest = expand_items prefix activity (id ∷ seen) (suc index) items in
        if contains seen id
        then err (fan_out_duplicate id)
        else and_then rest (λ nodes. ok (fan_out_node activity id item ∷ nodes))
  ]

  -- `ExpandFanOut`
  unfoldable pub expand_fan_out : FanOutSpec → Result (List NodeDefinition)
  unfolding expand_items
  expand_fan_out spec =
      if spec.activity_type == ""
      then err fan_out_activity_required
      else expand_items spec.id_prefix spec.activity_type [] 0 spec.items
