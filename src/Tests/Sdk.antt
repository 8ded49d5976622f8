-- ===== src/Tests/Sdk.antt =====
-- A fan-out over two items, of which the second has no id.
use grael.Prelude.{
  ℕ, ◌≡◌, refl, ◌↔◌, String, nat_eq, if◌then◌else◌, false, some, none, List, [], ◌∷◌, ◌==◌,
}
use grael.Prelude.Lists.{Distinct}
use grael.Prelude.Int.{pos}
use grael.Result.{ok}
use grael.Runtime.{NodeDefinition}
use grael.Workflow.{ids}
use grael.Sdk.FanOut.{FanOutItem, FanOutSpec, fan_out_node, expand_fan_out}
use grael.Sdk.FanOut.Laws.{Expands, expand_fan_out-Expands}

abbrev numbered : String → ℕ → String
numbered prefix index = if nat_eq index 2 then "item-2" else "item-n"

abbrev item : String → FanOutItem
item id = record {
  id = id;
  input = [];
  depends_on = [];
  retry_policy = none;
  compensation_activity = "";
  checkpoint_timeout = pos 0;
  execution_deadline = pos 0;
  absolute_deadline = pos 0;
}

-- The second item has values in its fields.
abbrev second : FanOutItem
second = record (item "") {
  depends_on = "first" ∷ [];
  retry_policy = some (record { max_attempts = pos 3; backoff = pos 5 });
  compensation_activity = "undo";
}

abbrev two_items : FanOutSpec
two_items = record {
  id_prefix = "item";
  activity_type = "work";
  items = item "first" ∷ second ∷ [];
}

abbrev expanded : List NodeDefinition
expanded = fan_out_node "work" "first" (item "first") ∷ fan_out_node "work" "item-2" second ∷ []

expand_two : expand_fan_out numbered two_items ≡ ok expanded
unfolding expand_fan_out
expand_two = refl

expand_fan_out-Expands_example : (expand_fan_out numbered two_items ≡ ok expanded) ↔ (
    (("work" == "") ≡ false)
    × Expands numbered "item" "work" 0 (item "first" ∷ second ∷ []) expanded
    × Distinct (ids expanded))
expand_fan_out-Expands_example = expand_fan_out-Expands numbered two_items expanded
