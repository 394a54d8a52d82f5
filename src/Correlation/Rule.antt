-- ===== src/Correlation/Rule.antt =====
-- app/schemas/detection_rule.py. `risk_score`, a float, is counted in millionths.
use siem_sentinel_xv.Base.{ℕ, ℤ, Bool, true, false, not, ◌&&◌, List, String, if◌then◌else◌, map}
use siem_sentinel_xv.Text.{split, join, lower, contains, starts_with, drop_chars}
use siem_sentinel_xv.Value.{
  Value, str, list, Fields, end, field, truthy, to_str, value_eq, value_in, items, ◌or◌,
}
use siem_sentinel_xv.Detection.Fields.{follow}

pub record DetectionRule : Type 0 where
  pub id : String
  pub tenant_id : String
  pub name : String
  pub description : String
  pub category : String
  pub severity : ℕ
  pub risk_score : ℤ
  pub event_conditions : Fields
  pub group_by : List String
  pub threshold : ℕ
  pub time_window_seconds : ℕ
  pub enabled : Bool

-- `_extract_nested_value`
unfoldable pub extract_nested_value : Value → String → Value
unfolding follow split
extract_nested_value doc path = follow doc (split "." path)

-- One condition: a list holds the value, `contains:` looks for a part of it, and anything else is
-- compared.
unfoldable pub meets : Value → Value → Bool
unfolding value_in value_eq items to_str lower contains starts_with drop_chars
meets val (list vs) = value_in val (items vs)
meets val (str s) =
    if starts_with "contains:" s
    then truthy val && contains (lower (drop_chars 9 s)) (lower (to_str val))
    else value_eq val (str s)
meets val expected = value_eq val expected

unfoldable pub all_met : Value → Fields → Bool
unfolding extract_nested_value meets
all_met doc end = true
all_met doc (field path expected fs) =
    meets (extract_nested_value doc path) expected && all_met doc fs

-- `matches_event`
unfoldable pub matches_event : DetectionRule → Value → Bool
unfolding all_met
matches_event rule doc = if not rule.enabled then false else all_met doc rule.event_conditions

-- `get_group_key`
unfoldable pub get_group_key : DetectionRule → Value → String
unfolding extract_nested_value join to_str
get_group_key rule doc =
    join ":" (map (λ f. to_str (extract_nested_value doc f or str "unknown")) rule.group_by)
