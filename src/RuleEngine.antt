-- ===== src/RuleEngine.antt =====
-- app/services/rule_engine_v2.py: the detection rules of the database over the stream of events. A time
-- is a number of microseconds since the epoch. What the engine reads and writes of the database is the
-- record `Db`; `Services` is what it asks of the security lists.
pub mod Index
pub mod Bindings
pub mod Window
pub mod Context
pub mod Turn
pub mod OnEvent
use siem_sentinel_xv.Base.{ℕ, ℤ, Bool, Option, List, String}
use siem_sentinel_xv.Value.{Value, Fields}
use siem_sentinel_xv.Expr.{Condition, BinOp}
use siem_sentinel_xv.Detection.Clause.{Lists}

-- app/models/rule_list_binding.py
pub record Binding : Type 0 where
  pub id : ℕ
  pub list_name : String
  pub role : String
  pub match_field : String
  pub operator : String
  pub action_config : Fields
  pub enabled : Bool

-- app/models/rule_v2.py, the columns that the engine reads
pub record Rule : Type 0 where
  pub id : ℕ
  pub name : String
  pub enabled : Bool
  pub source : String
  pub event_type : String
  pub severity : ℤ
  pub clause : Value
  pub group_by : List String
  pub window_seconds : ℕ
  pub let_block : Fields
  pub condition : Condition
  pub cooldown_seconds : ℕ
  pub evidence : Fields
  pub emit : Fields
  pub detection_bindings_operator : String
  pub legacy_list_policy : Bool
  pub bindings : List Binding

-- `_BufItem`
pub record BufItem : Type 0 where
  pub ts : ℕ
  pub event_id : Value
  pub raw_id : Value
  pub server : Option String
  pub path : Option String
  pub ip_client : Option String
  pub ip_subnet24 : Option String
  pub username : Option String
  pub action : Option String

-- A rule and a group: the key of a window and of a state.
pub record GroupKey : Type 0 where
  pub rule_id : ℕ
  pub group_key : String

-- app/models/rule_state_v2.py; `condition_error` is what the engine writes into `extra`
pub record RuleState : Type 0 where
  pub last_seen_at : Option ℕ
  pub last_alert_at : Option ℕ
  pub condition_error : Option String

-- A line of SecurityListIgnoreLog.
pub record Ignored : Type 0 where
  pub tenant_id : String
  pub ignore_reason : String
  pub value_matched : String
  pub rule_code : String
  pub source : String
  pub server : Option String
  pub ip_client : Option String

pub record Metrics : Type 0 where
  pub count : ℕ
  pub unique_paths : ℕ
  pub unique_ips : ℕ
  pub unique_users : ℕ
  pub unique_servers : ℕ
  pub unique_subnets24 : ℕ
  pub top_subnet24 : Option String
  pub top_subnet24_hits : ℕ
  pub fail_count : ℕ
  pub success_count : ℕ

-- An entry of `severity_adjustments`.
pub record Adjustment : Type 0 where
  pub binding_id : ℕ
  pub list_name : String
  pub original : ℤ
  pub adjustment : ℤ
  pub result : ℤ

-- app/models/alert.py, as the engine fills it; the raw samples are left out
pub record Alert : Type 0 where
  pub rule_id : ℕ
  pub rule_name : String
  pub severity : ℤ
  pub server : Option String
  pub source : String
  pub event_type : String
  pub group_key : String
  pub s3_key : Option String
  pub triggered_at : ℕ
  pub metrics : Metrics
  pub window_seconds : ℕ
  pub trusted : Bool
  pub event_ids : List Value
  pub group_by : List String
  pub group_values : Fields
  pub context : Fields
  pub severity_adjustments : List Adjustment

pub record Db : Type 0 where
  pub rules : List Rule
  pub states : GroupKey → Option RuleState
  pub alerts : List Alert
  pub ignored : List Ignored

-- `is_trusted_event_for_rule` of the list service, for the event at hand: the reason and the value that
-- matched, by the rule's `emit` and its code.
pub record Services : Type 0 where
  pub lists : Lists
  pub trusted : Fields → String → Option (String × String)
  pub arithmetic : BinOp → Value → Value → Option Value

-- `_index`: the rules under each source and event type.
abbrev pub Index : Type 0
Index = List ((String × String) × List Rule)

abbrev pub Windows : Type 0
Windows = GroupKey → List BufItem

pub record Engine : Type 0 where
  pub index : Index
  pub windows : Windows
  pub last_reload_at : Option ℕ
  pub reload_ttl_seconds : ℕ
