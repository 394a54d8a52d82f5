-- ===== src/IncidentEngine.antt =====
-- The rows of the incident engine, app/services/incident_engine.py: the models incident_rule.py,
-- incident_rule_state.py, incident.py, incident_alert.py and alert.py of app/models. A time is a number
-- of microseconds.
pub mod Match
pub mod Buckets
pub mod Record
pub mod Turn
pub mod Run
use siem_sentinel_xv.Base.{ℕ, ℤ, Bool, Option, List, String}
use siem_sentinel_xv.Value.{Value, Fields}
use siem_sentinel_xv.Expr.{BinOp, Condition}

-- IncidentRule; the lists of a rule are JSON.
pub record IncidentRule : Type 0 where
  pub id : ℕ
  pub code : String
  pub name : String
  pub enabled : Bool
  pub scope : String
  pub severity_base : ℤ
  pub score_bonus : ℤ
  pub window_seconds : ℕ
  pub cooldown_seconds : ℕ
  pub primary_entity_type : String
  pub primary_entity_field : String
  pub match : Value
  pub group_by : Value
  pub condition : Condition

-- What the engine reads of an alert.
pub record AlertRow : Type 0 where
  pub id : ℕ
  pub rule_name : String
  pub severity : ℤ
  pub server : Option String
  pub triggered_at : ℕ
  pub evidence : Value

-- A rule and a group of it.
pub record Group : Type 0 where
  pub rule_id : ℕ
  pub group_key : String

-- IncidentRuleState; `condition_error` is what the engine writes into `extra`.
pub record IncidentState : Type 0 where
  pub last_seen_at : Option ℕ
  pub last_incident_at : Option ℕ
  pub condition_error : Option String

-- Incident; the metrics and the evidence are the fields that the engine writes into them.
pub record Incident : Type 0 where
  pub id : ℕ
  pub code : String
  pub name : String
  pub scope : String
  pub status : String
  pub severity_base : ℤ
  pub severity_current : ℤ
  pub score : ℤ
  pub server : Option String
  pub primary_entity_type : String
  pub primary_entity_key : String
  pub count : ℕ
  pub unique_alerts : ℕ
  pub unique_servers : ℕ
  pub max_severity : ℤ
  pub sum_severity : ℤ
  pub window_seconds : ℕ
  pub group_key : String
  pub rule_id : ℕ
  pub alert_ids : List ℕ
  pub group_by : List String
  pub group_values : Fields
  pub window_start : ℕ
  pub window_end : ℕ
  pub opened_at : ℕ
  pub last_activity_at : ℕ

-- IncidentAlert, whose role is always `supporting`.
pub record Link : Type 0 where
  pub incident_id : ℕ
  pub alert_id : ℕ

-- The tables; `next_id` is the id of the next incident.
pub record IncidentDb : Type 0 where
  pub rules : List IncidentRule
  pub alerts : List AlertRow
  pub states : Group → Option IncidentState
  pub incidents : List Incident
  pub links : List Link
  pub next_id : ℕ

-- The arithmetic of conditions.
abbrev pub Arithmetic : Type 0
Arithmetic = BinOp → Value → Value → Option Value
