-- ===== src/IncidentEngine/Record.antt =====
-- What `IncidentEngine.run` of app/services/incident_engine.py writes for a group whose condition
-- holds: the incident, new or updated, and its links to the alerts.
pub mod Single
pub mod Links
use siem_sentinel_xv.Base.{
  ℕ, suc, ◌==◌, ltb, max, ℤ, pos, eq_ℤ, max_ℤ, min_ℤ, ◌+ℤ◌, Bool, true, false, not, ◌&&◌, ◌||◌,
  Option, none, some, List, String, [], ◌∷◌, ◌++◌, map, mem, any, ◌+◌, length, keep, ◌=ₛ◌,
  if◌then◌else◌, leb,
}
use siem_sentinel_xv.Text.{strip}
use siem_sentinel_xv.Value.{Fields, as_str, get_or_null}
use siem_sentinel_xv.IncidentEngine.{IncidentRule, AlertRow, Incident, IncidentDb, Link}
use siem_sentinel_xv.IncidentEngine.Match.{group_by_of, or_dash, text_or_empty}
use siem_sentinel_xv.IncidentEngine.Buckets.{incident_window}

-- `_Agg`
pub record Aggregate : Type 0 where
  pub count : ℕ
  pub unique_alerts : ℕ
  pub unique_servers : ℕ
  pub max_severity : ℤ
  pub sum_severity : ℤ
  pub first_ts : ℕ
  pub last_ts : ℕ
  pub alert_ids : List ℕ

-- The size of a set of texts.
unfoldable pub count_distinct : List String → ℕ
count_distinct [] = 0
count_distinct (s ∷ ss) = let rest = count_distinct ss in if mem s ss then rest else suc rest

unfoldable pub highest : List AlertRow → ℤ → ℤ
highest [] n = n
highest (a ∷ more) n = highest more (max_ℤ n a.severity)

unfoldable pub total : List AlertRow → ℤ → ℤ
total [] n = n
total (a ∷ more) n = total more (n +ℤ a.severity)

abbrev pub first_time : ℕ → List AlertRow → ℕ
first_time now [] = now
first_time now (a ∷ more) = a.triggered_at

abbrev pub last_time : ℕ → List AlertRow → ℕ
last_time now [] = now
last_time now (a ∷ more) = last_time a.triggered_at more

unfoldable pub aggregate : ℕ → List AlertRow → Aggregate
aggregate now alerts = record {
  count = length alerts;
  unique_alerts = count_distinct (map (λ a. or_dash (strip a.rule_name)) alerts);
  unique_servers = count_distinct (map (λ a. or_dash (strip (text_or_empty a.server))) alerts);
  max_severity = highest alerts (pos 0);
  sum_severity = total alerts (pos 0);
  first_ts = first_time now alerts;
  last_ts = last_time now alerts;
  alert_ids = map (λ a. a.id) alerts;
}

-- max(0, min(100, n))
abbrev pub clamp : ℤ → ℤ
clamp n = max_ℤ (pos 0) (min_ℤ (pos 100) n)

-- `int(rule.severity_base or 10)`
abbrev pub base_of : IncidentRule → ℤ
base_of rule = if eq_ℤ rule.severity_base (pos 0) then pos 10 else rule.severity_base

unfoldable pub score_of : IncidentRule → ℤ
score_of rule = clamp (base_of rule +ℤ rule.score_bonus)

abbrev pub is_open : String → Bool
is_open status = mem status ("open" ∷ "triage" ∷ "contained" ∷ [])

-- The incident is open and of the rule and the entity.
unfoldable pub is_for : IncidentRule → String → Incident → Bool
is_for rule entity inc =
    is_open inc.status
    && inc.code =ₛ rule.code
    && inc.primary_entity_type =ₛ rule.primary_entity_type
    && inc.primary_entity_key =ₛ entity

abbrev pub later : Incident → Option Incident → Option Incident
later inc none = some inc
later inc (some other) = if ltb inc.opened_at other.opened_at then some other else some inc

-- order_by(Incident.opened_at.desc()).first(), over the incidents that the query is for
unfoldable pub latest : (Incident → Bool) → List Incident → Option Incident
latest p [] = none
latest p (inc ∷ incs) = let rest = latest p incs in if p inc then later inc rest else rest

abbrev pub text_or_none : String → Option String
text_or_none s = if s =ₛ "" then none else some s

unfoldable pub new_incident : IncidentRule → String → Fields → String → Aggregate → ℕ → Incident
new_incident rule group gv entity agg id = record {
  id = id;
  code = rule.code;
  name = rule.name;
  scope = if rule.scope =ₛ "" then "local" else rule.scope;
  status = "open";
  severity_base = base_of rule;
  severity_current = base_of rule;
  score = score_of rule;
  server = text_or_none (strip (as_str (get_or_null gv "server")));
  primary_entity_type = rule.primary_entity_type;
  primary_entity_key = entity;
  count = agg.count;
  unique_alerts = agg.unique_alerts;
  unique_servers = agg.unique_servers;
  max_severity = agg.max_severity;
  sum_severity = agg.sum_severity;
  window_seconds = incident_window rule;
  group_key = group;
  rule_id = rule.id;
  alert_ids = agg.alert_ids;
  group_by = group_by_of rule;
  group_values = gv;
  window_start = agg.first_ts;
  window_end = agg.last_ts;
  opened_at = agg.first_ts;
  last_activity_at = agg.last_ts;
}

-- What is saved of an update. The ids in the evidence and the numbers in the metrics are changed in place,
-- in the dicts of the row, which a plain JSONB column does not see: the row keeps those of its creation.
unfoldable pub update_incident : IncidentRule → Aggregate → Incident → Incident
update_incident rule agg inc = record inc {
  last_activity_at = max inc.last_activity_at agg.last_ts;
  severity_current = max_ℤ inc.severity_current (base_of rule);
  score = max_ℤ inc.score (score_of rule);
}

abbrev pub same_link : ℕ → ℕ → Link → Bool
same_link inc a l = l.incident_id == inc && l.alert_id == a

-- The alerts that the incident has no link to yet, in the links as they were before.
unfoldable pub new_links : ℕ → List ℕ → List Link → List Link
new_links inc [] links = []
new_links inc (a ∷ more) links =
    let rest = new_links inc more links in
    if any (same_link inc a) links then rest else record { incident_id = inc; alert_id = a } ∷ rest

-- The incident of the group is made, or updated; the alerts are linked to it.
unfoldable pub write_incident :
    IncidentRule
    → String
    → Fields
    → String
    → Aggregate
    → IncidentDb
    → Option Incident
    → IncidentDb × Incident
write_incident rule group gv entity agg db none =
    let inc = new_incident rule group gv entity agg db.next_id in
    (
      record db {
        incidents = db.incidents ++ inc ∷ [];
        links = db.links ++ new_links inc.id agg.alert_ids db.links;
        next_id = suc db.next_id;
      },
      inc,
    )
write_incident rule group gv entity agg db (some old) =
    let inc = update_incident rule agg old in
    (
      record db {
        incidents =
            map (λ i. if i.id == old.id then update_incident rule agg i else i) db.incidents;
        links = db.links ++ new_links inc.id agg.alert_ids db.links;
      },
      inc,
    )
