-- ===== src/IncidentEngine/Turn.antt =====
-- What `IncidentEngine.run` of app/services/incident_engine.py does with one group of one rule: the
-- cooldown, the condition, the incident.
pub mod Cooldown
use siem_sentinel_xv.Base.{
  ℕ, ◌+◌, ◌*◌, ◌==◌, ltb, pos, Bool, true, false, not, ◌&&◌, Option, none, some, List, String, [],
  ◌∷◌, ◌=ₛ◌, if◌then◌else◌,
}
use siem_sentinel_xv.Text.{strip}
use siem_sentinel_xv.Value.{Value, null, int, str, Fields, end, field, as_str, get_or_null}
use siem_sentinel_xv.Expr.{safe_eval}
use siem_sentinel_xv.IncidentEngine.{
  IncidentRule, Incident, IncidentDb, IncidentState, Group, Arithmetic,
}
use siem_sentinel_xv.IncidentEngine.Buckets.{GroupBucket, incident_window}
use siem_sentinel_xv.IncidentEngine.Record.{Aggregate, aggregate, latest, is_for, write_incident}

abbrev pub same_group : Group → Group → Bool
same_group k j = k.rule_id == j.rule_id && k.group_key =ₛ j.group_key

unfoldable pub set_incident_state : Group → IncidentState → IncidentDb → IncidentDb
set_incident_state k st db = record db {
  states = λ j. if same_group k j then some st else db.states j;
}

abbrev pub or_new : Option IncidentState → IncidentState
or_new none = record { last_seen_at = none; last_incident_at = none; condition_error = none }
or_new (some st) = st

-- The state of the group, made where there is none, and seen now.
abbrev pub seen_now : ℕ → Group → IncidentDb → IncidentState
seen_now now k db = record (or_new (db.states k)) { last_seen_at = some now }

-- `int(rule.cooldown_seconds or 3600)`
abbrev pub cooldown_of : IncidentRule → ℕ
cooldown_of rule = if rule.cooldown_seconds == 0 then 3600 else rule.cooldown_seconds

unfoldable pub rests : IncidentRule → ℕ → Option ℕ → Bool
rests rule now none = false
rests rule now (some last) = ltb 0 (cooldown_of rule) && ltb now (last + cooldown_of rule * 1000000)

-- The value of the rule's primary field, null where there is none.
unfoldable pub primary_value : IncidentRule → Fields → Value
primary_value rule gv =
    let f = strip rule.primary_entity_field in if f =ₛ "" then null else get_or_null gv f

-- The names of a condition.
unfoldable pub incident_context : IncidentRule → GroupBucket → Aggregate → Fields
incident_context rule b agg = field "count" (int (pos agg.count)) (
    field "unique_alerts" (int (pos agg.unique_alerts)) (
      field "unique_servers" (int (pos agg.unique_servers)) (
        field "max_severity" (int agg.max_severity) (
          field "sum_severity" (int agg.sum_severity) (
            field "window_seconds" (int (pos (incident_window rule))) (
              field "group_key" (str b.key) (
                field "primary" (primary_value rule b.group_values)
                  (field "server" (get_or_null b.group_values "server") end))))))))

abbrev pub entity_of : IncidentRule → GroupBucket → String
entity_of rule b = strip (as_str (primary_value rule b.group_values))

abbrev pub group_of : IncidentRule → GroupBucket → Group
group_of rule b = record { rule_id = rule.id; group_key = b.key }

-- The incident of a group whose condition holds; with no primary entity there is none.
unfoldable pub enrol :
    ℕ → IncidentRule → GroupBucket → String → IncidentDb → IncidentDb × Option Incident
enrol now rule b entity db =
    let k = group_of rule b in
    let (db', inc) =
      write_incident rule b.key b.group_values entity (aggregate now b.alerts) db
        (latest (is_for rule entity) db.incidents) in
    if entity =ₛ "" then (set_incident_state k (seen_now now k db) db, none) else (
      set_incident_state k (record (seen_now now k db) { last_incident_at = some now }) db',
      some inc,
    )

-- What comes of the condition; an exception of it is noted in the state.
unfoldable pub on_condition :
    ℕ → IncidentRule → GroupBucket → IncidentDb → Option Bool → IncidentDb × Option Incident
on_condition now rule b db none =
    let k = group_of rule b in
    (
      set_incident_state k
          (record (seen_now now k db) { condition_error = some rule.condition.text }) db,
      none,
    )
on_condition now rule b db (some false) =
    let k = group_of rule b in (set_incident_state k (seen_now now k db) db, none)
on_condition now rule b db (some true) = enrol now rule b (entity_of rule b) db

unfoldable pub group_turn :
    Arithmetic → ℕ → IncidentRule → GroupBucket → IncidentDb → IncidentDb × Option Incident
group_turn arithmetic now rule b db =
    let k = group_of rule b in
    if rests rule now (or_new (db.states k)).last_incident_at
    then (set_incident_state k (seen_now now k db) db, none)
    else on_condition now rule b db
        (safe_eval arithmetic rule.condition (incident_context rule b (aggregate now b.alerts)))
