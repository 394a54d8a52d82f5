-- ===== src/IncidentEngine/Run.antt =====
-- `IncidentEngine.reload_rules` and `IncidentEngine.run` of app/services/incident_engine.py.
pub mod Growth
pub mod Laws
pub mod Links
pub mod Rows
use siem_sentinel_xv.Base.{
  ℕ, leb, Bool, true, false, Option, none, some, List, String, [], ◌∷◌, ◌++◌, keep, if◌then◌else◌,
}
use siem_sentinel_xv.IncidentEngine.{IncidentRule, AlertRow, Incident, IncidentDb, Arithmetic}
use siem_sentinel_xv.IncidentEngine.Match.{group_by_of}
use siem_sentinel_xv.IncidentEngine.Buckets.{GroupBucket, window_alerts, matched, buckets_from}
use siem_sentinel_xv.IncidentEngine.Turn.{group_turn}

unfoldable pub insert_rule : IncidentRule → List IncidentRule → List IncidentRule
insert_rule r [] = r ∷ []
insert_rule r (s ∷ rules) =
    let rest = insert_rule r rules in if leb r.id s.id then r ∷ s ∷ rules else s ∷ rest

unfoldable pub rules_by_id : List IncidentRule → List IncidentRule
rules_by_id [] = []
rules_by_id (r ∷ rules) = insert_rule r (rules_by_id rules)

-- `reload_rules`: the enabled rules, by their ids
unfoldable pub load_rules : IncidentDb → List IncidentRule
load_rules db = rules_by_id (keep (λ r. r.enabled) db.rules)

-- The session's tables, the incidents made or updated, and whether an exception ended the run.
pub record Ran : Type 0 where
  pub db : IncidentDb
  pub touched : List Incident
  pub raised : Bool

abbrev pub listed : Option Incident → List Incident
listed none = []
listed (some inc) = inc ∷ []

unfoldable pub run_groups :
    Arithmetic → ℕ → IncidentRule → List GroupBucket → IncidentDb → IncidentDb × List Incident
run_groups arithmetic now rule [] db = (db, [])
run_groups arithmetic now rule (b ∷ bs) db =
    let (db', found) = group_turn arithmetic now rule b db in
    let (db'', more) = run_groups arithmetic now rule bs db' in (db'', listed found ++ more)

abbrev pub matched_of : IncidentRule → Option (List AlertRow) → Option (List AlertRow)
matched_of rule none = none
matched_of rule (some rows) = matched rule rows

-- The alerts that count for a rule, where nothing raises.
unfoldable pub rule_alerts : IncidentDb → ℕ → IncidentRule → Option (List AlertRow)
rule_alerts db now rule = matched_of rule (window_alerts db now rule)

abbrev pub and_before : List Incident → Ran → Ran
and_before found r = record r { touched = found ++ r.touched }

-- `run`
unfoldable pub run_rules : Arithmetic → ℕ → List IncidentRule → IncidentDb → Ran
run_rules arithmetic now [] db = record { db = db; touched = []; raised = false }
run_rules arithmetic now (rule ∷ rules) db = elim (rule_alerts db now rule) [
  | none ↦ record { db = db; touched = []; raised = true }
  | some alerts ↦
      let (db', found) =
        run_groups arithmetic now rule (buckets_from (group_by_of rule) alerts []) db in
      and_before found (run_rules arithmetic now rules db')
]
