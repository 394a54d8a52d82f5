-- ===== src/IncidentEngine/Run/Laws.antt =====
-- What a whole run of the incident engine, app/services/incident_engine.py, keeps true.
use siem_sentinel_xv.Base.{
  ℕ, Bool, true, false, Option, none, some, List, String, [], ◌∷◌, ◌=ₛ◌, Bool-cases, Option-cases,
  inl, inr,
}
use siem_sentinel_xv.IncidentEngine.{IncidentRule, IncidentDb, Arithmetic}
use siem_sentinel_xv.IncidentEngine.Match.{group_by_of}
use siem_sentinel_xv.IncidentEngine.Buckets.{GroupBucket, buckets_from}
use siem_sentinel_xv.IncidentEngine.Record.{aggregate}
use siem_sentinel_xv.IncidentEngine.Record.Single.{IsSound, enrolled-IsSound}
use siem_sentinel_xv.IncidentEngine.Turn.{
  group_turn, on_condition, enrol, set_incident_state, rests, or_new, group_of, entity_of,
}
use siem_sentinel_xv.IncidentEngine.Run.{run_groups, run_rules, rule_alerts}

enrol-IsSound :
    (now : ℕ) (rule : IncidentRule) (b : GroupBucket) (entity : String) (db : IncidentDb)
    → IsSound db.incidents
    → IsSound (enrol now rule b entity db).0.incidents
unfolding enrol set_incident_state
enrol-IsSound now rule b entity db s = elim (Bool-cases (entity =ₛ "")) [
  | inl y ↦ rw y s
  | inr n ↦ rw n (enrolled-IsSound rule b.key b.group_values entity (aggregate now b.alerts) db s)
]

on_condition-IsSound :
    (now : ℕ) (rule : IncidentRule) (b : GroupBucket) (db : IncidentDb)
    → IsSound db.incidents
    → (ok : Option Bool) → IsSound (on_condition now rule b db ok).0.incidents
unfolding on_condition set_incident_state
on_condition-IsSound now rule b db s none = s
on_condition-IsSound now rule b db s (some false) = s
on_condition-IsSound now rule b db s (some true) = enrol-IsSound now rule b (entity_of rule b) db s

group_turn-IsSound :
    (arithmetic : Arithmetic) (now : ℕ) (rule : IncidentRule) (b : GroupBucket) (db : IncidentDb)
    → IsSound db.incidents
    → IsSound (group_turn arithmetic now rule b db).0.incidents
unfolding group_turn set_incident_state
group_turn-IsSound arithmetic now rule b db s =
    elim (Bool-cases (rests rule now (or_new (db.states (group_of rule b))).last_incident_at)) [
      | inl y ↦ rw y s
      | inr n ↦ rw n (on_condition-IsSound now rule b db s _)
    ]

run_groups-IsSound :
    (arithmetic : Arithmetic) (now : ℕ) (rule : IncidentRule) (bs : List GroupBucket)
    (db : IncidentDb)
    → IsSound db.incidents
    → IsSound (run_groups arithmetic now rule bs db).0.incidents
unfolding run_groups
run_groups-IsSound arithmetic now rule [] db s = s
run_groups-IsSound arithmetic now rule (b ∷ bs) db s =
    run_groups-IsSound arithmetic now rule bs (group_turn arithmetic now rule b db).0
      (group_turn-IsSound arithmetic now rule b db s)

-- Over a run of any rules, whether or not an exception ends it: if no two incidents are open for one
-- code and entity and the scores lie within 0 and 100, it is so after the run.
pub run_rules-IsSound :
    (arithmetic : Arithmetic) (now : ℕ) (rules : List IncidentRule) (db : IncidentDb)
    → IsSound db.incidents
    → IsSound (run_rules arithmetic now rules db).db.incidents
unfolding run_rules
run_rules-IsSound arithmetic now [] db s = s
run_rules-IsSound arithmetic now (rule ∷ rules) db s =
    elim (Option-cases (rule_alerts db now rule)) [
      | inl y ↦ rw (y, run_rules) s
      | inr (alerts, e) ↦
          rw (e, run_rules)
            (run_rules-IsSound arithmetic now rules
              (run_groups arithmetic now rule (buckets_from (group_by_of rule) alerts []) db).0
              (run_groups-IsSound arithmetic now rule _ db s))
    ]
