-- ===== src/IncidentEngine/Run/Links.antt =====
-- The links after a whole run of the incident engine, app/services/incident_engine.py.
use siem_sentinel_xv.Base.{
  ℕ, ◌≡◌, refl, sym, ◌∙◌, subst, Bool, true, false, Option, none, some, List, String, [], ◌∷◌, All,
  ◌=ₛ◌, Bool-cases, Option-cases, inl, inr,
}
use siem_sentinel_xv.IncidentEngine.{IncidentRule, Incident, IncidentDb, Arithmetic}
use siem_sentinel_xv.IncidentEngine.Match.{group_by_of}
use siem_sentinel_xv.IncidentEngine.Buckets.{GroupBucket, buckets_from}
use siem_sentinel_xv.IncidentEngine.Record.{aggregate, write_incident}
use siem_sentinel_xv.IncidentEngine.Turn.{
  group_turn, on_condition, enrol, set_incident_state, rests, or_new, group_of, entity_of,
}
use siem_sentinel_xv.IncidentEngine.Run.{run_groups, run_rules, rule_alerts}
use siem_sentinel_xv.IncidentEngine.Record.Links.{AreUnique, write_incident-links}
use siem_sentinel_xv.IncidentEngine.Run.Rows.{
  AreRows, ids_distinct, rule_alerts-AreRows, none_apart, buckets_from-AreRows,
}

enrol-links :
    (now : ℕ) (rule : IncidentRule) (b : GroupBucket) (entity : String) (db : IncidentDb)
    → AreRows b.alerts
    → AreUnique db.links
    → AreUnique (enrol now rule b entity db).0.links
unfolding enrol set_incident_state
enrol-links now rule b entity db d u = elim (Bool-cases (entity =ₛ "")) [
  | inl y ↦ rw y u
  | inr n ↦
      rw n
        (write_incident-links rule b.key b.group_values entity (aggregate now b.alerts) db _
          (unfold aggregate in ids_distinct b.alerts d) u).0
]

group_turn-links :
    (arithmetic : Arithmetic) (now : ℕ) (rule : IncidentRule) (b : GroupBucket) (db : IncidentDb)
    → AreRows b.alerts
    → AreUnique db.links
    → AreUnique (group_turn arithmetic now rule b db).0.links
unfolding group_turn on_condition set_incident_state
group_turn-links arithmetic now rule b db d u =
    elim (Bool-cases (rests rule now (or_new (db.states (group_of rule b))).last_incident_at)) [
      | inl y ↦ rw y u
      | inr n ↦ rw n (on_condition-links _)
    ]
  where
    on_condition-links : (ok : Option Bool) → AreUnique (on_condition now rule b db ok).0.links
    on_condition-links none = u
    on_condition-links (some false) = u
    on_condition-links (some true) = enrol-links now rule b (entity_of rule b) db d u

group_turn-alerts :
    (arithmetic : Arithmetic) (now : ℕ) (rule : IncidentRule) (b : GroupBucket) (db : IncidentDb)
    → (group_turn arithmetic now rule b db).0.alerts ≡ db.alerts
unfolding group_turn on_condition set_incident_state enrol
group_turn-alerts arithmetic now rule b db =
    elim (Bool-cases (rests rule now (or_new (db.states (group_of rule b))).last_incident_at)) [
      | inl y ↦ rw y
      | inr n ↦ rw n (on_condition-alerts _)
    ]
  where
    write-alerts :
        (found : Option Incident)
        → (write_incident rule b.key b.group_values
            (entity_of rule b)
            (aggregate now b.alerts)
            db
            found).0.alerts
          ≡ db.alerts
    write-alerts none = unfold write_incident in refl
    write-alerts (some old) = unfold write_incident in refl

    on_condition-alerts : (ok : Option Bool) → (on_condition now rule b db ok).0.alerts ≡ db.alerts
    on_condition-alerts none = refl
    on_condition-alerts (some false) = refl
    on_condition-alerts (some true) = elim (Bool-cases (entity_of rule b =ₛ "")) [
      | inl y ↦ rw y
      | inr n ↦ rw n (write-alerts _)
    ]

run_groups-links :
    (arithmetic : Arithmetic) (now : ℕ) (rule : IncidentRule) (bs : List GroupBucket)
    (db : IncidentDb)
    → All (λ b. AreRows b.alerts) bs
    → AreUnique db.links
    → AreUnique (run_groups arithmetic now rule bs db).0.links
      × ((run_groups arithmetic now rule bs db).0.alerts ≡ db.alerts)
unfolding run_groups
run_groups-links arithmetic now rule [] db d u = (u, refl)
run_groups-links arithmetic now rule (b ∷ bs) db d u =
    let after = (group_turn arithmetic now rule b db).0 in
    let rest =
      run_groups-links arithmetic now rule bs after d.1
        (group_turn-links arithmetic now rule b db d.0 u) in
    (rest.0, rest.1 ∙ group_turn-alerts arithmetic now rule b db)

-- Over a run of any rules, whether or not an exception ends it: if the alerts have distinct ids and no
-- alert is linked twice to an incident, no alert is linked twice to one after the run, so the table's
-- unique constraint holds.
pub run_rules-links :
    (arithmetic : Arithmetic) (now : ℕ) (rules : List IncidentRule) (db : IncidentDb)
    → AreRows db.alerts
    → AreUnique db.links
    → AreUnique (run_rules arithmetic now rules db).db.links
unfolding run_rules
run_rules-links arithmetic now [] db d u = u
run_rules-links arithmetic now (rule ∷ rules) db d u =
    elim (Option-cases (rule_alerts db now rule)) [
      | inl y ↦ rw (y, run_rules) u
      | inr (rows, e) ↦
          let part =
            run_groups-links arithmetic now rule (buckets_from (group_by_of rule) rows []) db
              (buckets_from-AreRows (group_by_of rule) rows []
                (rule_alerts-AreRows db now rule rows e d) tt (none_apart rows))
              u in
          rw (e, run_rules)
            (run_rules-links arithmetic now rules
              (run_groups arithmetic now rule (buckets_from (group_by_of rule) rows []) db).0
              (subst AreRows (sym part.1) d) part.0)
    ]
