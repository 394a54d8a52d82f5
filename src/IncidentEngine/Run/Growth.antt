-- ===== src/IncidentEngine/Run/Growth.antt =====
-- What a run of the incident engine, app/services/incident_engine.py, makes of the incidents that are there.
use siem_sentinel_xv.Base.{
  ℕ, ◌==◌, ◌≤◌, ◌≤ℤ◌, ◌≡◌, refl, ◌∙◌, Bool, true, false, Option, none, some, List, String, [], ◌∷◌,
  ◌++◌, map, arith, ◌=ₛ◌, if◌then◌else◌, Bool-cases, Option-cases, inl, inr,
}
use siem_sentinel_xv.Value.{Fields}
use siem_sentinel_xv.IncidentEngine.{IncidentRule, Incident, IncidentDb, Arithmetic}
use siem_sentinel_xv.IncidentEngine.Match.{group_by_of}
use siem_sentinel_xv.IncidentEngine.Buckets.{GroupBucket, buckets_from}
use siem_sentinel_xv.IncidentEngine.Record.{
  Aggregate, aggregate, update_incident, write_incident, latest, is_for,
}
use siem_sentinel_xv.IncidentEngine.Turn.{
  group_turn, on_condition, enrol, set_incident_state, rests, or_new, group_of, entity_of,
}
use siem_sentinel_xv.IncidentEngine.Run.{run_groups, run_rules, rule_alerts}

-- An incident and what it has become: the same incident, in the same status, of no lower severity and
-- score and of no earlier last activity.
pub record HasGrown (i j : Incident) : Type 0 where
  pub same_id : j.id ≡ i.id
  pub same_code : j.code ≡ i.code
  pub same_type : j.primary_entity_type ≡ i.primary_entity_type
  pub same_key : j.primary_entity_key ≡ i.primary_entity_key
  pub same_status : j.status ≡ i.status
  pub same_opening : j.opened_at ≡ i.opened_at
  pub severity : i.severity_current ≤ℤ j.severity_current
  pub score : i.score ≤ℤ j.score
  pub activity : i.last_activity_at ≤ j.last_activity_at

-- Each incident of a table is still there in its place, as it was or grown, and others may follow.
abbrev pub HaveGrown : List Incident → List Incident → Type 0
HaveGrown [] later = Unit
HaveGrown (i ∷ incs) [] = ⊥
HaveGrown (i ∷ incs) (j ∷ later) = HasGrown i j × HaveGrown incs later

HasGrown-refl : (i : Incident) → HasGrown i i
HasGrown-refl i = record {
  same_id = refl;
  same_code = refl;
  same_type = refl;
  same_key = refl;
  same_status = refl;
  same_opening = refl;
  severity = omega arith;
  score = omega arith;
  activity = omega arith;
}

HasGrown-trans : (i j k : Incident) → HasGrown i j → HasGrown j k → HasGrown i k
HasGrown-trans i j k g h = record {
  same_id = h.same_id ∙ g.same_id;
  same_code = h.same_code ∙ g.same_code;
  same_type = h.same_type ∙ g.same_type;
  same_key = h.same_key ∙ g.same_key;
  same_status = h.same_status ∙ g.same_status;
  same_opening = h.same_opening ∙ g.same_opening;
  severity = omega (arith, g.severity, h.severity);
  score = omega (arith, g.score, h.score);
  activity = omega (arith, g.activity, h.activity);
}

HaveGrown-refl : (incs : List Incident) → HaveGrown incs incs
HaveGrown-refl [] = tt
HaveGrown-refl (i ∷ incs) = (HasGrown-refl i, HaveGrown-refl incs)

HaveGrown-trans :
    (incs mid later : List Incident)
    → HaveGrown incs mid
    → HaveGrown mid later
    → HaveGrown incs later
HaveGrown-trans [] mid later g h = tt
HaveGrown-trans (i ∷ incs) [] later g h = absurd g
HaveGrown-trans (i ∷ incs) (j ∷ mid) [] g h = absurd h
HaveGrown-trans (i ∷ incs) (j ∷ mid) (k ∷ later) g h =
    (HasGrown-trans i j k g.0 h.0, HaveGrown-trans incs mid later g.1 h.1)

HaveGrown-append : (incs new : List Incident) → HaveGrown incs (incs ++ new)
HaveGrown-append [] new = tt
HaveGrown-append (i ∷ incs) new = (HasGrown-refl i, HaveGrown-append incs new)

update_incident-HasGrown :
    (rule : IncidentRule) (agg : Aggregate) (i : Incident) → HasGrown i (update_incident rule agg i)
unfolding update_incident
update_incident-HasGrown rule agg i = record {
  same_id = refl;
  same_code = refl;
  same_type = refl;
  same_key = refl;
  same_status = refl;
  same_opening = refl;
  severity = ground arith;
  score = ground arith;
  activity = ground arith;
}

updated-HaveGrown :
    (rule : IncidentRule) (agg : Aggregate) (id : ℕ) (incs : List Incident)
    → HaveGrown incs (map (λ i. if i.id == id then update_incident rule agg i else i) incs)
updated-HaveGrown rule agg id [] = tt
updated-HaveGrown rule agg id (i ∷ incs) = (
  elim (Bool-cases (i.id == id)) [
    | inl y ↦ rw y (update_incident-HasGrown rule agg i)
    | inr n ↦ rw n (HasGrown-refl i)
  ],
  updated-HaveGrown rule agg id incs,
)

write_incident-HaveGrown :
    (rule : IncidentRule) (group : String) (gv : Fields) (entity : String) (agg : Aggregate)
    (db : IncidentDb) (found : Option Incident)
    → HaveGrown db.incidents (write_incident rule group gv entity agg db found).0.incidents
unfolding write_incident
write_incident-HaveGrown rule group gv entity agg db none = HaveGrown-append db.incidents _
write_incident-HaveGrown rule group gv entity agg db (some old) =
    updated-HaveGrown rule agg old.id db.incidents

enrol-HaveGrown :
    (now : ℕ) (rule : IncidentRule) (b : GroupBucket) (entity : String) (db : IncidentDb)
    → HaveGrown db.incidents (enrol now rule b entity db).0.incidents
unfolding enrol set_incident_state
enrol-HaveGrown now rule b entity db = elim (Bool-cases (entity =ₛ "")) [
  | inl y ↦ rw y (HaveGrown-refl db.incidents)
  | inr n ↦ rw n (
      write_incident-HaveGrown rule b.key b.group_values entity (aggregate now b.alerts) db
        (latest (is_for rule entity) db.incidents))
]

on_condition-HaveGrown :
    (now : ℕ) (rule : IncidentRule) (b : GroupBucket) (db : IncidentDb) (ok : Option Bool)
    → HaveGrown db.incidents (on_condition now rule b db ok).0.incidents
unfolding on_condition set_incident_state
on_condition-HaveGrown now rule b db none = HaveGrown-refl db.incidents
on_condition-HaveGrown now rule b db (some false) = HaveGrown-refl db.incidents
on_condition-HaveGrown now rule b db (some true) = enrol-HaveGrown now rule b (entity_of rule b) db

group_turn-HaveGrown :
    (arithmetic : Arithmetic) (now : ℕ) (rule : IncidentRule) (b : GroupBucket) (db : IncidentDb)
    → HaveGrown db.incidents (group_turn arithmetic now rule b db).0.incidents
unfolding group_turn set_incident_state
group_turn-HaveGrown arithmetic now rule b db =
    elim (Bool-cases (rests rule now (or_new (db.states (group_of rule b))).last_incident_at)) [
      | inl y ↦ rw y (HaveGrown-refl db.incidents)
      | inr n ↦ rw n (on_condition-HaveGrown now rule b db _)
    ]

run_groups-HaveGrown :
    (arithmetic : Arithmetic) (now : ℕ) (rule : IncidentRule) (bs : List GroupBucket)
    (db : IncidentDb)
    → HaveGrown db.incidents (run_groups arithmetic now rule bs db).0.incidents
unfolding run_groups
run_groups-HaveGrown arithmetic now rule [] db = HaveGrown-refl db.incidents
run_groups-HaveGrown arithmetic now rule (b ∷ bs) db =
    let mid = (group_turn arithmetic now rule b db).0 in
    HaveGrown-trans db.incidents mid.incidents _ (group_turn-HaveGrown arithmetic now rule b db)
      (run_groups-HaveGrown arithmetic now rule bs mid)

-- A run of any rules, whether or not an exception ends it, loses and closes no incident: each incident that
-- was there is still in its place, with its id, code, entity, status and time of opening, and its
-- severity, score and last activity have not gone down; the incidents that are new follow.
pub run_rules-HaveGrown :
    (arithmetic : Arithmetic) (now : ℕ) (rules : List IncidentRule) (db : IncidentDb)
    → HaveGrown db.incidents (run_rules arithmetic now rules db).db.incidents
unfolding run_rules
run_rules-HaveGrown arithmetic now [] db = HaveGrown-refl db.incidents
run_rules-HaveGrown arithmetic now (rule ∷ rules) db =
    elim (Option-cases (rule_alerts db now rule)) [
      | inl y ↦ rw (y, run_rules) (HaveGrown-refl db.incidents)
      | inr (alerts, e) ↦
          let mid =
            (run_groups arithmetic now rule (buckets_from (group_by_of rule) alerts []) db).0 in
          rw (e, run_rules)
            (HaveGrown-trans db.incidents mid.incidents _
              (run_groups-HaveGrown arithmetic now rule _ db)
              (run_rules-HaveGrown arithmetic now rules mid))
    ]
