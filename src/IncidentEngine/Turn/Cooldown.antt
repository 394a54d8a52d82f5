-- ===== src/IncidentEngine/Turn/Cooldown.antt =====
-- The cooldown of a group of the incident engine, app/services/incident_engine.py.
use siem_sentinel_xv.Base.{
  ℕ, ◌+◌, ◌*◌, ◌<◌, ◌≡◌, refl, subst, Bool, true, false, Option, none, some, String, ◌=ₛ◌, arith,
  eq_iff, Bool-cases, inl, inr,
}
use siem_sentinel_xv.IncidentEngine.{
  IncidentRule, Incident, IncidentDb, IncidentState, Group, Arithmetic,
}
use siem_sentinel_xv.IncidentEngine.Buckets.{GroupBucket}
use siem_sentinel_xv.IncidentEngine.Turn.{
  group_turn, on_condition, enrol, set_incident_state, rests, or_new, group_of, entity_of,
  cooldown_of,
}

-- The time of the group's last incident.
abbrev pub last_at : Group → IncidentDb → Option ℕ
last_at k db = (or_new (db.states k)).last_incident_at

set_incident_state-last_at :
    (k : Group) (st : IncidentState) (db : IncidentDb)
    → last_at k (set_incident_state k st db) ≡ st.last_incident_at
unfolding set_incident_state
set_incident_state-last_at k st db = ground (arith, eq_iff k.group_key k.group_key)

enrol-last_at :
    (now : ℕ) (rule : IncidentRule) (b : GroupBucket) (entity : String) (db : IncidentDb)
    (inc : Incident)
    → (enrol now rule b entity db).1 ≡ some inc
    → last_at (group_of rule b) (enrol now rule b entity db).0 ≡ some now
unfolding enrol
enrol-last_at now rule b entity db inc e = elim (Bool-cases (entity =ₛ "")) [
  | inl y ↦ absurd (ground arith)
  | inr n ↦ rw n (set_incident_state-last_at (group_of rule b) _ _)
]

on_condition-last_at :
    (now : ℕ) (rule : IncidentRule) (b : GroupBucket) (db : IncidentDb) (ok : Option Bool)
    (inc : Incident)
    → (on_condition now rule b db ok).1 ≡ some inc
    → last_at (group_of rule b) (on_condition now rule b db ok).0 ≡ some now
unfolding on_condition
on_condition-last_at now rule b db none inc e = absurd (ground arith)
on_condition-last_at now rule b db (some false) inc e = absurd (ground arith)
on_condition-last_at now rule b db (some true) inc e =
    enrol-last_at now rule b (entity_of rule b) db inc e

-- The state of a group remembers the time of its incident.
group_turn-last_at :
    (arithmetic : Arithmetic) (now : ℕ) (rule : IncidentRule) (b : GroupBucket) (db : IncidentDb)
    (inc : Incident)
    → (group_turn arithmetic now rule b db).1 ≡ some inc
    → last_at (group_of rule b) (group_turn arithmetic now rule b db).0 ≡ some now
unfolding group_turn
group_turn-last_at arithmetic now rule b db inc e =
    elim (Bool-cases (rests rule now (last_at (group_of rule b) db))) [
      | inl y ↦ absurd (ground arith)
      | inr n ↦ rw n (on_condition-last_at now rule b db _ inc (rw n at e))
    ]

rests-within :
    (rule : IncidentRule) (last now : ℕ)
    → now < last + cooldown_of rule * 1000000
    → rests rule now (some last) ≡ true
unfolding rests
rests-within rule last now h = ground arith

resting :
    (arithmetic : Arithmetic) (now after : ℕ) (rule : IncidentRule) (c : GroupBucket)
    (d : IncidentDb)
    → after < now + cooldown_of rule * 1000000
    → last_at (group_of rule c) d ≡ some now
    → ((group_turn arithmetic after rule c d).1 ≡ none)
      × ((group_turn arithmetic after rule c d).0.incidents ≡ d.incidents)
      × ((group_turn arithmetic after rule c d).0.links ≡ d.links)
unfolding group_turn set_incident_state
resting arithmetic now after rule c d h l = rw (l, rests-within rule now after h) (refl, refl, refl)

-- Once a group has made or updated an incident, a turn of the group that comes before the rule's
-- cooldown has passed, whatever its alerts then are, makes and updates no incident and no link.
pub group_turn-rests :
    (arithmetic : Arithmetic) (now after : ℕ) (rule : IncidentRule) (b c : GroupBucket)
    (db : IncidentDb) (inc : Incident)
    → (group_turn arithmetic now rule b db).1 ≡ some inc
    → after < now + cooldown_of rule * 1000000
    → b.key ≡ c.key
    → ((group_turn arithmetic after rule c (group_turn arithmetic now rule b db).0).1 ≡ none)
      × ((group_turn arithmetic after rule c (group_turn arithmetic now rule b db).0).0.incidents
          ≡ (group_turn arithmetic now rule b db).0.incidents)
      × ((group_turn arithmetic after rule c (group_turn arithmetic now rule b db).0).0.links
          ≡ (group_turn arithmetic now rule b db).0.links)
group_turn-rests arithmetic now after rule b c db inc e h k =
    resting arithmetic now after rule c (group_turn arithmetic now rule b db).0 h (
      subst
        (λ g.
          last_at (record { rule_id = rule.id; group_key = g })
            (group_turn arithmetic now rule b db).0
          ≡ some now)
        k (group_turn-last_at arithmetic now rule b db inc e))
