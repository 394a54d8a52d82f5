-- ===== src/EntityJob/Step.antt =====
-- What one alert does to its entity: the body of the inner loop of `run_entities_job`, and
-- `_apply_decay_if_needed`, app/services/entity_job.py.
pub mod Bands
use siem_sentinel_xv.Base.{
  ℕ, ◌+◌, ◌*◌, leb, max, ℤ, pos, negsuc, eq_ℤ, max_ℤ, min_ℤ, ◌+ℤ◌, Bool, true, false, ◌&&◌, ◌||◌,
  Option, none, some, List, String, [], ◌∷◌, ◌++◌, ◌=ₛ◌, if◌then◌else◌,
}
use siem_sentinel_xv.Value.{Value, str, dict, Fields, end, field}
use siem_sentinel_xv.EntityJob.{ScoredAlert, Entity, ScoreEvent, EntityDb, severity_from_score}
use siem_sentinel_xv.EntityJob.Attrs.{Picked, pick_primary_entity, extract_attrs, merge_attrs}

-- max(0, min(100, n))
abbrev pub clamp_score : ℤ → ℤ
clamp_score n = max_ℤ (pos 0) (min_ℤ (pos 100) n)

-- A new score and its severity.
abbrev pub with_score : ℤ → Entity → Entity
with_score n e = record e { score_current = n; severity = severity_from_score n }

-- The step of `_DECAY_STEPS` that an age of the score has come to.
unfoldable pub decay_of : ℕ → ℕ → ℤ
decay_of last now =
    if leb (last + 30 * 86400 * 1000000) now
    then negsuc 29
    else if leb (last + 7 * 86400 * 1000000) now
    then negsuc 14
    else if leb (last + 24 * 3600 * 1000000) now
    then negsuc 4
    else pos 0

abbrev pub or_else : Option ℕ → Option ℕ → Option ℕ
or_else none other = other
or_else (some t) other = some t

-- The decay of an entity that is due now, 0 for none.
unfoldable pub due_decay : ℕ → Option ℕ → ℤ
due_decay now none = pos 0
due_decay now (some last) = decay_of last now

-- `_apply_decay_if_needed`
unfoldable pub apply_decay : ℕ → Entity → Entity × ℤ
apply_decay now e =
    let delta = due_decay now (or_else e.score_updated_at e.last_seen_at) in
    if eq_ℤ delta (pos 0) then (e, pos 0) else (
      record (with_score (clamp_score (e.score_current +ℤ delta)) e) {
        score_updated_at = some now;
      },
      delta,
    )

abbrev pub is_entity : Picked → Entity → Bool
is_entity p e = e.entity_type =ₛ p.entity_type && e.entity_key =ₛ p.entity_key

unfoldable pub find_entity : Picked → List Entity → Option Entity
find_entity p [] = none
find_entity p (e ∷ entities) =
    let rest = find_entity p entities in if is_entity p e then some e else rest

-- The entity is written in its place, or at the end.
unfoldable pub save_entity : Picked → Entity → List Entity → List Entity
save_entity p new [] = new ∷ []
save_entity p new (e ∷ entities) =
    let rest = save_entity p new entities in if is_entity p e then new ∷ entities else e ∷ rest

abbrev is_empty : Fields → Bool
is_empty end = true
is_empty _ = false

abbrev is_dict : Value → Bool
is_dict (dict fs) = true
is_dict _ = false

-- The row of the alert's entity. The attributes of one that is there are merged in place, into the dict
-- of the row, and the same dict is assigned: the column is a plain JSONB, which does not see that, so the
-- merge is not saved. It is where the attributes were no dict, since a new one is assigned then.
unfoldable pub entity_for : Picked → ScoredAlert → Option Entity → Entity
entity_for p al none = record {
  entity_type = p.entity_type;
  entity_key = p.entity_key;
  scope = p.scope;
  score_current = pos 0;
  severity = "clean";
  first_seen_at = some al.triggered_at;
  last_seen_at = some al.triggered_at;
  score_updated_at = some al.triggered_at;
  attrs = dict (extract_attrs al.evidence);
}
entity_for p al (some e) =
    if is_empty (extract_attrs al.evidence) || is_dict e.attrs
    then e
    else record e { attrs = dict (merge_attrs end (extract_attrs al.evidence)) }

abbrev decay_event : ℕ → Picked → ℤ → ScoreEvent
decay_event now p delta = record {
  entity_type = p.entity_type;
  entity_key = p.entity_key;
  ts = now;
  delta = delta;
  reason_type = "decay";
  reason_id = none;
  meta = field "policy" (str "lazy_decay") end;
}

abbrev alert_event : Picked → ScoredAlert → ScoreEvent
alert_event p al = record {
  entity_type = p.entity_type;
  entity_key = p.entity_key;
  ts = al.triggered_at;
  delta = al.severity;
  reason_type = "alert";
  reason_id = some al.id;
  meta = field "alert_rule_name" (str al.rule_name) (
      field "server" al.server (
        field "source" al.source
          (field "event_type" al.event_type (field "group_key" al.group_key end))));
}

abbrev pub later_of : ℕ → Option ℕ → ℕ
later_of ts none = ts
later_of ts (some t) = max t ts

-- The alert's severity is added to the score, unless it is 0.
unfoldable pub add_severity : ℕ → ScoredAlert → Entity → Entity
add_severity now al e =
    if eq_ℤ al.severity (pos 0)
    then e
    else record (with_score (clamp_score (e.score_current +ℤ al.severity)) e) {
      last_seen_at = some (later_of al.triggered_at e.last_seen_at);
      score_updated_at = some now;
    }

abbrev pub events_of : ℕ → Picked → ScoredAlert → ℤ → List ScoreEvent
events_of now p al decay =
    (if eq_ℤ decay (pos 0) then [] else decay_event now p decay ∷ [])
    ++ (if eq_ℤ al.severity (pos 0) then [] else alert_event p al ∷ [])

-- An alert with the entity that it is about.
unfoldable pub score_picked : ℕ → ScoredAlert → EntityDb → Option Picked → EntityDb
score_picked now al db none = db
score_picked now al db (some p) =
    let (e, decay) = apply_decay now (entity_for p al (find_entity p db.entities)) in
    record db {
      entities = save_entity p (add_severity now al e) db.entities;
      score_events = db.score_events ++ events_of now p al decay;
    }

unfoldable pub score_alert : ℕ → EntityDb → ScoredAlert → EntityDb
score_alert now db al = score_picked now al db (pick_primary_entity al.evidence)

-- The alerts of a batch, one after the other.
unfoldable pub score_alerts : ℕ → EntityDb → List ScoredAlert → EntityDb
score_alerts now db [] = db
score_alerts now db (al ∷ alerts) = score_alerts now (score_alert now db al) alerts
