-- ===== src/Review.antt =====
-- The incidents as analysts treat them: the list, the change of a status and the notes of
-- app/routers/incidents_v2.py. A handler works on a session: `db` is what is committed, which is also what
-- queries of columns see (the session does not flush by itself), `rows` has the objects that the handler
-- has changed. The session of a request is closed at its end, so what is not committed is lost.
pub mod Requests
pub mod Listing
pub mod Shown
use siem_sentinel_xv.Base.{
  ℕ, zero, suc, ◌+◌, ◌-◌, ◌*◌, max, ◌≤◌, ltb, leb, ◌==◌, ℤ, pos, leb_ℤ, Bool, true, false, not,
  ◌&&◌, ◌||◌, Option, none, some, List, String, [], ◌∷◌, ◌++◌, map, length, keep, any, take, drop,
  find_first, update_first, mem, ◌=ₛ◌, if◌then◌else◌,
}
use siem_sentinel_xv.Text.{strip, lower, take_chars, ◌+ₛ◌}
use siem_sentinel_xv.Value.{str, Fields, get_or_null, to_str, ◌or◌}
use siem_sentinel_xv.Http.{Response, ok, fail}
use siem_sentinel_xv.IncidentEngine.{Link}

-- Of an alert, what the handlers read and write.
pub record ReviewedAlert : Type 0 where
  pub id : ℕ
  pub status : String
  pub disposition : Option String
  pub resolution_note : Option String
  pub resolved_at : Option ℕ
  pub resolved_by : Option String

-- An entity, whose state is in its attributes.
pub record ReviewedEntity : Type 0 where
  pub id : ℕ
  pub attrs : Fields

pub record EntityLink : Type 0 where
  pub incident_id : ℕ
  pub entity_id : ℕ

-- An action in the history of an incident: when, who and what.
pub record Action : Type 0 where
  pub timestamp : ℕ
  pub user : String
  pub action : String

pub record Note : Type 0 where
  pub timestamp : ℕ
  pub user : String
  pub note : String

-- An incident; of its evidence the two lists that the handlers keep there.
pub record ReviewedIncident : Type 0 where
  pub id : ℕ
  pub server : Option String
  pub status : String
  pub score : ℤ
  pub last_activity_at : ℕ
  pub updated_at : ℕ
  pub closed_at : Option ℕ
  pub disposition : Option String
  pub resolution_note : Option String
  pub resolved_by : Option String
  pub resolved_at : Option ℕ
  pub timeline : List Action
  pub notes : List Note

pub record Tables : Type 0 where
  pub incidents : List ReviewedIncident
  pub alerts : List ReviewedAlert
  pub links : List Link
  pub entities : List ReviewedEntity
  pub entity_links : List EntityLink

pub record Session : Type 0 where
  pub db : Tables
  pub rows : Tables

abbrev pub open_session : Tables → Session
open_session db = record { db = db; rows = db }

abbrev pub commit : Session → Session
commit s = record s { db = s.rows }

-- `_status_ui_to_db`
unfoldable pub status_ui_to_db : String → String
unfolding strip lower
status_ui_to_db status =
    let s = lower (strip status) in
    if s =ₛ "resolved"
    then "closed"
    else if mem s ("open" ∷ "triage" ∷ "contained" ∷ "closed" ∷ "false_positive" ∷ [])
    then s
    else "open"

-- `_status_db_to_ui`
unfoldable pub status_db_to_ui : String → String
unfolding strip lower
status_db_to_ui status =
    let s = lower (strip status) in
    if s =ₛ "closed"
    then "resolved"
    else if mem s ("open" ∷ "false_positive" ∷ [])
    then s
    else if mem s ("triage" ∷ "contained" ∷ [])
    then "open"
    else "open"

-- `_entity_state`
unfoldable pub entity_state : ReviewedEntity → String
unfolding get_or_null to_str strip lower
entity_state e =
    let st = lower (strip (to_str (get_or_null e.attrs "state" or str ""))) in
    if mem st ("closed" ∷ "open" ∷ []) then st else "open"

-- `_badge_from_score`
unfoldable pub badge_from_score : ℤ → String
badge_from_score n =
    if leb_ℤ (pos 61) n then "high" else if leb_ℤ (pos 31) n then "medium" else "low"

abbrev pub has_id : ℕ → List ℕ → Bool
has_id id ids = any (λ i. i == id) ids

-- `_related_alert_ids`
unfoldable pub related_alert_ids : ℕ → Tables → List ℕ
related_alert_ids id db = map (λ l. l.alert_id) (keep (λ l. l.incident_id == id) db.links)

-- `_related_entity_ids`
unfoldable pub related_entity_ids : ℕ → Tables → List ℕ
related_entity_ids id db = map (λ l. l.entity_id) (keep (λ l. l.incident_id == id) db.entity_links)

-- `_count_open_alerts`
unfoldable pub count_open_alerts : Tables → List ℕ → ℕ
unfolding status_db_to_ui
count_open_alerts db ids =
    length (keep (λ a. status_db_to_ui a.status =ₛ "open") (keep (λ a. has_id a.id ids) db.alerts))

-- `_count_open_entities`
unfoldable pub count_open_entities : Tables → List ℕ → ℕ
unfolding entity_state
count_open_entities db ids =
    length (keep (λ e. entity_state e =ₛ "open") (keep (λ e. has_id e.id ids) db.entities))

-- IncidentStatusPatch
pub record StatusPatch : Type 0 where
  pub status : String
  pub category : Option String
  pub disposition : Option String
  pub resolution_note : Option String

-- IncidentStatusPatchResponse, without its fixed message
pub record StatusPatchResponse : Type 0 where
  pub id : ℕ
  pub status : String
  pub blocked : Bool
  pub open_alerts_count : ℕ
  pub open_entities_count : ℕ
  pub related_alert_ids : List ℕ
  pub related_entity_ids : List ℕ

-- `if given: field = given`
abbrev pub given : Option String → Option String → Option String
given none old = old
given (some s) old = if s =ₛ "" then old else some s

abbrev pub noted : StatusPatch → ReviewedIncident → ReviewedIncident
noted p inc = record inc {
  disposition = given p.disposition (given p.category inc.disposition);
  resolution_note = given p.resolution_note inc.resolution_note;
}

abbrev pub set_incident : ReviewedIncident → Session → Session
set_incident inc s = record s {
  rows = record s.rows {
    incidents = update_first (λ i. i.id == inc.id) (λ _. inc) s.rows.incidents;
  };
}

abbrev pub wants_close : String → Bool
wants_close requested_db = mem requested_db ("closed" ∷ "false_positive" ∷ [])

-- An alert that is closed with its incident.
abbrev pub cascaded : ℕ → String → StatusPatch → ReviewedAlert → ReviewedAlert
cascaded now by p a = record a {
  status =
      if not (status_ui_to_db p.status =ₛ "false_positive")
      then "closed_by_incident"
      else "false_positive";
  disposition = given p.disposition a.disposition;
  resolution_note = given p.resolution_note a.resolution_note;
  resolved_at = some now;
  resolved_by = some by;
}

unfoldable pub cascade_alerts : ℕ → String → StatusPatch → List ℕ → Session → Session
cascade_alerts now by p ids s = record s {
  rows = record s.rows {
    alerts = map (λ a. if has_id a.id ids then cascaded now by p a else a) s.rows.alerts;
  };
}

abbrev pub moved : ℕ → String → String → ReviewedIncident → ReviewedIncident
moved now by requested_db inc = record inc {
  status = requested_db;
  resolved_by = some by;
  resolved_at = some now;
  closed_at = some now;
  updated_at = now;
  timeline =
      inc.timeline
      ++ record {
        timestamp = now;
        user = by;
        action = "Estado cambiado a '" +ₛ status_db_to_ui requested_db +ₛ "'";
      }
        ∷ [];
}

abbrev pub response_of :
    ReviewedIncident → String → Bool → List ℕ → List ℕ → Tables → StatusPatchResponse
response_of inc status blocked alert_ids entity_ids db = record {
  id = inc.id;
  status = status;
  blocked = blocked;
  open_alerts_count = count_open_alerts db alert_ids;
  open_entities_count = count_open_entities db entity_ids;
  related_alert_ids = alert_ids;
  related_entity_ids = entity_ids;
}

-- `patch_incident_status` for a row that is there. The counts of the answer are of the rows as queries
-- see them, also after the cascade.
unfoldable pub patch_found :
    ℕ → String → StatusPatch → Bool → ReviewedIncident → Session → Session × StatusPatchResponse
unfolding status_ui_to_db status_db_to_ui related_alert_ids related_entity_ids count_open_alerts
    cascade_alerts
patch_found now by p cascade inc s =
    let requested_db = status_ui_to_db p.status in
    let alert_ids = related_alert_ids inc.id s.db in
    let entity_ids = related_entity_ids inc.id s.db in
    if wants_close requested_db && ltb 0 (count_open_alerts s.db alert_ids) && not cascade
    then (
      commit (set_incident (record (noted p inc) { status = "open"; updated_at = now }) s),
      response_of inc "open" true alert_ids entity_ids s.db,
    )
    else (
      set_incident (moved now by requested_db (noted p inc))
          (if wants_close requested_db && cascade then cascade_alerts now by p alert_ids s else s),
      response_of inc (status_db_to_ui requested_db) false alert_ids entity_ids s.db,
    )

abbrev pub patch_row :
    ℕ
    → String
    → StatusPatch
    → Bool
    → Option ReviewedIncident
    → Session
    → Session × Response StatusPatchResponse
patch_row now by p cascade none s = (s, fail 404)
patch_row now by p cascade (some inc) s =
    let r = patch_found now by p cascade inc s in (r.0, ok r.1)

-- `patch_incident_status`, at a time and by an analyst
unfoldable pub patch_incident_status :
    ℕ → String → ℕ → StatusPatch → Bool → Session → Session × Response StatusPatchResponse
unfolding patch_found
patch_incident_status now by id p cascade s =
    patch_row now by p cascade (find_first (λ i. i.id == id) s.db.incidents) s

-- What is left of a request when its session is closed.
abbrev pub after_request {ℓ} : {A : Type ℓ} → Session × A → Tables
after_request r = r.0.db

abbrev pub with_note : ℕ → String → String → ReviewedIncident → ReviewedIncident
with_note now by note inc = record inc {
  notes = inc.notes ++ record { timestamp = now; user = by; note = note } ∷ [];
  timeline =
      inc.timeline
      ++ record {
        timestamp = now;
        user = by;
        action = "Nota de investigación: " +ₛ take_chars 60 note +ₛ "...";
      }
        ∷ [];
  updated_at = now;
}

abbrev pub note_row :
    ℕ → String → String → Option ReviewedIncident → Session → Session × Response (List Note)
note_row now by note none s = (s, fail 404)
note_row now by note (some inc) s =
    let inc' = with_note now by note inc in (commit (set_incident inc' s), ok inc'.notes)

-- `add_incident_note`. A note of no characters is refused by the schema.
unfoldable pub add_incident_note :
    ℕ → String → ℕ → String → Session → Session × Response (List Note)
add_incident_note now by id note s =
    if note =ₛ ""
    then (s, fail 422)
    else note_row now by note (find_first (λ i. i.id == id) s.db.incidents) s
