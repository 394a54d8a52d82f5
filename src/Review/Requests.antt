-- ===== src/Review/Requests.antt =====
-- What a change of a status leaves, `patch_incident_status` of app/routers/incidents_v2.py.
use siem_sentinel_xv.Base.{
  ℕ, ◌≡◌, refl, Bool, false, not, ◌&&◌, ltb, ◌==◌, some, String, All, find_first, update_first,
  Bool-cases, inl, inr, if◌then◌else◌,
}
use siem_sentinel_xv.Http.{ok}
use siem_sentinel_xv.Review.{
  ReviewedIncident, Tables, Session, open_session, StatusPatch, StatusPatchResponse,
  status_ui_to_db, cascade_alerts, wants_close, related_alert_ids, count_open_alerts, noted,
  patch_found, patch_incident_status, after_request, add_incident_note,
}

-- Whether a change has to wait for the alerts of the incident.
abbrev pub waits : StatusPatch → Bool → ReviewedIncident → Tables → Bool
waits p cascade inc db =
    wants_close (status_ui_to_db p.status)
    && ltb 0 (count_open_alerts db (related_alert_ids inc.id db))
    && not cascade

abbrev pub saved : ℕ → StatusPatch → ReviewedIncident → Tables → Tables
saved now p inc db = record db {
  incidents =
      update_first (λ i. i.id == inc.id)
        (λ _. record (noted p inc) { status = "open"; updated_at = now }) db.incidents;
}

abbrev IsTold :
    ℕ → StatusPatch → Bool → ReviewedIncident → Tables → Session × StatusPatchResponse → Type 0
IsTold now p cascade inc db r =
    (r.1.blocked ≡ waits p cascade inc db)
    × (after_request r ≡ (if waits p cascade inc db then saved now p inc db else db))

patch_found-IsTold :
    (now : ℕ) (by : String) (p : StatusPatch) (cascade : Bool) (inc : ReviewedIncident)
    (db : Tables)
    → IsTold now p cascade inc db (patch_found now by p cascade inc (open_session db))
unfolding patch_found cascade_alerts
patch_found-IsTold now by p cascade inc db = elim (Bool-cases (waits p cascade inc db)) [
  | inl y ↦ rw y (refl, refl)
  | inr n ↦ rw n (elim (Bool-cases (wants_close (status_ui_to_db p.status) && cascade)) [
    | inl c ↦ rw c (refl, refl)
    | inr c ↦ rw c (refl, refl)
  ])
]

-- A change of the status of an incident that is there is answered; it is blocked just if it would close
-- the incident, an alert of it is open and there is no cascade; and of the whole request the database
-- keeps the incident, open and with its remarks, if it was blocked, and nothing at all if it was not.
pub patch_incident_status-saved :
    (now : ℕ) (by : String) (id : ℕ) (p : StatusPatch) (cascade : Bool) (inc : ReviewedIncident)
    (db : Tables)
    → find_first (λ i. i.id == id) db.incidents ≡ some inc
    → let r = patch_incident_status now by id p cascade (open_session db) in
      (answer : StatusPatchResponse) × (r.1 ≡ ok answer)
      × (answer.blocked ≡ waits p cascade inc db)
      × (after_request r ≡ (if waits p cascade inc db then saved now p inc db else db))
unfolding patch_incident_status
patch_incident_status-saved now by id p cascade inc db h =
    let t = patch_found-IsTold now by p cascade inc db in
    rw h ((patch_found now by p cascade inc (open_session db)).1, refl, t.0, t.1)

-- Requests of analysts on the incidents, one after the other, each on a session of its own.
pub data Requests (db : Tables) : Tables → Type 0 where
  none_yet : Requests db db
  patched :
      (now : ℕ) (by : String) (id : ℕ) (p : StatusPatch) (cascade : Bool) (later : Tables)
      → Requests db later
      → Requests db (after_request (patch_incident_status now by id p cascade (open_session later)))
  annotated :
      (now : ℕ) (by : String) (id : ℕ) (note : String) (later : Tables)
      → Requests db later
      → Requests db (after_request (add_incident_note now by id note (open_session later)))

-- The incident is neither closed nor a false positive.
abbrev pub IsOpen : ReviewedIncident → Type 0
IsOpen i = wants_close i.status ≡ false

-- Nothing is closed, of the incidents and of the alerts.
abbrev Unclosed : Tables → Tables → Type 0
Unclosed db later = All IsOpen later.incidents × (later.alerts ≡ db.alerts)
