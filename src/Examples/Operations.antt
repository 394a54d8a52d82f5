-- ===== src/Examples/Operations.antt =====
-- What analysts, the purge and the engine's worker do at concrete inputs.
use siem_sentinel_xv.Base.{
  ℕ, ◌-◌, ◌*◌, ◌≡◌, refl, pos, Bool, true, false, not, none, some, String, [], ◌∷◌, keep, All,
  if◌then◌else◌, arith,
}
use siem_sentinel_xv.Text.{strip, lower}
use siem_sentinel_xv.Http.{ok}
use siem_sentinel_xv.Review.{
  ReviewedIncident, ReviewedAlert, Tables, StatusPatch, StatusPatchResponse, open_session,
  patch_incident_status, add_incident_note, after_request, status_ui_to_db, status_db_to_ui,
  related_alert_ids, count_open_alerts,
}
use siem_sentinel_xv.Review.Requests.{waits, saved, patch_incident_status-saved}
use siem_sentinel_xv.Review.Listing.{IncidentQuery, IncidentPage, list_incidents}
use siem_sentinel_xv.Review.Shown.{IsPage, shown_open, is_high, is_triage, list_incidents-shown}
use siem_sentinel_xv.Retention.{
  Stock, default_retention_config, is_old_alert, execute_retention_purge, preview_retention_purge,
  protected_alert_ids, open_incident_ids,
}
use siem_sentinel_xv.Retention.Purge.{Agree, execute_retention_purge-previewed}
use siem_sentinel_xv.EngineWorker.{WorkEvent, Settings}
use siem_sentinel_xv.EngineWorker.Cycle.{Outside, Worker, work_off}
use siem_sentinel_xv.EngineWorker.Cycle.Budget.{is_processing, work_off-none_processing}
use siem_sentinel_xv.EngineWorker.Cycle.Claims.{claimable}
use siem_sentinel_xv.EngineWorker.Cycle.Count.{work_off-claimable}

abbrev alert : ℕ → String → ReviewedAlert
alert id status = record {
  id = id;
  status = status;
  disposition = none;
  resolution_note = none;
  resolved_at = none;
  resolved_by = none;
}

abbrev case : ReviewedIncident
case = record {
  id = 3;
  server = some "web1";
  status = "triage";
  score = pos 70;
  last_activity_at = 50;
  updated_at = 50;
  closed_at = none;
  disposition = none;
  resolution_note = none;
  resolved_by = none;
  resolved_at = none;
  timeline = [];
  notes = [];
}

abbrev tables : Tables
tables = record {
  incidents = case ∷ [];
  alerts = alert 1 "open" ∷ alert 2 "closed" ∷ alert 9 "open" ∷ [];
  links = record { incident_id = 3; alert_id = 1 } ∷ record { incident_id = 3; alert_id = 2 } ∷ [];
  entities = [];
  entity_links = [];
}

abbrev resolved_patch : StatusPatch
resolved_patch = record {
  status = "resolved";
  category = none;
  disposition = some "handled";
  resolution_note = none;
}

patch_incident_status-saved_example :
    (answer : StatusPatchResponse) × ((patch_incident_status 60 "ana" 3 resolved_patch true
        (open_session tables)).1
      ≡ ok answer)
    × (answer.blocked ≡ waits resolved_patch true case tables)
    × (after_request (patch_incident_status 60 "ana" 3 resolved_patch true (open_session tables))
        ≡ (if waits resolved_patch true case tables
            then saved 60 resolved_patch case tables
            else tables))
patch_incident_status-saved_example =
    patch_incident_status-saved 60 "ana" 3 resolved_patch true case tables refl

-- A change that is not blocked is lost.
not_saved : waits resolved_patch true case tables ≡ false
unfolding status_ui_to_db status_db_to_ui related_alert_ids count_open_alerts lower strip
not_saved = refl

-- The tables after the change and a note.
abbrev annotated_tables : Tables
annotated_tables = after_request (
    add_incident_note 70 "ana" 3 "seen" (
      open_session (
        after_request
          (patch_incident_status 60 "ana" 3 resolved_patch true (open_session tables)))))

-- An alert that a cascade would have closed counts as open.
closed_by_incident : status_db_to_ui "closed_by_incident" ≡ "open"
unfolding status_db_to_ui lower strip
closed_by_incident = refl

abbrev query : IncidentQuery
query = record {
  server = none;
  severity = "high";
  status = "open";
  days = 7;
  limit = 50;
  offset = 0;
}

list_incidents-shown_example :
    (page : IncidentPage) × (list_incidents 60 query tables ≡ ok page)
    × IsPage 60 query tables.incidents page
list_incidents-shown_example =
    list_incidents-shown 60 query tables refl shown_open is_high (is_triage, tt)

abbrev day : ℕ
day = 86400 * 1000000

abbrev stock : Stock
stock = record {
  alerts =
      record { id = 1; triggered_at = 0 }
      ∷ record { id = 2; triggered_at = 0 }
      ∷ record { id = 4; triggered_at = 390 * day }
      ∷ [];
  incidents =
      record { id = 7; status = "open"; closed_at = none }
      ∷ record { id = 8; status = "triage"; closed_at = none }
      ∷ record { id = 9; status = "closed"; closed_at = some 0 }
      ∷ [];
  links = record { incident_id = 7; alert_id = 1 } ∷ record { incident_id = 8; alert_id = 2 } ∷ [];
  entities = [];
  files = record { mtime = 0; deletable = false } ∷ [];
}

execute_retention_purge-previewed_example :
    ((execute_retention_purge default_retention_config (400 * day) stock).0.alerts
      ≡ keep (λ a. not (is_old_alert default_retention_config (400 * day) stock a)) stock.alerts)
    × Agree
        (execute_retention_purge default_retention_config (400 * day) stock).1
        (preview_retention_purge default_retention_config (400 * day) stock)
execute_retention_purge-previewed_example =
    execute_retention_purge-previewed default_retention_config (400 * day) stock
      (refl, (refl, (refl, tt))) (refl, (refl, (refl, tt)))

-- An alert of an incident in triage is not protected, one of an open incident is.
purged :
    keep (λ a. not (is_old_alert default_retention_config (400 * day) stock a)) stock.alerts
    ≡ record { id = 1; triggered_at = 0 } ∷ record { id = 4; triggered_at = 390 * day } ∷ []
unfolding is_old_alert protected_alert_ids open_incident_ids
purged = refl

abbrev event : String → WorkEvent
event id = record {
  id = id;
  timestamp_utc = 5;
  created_at = 10;
  log_upload_id = none;
  engine_status = "pending";
  engine_claimed_at = none;
  engine_processed_at = none;
  engine_attempts = 0;
  engine_error = none;
}

-- An engine that raises on each second event.
abbrev outside : Outside Bool
outside = record {
  on_event = λ s e. (not s, if s then none else some (1 ∷ []));
  creators = λ k. none;
  notifies = λ alerts user. true;
  begins_again = false;
}

abbrev worker : Worker Bool
worker = record {
  engine = false;
  work = record { events = event "a" ∷ event "b" ∷ event "c" ∷ []; uploads = [] };
  notified = [];
  cycle = 0;
}

abbrev settings : Settings
settings = record {
  enabled = true;
  max_per_cycle = 2;
  stale_seconds = 60;
  lookback_hours = 0;
  claim_batch_size = 1;
}

work_off-none_processing_example :
    All (λ e. is_processing e ≡ false) (work_off outside 20 settings 2 [] worker).work.events
work_off-none_processing_example =
    work_off-none_processing outside 20 settings 2 worker (refl, (refl, (refl, tt)))

work_off-claimable_example :
    claimable 20 0 (work_off outside 20 settings 2 [] worker).work.events
    ≡ claimable 20 0 worker.work.events - 2
work_off-claimable_example =
    work_off-claimable outside 20 settings (omega arith) 2 worker
      ((refl, (refl, tt)), ((refl, tt), (tt, tt)))
