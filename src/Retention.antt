-- ===== src/Retention.antt =====
-- The purge of old rows and files, app/services/retention_service.py. A time is a number of microseconds;
-- the files under the directory of uploads are a list of their times, with whether each can be deleted. The
-- purge is one transaction: an exception of the database rolls it back.
pub mod Ids
pub mod Purge
use siem_sentinel_xv.Base.{
  ℕ, ◌+◌, ◌*◌, ltb, ◌==◌, Bool, true, false, not, ◌&&◌, ◌||◌, Option, none, some, List, String, [],
  ◌∷◌, map, length, keep, any, find_first, mem, ◌=ₛ◌, if◌then◌else◌,
}
use siem_sentinel_xv.Value.{Value, str, Fields, dict_of}
use siem_sentinel_xv.IncidentEngine.{Link}

-- `RetentionPolicyConfig`
pub record RetentionPolicyConfig : Type 0 where
  pub uploaded_logs_days : ℕ
  pub opensearch_events_days : ℕ
  pub alerts_days : ℕ
  pub entities_days : ℕ
  pub incidents_days : ℕ
  pub evidence_s3_days : ℕ
  pub protect_open_incidents : Bool

-- `DEFAULT_RETENTION_CONFIG`
abbrev pub default_retention_config : RetentionPolicyConfig
default_retention_config = record {
  uploaded_logs_days = 30;
  opensearch_events_days = 90;
  alerts_days = 180;
  entities_days = 180;
  incidents_days = 365;
  evidence_s3_days = 365;
  protect_open_incidents = true;
}

-- app/models/system_setting.py: a setting is a key and a text.
pub record SystemSetting : Type 0 where
  pub key : String
  pub value : String

abbrev pub or_default : Option RetentionPolicyConfig → RetentionPolicyConfig
or_default none = default_retention_config
or_default (some config) = config

abbrev pub read_config :
    (Fields → Option RetentionPolicyConfig) → Option Fields → RetentionPolicyConfig
read_config parse none = default_retention_config
read_config parse (some fields) = or_default (parse fields)

abbrev pub setting_dict : Option SystemSetting → Option Fields
setting_dict none = none
setting_dict (some row) = dict_of (str row.value)

-- `get_retention_config`, with the checks of the schema
unfoldable pub get_retention_config :
    (Fields → Option RetentionPolicyConfig) → List SystemSetting → RetentionPolicyConfig
get_retention_config parse rows =
    read_config parse (setting_dict (find_first (λ r. r.key =ₛ "retention_policy") rows))

pub record OldAlert : Type 0 where
  pub id : ℕ
  pub triggered_at : ℕ

pub record OldIncident : Type 0 where
  pub id : ℕ
  pub status : String
  pub closed_at : Option ℕ

pub record OldEntity : Type 0 where
  pub id : ℕ
  pub updated_at : ℕ

pub record LogFile : Type 0 where
  pub mtime : ℕ
  pub deletable : Bool

pub record Stock : Type 0 where
  pub alerts : List OldAlert
  pub incidents : List OldIncident
  pub links : List Link
  pub entities : List OldEntity
  pub files : List LogFile

-- `RetentionPurgeSummary`, of which the numbers that are not always 0
pub record RetentionPurgeSummary : Type 0 where
  pub dry_run : Bool
  pub uploaded_logs_files : ℕ
  pub alerts_purged : ℕ
  pub entities_purged : ℕ
  pub incidents_purged : ℕ

-- `t < now - timedelta(days=days)`
abbrev pub is_older : ℕ → ℕ → ℕ → Bool
is_older now days t = ltb (t + days * 86400 * 1000000) now

abbrev pub is_in : ℕ → List ℕ → Bool
is_in id ids = any (λ i. i == id) ids

-- The ids of the incidents that count as open here.
unfoldable pub open_incident_ids : List OldIncident → List ℕ
open_incident_ids rows =
    map (λ i. i.id) (keep (λ i. mem i.status ("open" ∷ "in_investigation" ∷ [])) rows)

unfoldable pub protected_alert_ids : List OldIncident → List Link → List ℕ
unfolding open_incident_ids
protected_alert_ids incidents links =
    map (λ l. l.alert_id) (keep (λ l. is_in l.incident_id (open_incident_ids incidents)) links)

abbrev pub closed_before : ℕ → ℕ → Option ℕ → Bool
closed_before now days none = false
closed_before now days (some t) = is_older now days t

-- The incidents that are to go.
abbrev pub is_old_incident : RetentionPolicyConfig → ℕ → OldIncident → Bool
is_old_incident config now i =
    closed_before now config.incidents_days i.closed_at
    && mem i.status ("resolved" ∷ "false_positive" ∷ "closed" ∷ [])

-- The alerts that are to go, by the incidents and links that are there.
unfoldable pub is_old_alert : RetentionPolicyConfig → ℕ → Stock → OldAlert → Bool
unfolding protected_alert_ids
is_old_alert config now db a =
    is_older now config.alerts_days a.triggered_at
    && (if config.protect_open_incidents
        then not (is_in a.id (protected_alert_ids db.incidents db.links))
        else true)

abbrev pub is_old_entity : RetentionPolicyConfig → ℕ → OldEntity → Bool
is_old_entity config now e = is_older now config.entities_days e.updated_at

abbrev pub is_old_file : RetentionPolicyConfig → ℕ → LogFile → Bool
is_old_file config now f = is_older now config.uploaded_logs_days f.mtime

-- `preview_retention_purge`
unfoldable pub preview_retention_purge : RetentionPolicyConfig → ℕ → Stock → RetentionPurgeSummary
unfolding is_old_alert
preview_retention_purge config now db = record {
  dry_run = true;
  uploaded_logs_files = length (keep (is_old_file config now) db.files);
  alerts_purged = length (keep (is_old_alert config now db) db.alerts);
  entities_purged = length (keep (is_old_entity config now) db.entities);
  incidents_purged = length (keep (is_old_incident config now) db.incidents);
}

-- The old incidents go with their links.
unfoldable pub purge_incidents : RetentionPolicyConfig → ℕ → Stock → Stock
purge_incidents config now db =
    let ids = map (λ i. i.id) (keep (is_old_incident config now) db.incidents) in
    record db {
      incidents = keep (λ i. not (is_in i.id ids)) db.incidents;
      links = keep (λ l. not (is_in l.incident_id ids)) db.links;
    }

-- The old alerts go, and by the cascade of the tables their links.
unfoldable pub purge_alerts : RetentionPolicyConfig → ℕ → Stock → Stock
unfolding is_old_alert
purge_alerts config now db =
    let ids = map (λ a. a.id) (keep (is_old_alert config now db) db.alerts) in
    record db {
      alerts = keep (λ a. not (is_in a.id ids)) db.alerts;
      links = keep (λ l. not (is_in l.alert_id ids)) db.links;
    }

unfoldable pub purge_entities : RetentionPolicyConfig → ℕ → Stock → Stock
purge_entities config now db =
    let ids = map (λ e. e.id) (keep (is_old_entity config now) db.entities) in
    record db { entities = keep (λ e. not (is_in e.id ids)) db.entities }

abbrev pub is_removed : RetentionPolicyConfig → ℕ → LogFile → Bool
is_removed config now f = is_old_file config now f && f.deletable

-- `execute_retention_purge`, without a failure of the database
unfoldable pub execute_retention_purge :
    RetentionPolicyConfig → ℕ → Stock → Stock × RetentionPurgeSummary
unfolding is_old_alert purge_incidents purge_alerts purge_entities
execute_retention_purge config now db =
    let db1 = purge_incidents config now db in
    let db2 = purge_alerts config now db1 in
    let db3 = purge_entities config now db2 in
    (
      record db3 { files = keep (λ f. not (is_removed config now f)) db3.files },
      record {
        dry_run = false;
        uploaded_logs_files = length (keep (is_removed config now) db.files);
        alerts_purged = length (keep (is_old_alert config now db1) db1.alerts);
        entities_purged = length (keep (is_old_entity config now) db.entities);
        incidents_purged = length (keep (is_old_incident config now) db.incidents);
      },
    )
