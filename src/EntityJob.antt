-- ===== src/EntityJob.antt =====
-- The entities' risk, app/services/entity_job.py: the rows of app/models/entity.py,
-- entity_score_event.py, service_checkpoint.py and alert.py that the job reads and writes. A time is a
-- number of microseconds. An entity is named by its type and key, which are unique.
pub mod Attrs
pub mod Step
pub mod Run
use siem_sentinel_xv.Base.{
  ℕ, ℤ, pos, leb_ℤ, Bool, true, false, Option, none, some, List, String, [], ◌∷◌, mem, ◌=ₛ◌,
  if◌then◌else◌,
}
use siem_sentinel_xv.Text.{strip, lower}
use siem_sentinel_xv.Value.{Value, Fields}

-- What the job reads of an alert.
pub record ScoredAlert : Type 0 where
  pub id : ℕ
  pub rule_name : String
  pub severity : ℤ
  pub triggered_at : ℕ
  pub evidence : Value
  pub server : Value
  pub source : Value
  pub event_type : Value
  pub group_key : Value

pub record Entity : Type 0 where
  pub entity_type : String
  pub entity_key : String
  pub scope : String
  pub score_current : ℤ
  pub severity : String
  pub first_seen_at : Option ℕ
  pub last_seen_at : Option ℕ
  pub score_updated_at : Option ℕ
  pub attrs : Value

-- EntityScoreEvent, under the entity's type and key.
pub record ScoreEvent : Type 0 where
  pub entity_type : String
  pub entity_key : String
  pub ts : ℕ
  pub delta : ℤ
  pub reason_type : String
  pub reason_id : Option ℕ
  pub meta : Fields

-- The job's ServiceCheckpoint, its meta as the fields that the job writes.
pub record Checkpoint : Type 0 where
  pub last_run_at : Option ℕ
  pub last_alert_id : Option ℕ
  pub mode : Option String
  pub last_batch_at : Option ℕ
  pub skipped_at : Option ℕ
  pub backfill_started_at : Option ℕ
  pub backfill_completed_at : Option ℕ

pub record EntityDb : Type 0 where
  pub alerts : List ScoredAlert
  pub entities : List Entity
  pub score_events : List ScoreEvent
  pub checkpoint : Checkpoint
  pub settings : String → Option String

-- `_severity_from_score`
unfoldable pub severity_from_score : ℤ → String
severity_from_score score =
    if leb_ℤ score (pos 9)
    then "clean"
    else if leb_ℤ score (pos 29)
    then "low"
    else if leb_ℤ score (pos 59)
    then "medium"
    else if leb_ℤ score (pos 79)
    then "high"
    else "critical"

-- `_get_bool_setting`
unfoldable pub bool_setting : EntityDb → String → Bool → Bool
bool_setting db key default = elim (db.settings key) [
  | none ↦ default
  | some value ↦
      let raw = lower (strip value) in
      if raw =ₛ "" then default else mem raw ("1" ∷ "true" ∷ "yes" ∷ "y" ∷ "on" ∷ "enabled" ∷ [])
]
