-- ===== src/Examples/Entities.antt =====
-- The entities job at concrete alerts.
use siem_sentinel_xv.Base.{
  ℕ, ◌*◌, ◌≡◌, refl, ℤ, pos, false, none, some, String, [], ◌∷◌, All, arith, map,
}
use siem_sentinel_xv.Text.{strip, lower}
use siem_sentinel_xv.Value.{dict, str, end, field, get, get_or_null, as_str, put}
use siem_sentinel_xv.IncidentEngine.Match.{extract_group_values}
use siem_sentinel_xv.EntityJob.{ScoredAlert, EntityDb, bool_setting, severity_from_score}
use siem_sentinel_xv.EntityJob.Attrs.{pick_primary_entity, extract_attrs, pick, merge_attrs}
use siem_sentinel_xv.EntityJob.Step.{
  score_alerts, score_alert, score_picked, apply_decay, due_decay, decay_of, find_entity,
  save_entity, entity_for, add_severity,
}
use siem_sentinel_xv.EntityJob.Step.Bands.{IsBanded}
use siem_sentinel_xv.EntityJob.Run.{Job, pending, by_id, insert_by_id, start_of, run_entities_job}
use siem_sentinel_xv.EntityJob.Run.Whole.{run_entities_job-IsBanded, run_entities_job-score_alerts}

abbrev alert : ℕ → ℤ → ScoredAlert
alert n severity = record {
  id = n;
  rule_name = "ssh brute force";
  severity = severity;
  triggered_at = n * 1000000;
  evidence = dict (field "group_values" (dict (field "ip_client" (str "10.0.0.7") end)) end);
  server = str "s1";
  source = str "SSH_AUTH";
  event_type = str "auth_login";
  group_key = str "10.0.0.7";
}

abbrev db : EntityDb
db = record {
  alerts = alert 2 (pos 70) ∷ alert 1 (pos 15) ∷ alert 3 (pos 70) ∷ [];
  entities = [];
  score_events = [];
  checkpoint = record {
    last_run_at = none;
    last_alert_id = some 1;
    mode = none;
    last_batch_at = none;
    skipped_at = none;
    backfill_started_at = none;
    backfill_completed_at = none;
  };
  settings = λ k. none;
}

abbrev job : Job
job = record {
  now = 10000000;
  batch_size = 1;
  from_alert_id = none;
  from_triggered_at = none;
  dry_run = false;
  max_batches = none;
}

-- The two alerts after the checkpoint make one entity, whose score stops at 100.
capped :
    map {B = String × ℤ × String}
      (λ e. (e.entity_key, e.score_current, e.severity))
      (score_alerts job.now db (pending (start_of job db) (by_id db.alerts))).entities
    ≡ ("10.0.0.7", pos 100, "critical") ∷ []
unfolding score_alerts score_alert score_picked apply_decay due_decay decay_of find_entity
    save_entity entity_for add_severity pick_primary_entity extract_attrs pick merge_attrs
    extract_group_values get get_or_null as_str put strip lower severity_from_score by_id
    insert_by_id start_of
capped = refl

run_entities_job-IsBanded_example :
    (out : EntityDb × ℕ) × (run_entities_job job db ≡ some out) × All IsBanded out.0.entities
run_entities_job-IsBanded_example =
    run_entities_job-IsBanded job db ((refl, (refl, tt)), ((refl, tt), (tt, tt))) tt

run_entities_job-score_alerts_example :
    (out : EntityDb × ℕ) × (run_entities_job job db ≡ some out)
    × (out.0.entities
        ≡ (score_alerts job.now db (pending (start_of job db) (by_id db.alerts))).entities)
    × (out.0.score_events
        ≡ (score_alerts job.now db (pending (start_of job db) (by_id db.alerts))).score_events)
unfolding bool_setting
run_entities_job-score_alerts_example =
    run_entities_job-score_alerts job db ((refl, (refl, tt)), ((refl, tt), (tt, tt))) refl refl refl
      (omega arith)
