-- ===== src/Examples/Incidents.antt =====
-- The incident engine at a concrete rule and concrete alerts.
use siem_sentinel_xv.Base.{◌*ℤ◌}
use siem_sentinel_xv.Text.{strip}
use siem_sentinel_xv.Base.{
  ℕ, ◌*◌, ◌≡◌, refl, true, false, none, some, List, String, [], ◌∷◌, keep, pos, arith, ◌=ₛ◌,
}
use siem_sentinel_xv.Value.{
  Value, dict, str, int, list, cons, nil, end, field, get, put, has_key, as_str, get_or_null,
  millionths,
}
use siem_sentinel_xv.Expr.{
  name, constant, compared, test, no_test, ge, safe_eval, eval_tree, eval, allowed, apply_cmp,
  with_names,
}
use siem_sentinel_xv.IncidentEngine.{IncidentRule, AlertRow, IncidentDb, Arithmetic}
use siem_sentinel_xv.IncidentEngine.Buckets.{GroupBucket, key_in, buckets_from}
use siem_sentinel_xv.IncidentEngine.Buckets.Laws.{alerts_at, buckets_from-alerts_at}
use siem_sentinel_xv.IncidentEngine.Record.{aggregate, latest, is_for, write_incident, new_incident}
use siem_sentinel_xv.IncidentEngine.Record.Single.{IsSound}
use siem_sentinel_xv.IncidentEngine.Record.Links.{AreUnique}
use siem_sentinel_xv.IncidentEngine.Turn.{
  group_turn, on_condition, enrol, set_incident_state, rests, primary_value, incident_context,
}
use siem_sentinel_xv.IncidentEngine.Turn.Cooldown.{group_turn-rests}
use siem_sentinel_xv.IncidentEngine.Run.{run_rules}
use siem_sentinel_xv.IncidentEngine.Run.Growth.{HaveGrown, run_rules-HaveGrown}
use siem_sentinel_xv.IncidentEngine.Run.Laws.{run_rules-IsSound}
use siem_sentinel_xv.IncidentEngine.Run.Links.{run_rules-links}
use siem_sentinel_xv.IncidentJob.{JobDb, Backfill, is_enabled, run_incidents_backfill}
use siem_sentinel_xv.IncidentJob.Slices.{Completed, run_incidents_backfill-Completed}

abbrev logins : IncidentRule
logins = record {
  id = 3;
  code = "INC-ACC-01";
  name = "Account under attack";
  enabled = true;
  scope = "local";
  severity_base = pos 60;
  score_bonus = pos 50;
  window_seconds = 1800;
  cooldown_seconds = 3600;
  primary_entity_type = "ip";
  primary_entity_field = "ip_client";
  match = dict (field "alert_codes_any" (list (cons (str "AUTH-003") nil)) end);
  group_by = list (cons (str "ip_client") nil);
  condition = record {
    text = "count >= 2";
    tree = some (compared (name "count") (test ge (constant (int (pos 2))) no_test));
  };
}

abbrev from_ip : String → Value
from_ip ip = dict (field "group_values" (dict (field "ip_client" (str ip) end)) end)

abbrev alert : ℕ → String → AlertRow
alert n ip = record {
  id = n;
  rule_name = "AUTH-003 failed logins";
  severity = pos 7;
  server = some "s1";
  triggered_at = n * 1000000;
  evidence = from_ip ip;
}

abbrev rows : List AlertRow
rows = alert 11 "10.0.0.7" ∷ alert 12 "10.0.0.8" ∷ alert 13 "10.0.0.7" ∷ []

abbrev db : IncidentDb
db = record {
  rules = logins ∷ [];
  alerts = rows;
  states = λ k. none;
  incidents = [];
  links = [];
  next_id = 1;
}

abbrev arithmetic : Arithmetic
arithmetic op a b = none

abbrev group : GroupBucket
group = record {
  key = "10.0.0.7";
  group_values = field "ip_client" (str "10.0.0.7") end;
  alerts = alert 11 "10.0.0.7" ∷ alert 13 "10.0.0.7" ∷ [];
}

buckets_from-alerts_at_example :
    alerts_at "10.0.0.7" (buckets_from ("ip_client" ∷ []) rows [])
    ≡ keep (λ a. key_in ("ip_client" ∷ []) a =ₛ "10.0.0.7") rows
buckets_from-alerts_at_example = buckets_from-alerts_at ("ip_client" ∷ []) "10.0.0.7" rows

run_rules-IsSound_example :
    IsSound (run_rules arithmetic (20 * 1000000) (logins ∷ []) db).db.incidents
run_rules-IsSound_example =
    run_rules-IsSound arithmetic (20 * 1000000) (logins ∷ []) db
      (record { single = tt; scores = tt })

-- The tables after a first run, with the incident of the two alerts.
abbrev enrolled : IncidentDb
enrolled = (run_rules arithmetic (20 * 1000000) (logins ∷ []) db).db

run_rules-HaveGrown_example :
    HaveGrown enrolled.incidents
      (run_rules arithmetic (4000 * 1000000) (logins ∷ []) enrolled).db.incidents
run_rules-HaveGrown_example = run_rules-HaveGrown arithmetic (4000 * 1000000) (logins ∷ []) enrolled

run_rules-links_example : AreUnique (run_rules arithmetic (20 * 1000000) (logins ∷ []) db).db.links
run_rules-links_example =
    run_rules-links arithmetic (20 * 1000000) (logins ∷ []) db
      ((refl, (refl, tt)), ((refl, tt), (tt, tt))) tt

-- Two alerts of one address make an incident.
first_incident :
    (group_turn arithmetic (20 * 1000000) logins group db).1
    ≡ some (
        new_incident logins "10.0.0.7" group.group_values "10.0.0.7"
          (aggregate (20 * 1000000) group.alerts)
          1)
unfolding group_turn on_condition enrol set_incident_state rests primary_value incident_context
    write_incident latest is_for aggregate safe_eval eval_tree eval allowed apply_cmp with_names get
    put has_key as_str get_or_null strip millionths ◌*ℤ◌
first_incident = refl

group_turn-rests_example :
    ((group_turn arithmetic
        (30 * 1000000)
        logins
        group
        (group_turn arithmetic (20 * 1000000) logins group db).0).1
      ≡ none)
    × ((group_turn arithmetic
          (30 * 1000000)
          logins
          group
          (group_turn arithmetic (20 * 1000000) logins group db).0).0.incidents
        ≡ (group_turn arithmetic (20 * 1000000) logins group db).0.incidents)
    × ((group_turn arithmetic
          (30 * 1000000)
          logins
          group
          (group_turn arithmetic (20 * 1000000) logins group db).0).0.links
        ≡ (group_turn arithmetic (20 * 1000000) logins group db).0.links)
group_turn-rests_example =
    group_turn-rests arithmetic (20 * 1000000) (30 * 1000000) logins group group db
      (new_incident logins "10.0.0.7" group.group_values "10.0.0.7"
        (aggregate (20 * 1000000) group.alerts) 1)
      first_incident (omega arith) refl

abbrev job : Backfill
job = record { from_ts = 0; to_ts = 25; step_seconds = 1; dry_run = false }

abbrev job_db : JobDb
job_db = record {
  tables = db;
  checkpoint = record {
    last_run_at = none;
    mode = none;
    skipped_reason = none;
    skipped_at = none;
    last_run_now = none;
    backfill_started_at = none;
    backfill_from = none;
    backfill_to = none;
    step_seconds = none;
    backfill_cursor = none;
    backfill_completed_at = none;
  };
  settings = λ k. none;
}

run_incidents_backfill-Completed_example :
    Completed (1 * 1000000) 0 25 (run_incidents_backfill arithmetic 40 9 job job_db)
unfolding is_enabled
run_incidents_backfill-Completed_example =
    run_incidents_backfill-Completed arithmetic 40 9 job job_db refl (omega arith) (omega arith)
      refl (omega arith)
