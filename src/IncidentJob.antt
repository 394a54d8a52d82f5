-- ===== src/IncidentJob.antt =====
-- The job of the incidents, app/services/incident_job.py: one run at a time of the clock, or a backfill that
-- runs the engine at one time after the other. A step is a number of seconds, a time of microseconds.
pub mod Slices
use siem_sentinel_xv.Base.{
  ℕ, zero, suc, ◌+◌, ◌*◌, leb, Bool, true, false, not, Option, none, some, List, String, [], ◌∷◌,
  mem, length, ◌=ₛ◌, if◌then◌else◌,
}
use siem_sentinel_xv.Text.{strip, lower}
use siem_sentinel_xv.IncidentEngine.{IncidentRule, IncidentDb, Arithmetic}
use siem_sentinel_xv.IncidentEngine.Run.{load_rules, run_rules, Ran}

-- The row of app/models/service_checkpoint.py for this job: the fields that the job writes into `meta`.
pub record Checkpoint : Type 0 where
  pub last_run_at : Option ℕ
  pub mode : Option String
  pub skipped_reason : Option String
  pub skipped_at : Option ℕ
  pub last_run_now : Option ℕ
  pub backfill_started_at : Option ℕ
  pub backfill_from : Option ℕ
  pub backfill_to : Option ℕ
  pub step_seconds : Option ℕ
  pub backfill_cursor : Option ℕ
  pub backfill_completed_at : Option ℕ

-- What is committed: the tables, the checkpoint and the settings by their keys.
pub record JobDb : Type 0 where
  pub tables : IncidentDb
  pub checkpoint : Checkpoint
  pub settings : String → Option String

-- `_get_bool_setting`, of the setting's row
unfoldable pub bool_of : Option String → Bool → Bool
bool_of none default = default
bool_of (some value) default =
    let raw = lower (strip value) in
    if raw =ₛ "" then default else mem raw ("1" ∷ "true" ∷ "yes" ∷ "y" ∷ "on" ∷ "enabled" ∷ [])

unfoldable pub is_enabled : JobDb → Bool
unfolding bool_of
is_enabled db = bool_of (db.settings "jobs.incidents.enabled") true

abbrev pub disabled_reason : String
disabled_reason = "disabled_via_system_settings"

-- What a job leaves: the committed state and the number of incidents; that an exception has ended it,
-- with what was committed before; or that it is still running when its fuel is spent.
pub data Outcome : Type 0 where
  done : JobDb → ℕ → Outcome
  raised : JobDb → Outcome
  running : Outcome

abbrev mark_skipped : ℕ → Checkpoint → Checkpoint
mark_skipped now c = record c {
  mode = some "realtime";
  skipped_reason = some disabled_reason;
  skipped_at = some now;
  last_run_at = some now;
}

abbrev mark_run : ℕ → Checkpoint → Checkpoint
mark_run now c = record c {
  mode = some "realtime";
  last_run_now = some now;
  last_run_at = some now;
}

-- `run_incidents_job`, at a time
unfoldable pub run_incidents_job : Arithmetic → ℕ → Bool → JobDb → Outcome
unfolding is_enabled
run_incidents_job arithmetic now dry_run db =
    let ran = run_rules arithmetic now (load_rules db.tables) db.tables in
    if not (is_enabled db)
    then done (if dry_run then db else record db { checkpoint = mark_skipped now db.checkpoint }) 0
    else if ran.raised
    then raised db
    else if dry_run
    then done db (length ran.touched)
    else done (record db { tables = ran.db; checkpoint = mark_run now db.checkpoint })
        (length ran.touched)

-- The arguments of a backfill.
pub record Backfill : Type 0 where
  pub from_ts : ℕ
  pub to_ts : ℕ
  pub step_seconds : ℕ
  pub dry_run : Bool

abbrev mark_backfill_skipped : ℕ → Backfill → Checkpoint → Checkpoint
mark_backfill_skipped now job c = record c {
  mode = some "backfill";
  skipped_reason = some disabled_reason;
  skipped_at = some now;
  backfill_from = some job.from_ts;
  backfill_to = some job.to_ts;
  step_seconds = some job.step_seconds;
  last_run_at = some now;
}

abbrev pub mark_started : ℕ → Backfill → Checkpoint → Checkpoint
mark_started now job c = record c {
  mode = some "backfill";
  backfill_started_at = some now;
  backfill_from = some job.from_ts;
  backfill_to = some job.to_ts;
  step_seconds = some job.step_seconds;
}

abbrev pub mark_cursor : ℕ → Checkpoint → Checkpoint
mark_cursor cur c = record c { backfill_cursor = some cur; last_run_at = some cur }

abbrev pub mark_completed : ℕ → Backfill → Checkpoint → Checkpoint
mark_completed now job c = record c {
  backfill_completed_at = some now;
  last_run_at = some job.to_ts;
}

abbrev pub finish : ℕ → Backfill → JobDb → JobDb
finish now job db =
    if job.dry_run then db else record db { checkpoint = mark_completed now job db.checkpoint }

-- What a slice commits.
abbrev pub after_slice : Backfill → ℕ → Ran → JobDb → JobDb
after_slice job cur ran db =
    if job.dry_run
    then db
    else record db { tables = ran.db; checkpoint = mark_cursor cur db.checkpoint }

-- The `while` loop of `run_incidents_backfill` and what follows it; the rules are those of its start.
unfoldable pub backfill_loop :
    Arithmetic → List IncidentRule → ℕ → Backfill → ℕ → ℕ → ℕ → JobDb → Outcome
backfill_loop arithmetic rules now job zero cur total db = running
backfill_loop arithmetic rules now job (suc fuel) cur total db =
    let ran = run_rules arithmetic cur rules db.tables in
    let rest =
      backfill_loop arithmetic rules now job fuel (cur + job.step_seconds * 1000000)
        (total + length ran.touched) (after_slice job cur ran db) in
    if leb cur job.to_ts
    then (if ran.raised then raised db else rest)
    else done (finish now job db) total

-- `run_incidents_backfill`, at a time of the clock
unfoldable pub run_incidents_backfill : Arithmetic → ℕ → ℕ → Backfill → JobDb → Outcome
unfolding backfill_loop is_enabled
run_incidents_backfill arithmetic fuel now job db =
    let skipped =
      if job.dry_run
      then db
      else record db { checkpoint = mark_backfill_skipped now job db.checkpoint } in
    let started =
      if job.dry_run then db else record db { checkpoint = mark_started now job db.checkpoint } in
    if leb job.to_ts job.from_ts
    then done db 0
    else if not (is_enabled db)
    then done skipped 0
    else backfill_loop arithmetic (load_rules db.tables) now job fuel job.from_ts 0 started
