-- ===== src/EntityJob/Run.antt =====
-- `run_entities_job` of app/services/entity_job.py: the alerts after the checkpoint, batch by batch. Ids
-- of alerts start at 1.
pub mod Order
pub mod Batches
pub mod Whole
use siem_sentinel_xv.Base.{
  ℕ, zero, suc, ◌+◌, ◌-◌, leb, ltb, Bool, true, false, not, ◌&&◌, Option, none, some, List, String,
  [], ◌∷◌, ◌++◌, keep, length, if◌then◌else◌,
}
use siem_sentinel_xv.EntityJob.{ScoredAlert, EntityDb, Checkpoint, bool_setting}
use siem_sentinel_xv.EntityJob.Step.{score_alerts}

-- The arguments of the job.
pub record Job : Type 0 where
  pub now : ℕ
  pub batch_size : ℕ
  pub from_alert_id : Option ℕ
  pub from_triggered_at : Option ℕ
  pub dry_run : Bool
  pub max_batches : Option ℕ

unfoldable pub insert_by_id : ScoredAlert → List ScoredAlert → List ScoredAlert
insert_by_id a [] = a ∷ []
insert_by_id a (b ∷ alerts) =
    let rest = insert_by_id a alerts in if leb a.id b.id then a ∷ b ∷ alerts else b ∷ rest

-- order_by(Alert.id.asc())
unfoldable pub by_id : List ScoredAlert → List ScoredAlert
by_id [] = []
by_id (a ∷ alerts) = insert_by_id a (by_id alerts)

abbrev pub take : ℕ → List ScoredAlert → List ScoredAlert
take zero alerts = []
take (suc n) [] = []
take (suc n) (a ∷ alerts) = a ∷ take n alerts

-- Alert.id > last
abbrev pub pending : ℕ → List ScoredAlert → List ScoredAlert
pending last alerts = keep (λ a. ltb last a.id) alerts

-- The id of the last alert of a batch.
abbrev pub last_id : ℕ → List ScoredAlert → ℕ
last_id last [] = last
last_id last (a ∷ alerts) = last_id a.id alerts

unfoldable pub next_batch : Job → ℕ → EntityDb → List ScoredAlert
next_batch job last db = take job.batch_size (pending last (by_id db.alerts))

-- Where the loop stands.
pub record Progress : Type 0 where
  pub db : EntityDb
  pub last : ℕ
  pub batches : ℕ
  pub touched : ℕ

abbrev pub exceeds : Option ℕ → ℕ → Bool
exceeds none n = false
exceeds (some m) n = ltb m n

abbrev pub mode_of : Job → String
mode_of job = elim job.from_triggered_at [
  | none ↦ elim job.from_alert_id [ none ↦ "realtime" | some n ↦ "backfill" ]
  | some t ↦ "backfill"
]

abbrev pub or_now : ℕ → Option ℕ → Option ℕ
or_now now none = some now
or_now now (some t) = some t

abbrev pub started : Job → Checkpoint → Option ℕ
started job c = elim job.from_triggered_at [
  | none ↦ elim job.from_alert_id [
    | none ↦ c.backfill_started_at
    | some n ↦ or_now job.now c.backfill_started_at
  ]
  | some t ↦ or_now job.now c.backfill_started_at
]

unfoldable pub checkpoint_after : Job → ℕ → Checkpoint → Checkpoint
checkpoint_after job last c = record c {
  last_run_at = some job.now;
  last_alert_id = some last;
  mode = some (mode_of job);
  last_batch_at = some job.now;
  backfill_started_at = started job c;
}

-- A batch is committed, or rolled back in a dry run. Every line of the ledger is an alert touched.
unfoldable pub after_batch : Job → Progress → List ScoredAlert → Progress
after_batch job p batch =
    let scored = score_alerts job.now p.db batch in
    let last = last_id p.last batch in
    record {
      db =
          if job.dry_run
          then p.db
          else record scored { checkpoint = checkpoint_after job last scored.checkpoint };
      last = last;
      batches = suc p.batches;
      touched = p.touched + (length scored.score_events - length p.db.score_events);
    }

-- A turn of the loop, with what the rest of the loop comes to.
abbrev pub on_batch : Job → Progress → List ScoredAlert → Option Progress → Option Progress
on_batch job p [] rest = some p
on_batch job p (a ∷ more) rest =
    if exceeds job.max_batches (suc p.batches)
    then some (record p { batches = suc p.batches })
    else rest

-- The loop, on fuel: none if it runs out.
unfoldable pub run_batches : ℕ → Job → Progress → Option Progress
run_batches zero job p = none
run_batches (suc fuel) job p =
    let batch = next_batch job p.last p.db in
    on_batch job p batch (run_batches fuel job (after_batch job p batch))

abbrev pub or_zero : Option ℕ → ℕ
or_zero none = 0
or_zero (some n) = n

abbrev pub before_first : ℕ → List ScoredAlert → ℕ
before_first start [] = start
before_first start (a ∷ alerts) = a.id - 1

-- The id after which the job begins.
unfoldable pub start_of : Job → EntityDb → ℕ
start_of job db = elim job.from_alert_id [
  | some n ↦ n
  | none ↦ elim job.from_triggered_at [
    | none ↦ or_zero db.checkpoint.last_alert_id
    | some t ↦
        before_first (or_zero db.checkpoint.last_alert_id)
          (by_id (keep (λ a. leb t a.triggered_at) db.alerts))
  ]
]

abbrev pub is_backfill : Job → Bool
is_backfill job = elim job.from_triggered_at [
  | none ↦ elim job.from_alert_id [ none ↦ false | some n ↦ true ]
  | some t ↦ true
]

-- The end of a backfill is noted in the checkpoint.
unfoldable pub finish : Job → Progress → EntityDb × ℕ
finish job p = (
  if is_backfill job && not job.dry_run
      then record p.db {
        checkpoint = record p.db.checkpoint {
          last_run_at = some job.now;
          last_alert_id = some p.last;
          mode = some (mode_of job);
          backfill_started_at = started job p.db.checkpoint;
          backfill_completed_at = some job.now;
        };
      }
      else p.db,
  p.touched,
)

abbrev pub skip : Job → EntityDb → EntityDb
skip job db = if job.dry_run then db else record db {
  checkpoint = record db.checkpoint {
    last_run_at = some job.now;
    mode = some "realtime";
    skipped_at = some job.now;
  };
}

-- `run_entities_job`: the tables and the number of touches, none if the fuel does not do
unfoldable pub run_entities_job : Job → EntityDb → Option (EntityDb × ℕ)
run_entities_job job db =
    if not (bool_setting db "jobs.entities.enabled" true)
    then some (skip job db, 0)
    else elim (run_batches (suc (length db.alerts)) job
        (record { db = db; last = start_of job db; batches = 0; touched = 0 })) [
          | none ↦ none
          | some p ↦ some (finish job p)
        ]
