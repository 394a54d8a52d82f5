-- ===== src/EntityJob/Run/Whole.antt =====
-- The whole of `run_entities_job`, app/services/entity_job.py.
use siem_sentinel_xv.Base.{
  ℕ, zero, suc, ◌<◌, ltb, ◌≡◌, refl, sym, ap, subst, ◌∙◌, true, false, Option, none, some, some_inj,
  List, [], ◌∷◌, All, length, length-keep, arith, Bool-cases, inl, inr,
}
use siem_sentinel_xv.EntityJob.{ScoredAlert, EntityDb, bool_setting}
use siem_sentinel_xv.EntityJob.Step.{score_alerts}
use siem_sentinel_xv.EntityJob.Step.Bands.{IsBanded, score_alerts-IsBanded}
use siem_sentinel_xv.EntityJob.Run.{
  Job, Progress, insert_by_id, by_id, pending, next_batch, after_batch, run_batches, exceeds,
  on_batch, start_of, finish, skip, run_entities_job,
}
use siem_sentinel_xv.EntityJob.Run.Order.{HaveOwnIds, by_id-IsAscending}
use siem_sentinel_xv.EntityJob.Run.Batches.{left, run_batches-returns, run_batches-score_alerts}

length-insert_by_id :
    (a : ScoredAlert) (alerts : List ScoredAlert)
    → length (insert_by_id a alerts) ≡ suc (length alerts)
unfolding insert_by_id
length-insert_by_id a [] = refl
length-insert_by_id a (b ∷ alerts) = ground (arith, length-insert_by_id a alerts)

length-by_id : (alerts : List ScoredAlert) → length (by_id alerts) ≡ length alerts
unfolding by_id
length-by_id [] = refl
length-by_id (a ∷ alerts) = length-insert_by_id a (by_id alerts) ∙ ap suc (length-by_id alerts)

-- The loop as the job begins it.
abbrev pub begin : Job → EntityDb → Progress
begin job db = record { db = db; last = start_of job db; batches = 0; touched = 0 }

enough : (job : Job) (db : EntityDb) → length (left (begin job db)) < suc (length db.alerts)
enough job db =
    omega (
      arith,
      length-by_id db.alerts,
      length-keep (λ a. ltb (start_of job db) a.id) (by_id db.alerts),
    )

after_batch-IsBanded :
    (job : Job) (p : Progress) (batch : List ScoredAlert)
    → All IsBanded p.db.entities
    → All IsBanded (after_batch job p batch).db.entities
unfolding after_batch
after_batch-IsBanded job p batch h = elim (Bool-cases job.dry_run) [
  | inl y ↦ rw y h
  | inr n ↦ rw n (score_alerts-IsBanded job.now p.db batch h)
]

on_batch-IsBanded :
    (job : Job) (p q : Progress) (batch : List ScoredAlert) (rest : Option Progress)
    → All IsBanded p.db.entities
    → (rest ≡ some q → All IsBanded q.db.entities)
    → on_batch job p batch rest ≡ some q
    → All IsBanded q.db.entities
on_batch-IsBanded job p q [] rest b h e = subst (λ r. All IsBanded r.db.entities) (some_inj e) b
on_batch-IsBanded job p q (a ∷ more) rest b h e =
    elim (Bool-cases (exceeds job.max_batches (suc p.batches))) [
      | inl y ↦ subst (λ (r : Progress). All IsBanded r.db.entities) (some_inj (rw y at e)) b
      | inr n ↦ h (rw n at e)
    ]

run_batches-IsBanded :
    (fuel : ℕ) (job : Job) (p q : Progress)
    → All IsBanded p.db.entities
    → run_batches fuel job p ≡ some q
    → All IsBanded q.db.entities
unfolding run_batches
run_batches-IsBanded zero job p q b e = absurd (ground arith)
run_batches-IsBanded (suc fuel) job p q b e =
    on_batch-IsBanded job p q (next_batch job p.last p.db) _ b
      (run_batches-IsBanded fuel job _ q (after_batch-IsBanded job p _ b)) e

finish-entities :
    (job : Job) (p : Progress)
    → ((finish job p).0.entities ≡ p.db.entities)
      × ((finish job p).0.score_events ≡ p.db.score_events)
unfolding finish
finish-entities job p = ground arith

skip-entities : (job : Job) (db : EntityDb) → (skip job db).entities ≡ db.entities
skip-entities job db = ground arith

-- If the alerts have distinct ids, every entity's score lies within 0 and 100 and its severity is the
-- score's, then the job ends, whatever its arguments, and it is so of every entity afterwards.
pub run_entities_job-IsBanded :
    (job : Job) (db : EntityDb)
    → HaveOwnIds db.alerts
    → All IsBanded db.entities
    → (out : EntityDb × ℕ) × (run_entities_job job db ≡ some out) × All IsBanded out.0.entities
unfolding run_entities_job
run_entities_job-IsBanded job db d b =
    elim (Bool-cases (bool_setting db "jobs.entities.enabled" true)) [
      | inr n ↦ ((skip job db, 0), rw n refl, subst (All IsBanded) (sym (skip-entities job db)) b)
      | inl y ↦
          let ran =
            run_batches-returns (suc (length db.alerts)) job (begin job db)
              (by_id-IsAscending db.alerts d) (enough job db) in
          (
            finish job ran.0,
            rw (y, ran.1) refl,
            subst (All IsBanded) (sym (finish-entities job ran.0).0)
                (run_batches-IsBanded (suc (length db.alerts)) job (begin job db) ran.0 b ran.1),
          )
    ]

-- If the alerts have distinct ids and the job is enabled, not dry, not bounded in its batches, and its
-- batches are not empty, then it ends, and the entities and the ledger are those of scoring the alerts
-- after its start one by one in the order of their ids.
pub run_entities_job-score_alerts :
    (job : Job) (db : EntityDb)
    → HaveOwnIds db.alerts
    → bool_setting db "jobs.entities.enabled" true ≡ true
    → job.dry_run ≡ false
    → job.max_batches ≡ none
    → 0 < job.batch_size
    → (out : EntityDb × ℕ) × (run_entities_job job db ≡ some out)
      × (out.0.entities
          ≡ (score_alerts job.now db (pending (start_of job db) (by_id db.alerts))).entities)
      × (out.0.score_events
          ≡ (score_alerts job.now db (pending (start_of job db) (by_id db.alerts))).score_events)
unfolding run_entities_job
run_entities_job-score_alerts job db own y d m b =
    let ran =
      run_batches-score_alerts (suc (length db.alerts)) job (begin job db)
        (by_id-IsAscending db.alerts own) (enough job db) d m b in
    (
      finish job ran.0,
      rw (y, ran.1) refl,
      (finish-entities job ran.0).0 ∙ ran.2.0,
      (finish-entities job ran.0).1 ∙ ran.2.1,
    )
