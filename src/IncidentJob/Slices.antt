-- ===== src/IncidentJob/Slices.antt =====
-- When a backfill of app/services/incident_job.py ends.
use siem_sentinel_xv.Base.{
  ℕ, zero, suc, ◌+◌, ◌-◌, ◌*◌, ◌≤◌, ◌<◌, leb, ◌≡◌, refl, ap, ◌∙◌, true, false, some, List, arith,
  Bool-cases, inl, inr,
}
use siem_sentinel_xv.IncidentEngine.{IncidentRule, Arithmetic}
use siem_sentinel_xv.IncidentEngine.Run.{load_rules, run_rules}
use siem_sentinel_xv.IncidentJob.{
  JobDb, Outcome, done, raised, running, Backfill, backfill_loop, is_enabled,
  run_incidents_backfill,
}

-- A backfill that has ended: by an exception, or past its last slice, the last time of the form
-- `cur + k * step` that is not after the end, where the checkpoint's cursor stands.
abbrev pub Completed : ℕ → ℕ → ℕ → Outcome → Type 0
Completed step cur to running = ⊥
Completed step cur to (raised db) = Unit
Completed step cur to (done db n) =
    (k : ℕ) × (db.checkpoint.backfill_cursor ≡ some (cur + k * step))
    × (cur + k * step ≤ to)
    × (to < cur + k * step + step)

Completed-next :
    (step cur to : ℕ) (o : Outcome) → Completed step (cur + step) to o → Completed step cur to o
Completed-next step cur to running c = c
Completed-next step cur to (raised db) c = tt
Completed-next step cur to (done db n) (k, e, l, u) =
    let shift : cur + step + k * step ≡ cur + suc k * step = grind arith in
    (suc k, e ∙ ap some shift, omega (arith, shift), omega (arith, shift))

backfill_loop-past :
    (arithmetic : Arithmetic) (rules : List IncidentRule) (now : ℕ) (job : Backfill)
    (fuel cur total : ℕ) (db : JobDb)
    → job.dry_run ≡ false
    → job.to_ts < cur + job.step_seconds * 1000000
    → cur ≤ job.to_ts
    → 0 < fuel
    → db.checkpoint.backfill_cursor ≡ some cur
    → Completed
        (job.step_seconds * 1000000)
        cur
        job.to_ts
        (backfill_loop arithmetic rules now job fuel (cur + job.step_seconds * 1000000) total db)
unfolding backfill_loop
backfill_loop-past arithmetic rules now job zero cur total db d h l f c = elim f [ ]
backfill_loop-past arithmetic rules now job (suc fuel) cur total db d h l f c =
    let off : leb (cur + job.step_seconds * 1000000) job.to_ts ≡ false = ground arith in
    rw (off, d) (0, c ∙ ap some (omega arith), omega arith, omega arith)

backfill_loop-Completed :
    (arithmetic : Arithmetic) (rules : List IncidentRule) (now : ℕ) (job : Backfill)
    (fuel cur total : ℕ) (db : JobDb)
    → job.dry_run ≡ false
    → 0 < job.step_seconds
    → cur ≤ job.to_ts
    → job.to_ts + 1 - cur < fuel
    → Completed
        (job.step_seconds * 1000000)
        cur
        job.to_ts
        (backfill_loop arithmetic rules now job fuel cur total db)
unfolding backfill_loop
backfill_loop-Completed arithmetic rules now job zero cur total db d s l f = absurd (omega arith)
backfill_loop-Completed arithmetic rules now job (suc fuel) cur total db d s l f =
    let on : leb cur job.to_ts ≡ true = ground arith in
    elim (Bool-cases (run_rules arithmetic cur rules db.tables).raised) [
      | inl r ↦ rw (on, r) tt
      | inr g ↦ elim (Bool-cases (leb (cur + job.step_seconds * 1000000) job.to_ts)) [
        | inl y ↦
            rw (on, g)
              (Completed-next (job.step_seconds * 1000000) cur job.to_ts _ (
                backfill_loop-Completed arithmetic rules now job fuel
                  (cur + job.step_seconds * 1000000) _ _ d s (ground arith) (ground arith)))
        | inr n ↦
            rw (on, g)
              (backfill_loop-past arithmetic rules now job fuel cur _ _ d (ground arith) l
                (omega arith) (rw d refl))
      ]
    ]

backfill_loop_stuck :
    (arithmetic : Arithmetic) (rules : List IncidentRule) (now : ℕ) (job : Backfill)
    (fuel cur total : ℕ) (db : JobDb)
    → job.step_seconds ≡ 0
    → cur ≤ job.to_ts
    → ((d : JobDb) → (run_rules arithmetic cur rules d.tables).raised ≡ false)
    → backfill_loop arithmetic rules now job fuel cur total db ≡ running
unfolding backfill_loop
backfill_loop_stuck arithmetic rules now job zero cur total db s c r = refl
backfill_loop_stuck arithmetic rules now job (suc fuel) cur total db s c r =
    let same : cur + job.step_seconds * 1000000 ≡ cur = rw s (omega arith) in
    let on : leb cur job.to_ts ≡ true = ground arith in
    rw (on, r db, same) (backfill_loop_stuck arithmetic rules now job fuel cur _ _ s c r)

-- A backfill from one time to a later one, in steps of some length and while the job is enabled, comes to
-- an end: given a round for each microsecond of its span, and two more, it is not still running, and if
-- nothing raises, the checkpoint's cursor is the last time of a step that is not after the end.
pub run_incidents_backfill-Completed :
    (arithmetic : Arithmetic) (fuel now : ℕ) (job : Backfill) (db : JobDb)
    → job.dry_run ≡ false
    → 0 < job.step_seconds
    → job.from_ts < job.to_ts
    → is_enabled db ≡ true
    → job.to_ts - job.from_ts + 1 < fuel
    → Completed
        (job.step_seconds * 1000000)
        job.from_ts
        job.to_ts
        (run_incidents_backfill arithmetic fuel now job db)
unfolding run_incidents_backfill
run_incidents_backfill-Completed arithmetic fuel now job db d s l e f =
    let later : leb job.to_ts job.from_ts ≡ false = ground arith in
    rw (later, e)
      (backfill_loop-Completed arithmetic (load_rules db.tables) now job fuel job.from_ts 0 _ d s
        (omega arith) (omega arith))
