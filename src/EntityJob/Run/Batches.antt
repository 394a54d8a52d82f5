-- ===== src/EntityJob/Run/Batches.antt =====
-- The batches of `run_entities_job`, app/services/entity_job.py: they end, and their size does not
-- matter.
use siem_sentinel_xv.Base.{
  ℕ, zero, suc, ◌<◌, ◌≡◌, refl, sym, ap, subst, ◌∙◌, false, Option, none, some, List, [], ◌∷◌, ◌++◌,
  drop, length, length-drop, arith, Bool-cases, inl, inr,
}
use siem_sentinel_xv.EntityJob.{ScoredAlert, EntityDb, Checkpoint}
use siem_sentinel_xv.EntityJob.Attrs.{Picked, pick_primary_entity}
use siem_sentinel_xv.EntityJob.Step.{score_picked, score_alert, score_alerts}
use siem_sentinel_xv.EntityJob.Run.{
  Job, Progress, by_id, take, pending, last_id, next_batch, after_batch, run_batches, exceeds,
  on_batch, checkpoint_after,
}
use siem_sentinel_xv.EntityJob.Run.Order.{IsAscending, pending-next}

abbrev with_checkpoint : Checkpoint → EntityDb → EntityDb
with_checkpoint c db = record db { checkpoint = c }

score_picked-checkpoint :
    (now : ℕ) (al : ScoredAlert) (c : Checkpoint) (db : EntityDb) (p : Option Picked)
    → score_picked now al (with_checkpoint c db) p ≡ with_checkpoint c (score_picked now al db p)
unfolding score_picked
score_picked-checkpoint now al c db none = refl
score_picked-checkpoint now al c db (some p) = refl

score_alerts-checkpoint :
    (now : ℕ) (c : Checkpoint) (db : EntityDb) (alerts : List ScoredAlert)
    → score_alerts now (with_checkpoint c db) alerts
      ≡ with_checkpoint c (score_alerts now db alerts)
unfolding score_alerts score_alert
score_alerts-checkpoint now c db [] = refl
score_alerts-checkpoint now c db (al ∷ alerts) =
    ap (λ d. score_alerts now d alerts)
      (score_picked-checkpoint now al c db (pick_primary_entity al.evidence))
    ∙ score_alerts-checkpoint now c (score_alert now db al) alerts

score_picked-alerts :
    (now : ℕ) (al : ScoredAlert) (db : EntityDb) (p : Option Picked)
    → (score_picked now al db p).alerts ≡ db.alerts
unfolding score_picked
score_picked-alerts now al db none = refl
score_picked-alerts now al db (some p) = refl

score_alerts-alerts :
    (now : ℕ) (db : EntityDb) (alerts : List ScoredAlert)
    → (score_alerts now db alerts).alerts ≡ db.alerts
unfolding score_alerts score_alert
score_alerts-alerts now db [] = refl
score_alerts-alerts now db (al ∷ alerts) =
    score_alerts-alerts now (score_alert now db al) alerts
    ∙ score_picked-alerts now al db (pick_primary_entity al.evidence)

score_alerts-append :
    (now : ℕ) (db : EntityDb) (xs ys : List ScoredAlert)
    → score_alerts now db (xs ++ ys) ≡ score_alerts now (score_alerts now db xs) ys
unfolding score_alerts
score_alerts-append now db [] ys = refl
score_alerts-append now db (x ∷ xs) ys = score_alerts-append now (score_alert now db x) xs ys

take-drop : (n : ℕ) (xs : List ScoredAlert) → take n xs ++ drop n xs ≡ xs
take-drop zero xs = refl
take-drop (suc n) [] = refl
take-drop (suc n) (x ∷ xs) = ap (λ l. x ∷ l) (take-drop n xs)

after_batch-alerts :
    (job : Job) (p : Progress) (batch : List ScoredAlert)
    → (after_batch job p batch).db.alerts ≡ p.db.alerts
unfolding after_batch
after_batch-alerts job p batch = elim (Bool-cases job.dry_run) [
  | inl y ↦ rw y
  | inr n ↦ rw n (score_alerts-alerts job.now p.db batch)
]

-- What is pending at a point of the loop.
abbrev pub left : Progress → List ScoredAlert
left p = pending p.last (by_id p.db.alerts)

left-after_batch :
    (job : Job) (p : Progress) (k : ℕ)
    → IsAscending (by_id p.db.alerts)
    → left (after_batch job p (take k (left p))) ≡ drop k (left p)
left-after_batch job p k s =
    rw (after_batch-alerts job p (take k (left p)))
      (unfold after_batch in pending-next p.last k (by_id p.db.alerts) s)

drop-shorter :
    (k : ℕ) (xs more : List ScoredAlert) (a : ScoredAlert)
    → take k xs ≡ a ∷ more
    → length (drop k xs) < length xs
drop-shorter zero xs more a e = absurd (ground arith)
drop-shorter (suc k) [] more a e = absurd (ground arith)
drop-shorter (suc k) (x ∷ xs) more a e = omega (arith, length-drop k xs)

left-shorter :
    (job : Job) (p : Progress) (a : ScoredAlert) (more : List ScoredAlert)
    → IsAscending (by_id p.db.alerts)
    → take job.batch_size (left p) ≡ a ∷ more
    → (left (after_batch job p (a ∷ more)) ≡ drop job.batch_size (left p))
      × (length (left (after_batch job p (a ∷ more))) < length (left p))
left-shorter job p a more s e =
    let here : left (after_batch job p (a ∷ more)) ≡ drop job.batch_size (left p) =
      subst (λ b. left (after_batch job p b) ≡ drop job.batch_size (left p)) e
        (left-after_batch job p job.batch_size s) in
    (
      here,
      subst (λ l. length l < length (left p)) (sym here)
          (drop-shorter job.batch_size (left p) more a e),
    )

on_batch-returns :
    (job : Job) (p : Progress) (batch : List ScoredAlert) (rest : Option Progress)
    → ((a : ScoredAlert) (more : List ScoredAlert)
        → batch ≡ a ∷ more
        → (q : Progress) × (rest ≡ some q))
    → (q : Progress) × (on_batch job p batch rest ≡ some q)
on_batch-returns job p [] rest h = (p, refl)
on_batch-returns job p (a ∷ more) rest h =
    elim (Bool-cases (exceeds job.max_batches (suc p.batches))) [
      | inl y ↦ (record p { batches = suc p.batches }, rw y refl)
      | inr n ↦ ((h a more refl).0, rw n (h a more refl).1)
    ]

-- The loop ends, whatever the size and the number of the batches, dry or not: one more than the number
-- of the pending alerts is fuel enough, if the alerts of the query are in ascending order.
pub run_batches-returns :
    (fuel : ℕ) (job : Job) (p : Progress)
    → IsAscending (by_id p.db.alerts)
    → length (left p) < fuel
    → (q : Progress) × (run_batches fuel job p ≡ some q)
unfolding run_batches next_batch
run_batches-returns zero job p s h = absurd (omega arith)
run_batches-returns (suc fuel) job p s h =
    on_batch-returns job p (take job.batch_size (left p)) _ (λ a more e.
      run_batches-returns fuel job (after_batch job p (take job.batch_size (left p)))
        (subst (λ l. IsAscending (by_id l)) (sym (after_batch-alerts job p _)) s)
        (subst (λ b. length (left (after_batch job p b)) < fuel) (sym e)
          (omega (arith, (left-shorter job p a more s e).1, h))))

-- A batch and the alerts behind it come to the same as all that are pending.
scored-step :
    (job : Job) (p : Progress) (k : ℕ)
    → IsAscending (by_id p.db.alerts)
    → job.dry_run ≡ false
    → score_alerts job.now
        (after_batch job p (take k (left p))).db
        (left (after_batch job p (take k (left p))))
      ≡ with_checkpoint
          (checkpoint_after job
            (last_id p.last (take k (left p)))
            (score_alerts job.now p.db (take k (left p))).checkpoint)
          (score_alerts job.now p.db (left p))
unfolding after_batch checkpoint_after
scored-step job p k s d =
    let batch = take k (left p) in
    let c =
      checkpoint_after job (last_id p.last batch) (score_alerts job.now p.db batch).checkpoint in
    ap (score_alerts job.now (after_batch job p batch).db) (left-after_batch job p k s)
    ∙ rw d (score_alerts-checkpoint job.now c (score_alerts job.now p.db batch) (drop k (left p)))
    ∙ ap (with_checkpoint c) (
        sym (score_alerts-append job.now p.db batch (drop k (left p)))
        ∙ ap (score_alerts job.now p.db) (take-drop k (left p)))

-- The loop has scored what was pending.
abbrev pub IsDone : Job → Progress → Progress → Type 0
IsDone job p q =
    (q.db.entities ≡ (score_alerts job.now p.db (left p)).entities)
    × (q.db.score_events ≡ (score_alerts job.now p.db (left p)).score_events)
    × (left q ≡ [])

IsDone-step :
    (job : Job) (p q : Progress) (k : ℕ)
    → IsAscending (by_id p.db.alerts)
    → job.dry_run ≡ false
    → IsDone job (after_batch job p (take k (left p))) q
    → IsDone job p q
IsDone-step job p q k s d h = (
  h.0 ∙ ap (λ b. b.entities) (scored-step job p k s d),
  h.1 ∙ ap (λ b. b.score_events) (scored-step job p k s d),
  h.2,
)

take-none : (k : ℕ) (xs : List ScoredAlert) → 0 < k → take k xs ≡ [] → xs ≡ []
take-none zero xs h e = absurd (omega arith)
take-none (suc k) [] h e = refl
take-none (suc k) (x ∷ xs) h e = absurd (ground arith)

IsDone-start : (job : Job) (p : Progress) → left p ≡ [] → IsDone job p p
unfolding score_alerts
IsDone-start job p e = rw e (refl, refl, refl)

on_batch-IsDone :
    (job : Job) (p : Progress) (batch : List ScoredAlert) (rest : Option Progress)
    → job.max_batches ≡ none
    → (batch ≡ [] → IsDone job p p)
    → ((a : ScoredAlert) (more : List ScoredAlert)
        → batch ≡ a ∷ more
        → (q : Progress) × (rest ≡ some q) × IsDone job p q)
    → (q : Progress) × (on_batch job p batch rest ≡ some q) × IsDone job p q
on_batch-IsDone job p [] rest m e h = (p, refl, e refl)
on_batch-IsDone job p (a ∷ more) rest m e h = rw m (h a more refl)

-- With no bound on the batches and no dry run, a loop that has fuel enough scores just the alerts that
-- are pending, in the order of their ids, and leaves none pending: the size of the batches, if it is
-- not 0, makes no difference to the entities and the ledger.
pub run_batches-score_alerts :
    (fuel : ℕ) (job : Job) (p : Progress)
    → IsAscending (by_id p.db.alerts)
    → length (left p) < fuel
    → job.dry_run ≡ false
    → job.max_batches ≡ none
    → 0 < job.batch_size
    → (q : Progress) × (run_batches fuel job p ≡ some q) × IsDone job p q
unfolding run_batches next_batch
run_batches-score_alerts zero job p s h d m b = absurd (omega arith)
run_batches-score_alerts (suc fuel) job p s h d m b =
    on_batch-IsDone job p (take job.batch_size (left p)) _ m
      (λ e. IsDone-start job p (take-none job.batch_size (left p) b e))
      (λ a more e.
        let next = after_batch job p (take job.batch_size (left p)) in
        let rest =
          run_batches-score_alerts fuel job next
            (subst (λ l. IsAscending (by_id l)) (sym (after_batch-alerts job p _)) s)
            (subst (λ b. length (left (after_batch job p b)) < fuel) (sym e)
              (omega (arith, (left-shorter job p a more s e).1, h)))
            d m b in
        (rest.0, rest.1, IsDone-step job p rest.0 job.batch_size s d rest.2))
