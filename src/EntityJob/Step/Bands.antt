-- ===== src/EntityJob/Step/Bands.antt =====
-- Scores and severities of entities, app/services/entity_job.py.
use siem_sentinel_xv.Base.{
  ℕ, ℤ, pos, ◌≤ℤ◌, eq_ℤ, ◌+ℤ◌, ◌≡◌, refl, Option, none, some, List, [], ◌∷◌, All, arith, Bool-cases,
  inl, inr,
}
use siem_sentinel_xv.EntityJob.{ScoredAlert, Entity, EntityDb, severity_from_score}
use siem_sentinel_xv.EntityJob.Attrs.{Picked, pick_primary_entity}
use siem_sentinel_xv.EntityJob.Step.{
  clamp_score, with_score, apply_decay, due_decay, or_else, find_entity, save_entity, entity_for,
  is_entity, add_severity, score_picked, score_alert, score_alerts,
}

-- The score lies within 0 and 100, and the severity is the score's.
abbrev pub IsBanded : Entity → Type 0
IsBanded e =
    (pos 0 ≤ℤ e.score_current)
    × (e.score_current ≤ℤ pos 100)
    × (e.severity ≡ severity_from_score e.score_current)

clamp_bounds : (n : ℤ) → (pos 0 ≤ℤ clamp_score n) × (clamp_score n ≤ℤ pos 100)
clamp_bounds n = ground arith

with_score-IsBanded : (n : ℤ) (e : Entity) → IsBanded (with_score (clamp_score n) e)
with_score-IsBanded n e = ((clamp_bounds n).0, (clamp_bounds n).1, refl)

apply_decay-IsBanded : (now : ℕ) (e : Entity) → IsBanded e → IsBanded (apply_decay now e).0
unfolding apply_decay
apply_decay-IsBanded now e h =
    elim (Bool-cases (eq_ℤ (due_decay now (or_else e.score_updated_at e.last_seen_at)) (pos 0))) [
      | inl y ↦ rw y h
      | inr n ↦ rw n (
          with_score-IsBanded
            (e.score_current +ℤ due_decay now (or_else e.score_updated_at e.last_seen_at)) e)
    ]

add_severity-IsBanded :
    (now : ℕ) (al : ScoredAlert) (e : Entity) → IsBanded e → IsBanded (add_severity now al e)
unfolding add_severity
add_severity-IsBanded now al e h = elim (Bool-cases (eq_ℤ al.severity (pos 0))) [
  | inl y ↦ rw y h
  | inr n ↦ rw n (with_score-IsBanded (e.score_current +ℤ al.severity) e)
]

entity_for-IsBanded :
    (p : Picked) (al : ScoredAlert) (e : Entity) → IsBanded e → IsBanded (entity_for p al (some e))
unfolding entity_for
entity_for-IsBanded p al e h = ground arith

find_entity-IsBanded :
    (p : Picked) (al : ScoredAlert) (entities : List Entity)
    → All IsBanded entities
    → IsBanded (entity_for p al (find_entity p entities))
unfolding find_entity
find_entity-IsBanded p al [] h =
    unfold entity_for severity_from_score in (omega arith, omega arith, refl)
find_entity-IsBanded p al (e ∷ entities) h = elim (Bool-cases (is_entity p e)) [
  | inl y ↦ rw y (entity_for-IsBanded p al e h.0)
  | inr n ↦ rw n (find_entity-IsBanded p al entities h.1)
]

save_entity-IsBanded :
    (p : Picked) (new : Entity) (entities : List Entity)
    → IsBanded new
    → All IsBanded entities
    → All IsBanded (save_entity p new entities)
unfolding save_entity
save_entity-IsBanded p new [] n h = (n, tt)
save_entity-IsBanded p new (e ∷ entities) n h = elim (Bool-cases (is_entity p e)) [
  | inl y ↦ rw y (n, h.1)
  | inr o ↦ rw o (h.0, save_entity-IsBanded p new entities n h.1)
]

score_picked-IsBanded :
    (now : ℕ) (al : ScoredAlert) (db : EntityDb) (p : Option Picked)
    → All IsBanded db.entities
    → All IsBanded (score_picked now al db p).entities
unfolding score_picked
score_picked-IsBanded now al db none h = h
score_picked-IsBanded now al db (some p) h =
    save_entity-IsBanded p _ db.entities
      (add_severity-IsBanded now al _
        (apply_decay-IsBanded now _ (find_entity-IsBanded p al db.entities h)))
      h

pub score_alerts-IsBanded :
    (now : ℕ) (db : EntityDb) (alerts : List ScoredAlert)
    → All IsBanded db.entities
    → All IsBanded (score_alerts now db alerts).entities
unfolding score_alerts score_alert
score_alerts-IsBanded now db [] h = h
score_alerts-IsBanded now db (al ∷ alerts) h =
    score_alerts-IsBanded now (score_alert now db al) alerts
      (score_picked-IsBanded now al db (pick_primary_entity al.evidence) h)
