-- ===== src/Retention/Purge.antt =====
-- The purge against its preview, app/services/retention_service.py.
use siem_sentinel_xv.Base.{
  ℕ, ◌≤◌, ◌==◌, ◌≡◌, refl, sym, ap, subst, true, false, not, ◌&&◌, List, String, [], ◌∷◌, length,
  keep, map, mem, All, Bool-cases, inl, inr, ◌=ₛ◌, if◌then◌else◌, arith, eq_iff,
}
use siem_sentinel_xv.IncidentEngine.{Link}
use siem_sentinel_xv.Retention.Ids.{
  IsDistinct, keep-keep, keep-ids, left-ids, kept_All, All_map, every, kept_listed, not_in,
  not_kept, kept_just, keep_ext,
}
use siem_sentinel_xv.Retention.{
  RetentionPolicyConfig, OldIncident, LogFile, Stock, RetentionPurgeSummary, is_in,
  open_incident_ids, protected_alert_ids, is_older, is_old_incident, is_old_alert, is_old_file,
  is_removed, preview_retention_purge, purge_incidents, purge_alerts, purge_entities,
  execute_retention_purge,
}

-- A status that counts as open is none of those that may go.
status_apart :
    (s : String)
    → mem s ("open" ∷ "in_investigation" ∷ []) ≡ true
    → mem s ("resolved" ∷ "false_positive" ∷ "closed" ∷ []) ≡ false
status_apart s h = elim (Bool-cases ("open" =ₛ s)) [
  | inl y ↦
      subst (λ t. mem t ("resolved" ∷ "false_positive" ∷ "closed" ∷ []) ≡ false)
        ((eq_iff "open" s).0 y) refl
  | inr y ↦ elim (Bool-cases ("in_investigation" =ₛ s)) [
    | inl z ↦
        subst (λ t. mem t ("resolved" ∷ "false_positive" ∷ "closed" ∷ []) ≡ false)
          ((eq_iff "in_investigation" s).0 z) refl
    | inr z ↦ cc
  ]
]

-- An open incident is none of those that are to go.
open_stays :
    (config : RetentionPolicyConfig) (now : ℕ) (i : OldIncident)
    → mem i.status ("open" ∷ "in_investigation" ∷ []) ≡ true
    → is_old_incident config now i ≡ false
open_stays config now i h = rw (status_apart i.status h) (ground arith)

abbrev old_ids : RetentionPolicyConfig → ℕ → List OldIncident → List ℕ
old_ids config now rows = map (λ i. i.id) (keep (is_old_incident config now) rows)

abbrev ids_of : List OldIncident → List ℕ
ids_of rows = map (λ i. i.id) rows

-- No id of an open incident is that of one that goes.
open_not_old :
    (config : RetentionPolicyConfig) (now n : ℕ) (rows : List OldIncident)
    → IsDistinct (ids_of rows)
    → is_in n (open_incident_ids rows) ≡ true
    → is_in n (old_ids config now rows) ≡ false
unfolding open_incident_ids
open_not_old config now n [] d h = refl
open_not_old config now n (i ∷ rows) d h =
    elim (Bool-cases (mem i.status ("open" ∷ "in_investigation" ∷ []))) [
      | inl y ↦ rw (open_stays config now i y) (elim (Bool-cases (i.id == n)) [
        | inl e ↦
            let same : i.id ≡ n = ground (arith, e) in
            not_kept (λ i. i.id) (is_old_incident config now) n rows
              (subst (λ x. is_in x (ids_of rows) ≡ false) same d.0)
        | inr e ↦ open_not_old config now n rows d.1 (rw (y, e) at h)
      ])
      | inr y ↦
          let later = rw y at h in
          let rest = open_not_old config now n rows d.1 later in
          elim (Bool-cases (is_old_incident config now i)) [
            | inl z ↦
                rw (z, not_in n i.id (ids_of rows) (keep-ids (λ i. i.id) _ n rows later) d.0) rest
            | inr z ↦ rw z rest
          ]
    ]

open_incident_ids-purged :
    (config : RetentionPolicyConfig) (now : ℕ) (db : Stock)
    → IsDistinct (ids_of db.incidents)
    → open_incident_ids (purge_incidents config now db).incidents ≡ open_incident_ids db.incidents
unfolding open_incident_ids purge_incidents
open_incident_ids-purged config now db d = ap (map (λ i. i.id)) (
    keep-keep (λ i. mem i.status ("open" ∷ "in_investigation" ∷ []))
      (λ i. not (is_in i.id (old_ids config now db.incidents))) db.incidents
      (All_map (λ i listed h. rw (open_not_old config now i.id db.incidents d (listed h)) refl)
        db.incidents
        (kept_listed (λ i. i.id) (λ i. mem i.status ("open" ∷ "in_investigation" ∷ []))
          db.incidents)))

protected_alert_ids-purged :
    (config : RetentionPolicyConfig) (now : ℕ) (db : Stock)
    → IsDistinct (ids_of db.incidents)
    → protected_alert_ids
        (purge_incidents config now db).incidents
        (purge_incidents config now db).links
      ≡ protected_alert_ids db.incidents db.links
unfolding protected_alert_ids purge_incidents
protected_alert_ids-purged config now db d = rw (open_incident_ids-purged config now db d) (
    ap (map (λ l. l.alert_id)) (
      keep-keep (λ l. is_in l.incident_id (open_incident_ids db.incidents))
        (λ l. not (is_in l.incident_id (old_ids config now db.incidents))) db.links
        (every (λ l h. rw (open_not_old config now l.incident_id db.incidents d h) refl) db.links)))

is_old_alert-purged :
    (config : RetentionPolicyConfig) (now : ℕ) (db : Stock)
    → IsDistinct (ids_of db.incidents)
    → is_old_alert config now (purge_incidents config now db) ≡ is_old_alert config now db
unfolding is_old_alert
is_old_alert-purged config now db d =
    ap
      (λ ids. λ a.
        is_older now config.alerts_days a.triggered_at
        && (if config.protect_open_incidents then not (is_in a.id ids) else true))
      (protected_alert_ids-purged config now db d)

abbrev pub Agree : RetentionPurgeSummary → RetentionPurgeSummary → Type 0
Agree done announced =
    (done.alerts_purged ≡ announced.alerts_purged)
    × (done.entities_purged ≡ announced.entities_purged)
    × (done.incidents_purged ≡ announced.incidents_purged)
    × (done.uploaded_logs_files ≤ announced.uploaded_logs_files)

removed_files :
    (config : RetentionPolicyConfig) (now : ℕ) (files : List LogFile)
    → length (keep (is_removed config now) files) ≤ length (keep (is_old_file config now) files)
removed_files config now [] = omega arith
removed_files config now (f ∷ files) = ground (arith, removed_files config now files)

-- If no two incidents and no two alerts have one id, a purge that the database does not fail does what
-- its preview announces: it counts as many alerts, entities and incidents, and at most as many files;
-- and just those alerts go that are older than the policy's days and, where open incidents are
-- protected, are not linked to an incident that was open or in investigation.
pub execute_retention_purge-previewed :
    (config : RetentionPolicyConfig) (now : ℕ) (db : Stock)
    → IsDistinct (map (λ i. i.id) db.incidents)
    → IsDistinct (map (λ a. a.id) db.alerts)
    → let r = execute_retention_purge config now db in
      (r.0.alerts ≡ keep (λ a. not (is_old_alert config now db a)) db.alerts)
      × Agree r.1 (preview_retention_purge config now db)
unfolding execute_retention_purge preview_retention_purge purge_incidents purge_alerts
    purge_entities
execute_retention_purge-previewed config now db di da =
    let same = is_old_alert-purged config now db di in
    let old = is_old_alert config now db in
    let just = kept_just (λ a. a.id) old db.alerts da in
    (
      subst
          (λ p.
            keep (λ a. not (is_in a.id (map (λ b. b.id) (keep p db.alerts)))) db.alerts
            ≡ keep (λ a. not (old a)) db.alerts)
          (sym same)
          (keep_ext (λ a. not (is_in a.id (map (λ b. b.id) (keep old db.alerts))))
            (λ a. not (old a)) db.alerts (All_map (λ a h. ap not h) db.alerts just)),
      (ap (λ p. length (keep p db.alerts)) same, refl, refl, removed_files config now db.files),
    )

-- A link is of an incident and an alert that are there.
abbrev pub IsLinked : List ℕ → List ℕ → Link → Type 0
IsLinked incidents alerts l =
    (is_in l.incident_id incidents ≡ true) × (is_in l.alert_id alerts ≡ true)

abbrev pub AllLinked : Stock → Type 0
AllLinked db = All (IsLinked (map (λ i. i.id) db.incidents) (map (λ a. a.id) db.alerts)) db.links

purge_incidents-AllLinked :
    (config : RetentionPolicyConfig) (now : ℕ) (db : Stock)
    → AllLinked db
    → AllLinked (purge_incidents config now db)
unfolding purge_incidents
purge_incidents-AllLinked config now db h =
    let gone = old_ids config now db.incidents in
    kept_All
      (IsLinked (ids_of (purge_incidents config now db).incidents) (map (λ a. a.id) db.alerts))
      (λ l. not (is_in l.incident_id gone)) db.links
      (All_map
        (λ l k stays.
          (left-ids (λ i. i.id) gone l.incident_id db.incidents k.0 (ground (arith, stays)), k.1))
        db.links h)

purge_alerts-AllLinked :
    (config : RetentionPolicyConfig) (now : ℕ) (db : Stock)
    → AllLinked db
    → AllLinked (purge_alerts config now db)
unfolding purge_alerts
purge_alerts-AllLinked config now db h =
    let gone = map (λ a. a.id) (keep (is_old_alert config now db) db.alerts) in
    kept_All (IsLinked (ids_of db.incidents) (map (λ a. a.id) (purge_alerts config now db).alerts))
      (λ l. not (is_in l.alert_id gone)) db.links
      (All_map
        (λ l k stays.
          (k.0, left-ids (λ a. a.id) gone l.alert_id db.alerts k.1 (ground (arith, stays))))
        db.links h)

-- If each link is of an incident and an alert that are there, it is so after a purge.
pub execute_retention_purge-AllLinked :
    (config : RetentionPolicyConfig) (now : ℕ) (db : Stock)
    → AllLinked db
    → AllLinked (execute_retention_purge config now db).0
unfolding execute_retention_purge purge_entities
execute_retention_purge-AllLinked config now db h =
    purge_alerts-AllLinked config now (purge_incidents config now db)
      (purge_incidents-AllLinked config now db h)
