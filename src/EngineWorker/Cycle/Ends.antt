-- ===== src/EngineWorker/Cycle/Ends.antt =====
-- What the treatment of one event makes of the table of events, in app/workers/engine_worker_loop.py.
use siem_sentinel_xv.Base.{
  ℕ, ◌==◌, ◌≡◌, refl, sym, ap, ◌∙◌, subst, false, ◌||◌, Option, none, some, Option-cases, List, [],
  ◌∷◌, find_first, All, Bool-cases, inl, inr,
}
use siem_sentinel_xv.EngineWorker.{
  WorkEvent, Work, ClaimedEvent, is_row, mark_event_done, mark_event_error, has_unfinished,
  maybe_mark_upload_processed,
}
use siem_sentinel_xv.EngineWorker.Cycle.{
  Outside, Worker, start_upload, finish_upload, notify_alerts, conclude, process,
}

-- The row is not there, or it is marked as done, as in error, or as one after the other.
pub data Ends (now : ℕ) (c : ClaimedEvent) (events : List WorkEvent) : List WorkEvent → Type 0 where
  absent : All (λ e. is_row c e ≡ false) events → Ends now c events events
  marked_done : Ends now c events (mark_event_done now c events)
  marked_error : Ends now c events (mark_event_error now c events)
  marked_both : Ends now c events (mark_event_error now c (mark_event_done now c events))

not_found :
    (c : ClaimedEvent) (events : List WorkEvent)
    → find_first (is_row c) events ≡ none
    → All (λ e. is_row c e ≡ false) events
not_found c [] h = tt
not_found c (e ∷ events) h = elim (Bool-cases (is_row c e)) [
  | inl y ↦ let no = rw y at h in cc
  | inr n ↦ (n, not_found c events (rw n at h))
]

maybe_mark_upload_processed-events :
    (now hours id : ℕ) (w : Work) → (maybe_mark_upload_processed now hours id w).events ≡ w.events
unfolding maybe_mark_upload_processed
maybe_mark_upload_processed-events now hours id w =
    elim (Bool-cases (id == 0 || has_unfinished now hours id w.events)) [
      | inl y ↦ rw y refl
      | inr n ↦ rw n refl
    ]

module _ {S : Type 0} (outside : Outside S) (now : ℕ) (c : ClaimedEvent) where
  notify_alerts-Ends :
      (events : List WorkEvent) (alerts : List ℕ) (user : Option ℕ) (s : Worker S)
      → s.work.events ≡ mark_event_done now c events
      → Ends now c events (notify_alerts outside now c alerts user s).work.events
  unfolding notify_alerts
  notify_alerts-Ends events [] user s h = subst (Ends now c events) (sym h) marked_done
  notify_alerts-Ends events (a ∷ alerts) none s h = subst (Ends now c events) (sym h) marked_done
  notify_alerts-Ends events (a ∷ alerts) (some user) s h = elim (Bool-cases (user == 0)) [
    | inl y ↦ rw y (subst (Ends now c events) (sym h) marked_done)
    | inr n ↦ elim (Bool-cases (outside.notifies (a ∷ alerts) user)) [
      | inl t ↦ rw (n, t) (subst (Ends now c events) (sym h) marked_done)
      | inr t ↦
          rw (n, t)
            (subst (λ es. Ends now c events (mark_event_error now c es)) (sym h) marked_both)
    ]
  ]

  start_upload-events : (u : Option ℕ) (w : Work) → (start_upload outside u w).events ≡ w.events
  start_upload-events none w = refl
  start_upload-events (some id) w = refl

  finish_upload-events :
      (hours : ℕ) (u : Option ℕ) (w : Work)
      → (finish_upload outside now hours u w).events ≡ w.events
  finish_upload-events hours none w = refl
  finish_upload-events hours (some id) w = maybe_mark_upload_processed-events now hours id w

  conclude-Ends :
      (hours : ℕ) (s : Worker S) (r : S × Option (List ℕ))
      → Ends now c s.work.events (conclude outside now hours c s r).work.events
  unfolding conclude
  conclude-Ends hours s (engine, none) = marked_error
  conclude-Ends hours s (engine, some alerts) = notify_alerts-Ends s.work.events alerts _ _ (
      finish_upload-events hours c.log_upload_id _
      ∙ ap (mark_event_done now c) (start_upload-events c.log_upload_id s.work))

  pub process-Ends :
      (hours : ℕ) (s : Worker S)
      → Ends now c s.work.events (process outside now hours c s).work.events
  unfolding process
  process-Ends hours s = elim (Option-cases (find_first (is_row c) s.work.events)) [
    | inl n ↦ rw n (absent (not_found c s.work.events n))
    | inr y ↦ rw (y.1) (conclude-Ends hours s (outside.on_event s.engine y.0))
  ]
