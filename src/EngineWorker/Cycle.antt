-- ===== src/EngineWorker/Cycle.antt =====
-- One cycle of the worker, `main` of app/workers/engine_worker_loop.py. The rule engine and the mail are
-- arguments: what the engine makes of an event from its own state, and whether a notification comes back
-- without an exception.
pub mod Ends
pub mod Budget
pub mod Claims
pub mod Marks
pub mod Count
use siem_sentinel_xv.Base.{
  ℕ, zero, suc, ◌+◌, ◌%◌, min, ◌==◌, ltb, Bool, true, false, not, ◌&&◌, ◌||◌, Option, none, some,
  List, String, [], ◌∷◌, ◌++◌, find_first, update_first, if◌then◌else◌,
}
use siem_sentinel_xv.EngineWorker.{
  WorkEvent, WorkUpload, Work, ClaimedEvent, Settings, is_row, read_settings,
  requeue_processing_older_than, claim_batch, mark_event_done, mark_event_error, set_status,
  maybe_mark_upload_processed, reconcile, resolve_user_id_for_notify,
}

-- What is not the worker's: the rule engine, from a state of its own to the ids of the alerts that it
-- created or an exception, who created an API key, whether a mail is sent without an exception, and
-- whether a session lets `begin` through while a transaction is open.
pub record Outside (S : Type 0) : Type 0 where
  pub on_event : S → WorkEvent → S × Option (List ℕ)
  pub creators : ℕ → Option ℕ
  pub notifies : List ℕ → ℕ → Bool
  pub begins_again : Bool

-- The state of a worker: the engine's, the tables, the mails that were asked for, and the number of
-- cycles.
pub record Worker (S : Type 0) : Type 0 where
  pub engine : S
  pub work : Work
  pub notified : List (List ℕ × ℕ)
  pub cycle : ℕ

module _ {S : Type 0} (outside : Outside S) where
  abbrev upload_of : Option ℕ → Work → Option WorkUpload
  upload_of none w = none
  upload_of (some id) w = if id == 0 then none else find_first (λ u. u.id == id) w.uploads

  -- The upload of an event is with the engine now.
  abbrev pub start_upload : Option ℕ → Work → Work
  start_upload none w = w
  start_upload (some id) w = record w {
    uploads =
        update_first (λ u. u.id == id) (set_status "processing_engine" ("parsed" ∷ "parsing" ∷ []))
          w.uploads;
  }

  abbrev pub finish_upload : ℕ → ℕ → Option ℕ → Work → Work
  finish_upload now lookback_hours none w = w
  finish_upload now lookback_hours (some id) w = maybe_mark_upload_processed now lookback_hours id w

  abbrev pub put_work : Work → Worker S → Worker S
  put_work w s = record s { work = w }

  abbrev pub fail_event : ℕ → ClaimedEvent → Worker S → Worker S
  fail_event now c s = put_work (record s.work { events = mark_event_error now c s.work.events }) s

  -- After the transaction: the alerts are told to the user, if there are any.
  unfoldable pub notify_alerts : ℕ → ClaimedEvent → List ℕ → Option ℕ → Worker S → Worker S
  unfolding mark_event_error
  notify_alerts now c [] user s = s
  notify_alerts now c (a ∷ alerts) none s = s
  notify_alerts now c (a ∷ alerts) (some user) s =
      let told = record s { notified = s.notified ++ (a ∷ alerts, user) ∷ [] } in
      if user == 0
      then s
      else if outside.notifies (a ∷ alerts) user
      then told
      else fail_event now c told

  -- What the engine has made of an event: an exception undoes the transaction, of which the engine's own
  -- state is told by `on_event`, and the event is in error.
  unfoldable pub conclude : ℕ → ℕ → ClaimedEvent → Worker S → S × Option (List ℕ) → Worker S
  unfolding mark_event_done mark_event_error maybe_mark_upload_processed notify_alerts
  conclude now lookback_hours c s (engine, none) = fail_event now c (record s { engine = engine })
  conclude now lookback_hours c s (engine, some alerts) =
      let started = start_upload c.log_upload_id s.work in
      let marked = record started { events = mark_event_done now c started.events } in
      notify_alerts now c alerts
        (resolve_user_id_for_notify outside.creators (upload_of c.log_upload_id s.work))
        (record s {
          engine = engine;
          work = finish_upload now lookback_hours c.log_upload_id marked;
        })

  abbrev on_row : ℕ → ℕ → ClaimedEvent → Option WorkEvent → Worker S → Worker S
  on_row now lookback_hours c none s = s
  on_row now lookback_hours c (some e) s =
      conclude now lookback_hours c s (outside.on_event s.engine e)

  -- The treatment of one event that was claimed.
  unfoldable pub process : ℕ → ℕ → ClaimedEvent → Worker S → Worker S
  unfolding conclude
  process now lookback_hours c s =
      on_row now lookback_hours c (find_first (is_row c) s.work.events) s

  abbrev pub claim_for : ℕ → Settings → ℕ → Worker S → Worker S × List ClaimedEvent
  claim_for now settings left s =
      let r =
        claim_batch now settings.lookback_hours (min settings.claim_batch_size left)
          s.work.events in
      (put_work (record s.work { events = r.0 }) s, r.1)

  -- A new batch is claimed when nothing is waiting.
  unfoldable pub refill :
      ℕ → Settings → ℕ → List ClaimedEvent → Worker S → Worker S × List ClaimedEvent
  unfolding claim_batch
  refill now settings left [] s = claim_for now settings left s
  refill now settings left (c ∷ queue) s = (s, c ∷ queue)

  abbrev pub take_next :
      ℕ
      → Settings
      → (List ClaimedEvent → Worker S → Worker S)
      → Worker S × List ClaimedEvent
      → Worker S
  take_next now settings go_on (s, []) = s
  take_next now settings go_on (s, c ∷ queue) =
      go_on queue (process now settings.lookback_hours c s)

  -- The loop of a cycle, by what is left of its budget: it ends when nothing waits and nothing can be
  -- claimed.
  unfoldable pub work_off : ℕ → Settings → ℕ → List ClaimedEvent → Worker S → Worker S
  unfolding refill process
  work_off now settings zero queue s = s
  work_off now settings (suc left) queue s =
      take_next now settings (λ q t. work_off now settings left q t)
        (refill now settings (suc left) queue s)

  -- What the environment sets and the database does not.
  pub record Environment : Type 0 where
    pub settings : Settings
    pub rescue_seconds : ℕ
    pub rescue_limit : ℕ
    pub reconcile_every : ℕ

  abbrev requeue : ℕ → ℕ → ℕ → String → Worker S → Worker S
  requeue now seconds limit reason s =
      put_work
        (record s.work {
          events = requeue_processing_older_than now seconds limit reason s.work.events;
        })
        s

  -- The rescue. The settings have been read in the session before, which has begun a transaction, so it
  -- is refused and rolled back unless the session begins again.
  unfoldable pub rescue : ℕ → Environment → Worker S → Worker S
  unfolding requeue_processing_older_than
  rescue now env s =
      if outside.begins_again
      then requeue now env.rescue_seconds env.rescue_limit "rescue_processing" s
      else s

  unfoldable pub maybe_reconcile : ℕ → ℕ → ℕ → Worker S → Worker S
  unfolding reconcile
  maybe_reconcile now every lookback_hours s =
      if ltb 0 every && (suc s.cycle % every) == 0
      then record s {
        cycle = suc s.cycle;
        work = record s.work {
          uploads = reconcile now lookback_hours 500 s.work.events s.work.uploads;
        };
      }
      else record s { cycle = suc s.cycle }

  -- `main`, one round of its loop
  unfoldable pub run_cycle : ℕ → Environment → (String → Option String) → Worker S → Worker S
  unfolding read_settings requeue_processing_older_than rescue maybe_reconcile work_off
  run_cycle now env row s =
      let settings = read_settings row env.settings in
      let swept = requeue now settings.stale_seconds 2000 "stale_processing" (rescue now env s) in
      if not settings.enabled
      then s
      else work_off now settings settings.max_per_cycle []
          (maybe_reconcile now env.reconcile_every settings.lookback_hours swept)
