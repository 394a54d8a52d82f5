-- ===== src/EngineWorker.antt =====
-- The worker that hands stored events to the rule engine, app/workers/engine_worker_loop.py: its settings,
-- and the statements on the tables of events and uploads. A time is a number of microseconds; one cycle
-- is taken to happen at one time. The table of events is in the order in which they were created. Another
-- worker's locks and failures of the database are left out.
pub mod Cycle
use siem_sentinel_xv.Base.{
  ℕ, zero, suc, ◌+◌, ◌*◌, max, ltb, leb, ◌==◌, ℤ, pos, pos_part, Bool, true, false, not, ◌&&◌, ◌||◌,
  Option, none, some, List, String, [], ◌∷◌, map, length, keep, any, take, find_first, update_first,
  mem, ◌=ₛ◌, if◌then◌else◌,
}
use siem_sentinel_xv.Text.{strip, lower, decimal, ◌+ₛ◌}
use siem_sentinel_xv.Number.{int_of_text}

-- A row of `events`, as far as the worker reads and writes it.
pub record WorkEvent : Type 0 where
  pub id : String
  pub timestamp_utc : ℕ
  pub created_at : ℕ
  pub log_upload_id : Option ℕ
  pub engine_status : String
  pub engine_claimed_at : Option ℕ
  pub engine_processed_at : Option ℕ
  pub engine_attempts : ℕ
  pub engine_error : Option String

-- A row of `log_uploads`.
pub record WorkUpload : Type 0 where
  pub id : ℕ
  pub status : String
  pub user_id : Option ℕ
  pub api_key_id : Option ℕ

pub record Work : Type 0 where
  pub events : List WorkEvent
  pub uploads : List WorkUpload

-- `ClaimedEvent`
pub record ClaimedEvent : Type 0 where
  pub id : String
  pub timestamp_utc : ℕ
  pub log_upload_id : Option ℕ

-- `_get_bool`, of the setting's row
unfoldable pub get_bool : Option String → Bool → Bool
get_bool none default = default
get_bool (some value) default =
    if value =ₛ ""
    then default
    else mem (lower (strip value)) ("1" ∷ "true" ∷ "yes" ∷ "y" ∷ "on" ∷ "enabled" ∷ [])

abbrev pub int_or : Option ℤ → ℤ → ℤ
int_or none default = default
int_or (some n) default = n

-- `_get_int`, of the setting's row
unfoldable pub get_int : Option String → ℤ → ℤ
get_int none default = default
get_int (some value) default =
    if value =ₛ "" then default else int_or (int_of_text (strip value)) default

-- The settings of a cycle.
pub record Settings : Type 0 where
  pub enabled : Bool
  pub max_per_cycle : ℕ
  pub stale_seconds : ℕ
  pub lookback_hours : ℕ
  pub claim_batch_size : ℕ

-- The head of a cycle: the settings of the database over those of the environment.
unfoldable pub read_settings : (String → Option String) → Settings → Settings
unfolding get_bool get_int
read_settings row env = record {
  enabled = get_bool (row "pipeline.engine.enabled") true;
  max_per_cycle =
      max 1 (pos_part (get_int (row "pipeline.engine.max_per_cycle") (pos env.max_per_cycle)));
  stale_seconds = pos_part (get_int (row "pipeline.engine.stale_seconds") (pos env.stale_seconds));
  lookback_hours =
      pos_part (get_int (row "pipeline.engine.lookback_hours") (pos env.lookback_hours));
  claim_batch_size =
      max 1
        (pos_part (get_int (row "pipeline.engine.claim_batch_size") (pos env.claim_batch_size)));
}

abbrev pub same_row : WorkEvent → WorkEvent → Bool
same_row d e = d.id =ₛ e.id && d.timestamp_utc == e.timestamp_utc

abbrev pub is_row : ClaimedEvent → WorkEvent → Bool
is_row c e = c.id =ₛ e.id && c.timestamp_utc == e.timestamp_utc

-- `_since_utc`, as a test: no bound if the hours are 0
abbrev pub is_since : ℕ → ℕ → ℕ → Bool
is_since now hours t = hours == 0 || leb now (t + hours * 3600 * 1000000)

abbrev claimed_before : ℕ → ℕ → Option ℕ → Bool
claimed_before now seconds none = false
claimed_before now seconds (some t) = ltb (t + seconds * 1000000) now

-- A row that a worker has claimed and not brought to an end in time.
abbrev pub is_stale : ℕ → ℕ → WorkEvent → Bool
is_stale now seconds e =
    e.engine_status =ₛ "processing" && claimed_before now seconds e.engine_claimed_at

abbrev time_or_0 : Option ℕ → ℕ
time_or_0 none = 0
time_or_0 (some t) = t

-- The claim that is the oldest first.
unfoldable pub insert_claim : WorkEvent → List WorkEvent → List WorkEvent
insert_claim e [] = e ∷ []
insert_claim e (d ∷ rest) =
    let later = insert_claim e rest in
    if leb (time_or_0 e.engine_claimed_at) (time_or_0 d.engine_claimed_at)
    then e ∷ d ∷ rest
    else d ∷ later

unfoldable pub by_claim : List WorkEvent → List WorkEvent
unfolding insert_claim
by_claim [] = []
by_claim (e ∷ rest) = insert_claim e (by_claim rest)

abbrev pub requeued : String → WorkEvent → WorkEvent
requeued reason e = record e {
  engine_status = "pending";
  engine_claimed_at = none;
  engine_error = some reason;
}

-- `_requeue_processing_older_than`
unfoldable pub requeue_processing_older_than : ℕ → ℕ → ℕ → String → List WorkEvent → List WorkEvent
unfolding by_claim
requeue_processing_older_than now seconds limit reason events =
    let stale = take limit (by_claim (keep (is_stale now seconds) events)) in
    if seconds == 0
    then events
    else map (λ e. if any (same_row e) stale then requeued reason e else e) events

-- A row that can be claimed.
abbrev pub is_claimable : ℕ → ℕ → WorkEvent → Bool
is_claimable now lookback_hours e =
    e.engine_status =ₛ "pending" && is_since now lookback_hours e.created_at

abbrev pub claim : ℕ → WorkEvent → WorkEvent
claim now e = record e {
  engine_status = "processing";
  engine_claimed_at = some now;
  engine_attempts = suc e.engine_attempts;
  engine_error = none;
}

abbrev pub claimed_event : WorkEvent → ClaimedEvent
claimed_event e = record {
  id = e.id;
  timestamp_utc = e.timestamp_utc;
  log_upload_id = e.log_upload_id;
}

-- `_claim_batch`: the first rows that can be claimed, as many as the limit allows
unfoldable pub claim_batch : ℕ → ℕ → ℕ → List WorkEvent → List WorkEvent × List ClaimedEvent
claim_batch now lookback_hours limit [] = ([], [])
claim_batch now lookback_hours zero (e ∷ events) = (e ∷ events, [])
claim_batch now lookback_hours (suc limit) (e ∷ events) =
    let with_it = claim_batch now lookback_hours limit events in
    let without = claim_batch now lookback_hours (suc limit) events in
    if is_claimable now lookback_hours e
    then (claim now e ∷ with_it.0, claimed_event e ∷ with_it.1)
    else (e ∷ without.0, without.1)

abbrev pub done : ℕ → WorkEvent → WorkEvent
done now e = record e {
  engine_status = "done";
  engine_processed_at = some now;
  engine_error = none;
}

abbrev pub in_error : ℕ → WorkEvent → WorkEvent
in_error now e = record e {
  engine_status = "error";
  engine_processed_at = some now;
  engine_error = some "exception";
}

-- `_mark_event_done`
unfoldable pub mark_event_done : ℕ → ClaimedEvent → List WorkEvent → List WorkEvent
mark_event_done now c events = map (λ e. if is_row c e then done now e else e) events

-- `_mark_event_error`, whose text of the exception is one word here
unfoldable pub mark_event_error : ℕ → ClaimedEvent → List WorkEvent → List WorkEvent
mark_event_error now c events = map (λ e. if is_row c e then in_error now e else e) events

abbrev pub is_of_upload : ℕ → Option ℕ → Bool
is_of_upload id none = false
is_of_upload id (some i) = i == id

abbrev pub is_unfinished : WorkEvent → Bool
is_unfinished e = mem e.engine_status ("pending" ∷ "processing" ∷ [])

abbrev pub set_status : String → List String → WorkUpload → WorkUpload
set_status status from u = if mem u.status from then record u { status = status } else u

abbrev pub has_unfinished : ℕ → ℕ → ℕ → List WorkEvent → Bool
has_unfinished now lookback_hours upload_id events =
    any
      (λ e.
        is_of_upload upload_id e.log_upload_id
        && is_unfinished e
        && is_since now lookback_hours e.timestamp_utc)
      events

-- `_maybe_mark_upload_processed`
unfoldable pub maybe_mark_upload_processed : ℕ → ℕ → ℕ → Work → Work
maybe_mark_upload_processed now lookback_hours upload_id w =
    if upload_id == 0 || has_unfinished now lookback_hours upload_id w.events then w else record w {
      uploads =
          update_first (λ u. u.id == upload_id)
            (set_status "processed" ("parsed" ∷ "processing_engine" ∷ "parsing" ∷ [])) w.uploads;
    }

abbrev pub is_stuck : ℕ → ℕ → List WorkEvent → WorkUpload → Bool
is_stuck now lookback_hours events u =
    u.status =ₛ "processing_engine"
    && not (
        any
          (λ e.
            is_of_upload u.id e.log_upload_id
            && is_unfinished e
            && is_since now lookback_hours e.created_at)
          events)

-- `_reconcile_uploads_processing_engine`, for as many uploads as its limit at most. The latest uploads
-- stand first in their table.
unfoldable pub reconcile : ℕ → ℕ → ℕ → List WorkEvent → List WorkUpload → List WorkUpload
reconcile now lookback_hours limit events [] = []
reconcile now lookback_hours zero events (u ∷ uploads) = u ∷ uploads
reconcile now lookback_hours (suc limit) events (u ∷ uploads) =
    let fixed = reconcile now lookback_hours limit events uploads in
    let rest = reconcile now lookback_hours (suc limit) events uploads in
    if is_stuck now lookback_hours events u
    then record u { status = "processed" } ∷ fixed
    else u ∷ rest

-- `_resolve_user_id_for_notify`, with the creators of API keys
unfoldable pub resolve_user_id_for_notify : (ℕ → Option ℕ) → Option WorkUpload → Option ℕ
resolve_user_id_for_notify creators none = none
resolve_user_id_for_notify creators (some u) = elim u.user_id [
  | some user ↦ some user
  | none ↦ elim u.api_key_id [ none ↦ none | some key ↦ if key == 0 then none else creators key ]
]
