-- ===== src/Correlation/Window.antt =====
-- `SlidingWindowBucket`, and what one event does to a window: in memory, and in the key-value store.
-- A time is a number of microseconds since the epoch.
pub mod Order
pub mod Runs
use siem_sentinel_xv.Base.{
  ℕ, ◌+◌, ◌*◌, Bool, not, Option, none, some, List, String, [], ◌∷◌, ◌++◌, map, length, keep, ltb,
  leb, ◌=ₛ◌, if◌then◌else◌,
}

pub record Hit : Type 0 where
  pub ts : ℕ
  pub id : String

-- `SlidingWindowBucket.events`, oldest first
abbrev pub Bucket : Type 0
Bucket = List Hit

abbrev pub add_event : Bucket → Hit → Bucket
add_event events hit = events ++ hit ∷ []

-- `evict_expired`: the test `ts < current - window` with the window moved to the other side
unfoldable pub evict_expired : ℕ → ℕ → Bucket → Bucket
evict_expired now window [] = []
evict_expired now window (e ∷ events) =
    let rest = evict_expired now window events in
    if ltb (e.ts + window * 1000000) now then rest else e ∷ events

-- `get_event_ids`
unfoldable pub get_event_ids : Bucket → List String
get_event_ids = map (λ e. e.id)

-- The ids that the key-value path reports: an empty one is left out.
unfoldable pub stored_event_ids : Bucket → List String
stored_event_ids events = keep (λ s. not (s =ₛ "")) (map (λ e. e.id) events)

-- The window after an event, and the window's events where they fire the alert.
abbrev pub Outcome : Type 0
Outcome = Bucket × Option Bucket

-- At the threshold the alert takes the events and the window is cleared.
abbrev pub fire : ℕ → Bucket → Outcome
fire threshold events = if leb threshold (length events) then ([], some events) else (events, none)

-- The window in memory: expired events leave from the front.
unfoldable pub bucket_hit : ℕ → ℕ → Bucket → Hit → Outcome
unfolding evict_expired
bucket_hit window threshold events hit =
    fire threshold (add_event (evict_expired hit.ts window events) hit)

-- `e.ts >= current - window`
abbrev pub is_fresh : ℕ → ℕ → Hit → Bool
is_fresh now window e = leb now (e.ts + window * 1000000)

-- The window in the key-value store: expired events are filtered out, wherever they stand.
unfoldable pub stored_hit : ℕ → ℕ → Bucket → Hit → Outcome
stored_hit window threshold events hit =
    fire threshold (add_event (keep (is_fresh hit.ts window) events) hit)
