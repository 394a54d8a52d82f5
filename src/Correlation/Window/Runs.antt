-- ===== src/Correlation/Window/Runs.antt =====
-- Whole runs of one window over a stream of events: the two implementations against each other, and
-- against a window that never forgets an event.
use siem_sentinel_xv.Base.{
  ℕ, ◌+◌, ◌*◌, ◌≤◌, ◌<◌, ◌≡◌, refl, List, [], ◌∷◌, ◌++◌, All, keep, length, keep-append, arith, leb,
  Option, none, some, if◌then◌else◌, All-append,
}
use siem_sentinel_xv.Correlation.Window.{
  Hit, Bucket, Outcome, is_fresh, fire, add_event, bucket_hit, stored_hit,
}
use siem_sentinel_xv.Correlation.Window.Order.{
  IsUpTo, IsSorted, evict-eq-keep, IsUpTo-trans, keep-IsUpTo, keep-IsSorted, append-IsSorted,
  append-IsUpTo, keep-keep,
}

-- The outcomes of a stream of events, and the window that is left.
unfoldable pub run : (Bucket → Hit → Outcome) → Bucket → List Hit → List (Option Bucket) × Bucket
run step events [] = ([], events)
run step events (hit ∷ hits) =
    let (events', fired) = step events hit in
    let (outcomes, last) = run step events' hits in (fired ∷ outcomes, last)

-- The specification: all events since the last alert are kept, and the recent ones are counted.
unfoldable pub history_hit : ℕ → ℕ → Bucket → Hit → Outcome
history_hit window threshold since hit =
    let all = add_event since hit in
    let recent = keep (is_fresh hit.ts window) all in
    if leb threshold (length recent) then ([], some recent) else (all, none)

stored-eq-bucket :
    (window threshold : ℕ) (events : Bucket) (hit : Hit)
    → IsSorted events
    → bucket_hit window threshold events hit ≡ stored_hit window threshold events hit
unfolding bucket_hit stored_hit
stored-eq-bucket window threshold events hit s = rw (evict-eq-keep hit.ts window events s)

-- A stream in order, no earlier than the time.
abbrev pub IsStream : ℕ → List Hit → Type 0
IsStream t hits = All (λ h. t ≤ h.ts) hits × IsSorted hits

fire-IsSorted :
    (threshold t : ℕ) (events : Bucket)
    → IsSorted events
    → IsUpTo t events
    → IsSorted (fire threshold events).0 × IsUpTo t (fire threshold events).0
fire-IsSorted threshold t events s k = ground arith

-- An event later than the window's leaves a window in order.
pub bucket_hit-IsSorted :
    (window threshold t : ℕ) (events : Bucket) (hit : Hit)
    → IsSorted events
    → IsUpTo t events
    → t ≤ hit.ts
    → IsSorted (bucket_hit window threshold events hit).0
      × IsUpTo hit.ts (bucket_hit window threshold events hit).0
unfolding bucket_hit
bucket_hit-IsSorted window threshold t events hit s k h =
    let fresh = keep (is_fresh hit.ts window) events in
    let upto = keep-IsUpTo hit.ts window hit.ts events (IsUpTo-trans events t hit.ts h k) in
    rw (evict-eq-keep hit.ts window events s) (
      fire-IsSorted threshold hit.ts (fresh ++ hit ∷ [])
        (append-IsSorted fresh hit (keep-IsSorted hit.ts window events s) upto)
        (append-IsUpTo fresh hit upto))

-- Over a stream in order, the window in memory and the window in the key-value store fire at the
-- same events, with the same events as evidence, and leave the same window.
pub run-bucket-eq-stored :
    (window threshold t : ℕ) (events : Bucket) (hits : List Hit)
    → IsSorted events
    → IsUpTo t events
    → IsStream t hits
    → run (bucket_hit window threshold) events hits ≡ run (stored_hit window threshold) events hits
unfolding run
run-bucket-eq-stored window threshold t events [] s k h = refl
run-bucket-eq-stored window threshold t events (hit ∷ hits) s k h =
    let kept = bucket_hit-IsSorted window threshold t events hit s k h.0.0 in
    let rest =
      run-bucket-eq-stored window threshold hit.ts (bucket_hit window threshold events hit).0 hits
        kept.0 kept.1 h.1 in
    rw (← stored-eq-bucket window threshold events hit s, rest)

-- The window in memory is the part of the history that has not expired.
history-step :
    (window threshold now : ℕ) (since : Bucket) (hit : Hit)
    → IsSorted since
    → now ≤ hit.ts
    → add_event (keep (is_fresh hit.ts window) (keep (is_fresh now window) since)) hit
      ≡ keep (is_fresh hit.ts window) (add_event since hit)
history-step window threshold now since hit s h =
    rw (keep-append (is_fresh hit.ts window) since (hit ∷ []), keep-keep now hit.ts window since h)
      (ground arith)

stored-eq-history :
    (window threshold now : ℕ) (since : Bucket) (hit : Hit)
    → IsSorted since
    → now ≤ hit.ts
    → stored_hit window threshold (keep (is_fresh now window) since) hit ≡ (
      keep (is_fresh hit.ts window) (history_hit window threshold since hit).0,
      (history_hit window threshold since hit).1,
    )
unfolding stored_hit history_hit
stored-eq-history window threshold now since hit s h =
    rw (history-step window threshold now since hit s h) (ground arith)

history_hit-IsSorted :
    (window threshold t : ℕ) (since : Bucket) (hit : Hit)
    → IsSorted since
    → IsUpTo t since
    → t ≤ hit.ts
    → IsSorted (history_hit window threshold since hit).0
      × IsUpTo hit.ts (history_hit window threshold since hit).0
unfolding history_hit
history_hit-IsSorted window threshold t since hit s k h =
    let upto = IsUpTo-trans since t hit.ts h k in
    ground (arith, append-IsSorted since hit s upto, append-IsUpTo since hit upto)

-- Over a stream in order, the window in the store fires as the specification does.
run-stored-eq-history :
    (window threshold t : ℕ) (since : Bucket) (hits : List Hit)
    → IsSorted since
    → IsUpTo t since
    → IsStream t hits
    → (run (stored_hit window threshold) (keep (is_fresh t window) since) hits).0
      ≡ (run (history_hit window threshold) since hits).0
unfolding run
run-stored-eq-history window threshold t since [] s k h = refl
run-stored-eq-history window threshold t since (hit ∷ hits) s k h =
    let kept = history_hit-IsSorted window threshold t since hit s k h.0.0 in
    let rest =
      run-stored-eq-history window threshold hit.ts (history_hit window threshold since hit).0 hits
        kept.0 kept.1 h.1 in
    rw (stored-eq-history window threshold t since hit s h.0.0, rest)

-- From an empty window and over a stream in order, the window in memory fires at the same events and
-- with the same evidence as a window that forgets nothing since its last alert and counts the events
-- that lie within the rule's time: eviction loses no alert and adds none.
pub run-bucket-eq-history :
    (window threshold : ℕ) (hits : List Hit)
    → IsSorted hits
    → (run (bucket_hit window threshold) [] hits).0 ≡ (run (history_hit window threshold) [] hits).0
run-bucket-eq-history window threshold hits s =
    rw (run-bucket-eq-stored window threshold 0 [] hits tt tt (from_start hits, s))
      (run-stored-eq-history window threshold 0 [] hits tt tt (from_start hits, s))
  where
    from_start : (hs : List Hit) → All (λ h. 0 ≤ h.ts) hs
    from_start [] = tt
    from_start (x ∷ xs) = (omega arith, from_start xs)

-- After any event, whatever the window, fewer events are left in it than a threshold of one or more.
pub bucket_hit-lt-threshold :
    (window threshold : ℕ) (events : Bucket) (hit : Hit)
    → 1 ≤ threshold
    → length (bucket_hit window threshold events hit).0 < threshold
unfolding bucket_hit
bucket_hit-lt-threshold window threshold events hit h = ground arith

abbrev pub IsWithin : ℕ → ℕ → Hit → Type 0
IsWithin window now e = (e.ts ≤ now) × (now ≤ e.ts + window * 1000000)

within :
    (window now : ℕ) (events : Bucket)
    → IsUpTo now events
    → All (IsWithin window now) (keep (is_fresh now window) events)
within window now [] k = tt
within window now (e ∷ events) k = ground (arith, within window now events k.1)

-- If an event fires an alert on a window in order that holds nothing later than it, the alert holds at
-- least as many events as the threshold, and each of them lies within the rule's time before the event.
pub bucket_hit-evidence :
    (window threshold : ℕ) (events fired : Bucket) (hit : Hit)
    → IsSorted events
    → IsUpTo hit.ts events
    → (bucket_hit window threshold events hit).1 ≡ some fired
    → (threshold ≤ length fired) × All (IsWithin window hit.ts) fired
unfolding bucket_hit
bucket_hit-evidence window threshold events fired hit s k e =
    let found =
      All-append (IsWithin window hit.ts) (keep (is_fresh hit.ts window) events) (hit ∷ [])
        (within window hit.ts events k) ((omega arith, omega arith), tt) in
    ground (arith, found, evict-eq-keep hit.ts window events s)
