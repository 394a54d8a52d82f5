-- ===== src/EngineWorker/Cycle/Budget.antt =====
-- What a cycle of app/workers/engine_worker_loop.py brings to an end.
use siem_sentinel_xv.Base.{
  ℕ, zero, suc, ◌≤◌, min, ◌≡◌, refl, Bool, true, false, List, [], ◌∷◌, map, length, any, All,
  Bool-cases, inl, inr, ◌=ₛ◌, if◌then◌else◌, arith, eq_iff,
}
use siem_sentinel_xv.EngineWorker.{
  WorkEvent, ClaimedEvent, Settings, is_row, is_claimable, claim, claimed_event, claim_batch, done,
  in_error, mark_event_done, mark_event_error,
}
use siem_sentinel_xv.EngineWorker.Cycle.{Outside, Worker, process, refill, take_next, work_off}
use siem_sentinel_xv.EngineWorker.Cycle.Ends.{
  Ends, absent, marked_done, marked_error, marked_both, process-Ends,
}

abbrev pub is_processing : WorkEvent → Bool
is_processing e = e.engine_status =ₛ "processing"

-- A row in processing is one of those that wait in the worker.
abbrev IsWaiting : List ClaimedEvent → WorkEvent → Type 0
IsWaiting queue e = is_processing e ≡ true → any (λ c. is_row c e) queue ≡ true

abbrev AllWaiting : List ClaimedEvent → List WorkEvent → Type 0
AllWaiting queue events = All (IsWaiting queue) events

-- What a claim makes of a row that is not in processing.
claimed_waits :
    (c : ClaimedEvent) (queue : List ClaimedEvent) (events : List WorkEvent)
    → AllWaiting queue events
    → AllWaiting (c ∷ queue) events
claimed_waits c queue [] h = tt
claimed_waits c queue (e ∷ events) h =
    (λ p. ground (arith, h.0 p), claimed_waits c queue events h.1)

own_row : (now : ℕ) (e : WorkEvent) → is_row (claimed_event e) (claim now e) ≡ true
own_row now e = ground (arith, eq_iff e.id e.id)

claim_batch-AllWaiting :
    (now hours limit : ℕ) (events : List WorkEvent)
    → AllWaiting [] events
    → AllWaiting (claim_batch now hours limit events).1 (claim_batch now hours limit events).0
unfolding claim_batch
claim_batch-AllWaiting now hours limit [] h = tt
claim_batch-AllWaiting now hours zero (e ∷ events) h = h
claim_batch-AllWaiting now hours (suc limit) (e ∷ events) h =
    elim (Bool-cases (is_claimable now hours e)) [
      | inl y ↦ rw y (
        λ p. rw (own_row now e) refl,
        claimed_waits (claimed_event e) _ _ (claim_batch-AllWaiting now hours limit events h.1),
      )
      | inr n ↦
          rw n (λ p. let no = h.0 p in cc, claim_batch-AllWaiting now hours (suc limit) events h.1)
    ]

-- The rows of an event that is marked are not in processing.
marked :
    (f : WorkEvent → WorkEvent) (c : ClaimedEvent) (queue : List ClaimedEvent)
    (events : List WorkEvent)
    → ((e : WorkEvent) → is_processing (f e) ≡ false)
    → AllWaiting (c ∷ queue) events
    → AllWaiting queue (map (λ e. if is_row c e then f e else e) events)
marked f c queue [] k h = tt
marked f c queue (e ∷ events) k h = elim (Bool-cases (is_row c e)) [
  | inl y ↦ rw y (λ p. let no = k e in cc, marked f c queue events k h.1)
  | inr n ↦ rw n (λ p. rw n at (h.0 p), marked f c queue events k h.1)
]

absent_waits :
    (c : ClaimedEvent) (queue : List ClaimedEvent) (events : List WorkEvent)
    → All (λ e. is_row c e ≡ false) events
    → AllWaiting (c ∷ queue) events
    → AllWaiting queue events
absent_waits c queue [] n h = tt
absent_waits c queue (e ∷ events) n h =
    (λ p. rw n.0 at (h.0 p), absent_waits c queue events n.1 h.1)

Ends-AllWaiting :
    (now : ℕ) (c : ClaimedEvent) (queue : List ClaimedEvent) (before after : List WorkEvent)
    → Ends now c before after
    → AllWaiting (c ∷ queue) before
    → AllWaiting queue after
unfolding mark_event_done mark_event_error
Ends-AllWaiting now c queue before _ (absent n) h = absent_waits c queue before n h
Ends-AllWaiting now c queue before _ marked_done h = marked (done now) c queue before (λ e. refl) h
Ends-AllWaiting now c queue before _ marked_error h =
    marked (in_error now) c queue before (λ e. refl) h
Ends-AllWaiting now c queue before _ marked_both h =
    let once = marked (done now) c queue before (λ e. refl) h in
    marked (in_error now) c queue _ (λ e. refl) (claimed_waits c queue _ once)

pub length-claim_batch :
    (now hours limit : ℕ) (events : List WorkEvent)
    → length (claim_batch now hours limit events).1 ≤ limit
unfolding claim_batch
length-claim_batch now hours limit [] = omega arith
length-claim_batch now hours zero (e ∷ events) = omega arith
length-claim_batch now hours (suc limit) (e ∷ events) =
    elim (Bool-cases (is_claimable now hours e)) [
      | inl y ↦ rw y (omega (arith, length-claim_batch now hours limit events))
      | inr n ↦ rw n (length-claim_batch now hours (suc limit) events)
    ]

module _ {S : Type 0} (outside : Outside S) (now : ℕ) (settings : Settings) where
  -- The queue is no longer than the budget, and it has all that is in processing.
  abbrev IsKept : ℕ → Worker S × List ClaimedEvent → Type 0
  IsKept left r = (length r.1 ≤ left) × AllWaiting r.1 r.0.work.events

  refill-IsKept :
      (left : ℕ) (queue : List ClaimedEvent) (s : Worker S)
      → IsKept left (s, queue)
      → IsKept left (refill outside now settings left queue s)
  unfolding refill
  refill-IsKept left [] s h =
      let limit = min settings.claim_batch_size left in
      let short = length-claim_batch now settings.lookback_hours limit s.work.events in
      (
        ground (arith, short),
        claim_batch-AllWaiting now settings.lookback_hours limit s.work.events h.1,
      )
  refill-IsKept left (c ∷ queue) s h = h

  take_next-AllWaiting :
      (left : ℕ) (go_on : List ClaimedEvent → Worker S → Worker S)
      → ((q : List ClaimedEvent) (t : Worker S)
          → IsKept left (t, q)
          → AllWaiting [] (go_on q t).work.events)
      → (r : Worker S × List ClaimedEvent) → IsKept (suc left) r
      → AllWaiting [] (take_next outside now settings go_on r).work.events
  take_next-AllWaiting left go_on later (s, []) h = h.1
  take_next-AllWaiting left go_on later (s, c ∷ queue) h =
      later queue (process outside now settings.lookback_hours c s) (
        omega (arith, h.0),
        Ends-AllWaiting now c queue s.work.events _
            (process-Ends outside now c settings.lookback_hours s) h.1,
      )

  work_off-AllWaiting :
      (left : ℕ) (queue : List ClaimedEvent) (s : Worker S)
      → IsKept left (s, queue)
      → AllWaiting [] (work_off outside now settings left queue s).work.events
  unfolding work_off
  work_off-AllWaiting zero [] s h = h.1
  work_off-AllWaiting zero (c ∷ queue) s h = ground (arith, h.0)
  work_off-AllWaiting (suc left) queue s h =
      take_next-AllWaiting left (λ q t. work_off outside now settings left q t)
        (λ q t k. work_off-AllWaiting left q t k) (refill outside now settings (suc left) queue s)
        (refill-IsKept (suc left) queue s h)

  none_waiting :
      (events : List WorkEvent) → AllWaiting [] events → All (λ e. is_processing e ≡ false) events
  none_waiting [] h = tt
  none_waiting (e ∷ events) h = (
    elim (Bool-cases (is_processing e)) [ inl y ↦ let no = h.0 y in cc | inr n ↦ n ],
    none_waiting events h.1,
  )

  waiting_none :
      (events : List WorkEvent) → All (λ e. is_processing e ≡ false) events → AllWaiting [] events
  waiting_none [] h = tt
  waiting_none (e ∷ events) h = (λ p. cc, waiting_none events h.1)

  -- A cycle leaves nothing half done: if no event is in processing when its loop begins, none is when it
  -- ends, whatever the engine raises and the mails fail and however the batches are cut; each event that
  -- was claimed has been brought to an end.
  pub work_off-none_processing :
      (budget : ℕ) (s : Worker S)
      → All (λ e. is_processing e ≡ false) s.work.events
      → All (λ e. is_processing e ≡ false) (work_off outside now settings budget [] s).work.events
  work_off-none_processing budget s h =
      none_waiting _ (work_off-AllWaiting budget [] s (omega arith, waiting_none s.work.events h))
