-- ===== src/EngineWorker/Cycle/Marks.antt =====
-- What the end of an event leaves of the rows that can be claimed, app/workers/engine_worker_loop.py.
use siem_sentinel_xv.Base.{
  ℕ, suc, ◌≡◌, refl, ap, ◌∙◌, false, List, [], ◌∷◌, map, All, Bool-cases, inl, inr, if◌then◌else◌,
}
use siem_sentinel_xv.EngineWorker.{
  WorkEvent, ClaimedEvent, same_row, is_row, is_claimable, done, in_error, mark_event_done,
  mark_event_error,
}
use siem_sentinel_xv.EngineWorker.Cycle.Ends.{Ends, absent, marked_done, marked_error, marked_both}
use siem_sentinel_xv.EngineWorker.Cycle.Claims.{claimable, AreDistinct, IsTaken}

-- What a mark that ends an event does to the rows.
module _ (now hours : ℕ) (f : WorkEvent → WorkEvent)
    (over : (e : WorkEvent) → is_claimable now hours (f e) ≡ false)
    (same : (d e : WorkEvent) → same_row d (f e) ≡ same_row d e)
    (own : (d e : WorkEvent) → same_row (f d) e ≡ same_row d e) (c : ClaimedEvent) where
  abbrev mark : WorkEvent → WorkEvent
  mark e = if is_row c e then f e else e

  claimable-marked :
      (events : List WorkEvent)
      → IsTaken now hours events c
      → claimable now hours (map mark events) ≡ claimable now hours events
  unfolding claimable
  claimable-marked [] h = refl
  claimable-marked (e ∷ events) h = elim (Bool-cases (is_row c e)) [
    | inl y ↦ rw (y, over e, h.0 y) (claimable-marked events h.1)
    | inr n ↦ rw n (elim (Bool-cases (is_claimable now hours e)) [
      | inl t ↦ rw t (ap suc (claimable-marked events h.1))
      | inr t ↦ rw t (claimable-marked events h.1)
    ])
  ]

  marked-IsTaken :
      (b : ClaimedEvent) (events : List WorkEvent)
      → IsTaken now hours events b
      → IsTaken now hours (map mark events) b
  marked-IsTaken b [] h = tt
  marked-IsTaken b (e ∷ events) h = elim (Bool-cases (is_row c e)) [
    | inl y ↦ rw y (λ t. over e, marked-IsTaken b events h.1)
    | inr n ↦ rw n (h.0, marked-IsTaken b events h.1)
  ]

  marked-apart :
      (d : WorkEvent) (events : List WorkEvent)
      → All (λ e. same_row d e ≡ false) events
      → All (λ e. same_row d e ≡ false) (map mark events)
  marked-apart d [] h = tt
  marked-apart d (e ∷ events) h = elim (Bool-cases (is_row c e)) [
    | inl y ↦ rw y (same d e ∙ h.0, marked-apart d events h.1)
    | inr n ↦ rw n (h.0, marked-apart d events h.1)
  ]

  own_apart :
      (d : WorkEvent) (events : List WorkEvent)
      → All (λ e. same_row d e ≡ false) events
      → All (λ e. same_row (f d) e ≡ false) events
  own_apart d [] h = tt
  own_apart d (e ∷ events) h = (own d e ∙ h.0, own_apart d events h.1)

  marked-AreDistinct :
      (events : List WorkEvent) → AreDistinct events → AreDistinct (map mark events)
  marked-AreDistinct [] h = tt
  marked-AreDistinct (e ∷ events) h = elim (Bool-cases (is_row c e)) [
    | inl y ↦
        rw y
          (own_apart e (map mark events) (marked-apart e events h.0), marked-AreDistinct events h.1)
    | inr n ↦ rw n (marked-apart e events h.0, marked-AreDistinct events h.1)
  ]

  -- A mark leaves what can be claimed, and what holds of the rows and the queue.
  abbrev Leaves : List ClaimedEvent → List WorkEvent → List WorkEvent → Type 0
  Leaves queue before after =
      (claimable now hours after ≡ claimable now hours before)
      × AreDistinct after
      × All (IsTaken now hours after) queue

  all-IsTaken :
      (queue : List ClaimedEvent) (events : List WorkEvent)
      → All (IsTaken now hours events) queue
      → All (IsTaken now hours (map mark events)) queue
  all-IsTaken [] events h = tt
  all-IsTaken (b ∷ queue) events h = (marked-IsTaken b events h.0, all-IsTaken queue events h.1)

  mark-Leaves :
      (queue : List ClaimedEvent) (events : List WorkEvent)
      → AreDistinct events
      → All (IsTaken now hours events) (c ∷ queue)
      → Leaves queue events (map mark events)
  mark-Leaves queue events d h =
      (claimable-marked events h.0, marked-AreDistinct events d, all-IsTaken queue events h.1)

pub Ends-Leaves :
    (now hours : ℕ) (c : ClaimedEvent) (queue : List ClaimedEvent) (before after : List WorkEvent)
    → Ends now c before after
    → AreDistinct before
    → All (IsTaken now hours before) (c ∷ queue)
    → (claimable now hours after ≡ claimable now hours before)
      × AreDistinct after
      × All (IsTaken now hours after) queue
unfolding mark_event_done mark_event_error
Ends-Leaves now hours c queue before _ (absent n) d h = (refl, d, h.1)
Ends-Leaves now hours c queue before _ marked_done d h =
    mark-Leaves now hours (done now) (λ e. refl) (λ d e. refl) (λ d e. refl) c queue before d h
Ends-Leaves now hours c queue before _ marked_error d h =
    mark-Leaves now hours (in_error now) (λ e. refl) (λ d e. refl) (λ d e. refl) c queue before d h
Ends-Leaves now hours c queue before _ marked_both d h =
    let (n, e, k) =
      mark-Leaves now hours (done now) (λ e. refl) (λ d e. refl) (λ d e. refl) c (c ∷ queue) before
        d (h.0, h) in
    let (n', e', k') =
      mark-Leaves now hours (in_error now) (λ e. refl) (λ d e. refl) (λ d e. refl) c queue _ e k in
    (n' ∙ n, e', k')
