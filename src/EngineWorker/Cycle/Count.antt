-- ===== src/EngineWorker/Cycle/Count.antt =====
-- How many events a cycle of app/workers/engine_worker_loop.py treats.
use siem_sentinel_xv.Base.{
  ℕ, zero, suc, ◌-◌, ◌≤◌, ◌<◌, min, ◌≡◌, refl, ap, List, [], ◌∷◌, length, All, arith,
}
use siem_sentinel_xv.EngineWorker.{ClaimedEvent, Settings}
use siem_sentinel_xv.EngineWorker.Cycle.{Outside, Worker, process, refill, take_next, work_off}
use siem_sentinel_xv.EngineWorker.Cycle.Ends.{process-Ends}
use siem_sentinel_xv.EngineWorker.Cycle.Claims.{
  claimable, AreDistinct, IsTaken, claimable-claim_batch, claim_batch-AreDistinct,
  claim_batch-IsTaken,
}
use siem_sentinel_xv.EngineWorker.Cycle.Marks.{Ends-Leaves}

module _ {S : Type 0} (outside : Outside S) (now : ℕ) (settings : Settings)
    (b : 0 < settings.claim_batch_size) where
  abbrev hours : ℕ
  hours = settings.lookback_hours

  -- The queue is no longer than the budget, and its events are taken.
  abbrev IsReady : ℕ → Worker S × List ClaimedEvent → Type 0
  IsReady left r =
      (length r.1 ≤ left)
      × AreDistinct r.0.work.events
      × All (IsTaken now hours r.0.work.events) r.1

  -- What is left to claim when the budget is spent.
  abbrev left_over : ℕ → Worker S × List ClaimedEvent → ℕ
  left_over left r = claimable now hours r.0.work.events - (left - length r.1)

  abbrev IsRefilled : ℕ → ℕ → Worker S × List ClaimedEvent → Type 0
  IsRefilled left n r =
      IsReady left r × (left_over left r ≡ n) × (r.1 ≡ [] → claimable now hours r.0.work.events ≡ n)

  refill-IsRefilled :
      (left : ℕ) (queue : List ClaimedEvent) (s : Worker S)
      → IsReady (suc left) (s, queue)
      → IsRefilled
          (suc left)
          (left_over (suc left) (s, queue))
          (refill outside now settings (suc left) queue s)
  unfolding refill
  refill-IsRefilled left [] s h =
      let limit = min settings.claim_batch_size (suc left) in
      let (a, k) = claimable-claim_batch now hours limit s.work.events in
      let (_, d, _) = h in
      (
        (
          ground (arith, a),
          claim_batch-AreDistinct now hours limit s.work.events d,
          claim_batch-IsTaken now hours limit s.work.events d,
        ),
        ground (arith, a, k),
        λ e. ground (arith, a, k, ap length e, b),
      )
  refill-IsRefilled left (c ∷ queue) s h = (h, refl, λ e. cc)

  take_next-claimable :
      (left n : ℕ) (go_on : List ClaimedEvent → Worker S → Worker S)
      → ((q : List ClaimedEvent) (t : Worker S)
          → IsReady left (t, q)
          → claimable now hours (go_on q t).work.events ≡ left_over left (t, q))
      → (r : Worker S × List ClaimedEvent) → IsRefilled (suc left) n r
      → claimable now hours (take_next outside now settings go_on r).work.events ≡ n
  take_next-claimable left n go_on later (s, []) h = h.2 refl
  take_next-claimable left n go_on later (s, c ∷ queue) h =
      let (short, d, taken) = h.0 in
      let (same, d', taken') =
        Ends-Leaves now hours c queue s.work.events _ (process-Ends outside now c hours s) d
          taken in
      let rest = later queue (process outside now hours c s) (omega (arith, short), d', taken') in
      let whole = h.1 in omega (arith, rest, same, whole)

  work_off-left_over :
      (left : ℕ) (queue : List ClaimedEvent) (s : Worker S)
      → IsReady left (s, queue)
      → claimable now hours (work_off outside now settings left queue s).work.events
        ≡ left_over left (s, queue)
  unfolding work_off
  work_off-left_over zero queue s h = omega arith
  work_off-left_over (suc left) queue s h =
      take_next-claimable left (left_over (suc left) (s, queue))
        (λ q t. work_off outside now settings left q t) (λ q t k. work_off-left_over left q t k)
        (refill outside now settings (suc left) queue s) (refill-IsRefilled left queue s h)

  -- A cycle neither stops early nor does too much: with batches of one event at least, and rows of which
  -- no two have one id and time, it treats as many of the events that can be claimed as its budget says,
  -- or all of them, so there are fewer by that number when its loop ends.
  pub work_off-claimable :
      (budget : ℕ) (s : Worker S)
      → AreDistinct s.work.events
      → claimable now hours (work_off outside now settings budget [] s).work.events
        ≡ claimable now hours s.work.events - budget
  work_off-claimable budget s d =
      let all = work_off-left_over budget [] s (omega arith, d, tt) in omega (arith, all)
