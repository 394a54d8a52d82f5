-- ===== src/EngineWorker/Cycle/Claims.antt =====
-- What a batch takes of the events that can be claimed, `_claim_batch` of
-- app/workers/engine_worker_loop.py.
use siem_sentinel_xv.Base.{
  ℕ, zero, suc, ◌-◌, min, ◌≡◌, refl, true, false, List, [], ◌∷◌, length, keep, All, Bool-cases, inl,
  inr, arith, eq_iff,
}
use siem_sentinel_xv.EngineWorker.{
  WorkEvent, ClaimedEvent, same_row, is_row, is_claimable, claim, claimed_event, claim_batch,
}

-- How many events can be claimed.
unfoldable pub claimable : ℕ → ℕ → List WorkEvent → ℕ
claimable now hours events = length (keep (is_claimable now hours) events)

pub claimable-claim_batch :
    (now hours limit : ℕ) (events : List WorkEvent)
    → let r = claim_batch now hours limit events in
      (length r.1 ≡ min limit (claimable now hours events))
      × (claimable now hours r.0 ≡ claimable now hours events - limit)
unfolding claim_batch claimable
claimable-claim_batch now hours limit [] = (omega arith, omega arith)
claimable-claim_batch now hours zero (e ∷ events) = (omega arith, omega arith)
claimable-claim_batch now hours (suc limit) (e ∷ events) =
    let (a, b) = claimable-claim_batch now hours limit events in
    let (c, d) = claimable-claim_batch now hours (suc limit) events in
    elim (Bool-cases (is_claimable now hours e)) [
      | inl y ↦ rw y (omega (arith, a), omega (arith, b))
      | inr n ↦ rw (n, n) (c, d)
    ]

-- No two rows have one id and time.
abbrev pub AreDistinct : List WorkEvent → Type 0
AreDistinct [] = Unit
AreDistinct (e ∷ events) = All (λ d. same_row e d ≡ false) events × AreDistinct events

-- The rows of an event that was claimed cannot be claimed.
abbrev pub IsTaken : ℕ → ℕ → List WorkEvent → ClaimedEvent → Type 0
IsTaken now hours events c = All (λ e. is_row c e ≡ true → is_claimable now hours e ≡ false) events

-- Rows with a key of their own stay so, whatever a claim does to them.
apart_claimed :
    (now hours limit : ℕ) (d : WorkEvent) (events : List WorkEvent)
    → All (λ e. same_row d e ≡ false) events
    → All (λ e. same_row d e ≡ false) (claim_batch now hours limit events).0
unfolding claim_batch
apart_claimed now hours limit d [] h = tt
apart_claimed now hours zero d (e ∷ events) h = h
apart_claimed now hours (suc limit) d (e ∷ events) h =
    elim (Bool-cases (is_claimable now hours e)) [
      | inl y ↦ rw y (h.0, apart_claimed now hours limit d events h.1)
      | inr n ↦ rw n (h.0, apart_claimed now hours (suc limit) d events h.1)
    ]

pub claim_batch-AreDistinct :
    (now hours limit : ℕ) (events : List WorkEvent)
    → AreDistinct events
    → AreDistinct (claim_batch now hours limit events).0
unfolding claim_batch
claim_batch-AreDistinct now hours limit [] h = tt
claim_batch-AreDistinct now hours zero (e ∷ events) h = h
claim_batch-AreDistinct now hours (suc limit) (e ∷ events) h =
    elim (Bool-cases (is_claimable now hours e)) [
      | inl y ↦ rw y (
        apart_claimed now hours limit e events h.0,
        claim_batch-AreDistinct now hours limit events h.1,
      )
      | inr n ↦ rw n (
        apart_claimed now hours (suc limit) e events h.0,
        claim_batch-AreDistinct now hours (suc limit) events h.1,
      )
    ]

-- What is claimed of some rows is not a row with another key.
claimed_apart :
    (now hours limit : ℕ) (d : WorkEvent) (events : List WorkEvent)
    → All (λ e. same_row d e ≡ false) events
    → All (λ c. is_row c d ≡ false) (claim_batch now hours limit events).1
unfolding claim_batch
claimed_apart now hours limit d [] h = tt
claimed_apart now hours zero d (e ∷ events) h = tt
claimed_apart now hours (suc limit) d (e ∷ events) h =
    elim (Bool-cases (is_claimable now hours e)) [
      | inl y ↦ rw y (
        ground (arith, h.0, eq_iff d.id e.id, eq_iff e.id d.id),
        claimed_apart now hours limit d events h.1,
      )
      | inr n ↦ rw n (claimed_apart now hours (suc limit) d events h.1)
    ]

IsTaken-cons :
    (now hours : ℕ) (d : WorkEvent) (events : List WorkEvent) (queue : List ClaimedEvent)
    → All (λ c. is_row c d ≡ true → is_claimable now hours d ≡ false) queue
    → All (IsTaken now hours events) queue
    → All (IsTaken now hours (d ∷ events)) queue
IsTaken-cons now hours d events [] h k = tt
IsTaken-cons now hours d events (c ∷ queue) h k =
    ((h.0, k.0), IsTaken-cons now hours d events queue h.1 k.1)

others :
    (now hours : ℕ) (d e : WorkEvent) (queue : List ClaimedEvent)
    → All (λ c. is_row c d ≡ false) queue
    → All (λ c. is_row c d ≡ true → is_claimable now hours e ≡ false) queue
others now hours d e [] h = tt
others now hours d e (c ∷ queue) h = (λ y. cc, others now hours d e queue h.1)

no_claim :
    (now hours : ℕ) (e : WorkEvent) (queue : List ClaimedEvent)
    → is_claimable now hours e ≡ false
    → All (λ c. is_row c e ≡ true → is_claimable now hours e ≡ false) queue
no_claim now hours e [] n = tt
no_claim now hours e (c ∷ queue) n = (λ y. n, no_claim now hours e queue n)

own-IsTaken :
    (now hours : ℕ) (e : WorkEvent) (events : List WorkEvent)
    → All (λ d. same_row e d ≡ false) events
    → IsTaken now hours events (claimed_event e)
own-IsTaken now hours e [] h = tt
own-IsTaken now hours e (d ∷ events) h =
    (λ y. let no = h.0 in cc, own-IsTaken now hours e events h.1)

pub claim_batch-IsTaken :
    (now hours limit : ℕ) (events : List WorkEvent)
    → AreDistinct events
    → let r = claim_batch now hours limit events in All (IsTaken now hours r.0) r.1
unfolding claim_batch
claim_batch-IsTaken now hours limit [] h = tt
claim_batch-IsTaken now hours zero (e ∷ events) h = tt
claim_batch-IsTaken now hours (suc limit) (e ∷ events) h =
    let r = claim_batch now hours limit events in
    let r' = claim_batch now hours (suc limit) events in
    elim (Bool-cases (is_claimable now hours e)) [
      | inl y ↦ rw y (
        (λ t. refl, own-IsTaken now hours e r.0 (apart_claimed now hours limit e events h.0)),
        IsTaken-cons now hours (claim now e) r.0 r.1
            (others now hours e (claim now e) r.1 (claimed_apart now hours limit e events h.0))
            (claim_batch-IsTaken now hours limit events h.1),
      )
      | inr n ↦ rw n (
          IsTaken-cons now hours e r'.0 r'.1 (no_claim now hours e r'.1 n)
            (claim_batch-IsTaken now hours (suc limit) events h.1))
    ]
