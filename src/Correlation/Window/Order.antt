-- ===== src/Correlation/Window/Order.antt =====
-- Windows whose events stand in the order of their times, and what eviction does to them.
use siem_sentinel_xv.Base.{ℕ, ◌+◌, ◌*◌, ◌≤◌, ◌≡◌, refl, [], ◌∷◌, ◌++◌, All, All-append, keep, arith}
use siem_sentinel_xv.Correlation.Window.{Hit, Bucket, evict_expired, is_fresh}

-- No event is later than the time.
abbrev pub IsUpTo : ℕ → Bucket → Type 0
IsUpTo t events = All (λ e. e.ts ≤ t) events

-- The oldest event comes first.
abbrev pub IsSorted : Bucket → Type 0
IsSorted [] = Unit
IsSorted (e ∷ events) = All (λ x. e.ts ≤ x.ts) events × IsSorted events

keep-All_lem :
    (now window t : ℕ) (events : Bucket)
    → now ≤ t + window * 1000000
    → All (λ e. t ≤ e.ts) events
    → keep (is_fresh now window) events ≡ events
keep-All_lem now window t [] h a = refl
keep-All_lem now window t (e ∷ events) h a = ground (arith, keep-All_lem now window t events h a.1)

-- Of a window in order, eviction from the front leaves just the events that are not expired.
pub evict-eq-keep :
    (now window : ℕ) (events : Bucket)
    → IsSorted events
    → evict_expired now window events ≡ keep (is_fresh now window) events
unfolding evict_expired
evict-eq-keep now window [] s = refl
evict-eq-keep now window (e ∷ events) s =
    ground (arith, keep-All_lem now window e.ts events, evict-eq-keep now window events s.1)

pub IsUpTo-trans : (events : Bucket) (t u : ℕ) → t ≤ u → IsUpTo t events → IsUpTo u events
IsUpTo-trans [] t u h k = tt
IsUpTo-trans (e ∷ events) t u h k = (omega arith, IsUpTo-trans events t u h k.1)

pub keep-IsUpTo :
    (now window t : ℕ) (events : Bucket)
    → IsUpTo t events
    → IsUpTo t (keep (is_fresh now window) events)
keep-IsUpTo now window t [] k = tt
keep-IsUpTo now window t (e ∷ events) k = ground (arith, keep-IsUpTo now window t events k.1)

keep-above :
    (now window t : ℕ) (events : Bucket)
    → All (λ e. t ≤ e.ts) events
    → All (λ e. t ≤ e.ts) (keep (is_fresh now window) events)
keep-above now window t [] k = tt
keep-above now window t (e ∷ events) k = ground (arith, keep-above now window t events k.1)

pub keep-IsSorted :
    (now window : ℕ) (events : Bucket)
    → IsSorted events
    → IsSorted (keep (is_fresh now window) events)
keep-IsSorted now window [] s = tt
keep-IsSorted now window (e ∷ events) s =
    ground (arith, keep-above now window e.ts events s.0, keep-IsSorted now window events s.1)

pub append-IsSorted :
    (events : Bucket) (hit : Hit)
    → IsSorted events
    → IsUpTo hit.ts events
    → IsSorted (events ++ hit ∷ [])
append-IsSorted [] hit s k = (tt, tt)
append-IsSorted (e ∷ events) hit s k = (
  All-append (λ x. e.ts ≤ x.ts) events (hit ∷ []) s.0 (k.0, tt),
  append-IsSorted events hit s.1 k.1,
)

pub append-IsUpTo :
    (events : Bucket) (hit : Hit) → IsUpTo hit.ts events → IsUpTo hit.ts (events ++ hit ∷ [])
append-IsUpTo events hit k = All-append (λ e. e.ts ≤ hit.ts) events (hit ∷ []) k (omega arith, tt)

-- An event that expired by an earlier time is expired by a later one.
pub keep-keep :
    (now later window : ℕ) (events : Bucket)
    → now ≤ later
    → keep (is_fresh later window) (keep (is_fresh now window) events)
      ≡ keep (is_fresh later window) events
keep-keep now later window [] h = refl
keep-keep now later window (e ∷ events) h = ground (arith, keep-keep now later window events h)
