-- ===== src/EntityJob/Run/Order.antt =====
-- The order of the alerts in the query of `run_entities_job`, app/services/entity_job.py.
use siem_sentinel_xv.Base.{
  ℕ, zero, suc, ◌==◌, ◌<◌, ◌≤◌, leb, ◌≡◌, refl, sym, ◌∙◌, false, List, [], ◌∷◌, drop, All, arith,
  Bool-cases, inl, inr,
}
use siem_sentinel_xv.EntityJob.{ScoredAlert}
use siem_sentinel_xv.EntityJob.Run.{insert_by_id, by_id, take, pending, last_id}

-- All the alerts have ids above the number.
abbrev pub AreAbove : ℕ → List ScoredAlert → Type 0
AreAbove n = All (λ a. n < a.id)

abbrev pub IsAscending : List ScoredAlert → Type 0
IsAscending [] = Unit
IsAscending (a ∷ alerts) = AreAbove a.id alerts × IsAscending alerts

abbrev IsOther : ScoredAlert → List ScoredAlert → Type 0
IsOther a = All (λ b. (a.id == b.id) ≡ false)

-- No two alerts have one id.
abbrev pub HaveOwnIds : List ScoredAlert → Type 0
HaveOwnIds [] = Unit
HaveOwnIds (a ∷ alerts) = IsOther a alerts × HaveOwnIds alerts

insert_by_id-AreAbove :
    (n : ℕ) (a : ScoredAlert) (alerts : List ScoredAlert)
    → n < a.id
    → AreAbove n alerts
    → AreAbove n (insert_by_id a alerts)
unfolding insert_by_id
insert_by_id-AreAbove n a [] h s = (h, tt)
insert_by_id-AreAbove n a (b ∷ alerts) h s = ground (arith, insert_by_id-AreAbove n a alerts h s.1)

AreAbove-trans :
    (n m : ℕ) (alerts : List ScoredAlert) → n ≤ m → AreAbove m alerts → AreAbove n alerts
AreAbove-trans n m [] h s = tt
AreAbove-trans n m (b ∷ alerts) h s = (omega arith, AreAbove-trans n m alerts h s.1)

insert_by_id-IsAscending :
    (a : ScoredAlert) (alerts : List ScoredAlert)
    → IsOther a alerts
    → IsAscending alerts
    → IsAscending (insert_by_id a alerts)
unfolding insert_by_id
insert_by_id-IsAscending a [] o s = (tt, tt)
insert_by_id-IsAscending a (b ∷ alerts) o s = elim (Bool-cases (leb a.id b.id)) [
  | inl y ↦
      let below : a.id < b.id = ground arith in
      rw y ((below, AreAbove-trans a.id b.id alerts (omega arith) s.0), s)
  | inr n ↦ rw n (
    insert_by_id-AreAbove b.id a alerts (ground arith) s.0,
    insert_by_id-IsAscending a alerts o.1 s.1,
  )
]

insert_by_id-IsOther :
    (a b : ScoredAlert) (alerts : List ScoredAlert)
    → (a.id == b.id) ≡ false
    → IsOther a alerts
    → IsOther a (insert_by_id b alerts)
unfolding insert_by_id
insert_by_id-IsOther a b [] e o = (e, tt)
insert_by_id-IsOther a b (c ∷ alerts) e o = ground (arith, insert_by_id-IsOther a b alerts e o.1)

by_id-IsOther :
    (a : ScoredAlert) (alerts : List ScoredAlert) → IsOther a alerts → IsOther a (by_id alerts)
unfolding by_id
by_id-IsOther a [] o = tt
by_id-IsOther a (b ∷ alerts) o =
    insert_by_id-IsOther a b (by_id alerts) o.0 (by_id-IsOther a alerts o.1)

-- Alerts with distinct ids stand in the query in ascending order.
pub by_id-IsAscending : (alerts : List ScoredAlert) → HaveOwnIds alerts → IsAscending (by_id alerts)
unfolding by_id
by_id-IsAscending [] h = tt
by_id-IsAscending (a ∷ alerts) h =
    insert_by_id-IsAscending a (by_id alerts) (by_id-IsOther a alerts h.0)
      (by_id-IsAscending alerts h.1)

pending-AreAbove :
    (n m : ℕ) (alerts : List ScoredAlert) → AreAbove n alerts → AreAbove n (pending m alerts)
pending-AreAbove n m [] s = tt
pending-AreAbove n m (a ∷ alerts) s = ground (arith, pending-AreAbove n m alerts s.1)

pub pending-IsAscending :
    (m : ℕ) (alerts : List ScoredAlert) → IsAscending alerts → IsAscending (pending m alerts)
pending-IsAscending m [] s = tt
pending-IsAscending m (a ∷ alerts) s =
    ground (arith, pending-AreAbove a.id m alerts s.0, pending-IsAscending m alerts s.1)

pub pending-above : (m : ℕ) (alerts : List ScoredAlert) → AreAbove m (pending m alerts)
pending-above m [] = tt
pending-above m (a ∷ alerts) = ground (arith, pending-above m alerts)

pending-all : (n : ℕ) (alerts : List ScoredAlert) → AreAbove n alerts → pending n alerts ≡ alerts
pending-all n [] s = refl
pending-all n (a ∷ alerts) s = ground (arith, pending-all n alerts s.1)

last_id-above :
    (n k : ℕ) (alerts : List ScoredAlert)
    → IsAscending alerts
    → AreAbove n alerts
    → n ≤ last_id n (take k alerts)
last_id-above n zero alerts s a = omega arith
last_id-above n (suc k) [] s a = omega arith
last_id-above n (suc k) (b ∷ alerts) s a = omega (arith, last_id-above b.id k alerts s.1 s.0)

pending-drop :
    (n k : ℕ) (alerts : List ScoredAlert)
    → IsAscending alerts
    → AreAbove n alerts
    → pending (last_id n (take k alerts)) alerts ≡ drop k alerts
pending-drop n zero alerts s a = pending-all n alerts a
pending-drop n (suc k) [] s a = refl
pending-drop n (suc k) (b ∷ alerts) s a =
    ground (arith, last_id-above b.id k alerts s.1 s.0, pending-drop b.id k alerts s.1 s.0)

pending-pending :
    (n m : ℕ) (alerts : List ScoredAlert) → n ≤ m → pending m (pending n alerts) ≡ pending m alerts
pending-pending n m [] h = refl
pending-pending n m (a ∷ alerts) h = ground (arith, pending-pending n m alerts h)

-- After a batch there is pending what was pending behind it.
pub pending-next :
    (n k : ℕ) (rows : List ScoredAlert)
    → IsAscending rows
    → pending (last_id n (take k (pending n rows))) rows ≡ drop k (pending n rows)
pending-next n k rows s =
    let up = pending-IsAscending n rows s in
    let above = pending-above n rows in
    sym (pending-pending n _ rows (last_id-above n k (pending n rows) up above))
    ∙ pending-drop n k (pending n rows) up above
