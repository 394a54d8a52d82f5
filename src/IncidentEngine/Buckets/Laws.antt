-- ===== src/IncidentEngine/Buckets/Laws.antt =====
-- What the groups of a rule hold, app/services/incident_engine.py.
use mathlib.Core.List.{append-nil, append_assoc}
use siem_sentinel_xv.Base.{
  ◌≡◌, List, String, [], ◌∷◌, ◌++◌, keep, ◌=ₛ◌, if◌then◌else◌, arith, eq_iff, Bool-cases, inl, inr,
}
use siem_sentinel_xv.IncidentEngine.{AlertRow}
use siem_sentinel_xv.IncidentEngine.Buckets.{GroupBucket, key_in, add_alert, buckets_from}

-- The alerts of a group.
unfoldable pub alerts_at : String → List GroupBucket → List AlertRow
alerts_at k [] = []
alerts_at k (b ∷ bs) = if b.key =ₛ k then b.alerts else alerts_at k bs

alerts_at-add_alert :
    (group_by : List String) (k : String) (a : AlertRow) (bs : List GroupBucket)
    → alerts_at k (add_alert group_by a bs)
      ≡ (if key_in group_by a =ₛ k then alerts_at k bs ++ a ∷ [] else alerts_at k bs)
unfolding alerts_at add_alert
alerts_at-add_alert group_by k a [] = ground arith
alerts_at-add_alert group_by k a (b ∷ bs) = ground (
  arith,
  eq_iff b.key (key_in group_by a),
  eq_iff b.key k,
  eq_iff (key_in group_by a) k,
  alerts_at-add_alert group_by k a bs,
)

alerts_at-append :
    (group_by : List String) (k : String) (rows : List AlertRow) (bs : List GroupBucket)
    → alerts_at k (buckets_from group_by rows bs)
      ≡ alerts_at k bs ++ keep (λ a. key_in group_by a =ₛ k) rows
unfolding buckets_from
alerts_at-append group_by k [] bs = rw append-nil
alerts_at-append group_by k (a ∷ rows) bs =
    rw
      (
        alerts_at-append group_by k rows (add_alert group_by a bs),
        alerts_at-add_alert group_by k a bs,
      )
      (elim (Bool-cases (key_in group_by a =ₛ k)) [
        | inl y ↦ simp (y, append_assoc)
        | inr n ↦ simp n
      ])

-- A group of a rule holds just the alerts whose own group key is the group's, in the order in which
-- they came.
pub buckets_from-alerts_at :
    (group_by : List String) (k : String) (rows : List AlertRow)
    → alerts_at k (buckets_from group_by rows []) ≡ keep (λ a. key_in group_by a =ₛ k) rows
buckets_from-alerts_at group_by k rows = unfold alerts_at in alerts_at-append group_by k rows []
