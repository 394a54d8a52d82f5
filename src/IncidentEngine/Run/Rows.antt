-- ===== src/IncidentEngine/Run/Rows.antt =====
-- The alerts that reach the groups of a rule in the incident engine, app/services/incident_engine.py.
use siem_sentinel_xv.Base.{
  ℕ, ◌==◌, leb, ◌≡◌, refl, subst, Bool, true, false, Option, none, some, List, String, [], ◌∷◌,
  ◌++◌, map, keep, All, All-append, ◌=ₛ◌, arith, Bool-cases, Option-cases, inl, inr, some_inj,
}
use siem_sentinel_xv.IncidentEngine.{IncidentRule, AlertRow, IncidentDb}
use siem_sentinel_xv.IncidentEngine.Match.{match_rule}
use siem_sentinel_xv.IncidentEngine.Buckets.{
  GroupBucket, buckets_from, add_alert, key_in, insert_alert, by_time, only_servers, on_server,
  in_window, window_alerts, servers_of, matched, if_matched,
}
use siem_sentinel_xv.IncidentEngine.Run.{rule_alerts}
use siem_sentinel_xv.IncidentEngine.Record.Links.{AreDistinct}

abbrev IsApart : AlertRow → List AlertRow → Type 0
IsApart a rows = All (λ b. (a.id == b.id) ≡ false) rows

-- No two of the alerts have one id.
abbrev pub AreRows : List AlertRow → Type 0
AreRows [] = Unit
AreRows (a ∷ rows) = IsApart a rows × AreRows rows

ids_apart :
    (a : AlertRow) (rows : List AlertRow)
    → IsApart a rows
    → All (λ m. (a.id == m) ≡ false) (map (λ b. b.id) rows)
ids_apart a [] h = tt
ids_apart a (b ∷ rows) h = (h.0, ids_apart a rows h.1)

pub ids_distinct : (rows : List AlertRow) → AreRows rows → AreDistinct (map (λ a. a.id) rows)
ids_distinct [] d = tt
ids_distinct (a ∷ rows) d = (ids_apart a rows d.0, ids_distinct rows d.1)

IsApart-keep :
    (p : AlertRow → Bool) (a : AlertRow) (rows : List AlertRow)
    → IsApart a rows
    → IsApart a (keep p rows)
IsApart-keep p a [] h = tt
IsApart-keep p a (b ∷ rows) h = ground (arith, IsApart-keep p a rows h.1)

AreRows-keep : (p : AlertRow → Bool) (rows : List AlertRow) → AreRows rows → AreRows (keep p rows)
AreRows-keep p [] d = tt
AreRows-keep p (a ∷ rows) d = ground (arith, IsApart-keep p a rows d.0, AreRows-keep p rows d.1)

IsApart-insert_alert :
    (a b : AlertRow) (rows : List AlertRow)
    → (a.id == b.id) ≡ false
    → IsApart a rows
    → IsApart a (insert_alert b rows)
unfolding insert_alert
IsApart-insert_alert a b [] e h = (e, tt)
IsApart-insert_alert a b (c ∷ rows) e h = ground (arith, IsApart-insert_alert a b rows e h.1)

AreRows-insert_alert :
    (a : AlertRow) (rows : List AlertRow)
    → IsApart a rows
    → AreRows rows
    → AreRows (insert_alert a rows)
unfolding insert_alert
AreRows-insert_alert a [] h d = (tt, tt)
AreRows-insert_alert a (b ∷ rows) h d = elim (Bool-cases (leb a.triggered_at b.triggered_at)) [
  | inl y ↦ rw y (h, d)
  | inr n ↦
      rw n (IsApart-insert_alert b a rows (ground arith) d.0, AreRows-insert_alert a rows h.1 d.1)
]

IsApart-by_time : (a : AlertRow) (rows : List AlertRow) → IsApart a rows → IsApart a (by_time rows)
unfolding by_time
IsApart-by_time a [] h = tt
IsApart-by_time a (b ∷ rows) h =
    IsApart-insert_alert a b (by_time rows) h.0 (IsApart-by_time a rows h.1)

AreRows-by_time : (rows : List AlertRow) → AreRows rows → AreRows (by_time rows)
unfolding by_time
AreRows-by_time [] d = tt
AreRows-by_time (a ∷ rows) d =
    AreRows-insert_alert a (by_time rows) (IsApart-by_time a rows d.0) (AreRows-by_time rows d.1)

AreRows-only_servers :
    (ss : List String) (rows : List AlertRow) → AreRows rows → AreRows (only_servers ss rows)
AreRows-only_servers [] rows d = d
AreRows-only_servers (s ∷ ss) rows d = AreRows-keep (λ a. on_server (s ∷ ss) a.server) rows d

-- What is left of rows by a filter that may raise.
module _ (rule : IncidentRule) (P : AlertRow → Type 0) where
  if_matched-All :
      (a : AlertRow) (ok : Option Bool) (rest : Option (List AlertRow)) (found : List AlertRow)
      → if_matched a ok rest ≡ some found
      → P a
      → ((more : List AlertRow) → rest ≡ some more → All P more)
      → All P found
  if_matched-All a none rest found e p h = absurd (ground arith)
  if_matched-All a (some false) rest found e p h = h found e
  if_matched-All a (some true) none found e p h = absurd (ground arith)
  if_matched-All a (some true) (some more) found e p h = subst (All P) (some_inj e) (p, h more refl)

  matched-All :
      (rows found : List AlertRow) → matched rule rows ≡ some found → All P rows → All P found
  unfolding matched
  matched-All [] found e h = subst (All P) (some_inj e) tt
  matched-All (a ∷ rows) found e h =
      if_matched-All a (match_rule a rule) (matched rule rows) found e h.0
        (λ more f. matched-All rows more f h.1)

if_matched-AreRows :
    (rule : IncidentRule) (a : AlertRow) (ok : Option Bool) (rest : Option (List AlertRow))
    (found : List AlertRow)
    → if_matched a ok rest ≡ some found
    → ((more : List AlertRow) → rest ≡ some more → IsApart a more × AreRows more)
    → AreRows found
if_matched-AreRows rule a none rest found e h = absurd (ground arith)
if_matched-AreRows rule a (some false) rest found e h = (h found e).1
if_matched-AreRows rule a (some true) none found e h = absurd (ground arith)
if_matched-AreRows rule a (some true) (some more) found e h =
    subst AreRows (some_inj e) (h more refl)

matched-AreRows :
    (rule : IncidentRule) (rows found : List AlertRow)
    → matched rule rows ≡ some found
    → AreRows rows
    → AreRows found
unfolding matched
matched-AreRows rule [] found e d = subst AreRows (some_inj e) tt
matched-AreRows rule (a ∷ rows) found e d =
    if_matched-AreRows rule a (match_rule a rule) (matched rule rows) found e (λ more f. (
      matched-All rule (λ b. (a.id == b.id) ≡ false) rows more f d.0,
      matched-AreRows rule rows more f d.1,
    ))

pub rule_alerts-AreRows :
    (db : IncidentDb) (now : ℕ) (rule : IncidentRule) (found : List AlertRow)
    → rule_alerts db now rule ≡ some found
    → AreRows db.alerts
    → AreRows found
unfolding rule_alerts window_alerts
rule_alerts-AreRows db now rule found e d = elim (Option-cases (servers_of rule)) [
  | inl n ↦ absurd (ground arith)
  | inr (ss, s) ↦
      matched-AreRows rule (only_servers ss (by_time (keep (in_window rule now) db.alerts))) found
        (rw s at e) (AreRows-only_servers ss _ (AreRows-by_time _ (AreRows-keep _ db.alerts d)))
]

-- What adding an alert to the groups leaves of them.
abbrev IsApartFrom : AlertRow → GroupBucket → Type 0
IsApartFrom a b = All (λ x. (x.id == a.id) ≡ false) b.alerts

append-AreRows :
    (rows : List AlertRow) (a : AlertRow)
    → AreRows rows
    → All (λ x. (x.id == a.id) ≡ false) rows
    → AreRows (rows ++ a ∷ [])
append-AreRows [] a d h = (tt, tt)
append-AreRows (b ∷ rows) a d h =
    (All-append _ rows (a ∷ []) d.0 (h.0, tt), append-AreRows rows a d.1 h.1)

module _ (group_by : List String) where
  add_alert-AreRows :
      (a : AlertRow) (bs : List GroupBucket)
      → All (λ b. AreRows b.alerts) bs
      → All (IsApartFrom a) bs
      → All (λ b. AreRows b.alerts) (add_alert group_by a bs)
  unfolding add_alert
  add_alert-AreRows a [] d h = ((tt, tt), tt)
  add_alert-AreRows a (b ∷ bs) d h = elim (Bool-cases (b.key =ₛ key_in group_by a)) [
    | inl y ↦ rw y (append-AreRows b.alerts a d.0 h.0, d.1)
    | inr n ↦ rw n (d.0, add_alert-AreRows a bs d.1 h.1)
  ]

  add_alert-IsApartFrom :
      (a c : AlertRow) (bs : List GroupBucket)
      → (a.id == c.id) ≡ false
      → All (IsApartFrom c) bs
      → All (IsApartFrom c) (add_alert group_by a bs)
  unfolding add_alert
  add_alert-IsApartFrom a c [] e h = ((e, tt), tt)
  add_alert-IsApartFrom a c (b ∷ bs) e h = elim (Bool-cases (b.key =ₛ key_in group_by a)) [
    | inl y ↦ rw y (All-append _ b.alerts (a ∷ []) h.0 (e, tt), h.1)
    | inr n ↦ rw n (h.0, add_alert-IsApartFrom a c bs e h.1)
  ]

  add_alert-rest :
      (a : AlertRow) (rows : List AlertRow) (bs : List GroupBucket)
      → IsApart a rows
      → All (λ c. All (IsApartFrom c) bs) rows
      → All (λ c. All (IsApartFrom c) (add_alert group_by a bs)) rows
  add_alert-rest a [] bs d h = tt
  add_alert-rest a (c ∷ rows) bs d h =
      (add_alert-IsApartFrom a c bs d.0 h.0, add_alert-rest a rows bs d.1 h.1)

  pub buckets_from-AreRows :
      (rows : List AlertRow) (bs : List GroupBucket)
      → AreRows rows
      → All (λ b. AreRows b.alerts) bs
      → All (λ c. All (IsApartFrom c) bs) rows
      → All (λ b. AreRows b.alerts) (buckets_from group_by rows bs)
  unfolding buckets_from
  buckets_from-AreRows [] bs d g h = g
  buckets_from-AreRows (a ∷ rows) bs d g h =
      buckets_from-AreRows rows (add_alert group_by a bs) d.1 (add_alert-AreRows a bs g h.0)
        (add_alert-rest a rows bs d.0 h.1)

pub none_apart : (rows : List AlertRow) → All (λ c. All (IsApartFrom c) []) rows
none_apart [] = tt
none_apart (a ∷ rows) = (tt, none_apart rows)
