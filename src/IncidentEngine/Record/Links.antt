-- ===== src/IncidentEngine/Record/Links.antt =====
-- The links of incidents to alerts, app/services/incident_engine.py.
use siem_sentinel_xv.Base.{
  ℕ, ◌==◌, ◌≡◌, ap, refl, ◌∙◌, Bool, true, false, not, ◌&&◌, ◌||◌, Option, none, some, List, String,
  [], ◌∷◌, ◌++◌, any, All, All-append, arith, Bool-cases, inl, inr,
}
use siem_sentinel_xv.Value.{Fields}
use siem_sentinel_xv.IncidentEngine.{IncidentRule, Incident, IncidentDb, Link}
use siem_sentinel_xv.IncidentEngine.Record.{Aggregate, new_links, same_link, write_incident}

abbrev pub has_id : ℕ → List ℕ → Bool
has_id n ids = any (λ m. m == n) ids

abbrev pub IsLinked : ℕ → List Link → ℕ → Type 0
IsLinked inc links a = any (same_link inc a) links ≡ true

-- No id stands twice.
abbrev pub AreDistinct : List ℕ → Type 0
AreDistinct [] = Unit
AreDistinct (n ∷ ids) = All (λ m. (n == m) ≡ false) ids × AreDistinct ids

-- No two links are of one incident and alert.
abbrev pub AreUnique : List Link → Type 0
AreUnique [] = Unit
AreUnique (l ∷ links) =
    All (λ k. same_link l.incident_id l.alert_id k ≡ false) links × AreUnique links

any-append : (p : Link → Bool) (xs ys : List Link) → any p (xs ++ ys) ≡ (any p xs || any p ys)
any-append p [] ys = refl
any-append p (x ∷ xs) ys = ground (arith, any-append p xs ys)

has-weaken :
    (n : ℕ) (ids ks : List ℕ)
    → All (λ a. has_id a ids ≡ true) ks
    → All (λ a. has_id a (n ∷ ids) ≡ true) ks
has-weaken n ids [] h = tt
has-weaken n ids (k ∷ ks) h = (ground arith, has-weaken n ids ks h.1)

ids-All : (ids : List ℕ) → All (λ a. has_id a ids ≡ true) ids
ids-All [] = tt
ids-All (n ∷ ids) = (ground arith, has-weaken n ids ids (ids-All ids))

module _ (inc : ℕ) (links : List Link) where
  linked_as :
      (i a j b : ℕ)
      → i == j ≡ true
      → a == b ≡ true
      → any (same_link i a) links ≡ any (same_link j b) links
  linked_as i a j b e f =
      ap (λ n. any (same_link n a) links) (ground arith)
      ∙ ap (λ n. any (same_link j n) links) (ground arith)

  any-new_links :
      (a : ℕ) (ids : List ℕ)
      → any (same_link inc a) (new_links inc ids links)
        ≡ (has_id a ids && not (any (same_link inc a) links))
  unfolding new_links
  any-new_links a [] = refl
  any-new_links a (b ∷ ids) = elim (Bool-cases (b == a)) [
    | inl y ↦ ground (arith, linked_as inc b inc a (ground arith) y, any-new_links a ids)
    | inr n ↦ ground (arith, any-new_links a ids)
  ]

  -- The links to the alerts of a list stand there afterwards, and so do those that were there.
  any-linked :
      (a : ℕ) (ids : List ℕ)
      → any (same_link inc a) (links ++ new_links inc ids links)
        ≡ (any (same_link inc a) links || has_id a ids)
  any-linked a ids =
      ground
        (arith, any-append (same_link inc a) links (new_links inc ids links), any-new_links a ids)

  sublist-IsLinked :
      (some_ids ids : List ℕ)
      → All (λ a. has_id a ids ≡ true) some_ids
      → All (IsLinked inc (links ++ new_links inc ids links)) some_ids
  sublist-IsLinked [] ids h = tt
  sublist-IsLinked (a ∷ rest) ids h =
      (ground (arith, any-linked a ids), sublist-IsLinked rest ids h.1)

  new_links-IsLinked : (ids : List ℕ) → All (IsLinked inc (links ++ new_links inc ids links)) ids
  new_links-IsLinked ids = sublist-IsLinked ids ids (ids-All ids)

  new_links-apart :
      (l : Link) (ids : List ℕ)
      → any (same_link l.incident_id l.alert_id) links ≡ true
      → All (λ k. same_link l.incident_id l.alert_id k ≡ false) (new_links inc ids links)
  unfolding new_links
  new_links-apart l [] h = tt
  new_links-apart l (b ∷ ids) h = elim (Bool-cases (any (same_link inc b) links)) [
    | inl y ↦ rw y (new_links-apart l ids h)
    | inr n ↦ rw n (
      elim (Bool-cases
          (same_link l.incident_id l.alert_id (record { incident_id = inc; alert_id = b }))) [
            | inl z ↦ absurd (
                ground
                  (arith, linked_as inc b l.incident_id l.alert_id (ground arith) (ground arith)))
            | inr z ↦ z
          ],
      new_links-apart l ids h,
    )
  ]

  new_links-fresh :
      (b : ℕ) (ids : List ℕ)
      → All (λ m. (b == m) ≡ false) ids
      → All (λ k. same_link inc b k ≡ false) (new_links inc ids links)
  unfolding new_links
  new_links-fresh b [] h = tt
  new_links-fresh b (m ∷ ids) h = ground (arith, new_links-fresh b ids h.1)

  new_links-AreUnique : (ids : List ℕ) → AreDistinct ids → AreUnique (new_links inc ids links)
  unfolding new_links
  new_links-AreUnique [] d = tt
  new_links-AreUnique (b ∷ ids) d =
      ground (arith, new_links-fresh b ids d.0, new_links-AreUnique ids d.1)

append-AreUnique :
    (xs ys : List Link)
    → AreUnique xs
    → AreUnique ys
    → All (λ l. All (λ k. same_link l.incident_id l.alert_id k ≡ false) ys) xs
    → AreUnique (xs ++ ys)
append-AreUnique [] ys u v h = v
append-AreUnique (x ∷ xs) ys u v h = (All-append _ xs ys u.0 h.0, append-AreUnique xs ys u.1 v h.1)

module _ (inc : ℕ) (ids : List ℕ) where
  abbrev pub Stands : List Link → Link → Type 0
  Stands links l = any (same_link l.incident_id l.alert_id) links ≡ true

  weaken : (l : Link) (links ks : List Link) → All (Stands links) ks → All (Stands (l ∷ links)) ks
  weaken l links [] h = tt
  weaken l links (k ∷ ks) h = (ground arith, weaken l links ks h.1)

  links-Stands : (links : List Link) → All (Stands links) links
  links-Stands [] = tt
  links-Stands (l ∷ links) = (ground arith, weaken l links links (links-Stands links))

  new_links-All :
      (links ks : List Link)
      → All (Stands links) ks
      → All
          (λ l. All (λ k. same_link l.incident_id l.alert_id k ≡ false) (new_links inc ids links))
          ks
  new_links-All links [] h = tt
  new_links-All links (k ∷ ks) h = (new_links-apart inc links k ids h.0, new_links-All links ks h.1)

  linked-AreUnique :
      (links : List Link)
      → AreDistinct ids
      → AreUnique links
      → AreUnique (links ++ new_links inc ids links)
  linked-AreUnique links d u =
      append-AreUnique links (new_links inc ids links) u (new_links-AreUnique inc links ids d)
        (new_links-All links links (links-Stands links))

-- Writing the incident of a group whose alerts have distinct ids keeps the links unique, as the table
-- wants it, and links the incident to every alert of the group.
pub write_incident-links :
    (rule : IncidentRule) (group : String) (gv : Fields) (entity : String) (agg : Aggregate)
    (db : IncidentDb) (found : Option Incident)
    → AreDistinct agg.alert_ids
    → AreUnique db.links
    → AreUnique (write_incident rule group gv entity agg db found).0.links
      × All
          (IsLinked
            (write_incident rule group gv entity agg db found).1.id
            (write_incident rule group gv entity agg db found).0.links)
          agg.alert_ids
unfolding write_incident
write_incident-links rule group gv entity agg db none d u =
    (linked-AreUnique _ agg.alert_ids db.links d u, new_links-IsLinked _ db.links agg.alert_ids)
write_incident-links rule group gv entity agg db (some old) d u =
    (linked-AreUnique _ agg.alert_ids db.links d u, new_links-IsLinked _ db.links agg.alert_ids)
