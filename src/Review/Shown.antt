-- ===== src/Review/Shown.antt =====
-- What the list of incidents shows, `list_incidents` of app/routers/incidents_v2.py.
use siem_sentinel_xv.Base.{
  ℕ, zero, suc, ◌-◌, ◌≡◌, refl, sym, ap, ◌∙◌, subst, inl, inr, Bool, true, not, ◌&&◌, ltb, ℤ, pos,
  negsuc, leb_ℤ, List, String, [], ◌∷◌, length, keep, map, take, drop, All, All-keep, length-drop,
  min, Bool-cases, ◌=ₛ◌, arith,
}
use siem_sentinel_xv.Text.{lower, strip}
use siem_sentinel_xv.Http.{ok}
use siem_sentinel_xv.Review.{
  ReviewedIncident, Tables, status_ui_to_db, status_db_to_ui, badge_from_score,
}
use siem_sentinel_xv.Review.Listing.{
  IncidentQuery, IncidentItem, IncidentPage, meets_rest, meets_status, meets_severity, meets_query,
  insert_latest, latest_first, incident_to_item, in_range, list_incidents,
}

-- The statuses that the program writes.
pub data IsStatus : String → Type 0 where
  is_open : IsStatus "open"
  is_triage : IsStatus "triage"
  is_contained : IsStatus "contained"
  is_closed : IsStatus "closed"
  is_false_positive : IsStatus "false_positive"

-- The statuses that the list shows.
pub data IsShown : String → Type 0 where
  shown_open : IsShown "open"
  shown_resolved : IsShown "resolved"
  shown_false_positive : IsShown "false_positive"

pub data IsBadge : String → Type 0 where
  is_high : IsBadge "high"
  is_medium : IsBadge "medium"
  is_low : IsBadge "low"

meets_status-shown :
    (asked status : String)
    → IsShown asked
    → IsStatus status
    → meets_status asked status ≡ (status_db_to_ui status =ₛ asked)
unfolding meets_status status_ui_to_db status_db_to_ui lower strip
meets_status-shown _ _ shown_open is_open = refl
meets_status-shown _ _ shown_open is_triage = refl
meets_status-shown _ _ shown_open is_contained = refl
meets_status-shown _ _ shown_open is_closed = refl
meets_status-shown _ _ shown_open is_false_positive = refl
meets_status-shown _ _ shown_resolved is_open = refl
meets_status-shown _ _ shown_resolved is_triage = refl
meets_status-shown _ _ shown_resolved is_contained = refl
meets_status-shown _ _ shown_resolved is_closed = refl
meets_status-shown _ _ shown_resolved is_false_positive = refl
meets_status-shown _ _ shown_false_positive is_open = refl
meets_status-shown _ _ shown_false_positive is_triage = refl
meets_status-shown _ _ shown_false_positive is_contained = refl
meets_status-shown _ _ shown_false_positive is_closed = refl
meets_status-shown _ _ shown_false_positive is_false_positive = refl

above_or_not : (k : ℕ) (z : ℤ) → leb_ℤ z (pos k) ≡ not (leb_ℤ (pos (suc k)) z)
above_or_not k (pos n) = ground arith
above_or_not k (negsuc n) = ground arith

upper_implies_lower : (z : ℤ) → leb_ℤ (pos 61) z ≡ true → leb_ℤ (pos 31) z ≡ true
upper_implies_lower (pos n) h = ground arith
upper_implies_lower (negsuc n) h = ground arith

meets_severity-badge :
    (asked : String) (score : ℤ)
    → IsBadge asked
    → meets_severity asked score ≡ (badge_from_score score =ₛ asked)
unfolding meets_severity badge_from_score
meets_severity-badge _ score is_high = elim (Bool-cases (leb_ℤ (pos 61) score)) [
  | inl h ↦ rw h refl
  | inr h ↦ elim (Bool-cases (leb_ℤ (pos 31) score)) [
    | inl m ↦ rw (h, m) refl
    | inr m ↦ rw (h, m) refl
  ]
]
meets_severity-badge _ score is_medium =
    rw (above_or_not 60 score) (elim (Bool-cases (leb_ℤ (pos 61) score)) [
      | inl h ↦ rw (h, upper_implies_lower score h) refl
      | inr h ↦ elim (Bool-cases (leb_ℤ (pos 31) score)) [
        | inl m ↦ rw (h, m) refl
        | inr m ↦ rw (h, m) refl
      ]
    ])
meets_severity-badge _ score is_low =
    rw (above_or_not 30 score) (elim (Bool-cases (leb_ℤ (pos 61) score)) [
      | inl h ↦ rw (h, upper_implies_lower score h) refl
      | inr h ↦ elim (Bool-cases (leb_ℤ (pos 31) score)) [
        | inl m ↦ rw (h, m) refl
        | inr m ↦ rw (h, m) refl
      ]
    ])

-- What an analyst sees of an incident is what was asked for.
abbrev pub is_shown : ℕ → IncidentQuery → ReviewedIncident → Bool
is_shown now q i =
    meets_rest now q i
    && status_db_to_ui i.status =ₛ q.status
    && badge_from_score i.score =ₛ q.severity

meets_query-shown :
    (now : ℕ) (q : IncidentQuery) (i : ReviewedIncident)
    → IsShown q.status
    → IsBadge q.severity
    → IsStatus i.status
    → meets_query now q i ≡ is_shown now q i
meets_query-shown now q i hs hb h =
    rw (meets_status-shown q.status i.status hs h, meets_severity-badge q.severity i.score hb) refl

keep-shown :
    (now : ℕ) (q : IncidentQuery) (rows : List ReviewedIncident)
    → IsShown q.status
    → IsBadge q.severity
    → All (λ i. IsStatus i.status) rows
    → keep (meets_query now q) rows ≡ keep (is_shown now q) rows
keep-shown now q [] hs hb h = refl
keep-shown now q (i ∷ rows) hs hb h =
    rw (meets_query-shown now q i hs hb h.0, keep-shown now q rows hs hb h.1) refl

-- An item shows what was asked for.
abbrev pub IsAsked : IncidentQuery → IncidentItem → Type 0
IsAsked q item = ((item.status =ₛ q.status) ≡ true) × ((item.badge =ₛ q.severity) ≡ true)

length-insert_latest :
    (i : ReviewedIncident) (rows : List ReviewedIncident)
    → length (insert_latest i rows) ≡ suc (length rows)
unfolding insert_latest
length-insert_latest i [] = refl
length-insert_latest i (j ∷ rows) = elim (Bool-cases (ltb i.last_activity_at j.last_activity_at)) [
  | inl y ↦ rw y (ap suc (length-insert_latest i rows))
  | inr n ↦ rw n refl
]

length-latest_first : (rows : List ReviewedIncident) → length (latest_first rows) ≡ length rows
unfolding latest_first
length-latest_first [] = refl
length-latest_first (i ∷ rows) =
    length-insert_latest i (latest_first rows) ∙ ap suc (length-latest_first rows)

module _ (P : ReviewedIncident → Type 0) where
  insert_latest-All :
      (i : ReviewedIncident) (rows : List ReviewedIncident)
      → P i
      → All P rows
      → All P (insert_latest i rows)
  unfolding insert_latest
  insert_latest-All i [] h k = (h, tt)
  insert_latest-All i (j ∷ rows) h k =
      elim (Bool-cases (ltb i.last_activity_at j.last_activity_at)) [
        | inl y ↦ rw y (k.0, insert_latest-All i rows h k.1)
        | inr n ↦ rw n (h, k)
      ]

  latest_first-All : (rows : List ReviewedIncident) → All P rows → All P (latest_first rows)
  unfolding latest_first
  latest_first-All [] h = tt
  latest_first-All (i ∷ rows) h =
      insert_latest-All i (latest_first rows) h.0 (latest_first-All rows h.1)

  drop-All : (n : ℕ) (rows : List ReviewedIncident) → All P rows → All P (drop n rows)
  drop-All zero rows h = h
  drop-All (suc n) [] h = tt
  drop-All (suc n) (i ∷ rows) h = drop-All n rows h.1

take_shown :
    (now : ℕ) (q : IncidentQuery) (n : ℕ) (rows : List ReviewedIncident)
    → All (λ i. is_shown now q i ≡ true) rows
    → All (IsAsked q) (map incident_to_item (take n rows))
unfolding incident_to_item
take_shown now q zero rows h = tt
take_shown now q (suc n) [] h = tt
take_shown now q (suc n) (i ∷ rows) h = ((ground arith, ground arith), take_shown now q n rows h.1)

length-page :
    (n : ℕ) (rows : List ReviewedIncident)
    → length (map incident_to_item (take n rows)) ≡ min n (length rows)
length-page zero rows = omega arith
length-page (suc n) [] = omega arith
length-page (suc n) (i ∷ rows) = omega (arith, length-page n rows)

abbrev pub IsPage : ℕ → IncidentQuery → List ReviewedIncident → IncidentPage → Type 0
IsPage now q rows page =
    All (IsAsked q) page.items
    × (page.total ≡ length (keep (is_shown now q) rows))
    × (length page.items ≡ min q.limit (page.total - q.offset))

-- If the incidents have the statuses that the program writes, and a status that the list shows and a
-- badge are asked for, within the bounds of the schema, the list is answered: each item shows that status
-- and that badge, the total counts just the incidents that would show them, of the days and the server
-- asked for, and the page has as many items as its limit and what is left after its offset allow.
pub list_incidents-shown :
    (now : ℕ) (q : IncidentQuery) (db : Tables)
    → in_range q ≡ true
    → IsShown q.status
    → IsBadge q.severity
    → All (λ i. IsStatus i.status) db.incidents
    → (page : IncidentPage) × (list_incidents now q db ≡ ok page) × IsPage now q db.incidents page
unfolding list_incidents
list_incidents-shown now q db r hs hb h =
    let found = keep (meets_query now q) db.incidents in
    let same = keep-shown now q db.incidents hs hb h in
    let shown =
      subst (λ l. All (λ i. is_shown now q i ≡ true) l) (sym same)
        (All-keep (is_shown now q) db.incidents) in
    let lasts = length-latest_first found in
    rw r (
      _,
      refl,
      (
        take_shown now q q.limit (drop q.offset (latest_first found)) (
            drop-All (λ i. is_shown now q i ≡ true) q.offset (latest_first found)
              (latest_first-All (λ i. is_shown now q i ≡ true) found shown)),
        ap length same,
        omega (
          arith,
          length-page q.limit (drop q.offset (latest_first found)),
          length-drop q.offset (latest_first found),
          lasts,
        ),
      ),
    )
