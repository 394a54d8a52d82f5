-- ===== src/Review/Listing.antt =====
-- The list of incidents, `list_incidents` of app/routers/incidents_v2.py.
use siem_sentinel_xv.Base.{
  ℕ, ◌+◌, ◌*◌, max, ltb, leb, ℤ, pos, leb_ℤ, Bool, true, ◌&&◌, ◌||◌, Option, none, some, List,
  String, [], ◌∷◌, map, length, keep, take, drop, mem, ◌=ₛ◌, if◌then◌else◌,
}
use siem_sentinel_xv.Http.{Response, ok, fail}
use siem_sentinel_xv.Review.{
  ReviewedIncident, Tables, status_ui_to_db, status_db_to_ui, badge_from_score,
}

-- What a list of incidents is asked for.
pub record IncidentQuery : Type 0 where
  pub server : Option String
  pub severity : String
  pub status : String
  pub days : ℕ
  pub limit : ℕ
  pub offset : ℕ

-- Of an item of the list, what the handler works out.
pub record IncidentItem : Type 0 where
  pub id : ℕ
  pub status : String
  pub score : ℤ
  pub badge : String

-- `_incident_to_item`
unfoldable pub incident_to_item : ReviewedIncident → IncidentItem
unfolding status_db_to_ui badge_from_score
incident_to_item inc = record {
  id = inc.id;
  status = status_db_to_ui inc.status;
  score = inc.score;
  badge = badge_from_score inc.score;
}

abbrev is_all : String → Bool
is_all s = s =ₛ "" || s =ₛ "all"

unfoldable pub meets_status : String → String → Bool
unfolding status_ui_to_db
meets_status asked status =
    let db_status = status_ui_to_db asked in
    if is_all asked
    then true
    else if db_status =ₛ "open"
    then mem status ("open" ∷ "triage" ∷ "contained" ∷ [])
    else status =ₛ db_status

unfoldable pub meets_severity : String → ℤ → Bool
meets_severity asked score =
    if asked =ₛ "high"
    then leb_ℤ (pos 61) score
    else if asked =ₛ "medium"
    then leb_ℤ (pos 31) score && leb_ℤ score (pos 60)
    else if asked =ₛ "low"
    then leb_ℤ score (pos 30)
    else true

abbrev same_server : Option String → Option String → Bool
same_server none server = true
same_server (some s) none = is_all s
same_server (some s) (some t) = is_all s || t =ₛ s

abbrev pub meets_rest : ℕ → IncidentQuery → ReviewedIncident → Bool
meets_rest now q i =
    leb now (i.last_activity_at + max 1 q.days * 86400 * 1000000) && same_server q.server i.server

abbrev pub meets_query : ℕ → IncidentQuery → ReviewedIncident → Bool
meets_query now q i =
    meets_rest now q i && meets_status q.status i.status && meets_severity q.severity i.score

-- The latest activity first.
unfoldable pub insert_latest : ReviewedIncident → List ReviewedIncident → List ReviewedIncident
insert_latest i [] = i ∷ []
insert_latest i (j ∷ rest) =
    let later = insert_latest i rest in
    if ltb i.last_activity_at j.last_activity_at then j ∷ later else i ∷ j ∷ rest

unfoldable pub latest_first : List ReviewedIncident → List ReviewedIncident
unfolding insert_latest
latest_first [] = []
latest_first (i ∷ rest) = insert_latest i (latest_first rest)

-- IncidentListResponse
pub record IncidentPage : Type 0 where
  pub items : List IncidentItem
  pub total : ℕ
  pub limit : ℕ
  pub offset : ℕ

abbrev pub in_range : IncidentQuery → Bool
in_range q = leb 1 q.days && leb q.days 365 && leb 1 q.limit && leb q.limit 1000

-- `list_incidents`
unfoldable pub list_incidents : ℕ → IncidentQuery → Tables → Response IncidentPage
unfolding meets_status meets_severity latest_first incident_to_item
list_incidents now q db =
    let found = keep (meets_query now q) db.incidents in
    if in_range q
    then ok (record {
      items = map incident_to_item (take q.limit (drop q.offset (latest_first found)));
      total = length found;
      limit = q.limit;
      offset = q.offset;
    })
    else fail 422
