-- ===== src/IncidentEngine/Buckets.antt =====
-- The alerts of a rule's window, and their groups: the first half of `IncidentEngine.run`,
-- app/services/incident_engine.py. A result of none is an exception.
pub mod Laws
use siem_sentinel_xv.Base.{
  ℕ, ◌+◌, ◌*◌, ◌==◌, ◌≡◌, refl, Bool, true, false, ◌&&◌, ◌||◌, Option, none, some, List, String, [],
  ◌∷◌, ◌++◌, mem, keep, leb, ◌=ₛ◌, if◌then◌else◌, arith, eq_iff, Bool-cases, Option-cases, inl, inr,
}
use siem_sentinel_xv.Value.{Fields, end, get, dict_of}
use siem_sentinel_xv.IncidentEngine.{IncidentRule, AlertRow, IncidentDb}
use siem_sentinel_xv.IncidentEngine.Match.{
  match_rule, extract_group_values, build_incident_key, texts, as_list, is_no_text,
}

-- `int(rule.window_seconds or 1800)`
abbrev pub incident_window : IncidentRule → ℕ
incident_window rule = if rule.window_seconds == 0 then 1800 else rule.window_seconds

abbrev pub in_window : IncidentRule → ℕ → AlertRow → Bool
in_window rule now a =
    leb now (a.triggered_at + incident_window rule * 1000000) && leb a.triggered_at now

unfoldable pub insert_alert : AlertRow → List AlertRow → List AlertRow
insert_alert a [] = a ∷ []
insert_alert a (b ∷ more) =
    let rest = insert_alert a more in
    if leb a.triggered_at b.triggered_at then a ∷ b ∷ more else b ∷ rest

-- order_by(Alert.triggered_at.asc()); the order of equal times is that of the table
unfoldable pub by_time : List AlertRow → List AlertRow
by_time [] = []
by_time (a ∷ more) = insert_alert a (by_time more)

-- Alert.server.in_(servers), which NULL never is
abbrev pub on_server : List String → Option String → Bool
on_server ss none = false
on_server ss (some s) = mem s ss

abbrev pub only_servers : List String → List AlertRow → List AlertRow
only_servers ss more = if is_no_text ss then more else keep (λ a. on_server ss a.server) more

-- The servers of the rule's match, if it has them.
unfoldable pub servers_of : IncidentRule → Option (List String)
servers_of rule = elim (dict_of rule.match) [
  | none ↦ some []
  | some m ↦ elim (get m "server_any") [ none ↦ some [] | some v ↦ texts (as_list v) ]
]

abbrev pub in_servers : List AlertRow → Option (List String) → Option (List AlertRow)
in_servers rows none = none
in_servers rows (some ss) = some (only_servers ss rows)

-- The alerts of the query.
unfoldable pub window_alerts : IncidentDb → ℕ → IncidentRule → Option (List AlertRow)
window_alerts db now rule =
    in_servers (by_time (keep (in_window rule now) db.alerts)) (servers_of rule)

abbrev pub if_matched : AlertRow → Option Bool → Option (List AlertRow) → Option (List AlertRow)
if_matched a none rest = none
if_matched a (some false) rest = rest
if_matched a (some true) none = none
if_matched a (some true) (some found) = some (a ∷ found)

-- The alerts that the rule matches.
unfoldable pub matched : IncidentRule → List AlertRow → Option (List AlertRow)
matched rule [] = some []
matched rule (a ∷ rows) = if_matched a (match_rule a rule) (matched rule rows)

-- A bucket: its key, the values of the first alert, and its alerts.
pub record GroupBucket : Type 0 where
  pub key : String
  pub group_values : Fields
  pub alerts : List AlertRow

abbrev pub key_in : List String → AlertRow → String
key_in group_by a = build_incident_key group_by (extract_group_values a.evidence)

-- buckets[gk].append(al)
unfoldable pub add_alert : List String → AlertRow → List GroupBucket → List GroupBucket
add_alert group_by a [] =
    record {
      key = key_in group_by a;
      group_values = extract_group_values a.evidence;
      alerts = a ∷ [];
    }
    ∷ []
add_alert group_by a (b ∷ bs) =
    let rest = add_alert group_by a bs in
    if b.key =ₛ key_in group_by a then record b { alerts = b.alerts ++ a ∷ [] } ∷ bs else b ∷ rest

unfoldable pub buckets_from : List String → List AlertRow → List GroupBucket → List GroupBucket
buckets_from group_by [] bs = bs
buckets_from group_by (a ∷ more) bs = buckets_from group_by more (add_alert group_by a bs)
