-- ===== src/RuleEngine/OnEvent.antt =====
-- `RuleEngineV2.on_event` of app/services/rule_engine_v2.py, for an event that is a dict. The time of
-- the event, which app/core/timeutils.py reads of its timestamp or takes from the clock, is an argument.
pub mod Laws
pub mod Alerts
use siem_sentinel_xv.Base.{
  ℕ, Bool, true, false, not, ◌&&◌, ◌||◌, Option, none, some, List, String, [], ◌∷◌, drop, length,
  ◌=ₛ◌, if◌then◌else◌,
}
use siem_sentinel_xv.Text.{strip}
use siem_sentinel_xv.Value.{
  Value, null, str, dict, Fields, end, get_or_null, truthy, as_str, dict_of, is_end, ◌or◌,
}
use siem_sentinel_xv.Net.{ip_subnet}
use siem_sentinel_xv.Detection.Fields.{get_canonical_field}
use siem_sentinel_xv.Detection.Source.{norm_source}
use siem_sentinel_xv.RuleEngine.{Rule, Alert, Db, Services, Windows, Engine}
use siem_sentinel_xv.RuleEngine.Index.{norm_event_type, rules_at, sort_by_id, maybe_reload}
use siem_sentinel_xv.RuleEngine.Turn.{turn, text_or_none}
use siem_sentinel_xv.RuleEngine.Context.{Seen}

abbrev is_text : Value → Bool
is_text (str s) = not (s =ₛ "")
is_text _ = false

-- The event's source, or its dataset where that is no text.
unfoldable pub source_of : Value → String
source_of snap =
    let src = get_canonical_field snap "source" in
    norm_source (
      as_str (
        if is_text src
        then src
        else get_canonical_field snap "event.dataset" or get_canonical_field snap "dataset"))

abbrev pub dict_or_empty : Value → Fields
dict_or_empty v = elim (dict_of v) [ none ↦ end | some fs ↦ fs ]

abbrev pub extra_of : Value → Fields
extra_of snap = dict_or_empty (get_canonical_field snap "extra")

unfoldable pub event_type_of : Value → String
event_type_of snap = norm_event_type (
    as_str (
      get_or_null (extra_of snap) "event_type"
      or get_canonical_field snap "event.action"
      or get_canonical_field snap "action"
      or get_canonical_field snap "service.name"))

abbrev is_full : Value → Bool
is_full v = elim (dict_of v) [ none ↦ false | some fs ↦ not (is_end fs) ]

-- The country of the event, if it has a dict with its place.
unfoldable pub geo_country_of : Value → Option Value
geo_country_of snap =
    let geo = get_or_null (extra_of snap) "geo" in
    let found =
      if is_full geo
      then geo
      else get_or_null (extra_of snap) "geoip" or get_canonical_field snap "source" in
    elim (dict_of found) [
      | none ↦ none
      | some fs ↦ some (get_or_null fs "country_code" or get_or_null fs "geo_country_iso_code")
    ]

unfoldable pub asn_number_of : Value → Option Value
asn_number_of snap = elim (dict_of (get_or_null (extra_of snap) "asn")) [
  | none ↦ none
  | some fs ↦ some (get_or_null fs "number")
]

-- _as_str(v).strip() or None
abbrev text_of : Value → Option String
text_of v = text_or_none (strip (as_str v))

-- `_extract_action_for_window`
unfoldable pub action_of : Value → Option String
action_of (str s) =
    if s =ₛ "failure" then some "fail" else if s =ₛ "success" then some "success" else none
action_of _ = none

unfoldable pub see : Value → ℕ → Seen
see snap ts =
    let read = get_canonical_field snap in
    let ip = text_of (read "ip_client" or read "source.ip" or read "client.ip") in
    record {
      snap = snap;
      source = source_of snap;
      event_type = event_type_of snap;
      ts = ts;
      geo_country = geo_country_of snap;
      asn_number = asn_number_of snap;
      ip = ip;
      user = text_of (read "username" or read "user.name");
      server = text_of (read "server" or read "host.name" or read "host.hostname");
      action = action_of (read "event.outcome");
      path = text_of (read "url.path");
      subnet24 = elim ip [ none ↦ none | some a ↦ ip_subnet a 24 ];
    }

-- The loop over the candidates.
unfoldable pub turns : Services → Seen → List Rule → Windows → Db → Windows × Db
turns services ev [] w db = (w, db)
turns services ev (r ∷ rs) w db =
    let (w', db') = turn services ev r w db in turns services ev rs w' db'

-- `on_event`, at a time of the clock: the engine, the database and the alerts that are new in it.
unfoldable pub on_event : Services → Engine → Db → Value → ℕ → ℕ → Engine × Db × List Alert
on_event services old db snap ts now =
    let eng = maybe_reload db now old in
    let ev = see snap ts in
    let candidates = sort_by_id (rules_at (ev.source, ev.event_type) eng.index) in
    let (w, db') = turns services ev candidates eng.windows db in
    if ev.source =ₛ "" || ev.event_type =ₛ ""
    then (eng, db, [])
    else (record eng { windows = w }, db', drop (length db.alerts) db'.alerts)
