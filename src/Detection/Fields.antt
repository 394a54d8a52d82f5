-- ===== src/Detection/Fields.antt =====
-- Reading an event's fields: `get_raw_field`, `get_canonical_field` and
-- `_get_legacy_field_fallback` of app/services/detection_core.py, over events that are dicts.
use siem_sentinel_xv.Base.{
  Bool, false, not, ◌||◌, Option, none, some, List, String, [], ◌∷◌, ◌=ₛ◌, mem, if◌then◌else◌,
}
use siem_sentinel_xv.Text.{strip, lower, split, contains}
use siem_sentinel_xv.Value.{Value, null, str, dict, get_or_null, is_null, as_str, ◌or◌}
use siem_sentinel_xv.Net.{ip_subnet}

-- One step of the path: only a dict has members. The code would go on from a text, a list or a number to
-- an attribute of Python's own types (a path such as `message.title` gives a method); such a value has no
-- place among those of a document, and a path that names one is read as absent here.
unfoldable pub member : Value → String → Value
unfolding get_or_null
member (dict fs) k = get_or_null fs k
member _ k = null

unfoldable pub follow : Value → List String → Value
unfolding member
follow cur [] = cur
follow cur (p ∷ ps) = follow (member cur p) ps

-- `get_raw_field`
unfoldable pub get_raw_field : Value → String → Value
unfolding follow split
get_raw_field event path =
    if path =ₛ "" || is_null event then null else follow event (split "." path)

abbrev pub is_one_of : Value → List String → Bool
is_one_of (str s) xs = mem s xs
is_one_of _ xs = false

-- The outcome's synonyms.
unfoldable pub outcome : Value → Value
outcome o =
    if is_one_of o ("fail" ∷ "failed" ∷ "failure" ∷ [])
    then str "failure"
    else if is_one_of o ("success" ∷ "ok" ∷ "passed" ∷ [])
    then str "success"
    else o

-- The service that a dataset's name shows.
unfoldable pub service_of : String → Value
unfolding contains
service_of ds =
    if contains "ssh" ds || contains "secure" ds
    then str "ssh"
    else if contains "dovecot" ds || contains "mail" ds
    then str "imap"
    else if contains "exim" ds
    then str "smtp"
    else if contains "http" ds || contains "nginx" ds || contains "apache" ds || contains "panel" ds
    then str "http"
    else null

unfoldable pub service_name : Value → Value
unfolding get_raw_field service_of as_str lower
service_name event =
    let s = get_raw_field event "network.protocol" or get_raw_field event "extra.protocol" in
    if is_null s
    then service_of
        (lower (as_str (get_raw_field event "event.dataset" or get_raw_field event "source")))
    else s

-- The part of `get_canonical_field` that resolves the names of the common schema; `none` where the
-- path is none of them.
unfoldable pub resolve : Value → String → Option Value
unfolding get_raw_field outcome service_name
resolve event path =
    let raw = get_raw_field event in
    if path =ₛ "source.ip"
    then some (raw "ip_client" or raw "client.ip")
    else if path =ₛ "user.name"
    then some (raw "username")
    else if path =ₛ "event.outcome"
    then some (outcome (raw "outcome" or raw "extra.action"))
    else if path =ₛ "service.name"
    then some (service_name event)
    else if mem path ("url.path" ∷ "url.original" ∷ [])
    then some (
        raw "url.path"
        or raw "url.original"
        or raw "extra.url.path"
        or raw "extra.url.original"
        or raw "extra.http.path"
        or raw "extra.request_uri")
    else if path =ₛ "http.status_code"
    then some (raw "http_status" or raw "status_code" or raw "extra.status_code")
    else if mem path
        ("source.geo_country_iso_code" ∷ "geo.country_iso_code" ∷ "geo.country_name" ∷ [])
    then some (
        raw "extra.geo.country_code"
        or raw "extra.geo.country_name"
        or raw "geo_country"
        or raw "country_code")
    else if path =ₛ "source.as_number"
    then some (raw "extra.asn.number" or raw "asn_number")
    else if path =ₛ "customer.domain_name"
    then some (raw "extra.vhost" or raw "domain")
    else if path =ₛ "host.name"
    then some (raw "server" or raw "host.hostname")
    else none

unfoldable pub legacy_action : Value → Value
legacy_action o =
    if is_one_of o ("failure" ∷ [])
    then str "fail"
    else if is_one_of o ("success" ∷ [])
    then str "success"
    else o

-- `_get_legacy_field_fallback`, over the reading of the fields that it falls back on.
unfoldable pub legacy : (String → Value) → String → Value
unfolding legacy_action
legacy field path =
    if path =ₛ "extra.action"
    then legacy_action (field "event.outcome")
    else if path =ₛ "extra.protocol"
    then field "service.name"
    else if path =ₛ "ip_client"
    then field "source.ip"
    else if path =ₛ "username"
    then field "user.name"
    else if path =ₛ "server"
    then field "host.name"
    else if mem path ("extra.http.path" ∷ "request_uri" ∷ [])
    then field "url.path"
    else if path =ₛ "http_status"
    then field "http.status_code"
    else if mem path ("extra.geo.country_code" ∷ "extra.geo.country_name" ∷ "geo.country_name" ∷ [])
    then field "source.geo_country_iso_code"
    else if path =ₛ "extra.asn.number"
    then field "source.as_number"
    else if path =ₛ "extra.vhost"
    then field "customer.domain_name"
    else null

abbrev pub text_or_null : Option String → Value
text_or_null none = null
text_or_null (some s) = str s

-- One call of `get_canonical_field`, over the reading that its recursive calls make.
unfoldable pub canonical_step : Value → (String → Value) → String → Value
canonical_step event field path =
    if path =ₛ "" || is_null event
    then null
    else if path =ₛ "ip_subnet24"
    then text_or_null (ip_subnet (strip (as_str (field "source.ip"))) 24)
    else if path =ₛ "ip_subnet16"
    then text_or_null (ip_subnet (strip (as_str (field "source.ip"))) 16)
    else let val = get_raw_field event path in
      if not (is_null val)
      then val
      else elim (resolve event path) [ some v ↦ v | none ↦ legacy field path ]

-- `get_canonical_field`: its recursive calls are two deep at most (Detection/Fallback.antt).
unfoldable pub get_canonical_field : Value → String → Value
unfolding canonical_step get_raw_field resolve legacy as_str strip ip_subnet
get_canonical_field event = canonical_step event (canonical_step event (λ _. null))
