-- ===== src/Normalize.antt =====
-- `ParsedEvent` of app/parsing/types.py and its conversion to the canonical event of
-- app/schemas/normalized_event.py. `Draft` is what is handed to the canonical event's constructor, whose own
-- checks are pydantic's.
pub mod Country
use siem_sentinel_xv.Base.{
  ℕ, ℤ, pos, Bool, true, false, not, ◌&&◌, ◌||◌, Option, none, some, List, String, [], ◌∷◌, ◌=ₛ◌,
  if◌then◌else◌,
}
use siem_sentinel_xv.Text.{lower}
use siem_sentinel_xv.Value.{
  Value, null, bool, int, float, str, dict, Fields, end, field, get, put, get_or_null, dict_of,
  is_end, is_null, is_str, truthy, to_str, ◌or◌,
}
use siem_sentinel_xv.Number.{int_of, float_of}

pub record ParsedEvent : Type 0 where
  pub timestamp_utc : ℕ
  pub server : String
  pub source : String
  pub service : String
  pub message : String
  pub ip_client : Option String
  pub ip_server : Option String
  pub domain : Option String
  pub username : Option String
  pub extra : Fields
  pub log_upload_id : Option ℕ
  pub raw_id : Option ℕ

-- The parts of the canonical event that are given, the others being left at their defaults.
pub record Draft : Type 0 where
  pub timestamp_utc : ℕ
  pub tenant_id : String
  pub event_dataset : String
  pub event_action : Value
  pub event_outcome : String
  pub event_severity : ℤ
  pub event_original : String
  pub host_name : String
  pub service_name : String
  pub source_ip : Value
  pub source_port : Value
  pub source_country : Value
  pub source_as_number : Value
  pub source_as_name : Value
  pub destination_ip : Value
  pub destination_port : Value
  pub user_name : Value
  pub domain_name : Value
  pub http_method : Value
  pub http_status : Value
  pub http_referrer : Value
  pub email_from : Value
  pub email_to : Value
  pub email_subject : Value
  pub email_queue_id : Value
  pub email_user : Value
  pub file_path : Value
  pub file_name : Value
  pub file_sha256 : Value
  pub labels : Fields
  pub metric : Fields
  pub process_pid : Value
  pub process_name : Value
  pub process_path : Value
  pub rule_id : Value
  pub rule_name : Value

-- extra.get(k), if it is a dict; else an empty one
abbrev pub part : Fields → String → Fields
part extra k = elim (dict_of (get_or_null extra k)) [ none ↦ end | some d ↦ d ]

abbrev http_in : Option Fields → Option Fields
http_in none = none
http_in (some waf) = dict_of (get_or_null waf "http")

-- The request: the event's own, or the one that the firewall saw.
unfoldable pub http_data : Fields → Fields
http_data extra =
    let own = part extra "http" in
    if not (is_end own)
    then own
    else elim (http_in (dict_of (get_or_null extra "waf"))) [ none ↦ end | some d ↦ d ]

unfoldable pub geo_data : Fields → Fields
geo_data extra = elim (dict_of (get_or_null extra "geo")) [ none ↦ part extra "geoip" | some d ↦ d ]

abbrev pub text_value : Option String → Value
text_value none = null
text_value (some s) = str s

unfoldable pub country_code : Fields → Value
unfolding geo_data
country_code extra = get_or_null (geo_data extra) "country_code" or get_or_null extra "country_iso"

unfoldable pub is_private : Fields → Bool
unfolding country_code
is_private extra =
    truthy (get_or_null (geo_data extra) "is_private")
    || truthy (get_or_null extra "is_private")
    || is_str "PRV" (country_code extra)

-- `geo_country_iso`
unfoldable pub geo_country_iso : Fields → Value
unfolding is_private
geo_country_iso extra =
    if is_private extra || is_str "PRV" (country_code extra) || is_str "UNK" (country_code extra)
    then null
    else country_code extra

-- `f(m[k]) if m.get(k) is not None else None`: none where it raises
abbrev pub converted : (Value → Option Value) → Value → Option Value
converted f v = if is_null v then some null else f v

abbrev pub to_int : Value → Option Value
to_int v = elim (int_of v) [ none ↦ none | some n ↦ some (int n) ]

abbrev pub to_float : Value → Option Value
to_float v = elim (float_of v) [ none ↦ none | some x ↦ some (float x) ]

abbrev pub to_text : Value → Option Value
to_text v = some (str (to_str v))

abbrev pub as_is : Value → Option Value
as_is v = some v

-- The metric's fields and how each is read.
abbrev pub metric_fields : List (String × (Value → Option Value))
metric_fields =
    ("family", as_is)
    ∷ ("name", as_is)
    ∷ ("cpu_count", to_int)
    ∷ ("runq_sz", to_float)
    ∷ ("plist_sz", to_float)
    ∷ ("blocked", to_float)
    ∷ ("ldavg_1", to_float)
    ∷ ("ldavg_5", to_float)
    ∷ ("ldavg_15", to_float)
    ∷ ("ldavg_1_per_cpu", to_float)
    ∷ ("ldavg_5_per_cpu", to_float)
    ∷ ("ldavg_15_per_cpu", to_float)
    ∷ ("kb_mem_free", to_int)
    ∷ ("kb_mem_used", to_int)
    ∷ ("kb_mem_avail", to_int)
    ∷ ("mem_used_pct", to_float)
    ∷ ("device", to_text)
    ∷ ("tps", to_float)
    ∷ ("util_pct", to_float)
    ∷ []

abbrev pub with_field : String → Option Value → Option Fields → Option Fields
with_field k none rest = none
with_field k (some v) none = none
with_field k (some v) (some fs) = some (field k v fs)

unfoldable pub read_metric : Fields → List (String × (Value → Option Value)) → Option Fields
read_metric m [] = some end
read_metric m ((k, f) ∷ fs) = with_field k (converted f (get_or_null m k)) (read_metric m fs)

abbrev pub metric_of : Option Fields → Option Fields
metric_of none = some end
metric_of (some m) = read_metric m metric_fields

-- The labels of a metric: its values as texts.
unfoldable pub add_labels : Fields → Fields → Fields
add_labels end labels = labels
add_labels (field k v m) labels =
    add_labels m (if is_null v then labels else put k (str (to_str v)) labels)

abbrev pub base_labels : Fields → Fields
base_labels extra = if is_private extra then field "ip_scope" (str "private") end else end

abbrev pub labels_of : Fields → Option Fields → Fields
labels_of extra none = base_labels extra
labels_of extra (some m) = add_labels m (base_labels extra)

-- int(port), None where it raises
abbrev pub port_of : Value → Value
port_of v = elim (int_of v) [ none ↦ null | some n ↦ int n ]

abbrev is_false : Value → Bool
is_false (bool b) = not b
is_false _ = false

abbrev is_one_of : Value → List String → Bool
is_one_of v [] = false
is_one_of v (s ∷ ss) = is_str s v || is_one_of v ss

-- `_derive_outcome`
unfoldable pub derive_outcome : Fields → String
derive_outcome e =
    let act = get_or_null e "action" in
    if truthy (get_or_null e "outcome")
    then to_str (get_or_null e "outcome")
    else if is_one_of act ("fail" ∷ "failure" ∷ "deny" ∷ "block" ∷ [])
        || (is_one_of act ("auth_login" ∷ "auth_sudo" ∷ "login" ∷ [])
            && is_false (get_or_null e "auth_success"))
        || truthy (get_or_null e "error")
    then "failure"
    else "success"

-- int(extra.get("severity", 1))
abbrev pub severity_of : Option Value → Option ℤ
severity_of none = some (pos 1)
severity_of (some v) = int_of v

unfoldable pub draft_of : ParsedEvent → String → Fields → ℤ → Draft
unfolding http_data geo_country_iso add_labels derive_outcome
draft_of pe tenant_id metric severity =
    let extra = pe.extra in
    let read = get_or_null extra in
    let http = http_data extra in
    let panel = part extra "panel" in
    let email = part extra "email" in
    let file = part extra "file" in
    let proc = part extra "process" in
    let asn = part extra "asn" in
    let rule = part extra "rule" in
    record {
      timestamp_utc = pe.timestamp_utc;
      tenant_id = tenant_id;
      event_dataset = lower pe.source;
      event_action = read "action" or read "event_type" or str (lower pe.service);
      event_outcome = derive_outcome extra;
      event_severity = severity;
      event_original = pe.message;
      host_name = pe.server;
      service_name = lower pe.service;
      source_ip = text_value pe.ip_client or read "source_ip";
      source_port = port_of (read "source_port" or read "port");
      source_country = geo_country_iso extra;
      source_as_number = get_or_null asn "number";
      source_as_name = get_or_null asn "org" or get_or_null asn "organization";
      destination_ip = text_value pe.ip_server;
      destination_port = read "destination_port";
      user_name =
          text_value pe.username
          or read "user"
          or read "authenticated_user"
          or get_or_null panel "cpanel_user";
      domain_name = text_value pe.domain or get_or_null http "host";
      http_method = get_or_null http "method" or get_or_null panel "http_method";
      http_status = get_or_null http "status" or get_or_null panel "status_code";
      http_referrer = get_or_null http "referer";
      email_from = get_or_null email "from" or read "mail_from" or read "from" or read "sender";
      email_to = get_or_null email "to" or read "rcpt" or read "to" or read "recipient";
      email_subject = get_or_null email "subject" or read "subject";
      email_queue_id = get_or_null email "queue_id" or read "exim_id" or read "msgid";
      email_user = get_or_null email "auth_user" or read "auth_user" or text_value pe.username;
      file_path = get_or_null file "path";
      file_name = get_or_null file "name";
      file_sha256 = get_or_null file "sha256";
      labels = labels_of extra (dict_of (read "metric"));
      metric = metric;
      process_pid = get_or_null proc "pid";
      process_name = get_or_null proc "name";
      process_path = get_or_null proc "path";
      rule_id = get_or_null rule "id";
      rule_name = get_or_null rule "name";
    }

abbrev pub if_read : ParsedEvent → String → Option Fields → Option ℤ → Option Draft
if_read pe tenant_id (some metric) (some severity) = some (draft_of pe tenant_id metric severity)
if_read pe tenant_id _ _ = none

-- `to_normalized_event`, up to the constructor; none where a number cannot be read
unfoldable pub to_normalized_event : ParsedEvent → String → Option Draft
unfolding draft_of read_metric
to_normalized_event pe tenant_id =
    if_read pe tenant_id (metric_of (dict_of (get_or_null pe.extra "metric")))
      (severity_of (get pe.extra "severity"))
