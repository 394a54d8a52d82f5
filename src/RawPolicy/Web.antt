-- ===== src/RawPolicy/Web.antt =====
-- The other branches of `RawPolicy.decide`: the web server's logs, the metrics and the system's log.
use siem_sentinel_xv.Base.{
  ℤ, pos, leb_ℤ, Bool, true, false, not, Option, none, some, List, String, [], ◌∷◌, ◌=ₛ◌, mem,
  if◌then◌else◌,
}
use siem_sentinel_xv.Text.{lower, ◌+ₛ◌}
use siem_sentinel_xv.Value.{
  Value, bool, str, dict, Fields, end, get_or_null, is_null, to_str, ◌or◌, dict_of,
}
use siem_sentinel_xv.Number.{int_of, float_of}
use siem_sentinel_xv.RawPolicy.{ParsedEvent, has_hint, tag}

-- A value of a metric, kept from the given one on; what is no number is not kept.
unfoldable pub at_least : ℤ → Value → Bool
unfolding float_of
at_least limit v = elim (float_of v) [ none ↦ false | some x ↦ leb_ℤ limit x ]

unfoldable pub first_given : Value → Value → Value
first_given a b = if is_null a then b else a

unfoldable pub store_metric : Fields → Bool
store_metric metric =
    let name = tag metric "name" in
    if name =ₛ "load"
    then at_least (pos 6000000)
        (first_given (get_or_null metric "ldavg_1") (get_or_null metric "ldavg_1_per_cpu"))
    else if name =ₛ "memory"
    then at_least (pos 92000000) (get_or_null metric "mem_used_pct")
    else false

unfoldable pub store_sar : ParsedEvent → Bool
store_sar pe =
    if tag pe.extra "event_type" =ₛ "metric"
    then elim (dict_of (get_or_null pe.extra "metric")) [ none ↦ false | some m ↦ store_metric m ]
    else false

-- What the branch for the access log reads before its tests. Where reading stops by an exception, the
-- rest keeps its default.
pub record Access : Type 0 where
  pub status : Option ℤ
  pub path : String
  pub ua : String
  pub ip : Option String

abbrev pub no_access : Access
no_access = record { status = none; path = ""; ua = ""; ip = none }

unfoldable pub access_from : ParsedEvent → Fields → Option ℤ → Access
unfolding get_or_null to_str lower
access_from pe http status = record {
  status = status;
  path = to_str (get_or_null http "path" or str "");
  ua = lower (to_str (get_or_null http "user_agent" or str ""));
  ip = pe.ip_client;
}

unfoldable pub access_of : ParsedEvent → Access
unfolding access_from get_or_null int_of
access_of pe = elim (dict_of (get_or_null pe.extra "http" or dict end)) [
  | none ↦ no_access
  | some http ↦
      let status = get_or_null http "status" in
      if is_null status
      then access_from pe http none
      else elim (int_of status) [ none ↦ no_access | some n ↦ access_from pe http (some n) ]
]

abbrev pub sensitive_path_hints : List String
sensitive_path_hints =
    "/wp-login.php" ∷ "/xmlrpc.php" ∷ "/wp-admin" ∷ "/.env" ∷ "/.git" ∷ "/phpmyadmin" ∷ "/admin"
    ∷ "/login" ∷ []

abbrev pub ignore_path_hints : List String
ignore_path_hints =
    "/whm-server-status" ∷ "/whm-server-status?auto" ∷ "/server-status" ∷ "/server-status?auto"
    ∷ "/whm-server-status/" ∷ "/server-status/" ∷ []

abbrev pub loopback_ips : List String
loopback_ips = "127.0.0.1" ∷ "::1" ∷ []

abbrev pub suspicious_ua_hints : List String
suspicious_ua_hints =
    "python-requests" ∷ "python-httpx" ∷ "go-http-client" ∷ "curl/" ∷ "wget/" ∷ "masscan" ∷ "zgrab"
    ∷ "sqlmap" ∷ "nikto" ∷ []

abbrev pub is_error_status : Option ℤ → Bool
is_error_status none = false
is_error_status (some n) = leb_ℤ (pos 400) n

abbrev pub is_loopback : Option String → Bool
is_loopback none = mem "" loopback_ips
is_loopback (some ip) = mem ip loopback_ips

unfoldable pub store_access : ParsedEvent → Bool
store_access pe =
    let a = access_of pe in
    let low_path = lower a.path in
    if has_hint ignore_path_hints low_path
    then false
    else if is_error_status a.status
    then true
    else if has_hint sensitive_path_hints low_path
    then true
    else if has_hint suspicious_ua_hints a.ua
    then not (is_loopback a.ip)
    else false

abbrev pub system_interesting_hints : List String
system_interesting_hints =
    "sshd" ∷ "sudo" ∷ "authentication failure" ∷ "failed password" ∷ "invalid user" ∷ "csf" ∷ "lfd"
    ∷ "oom-killer" ∷ "out of memory" ∷ "kernel:" ∷ "segfault" ∷ "imunify" ∷ "modsecurity" ∷ []

unfoldable pub store_system : ParsedEvent → Bool
unfolding lower to_str get_or_null has_hint ◌+ₛ◌
store_system pe =
    let proc = lower (to_str (get_or_null pe.extra "process" or str "")) in
    has_hint system_interesting_hints (proc +ₛ " " +ₛ lower pe.message)

abbrev is_true : Value → Bool
is_true (bool true) = true
is_true _ = false

unfoldable pub store_error : ParsedEvent → Bool
unfolding get_or_null
store_error pe = not (is_true (get_or_null pe.extra "noise"))
