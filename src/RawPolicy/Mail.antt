-- ===== src/RawPolicy/Mail.antt =====
-- The mail branches of `RawPolicy.decide`: dovecot's logins, and exim's main log.
use siem_sentinel_xv.Base.{
  Bool, true, false, ◌&&◌, ◌||◌, List, String, [], ◌∷◌, ◌=ₛ◌, mem, if◌then◌else◌,
}
use siem_sentinel_xv.Text.{lower, contains}
use siem_sentinel_xv.Value.{Value, bool, get_or_null}
use siem_sentinel_xv.RawPolicy.{ParsedEvent, has_hint, tag}

-- Only a login is kept; both branches on its action keep it.
unfoldable pub store_dovecot : ParsedEvent → Bool
store_dovecot pe =
    if tag pe.extra "event_type" =ₛ "auth_login"
    then (if mem (tag pe.extra "action") ("success" ∷ "ok" ∷ "passed" ∷ "fail" ∷ "failed" ∷ [])
        then true
        else true)
    else false

abbrev pub exim_keywords : List String
exim_keywords =
    "rejected" ∷ "reject" ∷ "deny" ∷ "bounced" ∷ "bounce" ∷ "deferred" ∷ "defer" ∷ "spam"
    ∷ "blacklist" ∷ "rbl" ∷ "authentication failed" ∷ "auth failed" ∷ "failed authentication"
    ∷ "discard" ∷ "discarded" ∷ "exceeded" ∷ "too many" ∷ "throttle" ∷ "throttled" ∷ []

-- The direction's synonyms.
unfoldable pub direction : String → String
direction d =
    if mem d ("inbound" ∷ "incoming" ∷ [])
    then "in"
    else if mem d ("outbound" ∷ "outgoing" ∷ [])
    then "out"
    else d

unfoldable pub is_rate_limit : ParsedEvent → Bool
is_rate_limit pe =
    let msg = lower pe.message in
    tag pe.extra "kind" =ₛ "rate_limit"
    || contains "rate limit" msg
    || contains "rate-limit" msg
    || contains "ratelimit" msg

abbrev is_false : Value → Bool
is_false (bool false) = true
is_false _ = false

unfoldable pub store_exim : ParsedEvent → Bool
store_exim pe =
    let interesting = is_rate_limit pe || has_hint exim_keywords (lower pe.message) in
    if is_rate_limit pe
    then true
    else if tag pe.extra "event_type" =ₛ "mail_flow"
        && mem (tag pe.extra "action") ("fail" ∷ "failed" ∷ "deny" ∷ "denied" ∷ [])
    then true
    else if mem (direction (tag pe.extra "direction")) ("in" ∷ "out" ∷ []) && interesting
    then true
    else is_false (get_or_null pe.extra "auth_success")
