-- ===== src/RawPolicy.antt =====
-- app/services/raw_policy.py: which parsed events have their raw line kept, and the part of ParsedEvent
-- (app/parsing/types.py) that the decision reads. `extra` is a dict, as its type says.
pub mod Mail
pub mod Web
pub mod Decide
use siem_sentinel_xv.Base.{
  ◌≡◌, refl, Bool, true, false, ◌||◌, Option, none, some, List, String, [], ◌∷◌, ◌=ₛ◌, mem, any,
  if◌then◌else◌,
}
use siem_sentinel_xv.Text.{strip, lower, contains, starts_with}
use siem_sentinel_xv.Value.{Value, str, Fields, get_or_null, to_str, ◌or◌}

pub record ParsedEvent : Type 0 where
  pub source : String
  pub message : String
  pub ip_client : Option String
  pub extra : Fields

pub record Decision : Type 0 where
  pub store : Bool
  pub source_hint : String

-- any(h in text for h in hints)
unfoldable pub has_hint : List String → String → Bool
has_hint hints text = any (λ h. contains h text) hints

-- str(extra.get(k) or "").strip().lower()
unfoldable pub tag : Fields → String → String
unfolding strip lower to_str get_or_null
tag extra k = lower (strip (to_str (get_or_null extra k or str "")))

-- The program that wrote the line.
unfoldable pub process_of : Fields → String
unfolding lower to_str get_or_null
process_of extra = lower (
    to_str (
      get_or_null extra "process"
      or get_or_null extra "program"
      or get_or_null extra "daemon"
      or str ""))

-- `_is_dovecot_like`
unfoldable pub is_dovecot_like : String → ParsedEvent → Bool
is_dovecot_like log_type pe =
    let msg = lower pe.message in
    if mem log_type ("maillog_dovecot" ∷ "dovecot" ∷ "auth" ∷ [])
    then true
    else if contains "dovecot" (lower (strip pe.source))
    then true
    else if contains "dovecot" (process_of pe.extra)
    then true
    else contains "dovecot" msg || contains "imap-login" msg || contains "pop3-login" msg

-- `_is_exim_like`
unfoldable pub is_exim_like : String → ParsedEvent → Bool
is_exim_like log_type pe =
    let msg = lower pe.message in
    if log_type =ₛ "exim_mainlog"
    then true
    else if contains "exim" (lower (strip pe.source))
    then true
    else if contains "exim" (process_of pe.extra)
    then true
    else contains " exim" msg || starts_with "exim" msg || contains "exim_mainlog" msg
