-- ===== src/RawPolicy/Decide.antt =====
-- `RawPolicy.decide` of app/services/raw_policy.py.
pub mod Laws
use siem_sentinel_xv.Base.{
  Bool, true, false, Option, none, some, List, String, [], ◌∷◌, ◌=ₛ◌, mem, if◌then◌else◌,
}
use siem_sentinel_xv.Text.{strip, lower}
use siem_sentinel_xv.RawPolicy.{ParsedEvent, Decision, is_dovecot_like, is_exim_like}
use siem_sentinel_xv.RawPolicy.Mail.{store_dovecot, store_exim}
use siem_sentinel_xv.RawPolicy.Web.{store_sar, store_access, store_system, store_error}

-- `ALWAYS`
abbrev pub always : List String
always =
    "lfd" ∷ "modsec" ∷ "secure" ∷ "system_secure" ∷ "cpanel_access" ∷ "filemanager" ∷ "panel_logs"
    ∷ []

abbrev mail_aliases : List (String × String)
mail_aliases =
    ("exim", "exim_mainlog")
    ∷ ("exim4", "exim_mainlog")
    ∷ ("exim_main", "exim_mainlog")
    ∷ ("dovecot_auth", "dovecot")
    ∷ ("mailauth", "dovecot")
    ∷ ("mail", "maillog")
    ∷ ("maillog", "maillog")
    ∷ ("auth", "auth")
    ∷ []

-- d.get(k, k)
abbrev aliased : List (String × String) → String → String
aliased [] k = k
aliased ((j, v) ∷ d) k = if j =ₛ k then v else aliased d k

-- The type by which the decision is made.
unfoldable pub log_type_norm : String → String
unfolding strip lower
log_type_norm log_type = aliased mail_aliases (lower (strip log_type))

-- The tests on the type, in their order.
unfoldable pub store_by_type : String → ParsedEvent → Bool
store_by_type t pe =
    if mem t always
    then true
    else if is_dovecot_like t pe
    then store_dovecot pe
    else if t =ₛ "sar"
    then store_sar pe
    else if t =ₛ "apache_access"
    then store_access pe
    else if is_exim_like t pe
    then store_exim pe
    else if t =ₛ "system"
    then store_system pe
    else if t =ₛ "apache_error"
    then store_error pe
    else false

unfoldable pub source_hint_of : String → String
source_hint_of log_type =
    let original = strip log_type in if original =ₛ "" then lower original else original

abbrev pub store_of : String → Option ParsedEvent → Bool
store_of t none = false
store_of t (some pe) = store_by_type t pe

unfoldable pub decide : String → Option ParsedEvent → Decision
decide log_type event = record {
  store = store_of (log_type_norm log_type) event;
  source_hint = source_hint_of log_type;
}
