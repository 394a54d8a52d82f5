-- ===== src/Detection/Source.antt =====
-- The logical categories of datasets, `norm_source` and `match_source` of
-- app/services/detection_core.py.
use siem_sentinel_xv.Base.{
  ◌≡◌, refl, Bool, true, ◌&&◌, ◌||◌, Option, none, some, List, String, [], ◌∷◌, ◌=ₛ◌, mem,
  if◌then◌else◌,
}
use siem_sentinel_xv.Text.{strip, lower, upper}

abbrev pub Categories : Type 0
Categories = List (String × List String)

-- `DATASET_CATEGORIES`
abbrev pub dataset_categories : Categories
dataset_categories =
    ("SSH_AUTH", "system_secure" ∷ "ssh_secure" ∷ [])
    ∷ ("MAIL_AUTH", "maillog_dovecot" ∷ [])
    ∷ ("MAIL_FLOW", "exim_mainlog" ∷ [])
    ∷ ("WEB_ACCESS", "nginx_access" ∷ "apache_access" ∷ "cpanel_access" ∷ [])
    ∷ ("WEB_ERROR", "apache_error" ∷ "wp_error" ∷ [])
    ∷ ("WAF", "modsec" ∷ [])
    ∷ ("PANEL", "cpanel_access" ∷ "panel_access" ∷ "filemanager" ∷ [])
    ∷ ("SYSTEM_METRICS", "sar" ∷ "sar_stats" ∷ [])
    ∷ ("SYSTEM_LOGS", "system" ∷ "auditd" ∷ [])
    ∷ ("SECURITY_AGENT", "lfd" ∷ "imunify360" ∷ [])
    ∷ []

-- `_DATASET_TO_CATEGORY`: of the categories that hold a dataset the last one stays.
unfoldable pub category_of : String → Categories → Option String
category_of s [] = none
category_of s ((cat, datasets) ∷ rest) = elim (category_of s rest) [
  | some c ↦ some c
  | none ↦ if mem s datasets then some cat else none
]

-- `norm_source`
unfoldable pub norm_source : String → String
norm_source v =
    let s = lower (strip v) in
    if v =ₛ "" then "" else elim (category_of s dataset_categories) [ some c ↦ c | none ↦ upper s ]

-- DATASET_CATEGORIES.get(c), an empty set where it is missing
unfoldable pub datasets_of : String → Categories → List String
datasets_of c [] = []
datasets_of c ((cat, datasets) ∷ rest) = if cat =ₛ c then datasets else datasets_of c rest

-- `match_source`
unfoldable pub match_source : String → String → Bool
match_source rule_source event_dataset =
    let r = upper (strip rule_source) in
    let e = lower (strip event_dataset) in
    if r =ₛ "" || e =ₛ ""
    then true
    else if lower r =ₛ e
    then true
    else if mem e (datasets_of r dataset_categories)
    then true
    else if r =ₛ "SSH_SECURE" && mem e ("system_secure" ∷ "ssh_secure" ∷ [])
    then true
    else if r =ₛ "MAILLOG_DOVECOT" && e =ₛ "maillog_dovecot"
    then true
    else if r =ₛ "EXIM_MAINLOG" && e =ₛ "exim_mainlog"
    then true
    else if mem r ("APACHE_ACCESS" ∷ "NGINX_ACCESS" ∷ [])
        && mem e ("nginx_access" ∷ "apache_access" ∷ "cpanel_access" ∷ [])
    then true
    else r =ₛ "SAR_STATS" && mem e ("sar" ∷ "sar_stats" ∷ [])

panel_wins : norm_source " cpanel_access" ≡ "PANEL"
unfolding norm_source category_of lower upper strip
panel_wins = refl
