-- ===== src/RawPolicy/Decide/Laws.antt =====
-- What `RawPolicy.decide` of app/services/raw_policy.py keeps.
use siem_sentinel_xv.Base.{
  ◌≡◌, refl, inl, inr, true, false, Option, some, String, ◌=ₛ◌, mem, arith, eq_iff, Bool-cases,
}
use siem_sentinel_xv.Text.{strip, lower, contains}
use siem_sentinel_xv.RawPolicy.{ParsedEvent, is_dovecot_like, is_exim_like, tag}
use siem_sentinel_xv.RawPolicy.Mail.{store_dovecot, store_exim, is_rate_limit}
use siem_sentinel_xv.RawPolicy.Decide.{always, log_type_norm, store_by_type, decide, source_hint_of}

source_hint_lem : (log_type : String) → source_hint_of log_type ≡ strip log_type
unfolding source_hint_of
source_hint_lem log_type = elim (Bool-cases (strip log_type =ₛ "")) [
  | inl e ↦ rw (e, (eq_iff (strip log_type) "").0 e) (unfold lower in refl)
  | inr e ↦ rw e
]

-- The source hint is the log type without the blanks round it, whatever the event and the decision.
pub decide-source_hint :
    (log_type : String) (event : Option ParsedEvent)
    → (decide log_type event).source_hint ≡ strip log_type
unfolding decide
decide-source_hint log_type event = source_hint_lem log_type

store_dovecot-login :
    (pe : ParsedEvent) → store_dovecot pe ≡ (tag pe.extra "event_type" =ₛ "auth_login")
unfolding store_dovecot
store_dovecot-login pe = ground arith

-- Of the lines that are taken for dovecot's and are of no type that is always kept, just the logins
-- are kept, whatever their log type and their action.
pub decide-dovecot :
    (log_type : String) (pe : ParsedEvent)
    → mem (log_type_norm log_type) always ≡ false
    → is_dovecot_like (log_type_norm log_type) pe ≡ true
    → (decide log_type (some pe)).store ≡ (tag pe.extra "event_type" =ₛ "auth_login")
unfolding decide store_by_type store_dovecot
decide-dovecot log_type pe h d = simp (h, d) (ground arith)

-- A line of the access log with `imap-login` in its message is not kept, whatever its status, path and
-- agent, unless it says that it is a login.
pub decide-access_taken :
    (log_type : String) (pe : ParsedEvent)
    → log_type_norm log_type ≡ "apache_access"
    → contains "imap-login" (lower pe.message) ≡ true
    → (tag pe.extra "event_type" =ₛ "auth_login") ≡ false
    → (decide log_type (some pe)).store ≡ false
unfolding decide store_by_type store_dovecot is_dovecot_like
decide-access_taken log_type pe t m e = simp (t, m, e) (ground arith)

-- A line of exim's main log that reports a rate limit is kept, whatever its direction, unless it is
-- taken for dovecot's.
pub decide-rate_limit :
    (log_type : String) (pe : ParsedEvent)
    → log_type_norm log_type ≡ "exim_mainlog"
    → is_dovecot_like "exim_mainlog" pe ≡ false
    → is_rate_limit pe ≡ true
    → (decide log_type (some pe)).store ≡ true
unfolding decide store_by_type store_exim is_exim_like
decide-rate_limit log_type pe t d r = simp (t, d, r)
