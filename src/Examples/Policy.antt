-- ===== src/Examples/Policy.antt =====
-- The policy for raw lines at concrete lines.
use siem_sentinel_xv.Base.{◌≡◌, refl, true, some, pos}
use siem_sentinel_xv.Text.{contains, lower, strip}
use siem_sentinel_xv.Value.{dict, str, int, end, field}
use siem_sentinel_xv.RawPolicy.{ParsedEvent, is_dovecot_like, has_hint, is_exim_like, process_of}
use siem_sentinel_xv.RawPolicy.Web.{store_access, access_of}
use siem_sentinel_xv.RawPolicy.Decide.{decide, log_type_norm, store_by_type}
use siem_sentinel_xv.RawPolicy.Decide.Laws.{decide-source_hint}

abbrev missing : ParsedEvent
missing = record {
  source = "apache_access";
  message = "GET /nothing";
  ip_client = some "8.8.8.8";
  extra =
      field "http" (dict (field "status" (int (pos 404)) (field "path" (str "/nothing") end))) end;
}

missing_is_kept : (decide " apache_access" (some missing)).store ≡ true
unfolding decide log_type_norm store_by_type is_dovecot_like is_exim_like store_access access_of
    has_hint contains lower strip process_of
missing_is_kept = refl

decide-source_hint_example :
    (decide " apache_access" (some missing)).source_hint ≡ strip " apache_access"
decide-source_hint_example = decide-source_hint " apache_access" (some missing)

abbrev imap : ParsedEvent
imap = record missing { message = "GET /imap-login?user=admin" }

abbrev limited : ParsedEvent
limited = record missing { source = "exim"; message = "Rate limit reached" }
