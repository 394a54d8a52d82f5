-- ===== src/Pipeline.antt =====
-- The parsing of an uploaded file, `parse_log_file` of app/services/log_pipeline.py. The parser is a state
-- and a function of it, the lookup of an address and the checks of the canonical event's constructor are
-- arguments, and the file is its lines. The events and raw lines that the two settings can keep in
-- PostgreSQL beside the stream are left out; times and traces in the upload's notes are left out too.
pub mod Lines
pub mod Stream
use Prim.Native.Char.{code}
use Prim.Native.String as Text
use siem_sentinel_xv.Base.{
  ℕ, zero, suc, ◌%◌, leb, ltb, ◌==◌, Bool, true, false, not, ◌&&◌, ◌||◌, Option, none, some, List,
  String, [], ◌∷◌, ◌++◌, length, mem, ◌=ₛ◌, if◌then◌else◌,
}
use siem_sentinel_xv.Text.{strip, decimal, ◌+ₛ◌}
use siem_sentinel_xv.Value.{
  Value, bool, str, Fields, get, get_or_null, has_key, put, truthy, to_str, ◌or◌,
}
use siem_sentinel_xv.RawPolicy.{Decision}
use siem_sentinel_xv.RawPolicy as Policy
use siem_sentinel_xv.RawPolicy.Decide.{decide}
use siem_sentinel_xv.Normalize.{ParsedEvent, Draft, to_normalized_event, text_value}

-- What a parser makes of a line: an event, nothing, or an exception.
pub data Parsed : Type 0 where
  parsed : ParsedEvent → Parsed
  nothing : Parsed
  failed : Parsed

-- The settings of the environment.
pub record Config : Type 0 where
  pub enrich_inline : Bool
  pub batch_events : ℕ
  pub max_line_errors : ℕ

-- What the pipeline does not implement: the lookup of an address, which is none where it raises, and the
-- constructor of the canonical event.
pub record Outside : Type 0 where
  pub enrich : Value → Fields → Option Fields
  pub construct : Draft → Option Draft

-- `PARSER_MAP`
abbrev pub log_types : List String
log_types =
    "apache_access" ∷ "nginx_access" ∷ "apache_error" ∷ "nginx_error" ∷ "exim_mainlog"
    ∷ "exim_rejectlog" ∷ "maillog" ∷ "dovecot" ∷ "lfd" ∷ "csf" ∷ "modsec" ∷ "system" ∷ "messages"
    ∷ "syslog" ∷ "secure" ∷ "ssh" ∷ "auth" ∷ "cpanel_access" ∷ "panel_logs" ∷ "wp_error_log"
    ∷ "wp_error" ∷ "sar" ∷ "sar_stats" ∷ "imunify360" ∷ "auditd" ∷ "filemanager" ∷ []

-- line.rstrip("\n")
unfoldable pub rstrip_newline : String → String
rstrip_newline Text.[] = ""
rstrip_newline (Text.◌∷◌ c s) =
    let rest = rstrip_newline s in if code c == 10 && rest =ₛ "" then "" else Text.◌∷◌ c rest

-- What comes of one line: it is skipped, it fails, or it makes an event, whose raw line is kept or not and
-- whose canonical event is none where the conversion raises.
pub data Line : Type 0 where
  skipped : Line
  raised : Line
  handled : Bool → Option Draft → Line

-- The address that is looked up.
abbrev pub client_of : ParsedEvent → Value
client_of pe =
    text_value pe.ip_client or get_or_null pe.extra "source_ip" or get_or_null pe.extra "ip"

abbrev pub set_default : String → Value → Fields → Fields
set_default k v fs = if has_key fs k then fs else put k v fs

unfoldable pub enriched : Outside → Config → ParsedEvent → Option Fields
enriched outside config pe =
    if config.enrich_inline
    then outside.enrich (client_of pe) pe.extra
    else some (set_default "enrich_pending" (bool true) pe.extra)

abbrev policy_event : ParsedEvent → Policy.ParsedEvent
policy_event pe = record {
  source = pe.source;
  message = pe.message;
  ip_client = pe.ip_client;
  extra = pe.extra;
}

abbrev constructed : Outside → Option Draft → Option Draft
constructed outside none = none
constructed outside (some d) = outside.construct d

unfoldable pub handle : Outside → String → String → ParsedEvent → Option Fields → Line
unfolding decide to_normalized_event
handle outside log_type tenant_id pe none = raised
handle outside log_type tenant_id pe (some extra) =
    let pe' = record pe { extra = extra } in
    handled (decide log_type (some (policy_event pe'))).store
      (constructed outside (to_normalized_event pe' tenant_id))

unfoldable pub line_of : Outside → Config → String → String → Parsed → Line
unfolding enriched handle
line_of outside config log_type tenant_id nothing = skipped
line_of outside config log_type tenant_id failed = raised
line_of outside config log_type tenant_id (parsed pe) =
    handle outside log_type tenant_id pe (enriched outside config pe)

-- The counters, the batch that waits, the batches that are handed to `_publish_batch_to_nats_sync` and the
-- samples of errors, by their line numbers. That function swallows its failures, so what the broker gets
-- of a batch is outside this model.
pub record Progress : Type 0 where
  pub lines_total : ℕ
  pub lines_parsed : ℕ
  pub lines_skipped : ℕ
  pub lines_failed : ℕ
  pub events_created : ℕ
  pub raw_saved : ℕ
  pub waiting : List Draft
  pub published : List (List Draft)
  pub parsing_errors : List ℕ

abbrev pub start : Progress
start = record {
  lines_total = 0;
  lines_parsed = 0;
  lines_skipped = 0;
  lines_failed = 0;
  events_created = 0;
  raw_saved = 0;
  waiting = [];
  published = [];
  parsing_errors = [];
}

abbrev pub listed : Option Draft → List Draft
listed none = []
listed (some d) = d ∷ []

-- A sample of an error is kept, up to a hundred.
abbrev pub sample : ℕ → List ℕ → List ℕ
sample line_no errors = if ltb (length errors) 100 then errors ++ line_no ∷ [] else errors

-- What a line makes of the counters.
unfoldable pub account : ℕ → Line → Progress → Progress
account line_no skipped p = record p {
  lines_total = suc p.lines_total;
  lines_skipped = suc p.lines_skipped;
}
account line_no raised p = record p {
  lines_total = suc p.lines_total;
  lines_failed = suc p.lines_failed;
  parsing_errors = sample line_no p.parsing_errors;
}
account line_no (handled raw event) p = record p {
  lines_total = suc p.lines_total;
  lines_parsed = suc p.lines_parsed;
  events_created = suc p.events_created;
  raw_saved = if raw then suc p.raw_saved else p.raw_saved;
  waiting = p.waiting ++ listed event;
}

abbrev pub nonempty : List Draft → Bool
nonempty [] = false
nonempty (d ∷ ds) = true

-- The batch that waits is handed over to be published, if there is one.
unfoldable pub flush : Progress → Progress
flush p =
    if nonempty p.waiting
    then record p { waiting = []; published = p.published ++ p.waiting ∷ [] }
    else p

-- At a full batch the events are handed over.
unfoldable pub flush_if_full : ℕ → Progress → Progress
unfolding flush
flush_if_full batch p =
    if not (p.events_created == 0) && (p.events_created % batch) == 0 then flush p else p

-- How the loop goes on: to the next line, past the rest of them, or out by an exception.
pub data Flow : Type 0 where
  on : Flow
  stop : Flow
  crash : Flow

unfoldable pub flow_of : Config → Line → Progress → Flow
flow_of config skipped p = on
flow_of config raised p =
    if leb config.max_line_errors p.lines_failed
    then stop
    else if not (p.events_created == 0) && config.batch_events == 0
    then crash
    else on
flow_of config (handled raw event) p =
    if not (p.events_created == 0) && config.batch_events == 0 then crash else on

-- The progress after a line: a skipped line goes past the test for a full batch, and so does the one that
-- stops the loop.
unfoldable pub after_line : Config → ℕ → Line → Progress → Progress
unfolding account flush_if_full
after_line config line_no skipped p = account line_no skipped p
after_line config line_no raised p =
    let p' = account line_no raised p in
    if leb config.max_line_errors p'.lines_failed then p' else flush_if_full config.batch_events p'
after_line config line_no (handled raw event) p =
    flush_if_full config.batch_events (account line_no (handled raw event) p)

-- Whether the loop has ended by an exception, and where it stands.
abbrev pub Looped : Type 0
Looped = Bool × Progress

abbrev pub go_on : Flow → Looped → Progress → Looped
go_on on rest p = rest
go_on stop rest p = (false, p)
go_on crash rest p = (true, p)

-- The loop over what comes of the lines, numbered from one.
unfoldable pub run_lines : Config → ℕ → List Line → Progress → Looped
unfolding after_line flow_of
run_lines config line_no [] p = (false, p)
run_lines config line_no (l ∷ ls) p =
    let rest = run_lines config (suc line_no) ls (after_line config line_no l p) in
    go_on (flow_of config l (account line_no l p)) rest (after_line config line_no l p)

-- `LogUpload`, with its notes
pub record Notes : Type 0 where
  pub log_type : String
  pub file_path : String
  pub lines_total : ℕ
  pub lines_parsed : ℕ
  pub lines_skipped : ℕ
  pub lines_failed : ℕ
  pub events_created : ℕ
  pub raw_saved : ℕ

pub record LogUpload : Type 0 where
  pub id : ℕ
  pub status : String
  pub error_message : Option String
  pub tenant_id : Value
  pub notes : Option Notes
  pub parsing_errors : List ℕ
  pub warned : Bool
  pub fatal_error : Bool
  pub parsing_skipped_reason : Option String

-- `_update_log_meta`
unfoldable pub notes_of : String → String → Progress → Notes
notes_of log_type file_path p = record {
  log_type = log_type;
  file_path = file_path;
  lines_total = p.lines_total;
  lines_parsed = p.lines_parsed;
  lines_skipped = p.lines_skipped;
  lines_failed = p.lines_failed;
  events_created = p.events_created;
  raw_saved = p.raw_saved;
}

abbrev pub is_parsed : String → Bool
is_parsed status = mem status ("parsed" ∷ "parsed_with_errors" ∷ "processed" ∷ [])

abbrev tenant_of : LogUpload → String
tenant_of log = if truthy log.tenant_id then to_str log.tenant_id else "default"

-- The upload after a loop that has ended, with the stream's last batch flushed before.
unfoldable pub finished : Config → String → String → Progress → LogUpload → LogUpload
unfolding notes_of
finished config log_type file_path p log = record log {
  status = if p.lines_failed == 0 then "processed" else "parsed_with_errors";
  error_message =
      if p.lines_failed == 0
      then none
      else some (decimal p.lines_failed +ₛ " line parse errors encountered");
  notes = some (notes_of log_type file_path p);
  parsing_errors = p.parsing_errors;
  warned = log.warned || (not (p.lines_failed == 0) && leb config.max_line_errors p.lines_failed);
}

-- The upload after an exception, of whose message only the head is kept: what waits is not published.
unfoldable pub ended_by_error : String → String → Progress → LogUpload → LogUpload
unfolding notes_of
ended_by_error log_type file_path p log = record log {
  status = "error";
  error_message = some "Fatal pipeline error";
  notes = some (notes_of log_type file_path p);
  parsing_errors = p.parsing_errors;
  fatal_error = true;
}

abbrev pub ended : Config → String → String → LogUpload → Looped → LogUpload × List (List Draft)
ended config log_type file_path log (true, p) =
    (ended_by_error log_type file_path p log, p.published)
ended config log_type file_path log (false, p) =
    (finished config log_type file_path p log, (flush p).published)

-- A file of a kind that has no parser is one that cannot be read.
abbrev pub readable : String → Option (List String) → Option (List String)
readable log_type file = if mem (strip log_type) log_types then file else none

module _ {S : Type 0} (parse : S → String → S × Parsed) where
  -- What comes of the lines of a file: an empty line does not reach the parser.
  unfoldable pub lines_of : Outside → Config → String → String → S → List String → List Line
  unfolding line_of rstrip_newline
  lines_of outside config log_type tenant_id s [] = []
  lines_of outside config log_type tenant_id s (line ∷ file) =
      let raw_line = rstrip_newline line in
      let (s', result) = parse s raw_line in
      let parsed_rest = lines_of outside config log_type tenant_id s' file in
      let blank_rest = lines_of outside config log_type tenant_id s file in
      if raw_line =ₛ ""
      then skipped ∷ blank_rest
      else line_of outside config log_type tenant_id result ∷ parsed_rest

  abbrev with_file :
      Outside
      → Config
      → String
      → String
      → S
      → LogUpload
      → Option (List String)
      → LogUpload × List (List Draft)
  with_file outside config log_type file_path s log none = (
    ended_by_error log_type file_path (record start { parsing_errors = log.parsing_errors }) log,
    [],
  )
  with_file outside config log_type file_path s log (some file) =
      ended config log_type file_path log (
        run_lines config 1 (lines_of outside config log_type (tenant_of log) s file)
          (record start { parsing_errors = log.parsing_errors }))

  -- `parse_log_file`, for the row of an upload and the lines of its file, none where it cannot be opened:
  -- the row, and the batches that are handed on
  unfoldable pub parse_log_file :
      Outside
      → Config
      → String
      → String
      → S
      → Option (List String)
      → LogUpload
      → LogUpload × List (List Draft)
  parse_log_file outside config log_type file_path s file log =
      if is_parsed log.status
      then (record log { parsing_skipped_reason = some "already_parsed" }, [])
      else with_file outside config log_type file_path s (record log { status = "parsing" })
          (readable log_type file)
