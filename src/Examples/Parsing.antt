-- ===== src/Examples/Parsing.antt =====
-- The parsing of a file at a concrete file.
use siem_sentinel_xv.Base.{
  ℕ, suc, ◌≡◌, refl, pos, true, false, Option, none, some, List, String, [], ◌∷◌, ◌=ₛ◌,
  if◌then◌else◌,
}
use siem_sentinel_xv.Text.{strip, lower}
use siem_sentinel_xv.Value.{null, str, dict, end, field, get, get_or_null}
use siem_sentinel_xv.Normalize.{ParsedEvent, Draft, to_normalized_event, is_private, draft_of}
use siem_sentinel_xv.Normalize.Country.{IsCountry, to_normalized_event-IsCountry}
use siem_sentinel_xv.Pipeline.{
  Line, Parsed, parsed, nothing, failed, Config, Outside, LogUpload, lines_of, parse_log_file,
  run_lines, account, flush, finished,
}
use siem_sentinel_xv.Pipeline.Lines.{read_lines}
use siem_sentinel_xv.Pipeline.Stream.{parse_log_file_again}

abbrev pe : ParsedEvent
pe = record {
  timestamp_utc = 5;
  server = "s1";
  source = "SSH_AUTH";
  service = "SSH";
  message = "Failed password";
  ip_client = some "10.0.0.9";
  ip_server = none;
  domain = none;
  username = some "root";
  extra = field "geo" (dict (field "country_code" (str "PRV") end)) end;
  log_upload_id = some 1;
  raw_id = none;
}

abbrev made : Option Draft → Draft
made none = draft_of pe "" end (pos 0)
made (some d) = d

abbrev draft : Draft
draft = made (to_normalized_event pe "acme")

to_normalized_event-IsCountry_example :
    (draft.tenant_id ≡ "acme")
    × (draft.event_original ≡ "Failed password")
    × IsCountry draft.source_country
    × (is_private pe.extra ≡ true → draft.source_country ≡ null)
unfolding to_normalized_event get_or_null get
to_normalized_event-IsCountry_example = to_normalized_event-IsCountry pe "acme" draft refl

-- A parser that counts the lines it is given, takes `?` for nothing and fails at `!`.
abbrev parse : ℕ → String → ℕ × Parsed
parse n line = (
  suc n,
  if line =ₛ "?"
      then nothing
      else if line =ₛ "!"
      then failed
      else parsed (record pe { message = line }),
)

abbrev outside : Outside
outside = record { enrich = λ v fs. some fs; construct = λ d. some d }

abbrev config : Config
config = record { enrich_inline = true; batch_events = 2; max_line_errors = 2 }

abbrev file : List String
file = "a\n" ∷ "\n" ∷ "?\n" ∷ "b\n" ∷ "!\n" ∷ "c\n" ∷ "!\n" ∷ "d\n" ∷ []

abbrev upload : LogUpload
upload = record {
  id = 1;
  status = "queued";
  error_message = none;
  tenant_id = null;
  notes = none;
  parsing_errors = [];
  warned = false;
  fatal_error = false;
  parsing_skipped_reason = none;
}

abbrev read : List Line
read = read_lines 2 (lines_of parse outside config "secure" "default" 0 file)

abbrev after : LogUpload
after = (parse_log_file parse outside config "secure" "secure.log" 0 (some file) upload).0

parse_log_file_again_example :
    ((parse_log_file parse outside config "secure" "again.log" 3 (some file) after).1 ≡ [])
    × ((parse_log_file parse outside config "secure" "again.log" 3 (some file) after).0.status
        ≡ after.status)
    × ((parse_log_file parse outside config "secure" "again.log" 3 (some file) after).0.notes
        ≡ after.notes)
unfolding strip
parse_log_file_again_example =
    parse_log_file_again parse outside config config "secure" "secure.log" "again.log" 0 3 file
      (some file) upload refl refl refl

abbrev messages : List Draft → List String
messages [] = []
messages (d ∷ ds) = d.event_original ∷ messages ds

abbrev batches : List (List Draft) → List (List String)
batches [] = []
batches (b ∷ bs) = messages b ∷ batches bs

-- Two batches, and the lines after the second failure are not read.
batches_run :
    batches (parse_log_file parse outside config "secure" "secure.log" 0 (some file) upload).1
    ≡ ("a" ∷ "b" ∷ []) ∷ ("c" ∷ []) ∷ []
unfolding parse_log_file strip lines_of run_lines account flush finished lower get_or_null
batches_run = refl
