-- ===== src/Pipeline/Stream.antt =====
-- What the parsing of a file in app/services/log_pipeline.py hands on to be published, and what it notes.
use siem_sentinel_xv.Base.{
  ◌+◌, ◌==◌, ◌≡◌, refl, true, false, Option, some, List, String, [], length, mem, Bool-cases, inl,
  inr, if◌then◌else◌,
}
use siem_sentinel_xv.Text.{strip}
use siem_sentinel_xv.Value.{truthy, to_str}
use siem_sentinel_xv.Pipeline.{
  Parsed, Config, Outside, log_types, Line, Progress, start, flush, Looped, run_lines, Notes,
  LogUpload, is_parsed, finished, ended, lines_of, parse_log_file,
}
use siem_sentinel_xv.Pipeline.Lines.{failures, run_lines-Reads}

-- What the notes of an upload say of the lines that were read.
pub record IsTold (ls : List Line) (log : LogUpload) (n : Notes) : Type 0 where
  pub noted : log.notes ≡ some n
  pub total : n.lines_total ≡ length ls
  pub told : n.lines_parsed + n.lines_skipped + n.lines_failed ≡ n.lines_total
  pub failed : n.lines_failed ≡ failures ls
  pub created : n.events_created ≡ n.lines_parsed
  pub status : log.status ≡ (if failures ls == 0 then "processed" else "parsed_with_errors")

abbrev pub tenant_of : LogUpload → String
tenant_of log = if truthy log.tenant_id then to_str log.tenant_id else "default"

ended_well :
    (config : Config) (log_type file_path : String) (log : LogUpload) (l : Looped)
    → l.0 ≡ false
    → ended config log_type file_path log l
      ≡ (finished config log_type file_path l.1 log, (flush l.1).published)
ended_well config log_type file_path log (true, p) h = cc
ended_well config log_type file_path log (false, p) h = refl

finished_parsed :
    (config : Config) (log_type file_path : String) (p : Progress) (log : LogUpload)
    → is_parsed (finished config log_type file_path p log).status ≡ true
unfolding finished
finished_parsed config log_type file_path p log = elim (Bool-cases (p.lines_failed == 0)) [
  | inl y ↦ rw y refl
  | inr n ↦ rw n refl
]

module _ {S : Type 0} (parse : S → String → S × Parsed) where
  -- An upload is handed on once: after a file has been parsed to its end, parsing the upload again, with
  -- whatever settings and whatever its file holds by then, hands nothing on to be published and
  -- leaves its status and its notes as they are.
  pub parse_log_file_again :
      (outside : Outside) (config again : Config) (log_type file_path other_path : String) (s t : S)
      (file : List String) (later : Option (List String)) (log : LogUpload)
      → is_parsed log.status ≡ false
      → mem (strip log_type) log_types ≡ true
      → (config.batch_events == 0) ≡ false
      → let r = parse_log_file parse outside config log_type file_path s (some file) log in
        let r' = parse_log_file parse outside again log_type other_path t later r.0 in
        (r'.1 ≡ []) × (r'.0.status ≡ r.0.status) × (r'.0.notes ≡ r.0.notes)
  unfolding parse_log_file
  parse_log_file_again outside config again log_type file_path other_path s t file later log h k b =
      let lines = lines_of parse outside config log_type (tenant_of log) s file in
      let p = record start { parsing_errors = log.parsing_errors } in
      let l = run_lines config 1 lines p in
      let (e, r) = run_lines-Reads config 1 lines p b in
      let l_ends = ended_well config log_type file_path (record log { status = "parsing" }) l e in
      let parsed_then =
        finished_parsed config log_type file_path l.1 (record log { status = "parsing" }) in
      rw (h, k, l_ends) (rw parsed_then (refl, refl, refl))
