-- ===== src/Reporting/Persist/File.antt =====
-- src/reporting/jsonl.rs: how a results file is written and read. `serde_json` is an interface.
use automated_flywheel_setup.Base.{
  ℕ, String, Bool, Option, none, some, List, [], ◌∷◌, ◌++◌, map, ◌==ₛ◌, lines, trim, is_empty,
  if◌then◌else◌,
}
use automated_flywheel_setup.Base.Lines.Laws.{unlines}
use automated_flywheel_setup.Runner.Installer.{TestResult}
use automated_flywheel_setup.Reporting.Persist.{
  RunHeader, ResultEntry, RunSummaryEntry, entry_from, summary_of,
}

-- `to_value`, `json["kind"] = …`, `get("kind")`, `to_string`, `from_str` and `from_value`
pub record Json : Type 1 where
  pub Value : Type 0
  pub of_header : RunHeader → Value
  pub of_entry : ResultEntry → Value
  pub of_summary : RunSummaryEntry → Value
  pub with_kind : String → Value → Value
  pub kind : Value → Option String
  pub print : Value → String
  pub parse : String → Option Value
  pub to_header : Value → Option RunHeader
  pub to_entry : Value → Option ResultEntry
  pub to_summary : Value → Option RunSummaryEntry

-- `RunFile`
pub record RunFile : Type 0 where
  pub header : Option RunHeader
  pub entries : List ResultEntry
  pub summary : Option RunSummaryEntry

abbrev pub empty_file : RunFile
empty_file = record { header = none; entries = []; summary = none }

module _ (j : Json) where
  open j use {
    Value, of_header, of_entry, of_summary, with_kind, kind, print, parse, to_header, to_entry,
    to_summary,
  }

  -- The lines that `persist_with_header` writes, at the time `now` of their last.
  unfoldable pub file_lines : RunHeader → Bool → ℕ → List TestResult → List String
  unfolding entry_from summary_of
  file_lines header interrupted now results =
      print (with_kind "run" (of_header header))
      ∷ (map (λ r. print (with_kind "result" (of_entry (entry_from r)))) results
          ++ print (with_kind "summary" (of_summary (summary_of header interrupted now results)))
            ∷ [])

  unfoldable pub written : RunHeader → Bool → ℕ → List TestResult → String
  unfolding file_lines
  written header interrupted now results = unlines (file_lines header interrupted now results)

  abbrev pub put_header : Option RunHeader → RunFile → RunFile
  put_header none file = file
  put_header (some h) file = record file { header = some h }

  abbrev pub put_entry : Option ResultEntry → RunFile → RunFile
  put_entry none file = file
  put_entry (some e) file = record file { entries = file.entries ++ e ∷ [] }

  abbrev pub put_summary : Option RunSummaryEntry → RunFile → RunFile
  put_summary none file = file
  put_summary (some s) file = record file { summary = some s }

  -- A line without a kind: a summary, or else a result.
  abbrev pub put_legacy : Option RunSummaryEntry → Value → RunFile → RunFile
  put_legacy (some s) v file = record file { summary = some s }
  put_legacy none v file = put_entry (to_entry v) file

  unfoldable pub put_by_kind : Option String → Value → RunFile → RunFile
  put_by_kind none v file = put_legacy (to_summary v) v file
  put_by_kind (some k) v file =
      if k ==ₛ "run"
      then put_header (to_header v) file
      else if k ==ₛ "result"
      then put_entry (to_entry v) file
      else if k ==ₛ "summary"
      then put_summary (to_summary v) file
      else put_legacy (to_summary v) v file

  unfoldable pub put_value : Option Value → RunFile → RunFile
  unfolding put_by_kind
  put_value none file = file
  put_value (some v) file = put_by_kind (kind v) v file

  -- The loop over the lines.
  unfoldable pub read_lines : RunFile → List String → RunFile
  unfolding put_value
  read_lines file [] = file
  read_lines file (line ∷ rest) =
      read_lines (if is_empty (trim line) then file else put_value (parse line) file) rest

  -- `read_run_file`, on the text of the file
  unfoldable pub read_run_file : String → RunFile
  unfolding read_lines
  read_run_file content = read_lines empty_file (lines content)
