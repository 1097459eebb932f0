-- ===== src/Reporting/Persist/RoundTrip.antt =====
-- src/reporting/jsonl.rs: what `persist_with_header` writes, `read_run_file` reads back.
use automated_flywheel_setup.Base.{
  ℕ, String, ◌≡◌, refl, sym, ap, ◌∙◌, Bool, true, false, some, List, [], ◌∷◌, ◌++◌, map, All,
  All-append, trim, is_empty,
}
use mathlib.Core.List.{append_assoc, append-nil}
use automated_flywheel_setup.Base.Lines.Laws.{is_line, lines-unlines}
use automated_flywheel_setup.Runner.Installer.{TestResult}
use automated_flywheel_setup.Reporting.Persist.{
  RunHeader, ResultEntry, RunSummaryEntry, entry_from, summary_of,
}
use automated_flywheel_setup.Reporting.Persist.File.{
  Json, RunFile, empty_file, file_lines, written, put_by_kind, put_value, read_lines, read_run_file,
}

-- What `serde_json` promises of a value that is written: the key that is set is read, `to_string` gives one
-- line that is not blank, and `from_str` reads it back.
pub record IsPrinted (j : Json) (k : String) (v : j.Value) : Type 0 where
  pub kind : j.kind (j.with_kind k v) ≡ some k
  pub parse : j.parse (j.print (j.with_kind k v)) ≡ some (j.with_kind k v)
  pub line : is_line (j.print (j.with_kind k v)) ≡ true
  pub visible : is_empty (trim (j.print (j.with_kind k v))) ≡ false

abbrev pub IsEntryKept : Json → ResultEntry → Type 0
IsEntryKept j e =
    IsPrinted j "result" (j.of_entry e)
    × (j.to_entry (j.with_kind "result" (j.of_entry e)) ≡ some e)

-- And of the data of one file: `from_value` gives them back, since it ignores the kind.
pub record IsFaithful (j : Json) (h : RunHeader) (entries : List ResultEntry) (s : RunSummaryEntry)
    : Type 0 where
  pub header_printed : IsPrinted j "run" (j.of_header h)
  pub header_kept : j.to_header (j.with_kind "run" (j.of_header h)) ≡ some h
  pub entries_kept : All (IsEntryKept j) entries
  pub summary_printed : IsPrinted j "summary" (j.of_summary s)
  pub summary_kept : j.to_summary (j.with_kind "summary" (j.of_summary s)) ≡ some s

module _ (j : Json) where
  read_lines-print :
      (file : RunFile) (k : String) (v : j.Value) (rest : List String)
      → IsPrinted j k v
      → read_lines j file (j.print (j.with_kind k v) ∷ rest)
        ≡ read_lines j (put_by_kind j (some k) (j.with_kind k v) file) rest
  unfolding read_lines put_value
  read_lines-print file k v rest p = simp (p.visible, p.parse, p.kind) refl

  read_header :
      (file : RunFile) (h : RunHeader) (rest : List String)
      → IsPrinted j "run" (j.of_header h)
      → j.to_header (j.with_kind "run" (j.of_header h)) ≡ some h
      → read_lines j file (j.print (j.with_kind "run" (j.of_header h)) ∷ rest)
        ≡ read_lines j (record file { header = some h }) rest
  unfolding put_by_kind
  read_header file h rest p kept =
      read_lines-print file "run" (j.of_header h) rest p ∙ simp kept refl

  read_entry :
      (file : RunFile) (e : ResultEntry) (rest : List String)
      → IsEntryKept j e
      → read_lines j file (j.print (j.with_kind "result" (j.of_entry e)) ∷ rest)
        ≡ read_lines j (record file { entries = file.entries ++ e ∷ [] }) rest
  unfolding put_by_kind
  read_entry file e rest (p, kept) =
      read_lines-print file "result" (j.of_entry e) rest p ∙ simp kept refl

  read_summary :
      (file : RunFile) (s : RunSummaryEntry) (rest : List String)
      → IsPrinted j "summary" (j.of_summary s)
      → j.to_summary (j.with_kind "summary" (j.of_summary s)) ≡ some s
      → read_lines j file (j.print (j.with_kind "summary" (j.of_summary s)) ∷ rest)
        ≡ read_lines j (record file { summary = some s }) rest
  unfolding put_by_kind
  read_summary file s rest p kept =
      read_lines-print file "summary" (j.of_summary s) rest p ∙ simp kept refl

  read_entries :
      (file : RunFile) (results : List TestResult) (rest : List String)
      → All (IsEntryKept j) (map entry_from results)
      → read_lines j file
          (map (λ r. j.print (j.with_kind "result" (j.of_entry (entry_from r)))) results ++ rest)
        ≡ read_lines j (record file { entries = file.entries ++ map entry_from results }) rest
  read_entries file [] rest kept =
      ap (λ (es : List ResultEntry). read_lines j (record file { entries = es }) rest)
        (sym (append-nil file.entries))
  read_entries file (r ∷ results) rest (here, later) =
      read_entry file (entry_from r)
        (map (λ q. j.print (j.with_kind "result" (j.of_entry (entry_from q)))) results ++ rest) here
      ∙ read_entries (record file { entries = file.entries ++ entry_from r ∷ [] }) results rest
          later
      ∙ ap (λ (es : List ResultEntry). read_lines j (record file { entries = es }) rest)
          (append_assoc file.entries (entry_from r ∷ []) (map entry_from results))

  lines_of_entries :
      (results : List TestResult)
      → All (IsEntryKept j) (map entry_from results)
      → All
          (λ l. is_line l ≡ true)
          (map (λ r. j.print (j.with_kind "result" (j.of_entry (entry_from r)))) results)
  lines_of_entries [] kept = tt
  lines_of_entries (r ∷ results) (here, later) = (here.0.line, lines_of_entries results later)

  -- Where `serde_json` keeps its promises on the data of a file, reading what was written gives the
  -- header, an entry for each result in their order, and the summary of the results.
  pub read_run_file-written :
      (header : RunHeader) (interrupted : Bool) (now : ℕ) (results : List TestResult)
      → IsFaithful j header (map entry_from results) (summary_of header interrupted now results)
      → read_run_file j (written j header interrupted now results) ≡ record {
        header = some header;
        entries = map entry_from results;
        summary = some (summary_of header interrupted now results);
      }
  unfolding read_run_file written file_lines
  read_run_file-written header interrupted now results p =
      let last = summary_of header interrupted now results in
      let last_line = j.print (j.with_kind "summary" (j.of_summary last)) ∷ [] in
      let shape = lines-unlines (file_lines j header interrupted now results) (
        p.header_printed.line,
        All-append (λ l. is_line l ≡ true)
            (map (λ r. j.print (j.with_kind "result" (j.of_entry (entry_from r)))) results)
            last_line (lines_of_entries results p.entries_kept) (p.summary_printed.line, tt),
      ) in
      ap (read_lines j empty_file) shape
      ∙ read_header empty_file header
          (map (λ r. j.print (j.with_kind "result" (j.of_entry (entry_from r)))) results
            ++ last_line)
          p.header_printed p.header_kept
      ∙ read_entries (record empty_file { header = some header }) results last_line p.entries_kept
      ∙ read_summary (record empty_file { header = some header; entries = map entry_from results })
          last [] p.summary_printed p.summary_kept
      ∙ unfold read_lines in refl
