-- ===== src/Reporting/Loaded.antt =====
-- src/reporting/history.rs: `History`, the runs of the results directory, newest first, and the timeline of
-- one installer.
pub mod Timeline
mod Tests
use text.Mathlib.Text.{starts_with}
use automated_flywheel_setup.Base.{
  ℕ, zero, suc, ◌+◌, ◌-◌, ◌*◌, ◌/◌, String, Bool, true, false, not, ◌&&◌, Option, none, some, List,
  [], ◌∷◌, ◌++◌, map, length, take, drop, keep, get_elem?, map_option, max, leb, ltb, is_some,
  has_text, ◌==ₛ◌, if◌then◌else◌,
}
use automated_flywheel_setup.Reporting.History.{Outcome, Assessment, assess_outcomes}
use automated_flywheel_setup.Reporting.Persist.{RunHeader, ResultEntry, RunSummaryEntry}
use automated_flywheel_setup.Reporting.Persist.File.{Json, RunFile, read_run_file}
use automated_flywheel_setup.Reporting.Persist.Runs.{RunInfo, Stored, list_runs}

pub record LoadedRun : Type 0 where
  pub info : RunInfo
  pub header : Option RunHeader
  pub entries : List ResultEntry
  pub summary : Option RunSummaryEntry

-- `History`
abbrev pub History : Type 0
History = List LoadedRun

unfoldable pub content_of : String → List Stored → Option String
content_of path [] = none
content_of path (f ∷ files) =
    let later = content_of path files in if f.path ==ₛ path then f.content else later

abbrev pub loaded : RunInfo → RunFile → LoadedRun
loaded info file = record {
  info = info;
  header = file.header;
  entries = file.entries;
  summary = file.summary;
}

-- A file that cannot be read again is left out.
abbrev pub push_run : Json → RunInfo → Option String → History → History
push_run j info none runs = runs
push_run j info (some text) runs = loaded info (read_run_file j text) ∷ runs

unfoldable pub load_infos : Json → List Stored → List RunInfo → History
unfolding content_of
load_infos j files [] = []
load_infos j files (info ∷ infos) =
    push_run j info (content_of info.path files) (load_infos j files infos)

-- `History::load_recent`
unfoldable pub load_recent : Json → List Stored → ℕ → History
unfolding load_infos list_runs
load_recent j files limit = load_infos j files (take limit (list_runs j files))

-- `History::latest`
abbrev pub latest : History → Option LoadedRun
latest [] = none
latest (r ∷ _) = some r

-- `History::runs_within`; a window that is longer than the time since 1970 does not come up.
unfoldable pub runs_within : ℕ → ℕ → History → History
runs_within now window runs =
    keep (λ r. leb (now - window) r.info.started_at && leb r.info.started_at now) runs

-- `LoadedRun::entry`
unfoldable pub entry_in : String → List ResultEntry → Option ResultEntry
entry_in installer [] = none
entry_in installer (e ∷ es) =
    let later = entry_in installer es in if e.installer_name ==ₛ installer then some e else later

pub record HistoryEntry : Type 0 where
  pub run_id : String
  pub started_at : ℕ
  pub status : String
  pub duration_ms : ℕ
  pub attempts : ℕ
  pub script_sha256 : Option String
  pub installed_version : Option String
  pub category : Option String

abbrev pub history_entry : LoadedRun → ResultEntry → HistoryEntry
history_entry run e = record {
  run_id = run.info.run_id;
  started_at = run.info.started_at;
  status = e.status;
  duration_ms = e.duration_ms;
  attempts = max (length e.attempts) 1;
  script_sha256 = e.checksum_expected;
  installed_version = e.installed_version;
  category = map_option (λ c. c.category) e.error_classification;
}

-- A stable sort by `started_at`: the entry goes before the first that did not start earlier.
unfoldable pub insert_entry : HistoryEntry → List HistoryEntry → List HistoryEntry
insert_entry e [] = e ∷ []
insert_entry e (x ∷ xs) =
    let later = insert_entry e xs in if ltb x.started_at e.started_at then x ∷ later else e ∷ x ∷ xs

unfoldable pub sort_entries : List HistoryEntry → List HistoryEntry
unfolding insert_entry
sort_entries [] = []
sort_entries (e ∷ es) = insert_entry e (sort_entries es)

abbrev pub push_entry : LoadedRun → Option ResultEntry → List HistoryEntry → List HistoryEntry
push_entry run none es = es
push_entry run (some e) es = es ++ history_entry run e ∷ []

-- The entries of an installer, the runs from the last on.
unfoldable pub entries_of : String → History → List HistoryEntry
unfolding entry_in
entries_of installer [] = []
entries_of installer (run ∷ runs) =
    push_entry run (entry_in installer run.entries) (entries_of installer runs)

-- `History::installer_timeline`
unfoldable pub installer_timeline : String → History → List HistoryEntry
unfolding entries_of sort_entries
installer_timeline installer runs = sort_entries (entries_of installer runs)

-- The outcomes of runs that were neither skipped nor cancelled.
abbrev pub is_considered : HistoryEntry → Bool
is_considered e = not (e.status ==ₛ "skipped") && not (e.status ==ₛ "cancelled")

unfoldable pub insert_duration : ℕ → List ℕ → List ℕ
insert_duration d [] = d ∷ []
insert_duration d (x ∷ xs) =
    let later = insert_duration d xs in if ltb x d then x ∷ later else d ∷ x ∷ xs

-- `sort_unstable`
unfoldable pub sort_durations : List ℕ → List ℕ
unfolding insert_duration
sort_durations [] = []
sort_durations (d ∷ ds) = insert_duration d (sort_durations ds)

-- `History::median_duration_ms`: out of range, for no durations, is `none`.
unfoldable pub median_duration_ms : String → History → Option ℕ
unfolding installer_timeline sort_durations
median_duration_ms installer runs =
    let d =
      sort_durations
        (map (λ e. e.duration_ms) (keep is_considered (installer_timeline installer runs))) in
    get_elem? d (length d / 2)

-- The variables of the walk over the hashes: the start of the segment and the last hash.
abbrev pub Segment : Type 0
Segment = ℕ × Option String

-- One round with a hash, at an index.
abbrev pub at_hash : ℕ → String → Segment → Segment
at_hash idx h (start, none) = (start, some h)
at_hash idx h (start, some prev) = (if prev ==ₛ h then start else idx, some h)

abbrev pub segment_round : ℕ → Option String → Segment → Segment
segment_round idx none s = s
segment_round idx (some h) s = at_hash idx h s

unfoldable pub segment_from : ℕ → List HistoryEntry → Segment → Segment
segment_from idx [] s = s
segment_from idx (e ∷ es) s = segment_from (suc idx) es (segment_round idx e.script_sha256 s)

-- `considered[start..]`: the entries since the last change of the hash.
unfoldable pub segment : List HistoryEntry → List HistoryEntry
unfolding segment_from
segment considered =
    let (start, last) = segment_from 0 considered (0, none) in drop start considered

unfoldable pub distinct : List (Option String) → List String
distinct [] = []
distinct (none ∷ hashes) = distinct hashes
distinct (some h ∷ hashes) =
    let later = distinct hashes in if has_text later h then later else h ∷ later

abbrev pub outcome_of : HistoryEntry → Outcome
outcome_of e = (e.run_id, e.status ==ₛ "passed")

-- `History::assess`
unfoldable pub assess : String → History → Assessment
unfolding installer_timeline segment distinct assess_outcomes
assess installer runs =
    let considered = keep is_considered (installer_timeline installer runs) in
    record (assess_outcomes (map outcome_of (segment considered))) {
      script_versions = length (distinct (map (λ e. e.script_sha256) considered));
    }
