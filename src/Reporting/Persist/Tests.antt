-- ===== src/Reporting/Persist/Tests.antt =====
-- src/reporting/jsonl.rs: a file of one skipped result, and a directory of three files.
use automated_flywheel_setup.Base.{
  ℕ, ◌-◌, String, ◌≡◌, refl, inr, Bool, true, false, none, some, List, [], ◌∷◌, map, length, take,
  All, Among, trim,
}
use automated_flywheel_setup.Main.{any_failed, exit_code_of}
use automated_flywheel_setup.Runner.Installer.{TestResult, new, with_skipped}
use automated_flywheel_setup.Reporting.Persist.{RunHeader, entry_from, summary_of}
use automated_flywheel_setup.Reporting.Persist.File.{Json, written, read_run_file}
use automated_flywheel_setup.Reporting.Persist.RoundTrip.{IsFaithful, read_run_file-written}
use automated_flywheel_setup.Reporting.Persist.Counts.{summary_of-exit_code}
use automated_flywheel_setup.Reporting.Persist.Runs.{
  RunInfo, Stored, is_results_file, list_runs, prune,
}
use automated_flywheel_setup.Reporting.Persist.Retention.{
  StartedBy, paths_of, others, excess, prune-newest,
}

abbrev header : RunHeader
header = record {
  run_id = "0a1b";
  started_at = 5;
  tool_version = "0.2.0";
  backend = "local";
  image = none;
  user = none;
  parallel = 1;
  timeout_seconds = 300;
  retries = 3;
  fail_fast = false;
  acfs_repo = "/acfs";
  checksums_sha256 = none;
  config_source = none;
  data_dir = "/data";
  installers_requested = [];
  installer_count = 1;
  dry_run = false;
  allow_file_urls = false;
  image_id = none;
  run_as_root = false;
  deadline_seconds = 0;
  environment = none;
}

abbrev result : TestResult
result = with_skipped (new "bun" 5) "skipped: no network" 6

abbrev results : List TestResult
results = result ∷ []

-- A value is its kind; what it holds is what the file holds.
abbrev json : Json
json = record {
  Value = String;
  of_header = λ h. "header";
  of_entry = λ e. "entry";
  of_summary = λ s. "summary";
  with_kind = λ k v. k;
  kind = λ v. some v;
  print = λ v. v;
  parse = λ s. some s;
  to_header = λ v. some header;
  to_entry = λ v. some (entry_from result);
  to_summary = λ v. some (summary_of header false 9 results);
}

faithful : IsFaithful json header (map entry_from results) (summary_of header false 9 results)
unfolding trim
faithful = record {
  header_printed = record { kind = refl; parse = refl; line = refl; visible = refl };
  header_kept = refl;
  entries_kept = ((record { kind = refl; parse = refl; line = refl; visible = refl }, refl), tt);
  summary_printed = record { kind = refl; parse = refl; line = refl; visible = refl };
  summary_kept = refl;
}

read_run_file-written_example : read_run_file json (written json header false 9 results) ≡ record {
  header = some header;
  entries = map entry_from results;
  summary = some (summary_of header false 9 results);
}
read_run_file-written_example = read_run_file-written json header false 9 results faithful

summary_of-exit_code_example :
    (exit_code_of none (any_failed false false results) ≡ 0)
    × ((summary_of header false 9 results).exit_code ≡ 1)
unfolding with_skipped new
summary_of-exit_code_example =
    summary_of-exit_code header false false 9 results (refl, tt) (inr refl, tt) refl

abbrev stored : String → ℕ → Stored
stored path stamp = record { path = path; content = some ""; stamp = stamp }

abbrev directory : List Stored
directory =
    stored "results_a.jsonl" 10
    ∷ stored "results_b.jsonl" 30
    ∷ stored "notes.txt" 1
    ∷ stored "results_c.jsonl" 20
    ∷ []

prune-newest_example :
    (prune json (λ path. true) 2 directory ≡ (
      some (length (list_runs json directory) - 2),
      others (paths_of (excess json 2 directory)) directory,
    ))
    × All
        (λ kept. All (StartedBy kept) (excess json 2 directory))
        (take 2 (list_runs json directory))
    × ((f : Stored)
        → is_results_file f.path ≡ false
        → Among f directory
        → Among f (prune json (λ path. true) 2 directory).1)
prune-newest_example =
    prune-newest json (λ path. true) 1 directory (all_can (list_runs json directory))
  where
    all_can : (runs : List RunInfo) → All (λ r. ◌≡◌ {A = Bool} true true) runs
    all_can [] = tt
    all_can (r ∷ runs) = (refl, all_can runs)
