-- ===== src/Reporting/Metrics/Tests.antt =====
-- src/reporting/metrics.rs: a directory with the file of one run, and the report on it.
use automated_flywheel_setup.Base.{
  String, ◌≡◌, ◌↔◌, refl, false, Option, none, some, List, [], ◌∷◌, count_by, max, Among, arith,
}
use automated_flywheel_setup.Remediation.Outcome.{RemediationOutcome, failed, attempted, succeeded}
use automated_flywheel_setup.Reporting.Persist.{ResultEntry}
use automated_flywheel_setup.Reporting.Persist.File.{Json}
use automated_flywheel_setup.Reporting.Persist.Runs.{Stored}
use automated_flywheel_setup.Reporting.Loaded.{LoadedRun, load_recent}
use automated_flywheel_setup.Reporting.Metrics.{healthy, compute}
use automated_flywheel_setup.Reporting.Metrics.Health.{IsRecent, compute-healthy_iff}
use automated_flywheel_setup.Reporting.Metrics.Sums.{
  recent_entries, is_run, is_pass, is_fail, tests_outcome, cost_of_all, compute-recent,
}

abbrev entry : String → String → Option RemediationOutcome → ResultEntry
entry name status remediation = record {
  timestamp = 8;
  installer_name = name;
  status = status;
  duration_ms = 20;
  exit_code = none;
  error_classification = none;
  stderr_excerpt = "";
  retry_count = 0;
  sha256_verified = false;
  checksum_state = "not_checked";
  checksum_expected = none;
  checksum_actual = none;
  stdout_tail = "";
  stderr_tail = "";
  container_id = none;
  last_attempt_ms = 20;
  attempts = [];
  installed_version = none;
  remediation = remediation;
  telemetry = none;
}

abbrev run : LoadedRun
run = record {
  info = record {
    path = "results_a.jsonl";
    run_id = "a";
    started_at = 5;
    total = 3;
    passed = 1;
    failed = 1;
    interrupted = false;
  };
  header = none;
  entries =
      entry "bun" "passed" none
      ∷ entry "uv" "timedout" (some (failed "no access" 40_000))
      ∷ entry "rust" "skipped" none
      ∷ [];
  summary = none;
}

-- JSON that holds nothing that is known.
abbrev no_json : Json
no_json = record {
  Value = String;
  of_header = λ h. "header";
  of_entry = λ e. "entry";
  of_summary = λ s. "summary";
  with_kind = λ k v. k;
  kind = λ v. some v;
  print = λ v. v;
  parse = λ s. none;
  to_header = λ v. none;
  to_entry = λ v. none;
  to_summary = λ v. none;
}

abbrev files : List Stored
files = record { path = "results_a.jsonl"; content = some "{"; stamp = 5 } ∷ []

sums :
    (count_by is_run (recent_entries 9 (run ∷ [])) ≡ 2)
    × (count_by is_pass (recent_entries 9 (run ∷ [])) ≡ 1)
    × (cost_of_all (recent_entries 9 (run ∷ [])) ≡ 40_000)
unfolding recent_entries cost_of_all
sums = (refl, refl, refl)

compute-healthy_iff_example :
    ((compute (load_recent no_json files 10) 9_000_000_000 60 none 0).health ≡ healthy)
    ↔ ((r : LoadedRun) × Among r (load_recent no_json files 10) × IsRecent 9_000_000_000 60 r)
compute-healthy_iff_example =
    compute-healthy_iff no_json files 10 9_000_000_000 60 none 0 (omega arith)

compute-recent_example :
    let r = compute (run ∷ []) 9 60 none 0 in
    let es = recent_entries 9 (run ∷ []) in
    (r.total_tests_24h ≡ count_by is_run es)
    × (r.successful_tests_24h ≡ count_by is_pass es)
    × (r.failed_tests_24h ≡ count_by is_fail es)
    × (r.total_remediations_24h ≡ max (count_by (tests_outcome attempted) es) 0)
    × (r.remediations_verified_24h ≡ count_by (tests_outcome succeeded) es)
    × (r.remediations_cost_usd_24h ≡ cost_of_all es)
compute-recent_example = compute-recent (run ∷ []) 9 60 none 0
