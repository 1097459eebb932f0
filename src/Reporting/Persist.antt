-- ===== src/Reporting/Persist.antt =====
-- src/reporting/jsonl.rs: what a run's results file says of the run. A time is in nanoseconds, and the
-- JSON of the environment is kept as its text.
pub mod File
pub mod RoundTrip
pub mod Counts
pub mod Runs
pub mod Retention
mod Tests
use automated_flywheel_setup.Base.{
  ℕ, ◌+◌, ◌%◌, ◌^◌, String, Bool, true, false, not, ◌&&◌, ◌||◌, Option, none, some, List, [], ◌∷◌,
  map, any, length, count_by, map_option, take_chars, if◌then◌else◌,
}
use automated_flywheel_setup.Base.Int.{ℤ, pos}
use automated_flywheel_setup.Classifier.{
  ErrorSeverity, transient, configuration, dependency, permission, resource, unknown,
  ErrorClassification,
}
use automated_flywheel_setup.Remediation.Outcome.{RemediationOutcome}
use automated_flywheel_setup.Runner.Capture.{tail}
use automated_flywheel_setup.Runner.Installer.{
  TestResult, TestStatus, AttemptRecord, Telemetry, ChecksumState, not_checked, verified, mismatch,
  as_str, retry_count as count_retries,
}
use automated_flywheel_setup.Reporting.Summary.{is_skipped, is_timed_out}

pub record RunHeader : Type 0 where
  pub run_id : String
  pub started_at : ℕ
  pub tool_version : String
  pub backend : String
  pub image : Option String
  pub user : Option String
  pub parallel : ℕ
  pub timeout_seconds : ℕ
  pub retries : ℕ
  pub fail_fast : Bool
  pub acfs_repo : String
  pub checksums_sha256 : Option String
  pub config_source : Option String
  pub data_dir : String
  pub installers_requested : List String
  pub installer_count : ℕ
  pub dry_run : Bool
  pub allow_file_urls : Bool
  pub image_id : Option String
  pub run_as_root : Bool
  pub deadline_seconds : ℕ
  pub environment : Option String

pub record AttemptEntry : Type 0 where
  pub index : ℕ
  pub status : String
  pub exit_code : Option ℤ
  pub duration_ms : ℕ
  pub waited_before_ms : ℕ
  pub stderr_tail : String

pub record ErrorClassificationEntry : Type 0 where
  pub category : String
  pub severity : String
  pub retryable : Bool
  pub confidence : ℕ

pub record ResultEntry : Type 0 where
  pub timestamp : ℕ
  pub installer_name : String
  pub status : String
  pub duration_ms : ℕ
  pub exit_code : Option ℤ
  pub error_classification : Option ErrorClassificationEntry
  pub stderr_excerpt : String
  pub retry_count : ℕ
  pub sha256_verified : Bool
  pub checksum_state : String
  pub checksum_expected : Option String
  pub checksum_actual : Option String
  pub stdout_tail : String
  pub stderr_tail : String
  pub container_id : Option String
  pub last_attempt_ms : ℕ
  pub attempts : List AttemptEntry
  pub installed_version : Option String
  pub remediation : Option RemediationOutcome
  pub telemetry : Option Telemetry

pub record RunSummaryEntry : Type 0 where
  pub run_id : String
  pub total : ℕ
  pub passed : ℕ
  pub failed : ℕ
  pub skipped : ℕ
  pub timed_out : ℕ
  pub cancelled : ℕ
  pub duration_total_ms : ℕ
  pub timestamp_start : ℕ
  pub timestamp_end : ℕ
  pub interrupted : Bool
  pub exit_code : ℕ

-- `{:?}` of a severity
unfoldable pub debug_severity : ErrorSeverity → String
debug_severity transient = "Transient"
debug_severity configuration = "Configuration"
debug_severity dependency = "Dependency"
debug_severity permission = "Permission"
debug_severity resource = "Resource"
debug_severity unknown = "Unknown"

-- `ChecksumState::as_str`
unfoldable pub state_str : ChecksumState → String
state_str not_checked = "not_checked"
state_str verified = "verified"
state_str mismatch = "mismatch"
state_str ChecksumState.unknown = "unknown"

abbrev pub is_verified_state : ChecksumState → Bool
is_verified_state verified = true
is_verified_state _ = false

-- `PERSISTED_TAIL_BYTES`
abbrev pub persisted_tail_bytes : ℕ
persisted_tail_bytes = 2048

unfoldable pub classification_entry : ErrorClassification → ErrorClassificationEntry
unfolding debug_severity
classification_entry e = record {
  category = e.category;
  severity = debug_severity e.severity;
  retryable = e.retryable;
  confidence = e.confidence;
}

unfoldable pub attempt_entry : AttemptRecord → AttemptEntry
attempt_entry a = record {
  index = a.index;
  status = as_str a.status;
  exit_code = a.exit_code;
  duration_ms = a.duration_ms;
  waited_before_ms = a.waited_before_ms;
  stderr_tail = a.stderr_tail;
}

-- `entry_from`
unfoldable pub entry_from : TestResult → ResultEntry
unfolding classification_entry attempt_entry state_str
entry_from r = record {
  timestamp = r.finished_at;
  installer_name = r.installer_name;
  status = as_str r.status;
  duration_ms = r.duration_ms;
  exit_code = r.exit_code;
  error_classification = map_option classification_entry r.error;
  stderr_excerpt = take_chars 500 r.stderr;
  retry_count = count_retries r;
  sha256_verified = is_verified_state r.checksum_state;
  checksum_state = state_str r.checksum_state;
  checksum_expected = map_option (λ c. c.expected) r.checksum_result;
  checksum_actual = map_option (λ c. c.actual) r.checksum_result;
  stdout_tail = tail r.stdout persisted_tail_bytes;
  stderr_tail = tail r.stderr persisted_tail_bytes;
  container_id = r.container_id;
  last_attempt_ms = r.last_attempt_ms;
  attempts = map attempt_entry r.attempts;
  installed_version = r.installed_version;
  remediation = r.remediation;
  telemetry = r.telemetry;
}

abbrev pub is_cancelled : TestResult → Bool
is_cancelled r = elim r.status [ TestStatus.cancelled ↦ true | _ ↦ false ]

-- The sum of `u64`s wraps.
unfoldable pub total_ms : List TestResult → ℕ
total_ms [] = 0
total_ms (r ∷ results) = (r.duration_ms + total_ms results) % 2 ^ 64

-- The summary of `persist_with_header`, at the end of the run.
unfoldable pub summary_of : RunHeader → Bool → ℕ → List TestResult → RunSummaryEntry
unfolding total_ms
summary_of header interrupted now results = record {
  run_id = header.run_id;
  total = length results;
  passed = count_by (λ r. r.success) results;
  failed = count_by (λ r. not r.success && not (is_skipped r)) results;
  skipped = count_by is_skipped results;
  timed_out = count_by is_timed_out results;
  cancelled = count_by is_cancelled results;
  duration_total_ms = total_ms results;
  timestamp_start = header.started_at;
  timestamp_end = now;
  interrupted = interrupted;
  exit_code = if any (λ r. not r.success) results then 1 else 0;
}
