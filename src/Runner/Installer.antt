-- ===== src/Runner/Installer.antt =====
-- src/runner/installer.rs: the data that both backends share. `DateTime<Utc>`, `Instant` and
-- `Duration` are counted in nanoseconds; each reading of a clock is an argument.
use automated_flywheel_setup.Base.{
  ℕ, ◌+◌, ◌-◌, ◌/◌, ◌%◌, ◌^◌, String, Bool, true, false, Option, none, some, List, [], ◌∷◌, ◌++◌,
  length, ltb, if◌then◌else◌,
}
use automated_flywheel_setup.Base.Int.{ℤ, pos}
use automated_flywheel_setup.Classifier.{ErrorClassification}
use automated_flywheel_setup.Remediation.Outcome.{RemediationOutcome}

pub data TestStatus : Type 0 where
  pending running passed failed skipped timed_out cancelled : TestStatus

-- `TestStatus::as_str`
unfoldable pub as_str : TestStatus → String
as_str pending = "pending"
as_str running = "running"
as_str passed = "passed"
as_str failed = "failed"
as_str skipped = "skipped"
as_str timed_out = "timedout"
as_str cancelled = "cancelled"

pub record RetryInfo : Type 0 where
  pub attempt : ℕ
  pub error : String
  pub wait_ms : ℕ

pub record AttemptRecord : Type 0 where
  pub index : ℕ
  pub started_at : ℕ
  pub finished_at : ℕ
  pub status : TestStatus
  pub exit_code : Option ℤ
  pub duration_ms : ℕ
  pub stderr_tail : String
  pub waited_before_ms : ℕ

-- CPU time, `f64` seconds in the source, is in nanoseconds.
pub record Telemetry : Type 0 where
  pub peak_memory_bytes : ℕ
  pub cpu_time : ℕ
  pub network_rx_bytes : ℕ
  pub network_tx_bytes : ℕ
  pub samples : ℕ

pub data ChecksumState : Type 0 where
  not_checked verified mismatch unknown : ChecksumState

pub record ChecksumResult : Type 0 where
  pub matches : Bool
  pub expected : String
  pub actual : String
  pub url : String
  pub download_ms : ℕ
  pub size_bytes : ℕ

pub record TestResult : Type 0 where
  pub installer_name : String
  pub status : TestStatus
  pub success : Bool
  pub exit_code : Option ℤ
  pub stdout : String
  pub stderr : String
  pub duration : ℕ
  pub duration_ms : ℕ
  pub last_attempt_ms : ℕ
  pub started_at : ℕ
  pub finished_at : ℕ
  pub attempt : ℕ
  pub max_attempts : ℕ
  pub retries : List RetryInfo
  pub attempts : List AttemptRecord
  pub container_id : Option String
  pub checksum_result : Option ChecksumResult
  pub checksum_state : ChecksumState
  pub error : Option ErrorClassification
  pub installed_version : Option String
  pub remediation : Option RemediationOutcome
  pub telemetry : Option Telemetry

-- `Duration::as_millis() as u64`
abbrev pub as_millis : ℕ → ℕ
as_millis d = d / 1_000_000 % 2 ^ 64

-- `TestResult::new` at the time `now`
unfoldable pub new : String → ℕ → TestResult
new name now = record {
  installer_name = name;
  status = pending;
  success = false;
  exit_code = none;
  stdout = "";
  stderr = "";
  duration = 0;
  duration_ms = 0;
  last_attempt_ms = 0;
  started_at = now;
  finished_at = now;
  attempt = 1;
  max_attempts = 3;
  retries = [];
  attempts = [];
  container_id = none;
  checksum_result = none;
  checksum_state = not_checked;
  error = none;
  installed_version = none;
  remediation = none;
  telemetry = none;
}

-- The lines that `passed`, `failed`, `timed_out` and `cancelled` share: the end of the test and the
-- time since its start, zero (`to_std().unwrap_or`) if the clock went back.
abbrev pub finish : TestResult → ℕ → TestResult
finish r now = record r {
  finished_at = now;
  duration = now - r.started_at;
  duration_ms = as_millis (now - r.started_at);
  last_attempt_ms = as_millis (now - r.started_at);
}

-- `TestResult::passed`
unfoldable pub with_passed : TestResult → ℕ → TestResult
with_passed r now =
    finish (record r { status = passed; success = true; exit_code = some (pos 0) }) now

-- `TestResult::failed`
unfoldable pub with_failed : TestResult → ℤ → String → ℕ → TestResult
with_failed r exit_code stderr now =
    finish
      (record r { status = failed; success = false; exit_code = some exit_code; stderr = stderr })
      now

-- `TestResult::timed_out`
unfoldable pub with_timed_out : TestResult → ℕ → TestResult
with_timed_out r now = finish (record r { status = timed_out; success = false }) now

-- `TestResult::skipped`
unfoldable pub with_skipped : TestResult → String → ℕ → TestResult
with_skipped r reason now = record r {
  status = skipped;
  success = false;
  stderr = reason;
  finished_at = now;
  duration = 0;
  duration_ms = 0;
  last_attempt_ms = 0;
}

-- `TestResult::cancelled`
unfoldable pub with_cancelled : TestResult → String → ℕ → TestResult
with_cancelled r reason now =
    finish (record r { status = cancelled; success = false; stderr = reason }) now

unfoldable pub with_checksum_result : TestResult → ChecksumResult → TestResult
with_checksum_result r result = record r {
  checksum_state = if result.matches then verified else mismatch;
  checksum_result = some result;
}

unfoldable pub with_checksum_state : TestResult → ChecksumState → TestResult
with_checksum_state r state = record r { checksum_state = state }

unfoldable pub with_container_id : TestResult → String → TestResult
with_container_id r id = record r { container_id = some id }

unfoldable pub with_error : TestResult → ErrorClassification → TestResult
with_error r error = record r { error = some error }

-- `add_retry`; the `u32` attempt wraps.
unfoldable pub add_retry : TestResult → String → ℕ → TestResult
add_retry r error wait_ms = record r {
  retries = r.retries ++ record { attempt = r.attempt; error = error; wait_ms = wait_ms } ∷ [];
  attempt = (r.attempt + 1) % 2 ^ 32;
}

unfoldable pub retry_count : TestResult → ℕ
retry_count r =
    if ltb 1 (length r.attempts)
    then (length r.attempts - 1) % 2 ^ 32
    else length r.retries % 2 ^ 32

unfoldable pub checksum_verified : TestResult → Bool
checksum_verified r = elim r.checksum_result [ none ↦ false | some c ↦ c.matches ]

-- `InstallerTest`; `timeout` is a duration, `timeout_seconds` the same in whole seconds.
pub record InstallerTest : Type 0 where
  pub name : String
  pub url : String
  pub expected_sha256 : Option String
  pub script_path : Option String
  pub timeout : ℕ
  pub timeout_seconds : ℕ
  pub retry_count : ℕ
  pub tags : List String
  pub environment : List (String × String)
  pub interpreter : String
  pub args : List String
  pub expect_binary : Option String
  pub verify_cmd : Option String
  pub version_cmd : Option String
  pub memory_limit : Option ℕ
  pub network : Option String
  pub run_as_root : Option Bool

-- `InstallerTest::new`
unfoldable pub new_test : String → String → InstallerTest
new_test name url = record {
  name = name;
  url = url;
  expected_sha256 = none;
  script_path = none;
  timeout = 300_000_000_000;
  timeout_seconds = 300;
  retry_count = 3;
  tags = [];
  environment = [];
  interpreter = "bash";
  args = [];
  expect_binary = none;
  verify_cmd = none;
  version_cmd = none;
  memory_limit = none;
  network = none;
  run_as_root = none;
}

-- `with_timeout`
unfoldable pub with_timeout : InstallerTest → ℕ → InstallerTest
with_timeout t timeout = record t { timeout = timeout; timeout_seconds = timeout / 1_000_000_000 }

-- `with_sha256`
unfoldable pub with_sha256 : InstallerTest → String → InstallerTest
with_sha256 t sha256 = record t { expected_sha256 = some sha256 }

-- `with_retry_count`
unfoldable pub with_retry_count : InstallerTest → ℕ → InstallerTest
with_retry_count t count = record t { retry_count = count }
