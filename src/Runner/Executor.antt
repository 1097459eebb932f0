-- ===== src/Runner/Executor.antt =====
-- src/runner/executor.rs: the state that one attempt works on, and how a failure gets its
-- classification. What Docker, the network, the file system and the clock answer is an argument
-- (`World`s); an `anyhow::Error` is its chain of texts. The children model the two backends and the retries.
mod Tests
pub mod Checks
pub mod Docker
pub mod Local
pub mod Attempt
pub mod Retries
use automated_flywheel_setup.Base.{
  ℕ, String, ◌++ₛ◌, Bool, true, false, ◌||◌, Option, none, some, List, [], ◌∷◌, concat, ltb,
  is_some, unwrap_or, if◌then◌else◌, ◌/◌, ◌*◌,
}
use automated_flywheel_setup.Base.Int.{ℤ, negsuc}
use automated_flywheel_setup.Classifier.{Engine, ErrorClassification, cancelled_marker}
use automated_flywheel_setup.Classifier.Rules.{classify_error}
use automated_flywheel_setup.Reporting.Redact.{Replacer, redact}
use automated_flywheel_setup.Runner.Capture.{bound_capture, tail}
use automated_flywheel_setup.Runner.Installer.{
  TestStatus, TestResult, InstallerTest, passed, cancelled, as_millis,
}
use automated_flywheel_setup.Runner.Retry.{RetryConfig}

-- `anyhow::Result`
pub data Fallible (A : Type 0) : Type 0 where
  ok : A → Fallible A
  err : String → Fallible A

-- What the executor calls of other crates: `regex` for the two lists of patterns, `sha2` with `hex`,
-- and `String::from_utf8_lossy`.
pub record Libs : Type 0 where
  pub engine : Engine
  pub replacer : Replacer
  pub sha256_hex : List ℕ → String
  pub from_utf8_lossy : List ℕ → String

pub data PullPolicy : Type 0 where
  always if_not_present never : PullPolicy

-- `ContainerConfig` of src/runner/container.rs; `F` is `f64`.
pub record ContainerConfig (F : Type 0) : Type 0 where
  pub image : String
  pub memory_limit : Option ℕ
  pub cpu_quota : Option F
  pub timeout_seconds : ℕ
  pub volumes : List (String × String)
  pub environment : List (String × String)
  pub labels : List (String × String)
  pub network_mode : Option String
  pub run_as_root : Bool
  pub prepare : Bool
  pub build_timeout_seconds : ℕ
  pub rebuild : Bool

pub data ExecutionBackend (F : Type 0) : Type 0 where
  docker : ContainerConfig F → PullPolicy → ExecutionBackend F
  local : ExecutionBackend F

-- `RunnerConfig` without the cancellation token, whose readings are in the `World`s.
pub record RunnerConfig (F : Type 0) : Type 0 where
  pub default_timeout : ℕ
  pub dry_run : Bool
  pub extra_env : List (String × String)
  pub backend : ExecutionBackend F
  pub retry : RetryConfig F
  pub max_capture_bytes : ℕ

-- What an attempt does to the outside, in its order. Creating a container ends with its identifier,
-- if it succeeds; its start succeeds or not.
pub data Effect (F : Type 0) : Type 0 where
  created_container : String → ContainerConfig F → PullPolicy → (id : Option String) → Effect F
  started_container : (id : String) (success : Bool) → Effect F
  downloaded : String → String → Effect F
  ran_install_script : String → Effect F
  ran_installer : (command : String) (env : List (String × String)) → Effect F
  ran_check : String → Effect F
  removed_container : String → Effect F

-- `CLASSIFY_STDOUT_TAIL_BYTES`
abbrev pub classify_stdout_tail_bytes : ℕ
classify_stdout_tail_bytes = 4096

-- `ATTEMPT_STDERR_TAIL_BYTES`
abbrev pub attempt_stderr_tail_bytes : ℕ
attempt_stderr_tail_bytes = 1024

abbrev pub one_second : ℕ
one_second = 1_000_000_000

-- `result.success || result.status == Passed || result.error.is_some()`
abbrev pub needs_no_error : TestResult → Bool
needs_no_error r = r.success || elim r.status [ passed ↦ true | _ ↦ is_some r.error ]

module _ (libs : Libs) where
  open libs use {engine, replacer, from_utf8_lossy}

  unfoldable pub finalize_failure : TestResult → Option String → TestResult
  finalize_failure r synthetic =
      let stdout_tail = tail r.stdout classify_stdout_tail_bytes in
      let text = concat (unwrap_or synthetic "" ∷ "\n" ∷ r.stderr ∷ "\n" ∷ stdout_tail ∷ []) in
      if needs_no_error r
      then r
      else record r { error = some (classify_error engine text (unwrap_or r.exit_code (negsuc 0))) }

  unfoldable pub classify_result : TestResult → ErrorClassification
  classify_result r =
      let stdout_tail = tail r.stdout classify_stdout_tail_bytes in
      classify_error engine (concat (r.stderr ∷ "\n" ∷ stdout_tail ∷ []))
        (unwrap_or r.exit_code (negsuc 0))

  -- `redact(&bound_capture(…))`
  unfoldable pub captured : ℕ → List ℕ → String
  captured max_bytes buf = redact replacer (bound_capture from_utf8_lossy buf max_bytes)

-- `mark_cancelled`, with the time since `start` and the time of the end
unfoldable pub mark_cancelled : TestResult → ℕ → String → ℕ → TestResult
mark_cancelled r elapsed reason now = record r {
  status = cancelled;
  success = false;
  stderr = concat (cancelled_marker ∷ ": " ∷ reason ∷ []);
  duration = elapsed;
  duration_ms = as_millis elapsed;
  last_attempt_ms = as_millis elapsed;
  finished_at = now;
}

unfoldable pub test_timeout : {F : Type 0} → RunnerConfig F → InstallerTest → ℕ
test_timeout config test =
    if ltb 0 (test.timeout / one_second) then test.timeout else config.default_timeout
