-- ===== src/Runner/Executor/Tests.antt =====
-- Runs of the executor at concrete worlds, and its theorems there.
use text.Mathlib.TextEquality.{eq_iff}
use automated_flywheel_setup.Base.{
  ℕ, String, ◌≡◌, ◌≢◌, refl, ◌↔◌, inl, inr, true, false, none, some, List, [], ◌∷◌, length, eqb,
  if◌then◌else◌,
}
use automated_flywheel_setup.Base.Int.{pos}
use automated_flywheel_setup.Classifier.{ErrorClassification, unknown}
use automated_flywheel_setup.Classifier.Tests.{literal_engine}
use automated_flywheel_setup.Reporting.Tests.{token_replacer}
use automated_flywheel_setup.Runner.Installer.{
  TestResult, InstallerTest, new, new_test, passed, timed_out, cancelled, skipped,
}
use automated_flywheel_setup.Runner.Retry.{executor_default}
use automated_flywheel_setup.Runner.Retry.Tests.{whole}
use automated_flywheel_setup.Runner.Executor.{
  Fallible, ok, err, Libs, RunnerConfig, local, docker, if_not_present, ContainerConfig, Effect,
  started_container,
}
use automated_flywheel_setup.Runner.Executor.Docker.{
  DockerWorld, Exec, bring_up, with_container, with_manager, run_test_docker,
}
use automated_flywheel_setup.Runner.Executor.Local.{
  LocalWorld, exited, done, run_test_local, run_script, in_temp_dir, after_download, verify_and_run,
  verify_bytes, compare_hash, after_outcome, after_process,
}
use automated_flywheel_setup.Runner.Executor.Checks.{
  post_install, check_binary, check_verify, check_version,
}
use automated_flywheel_setup.Runner.Executor.Attempt.{World, run_test, on_backend, finalized}
use automated_flywheel_setup.Runner.Executor.Attempt.Accounted.{IsAccounted, run_test-IsAccounted}
use automated_flywheel_setup.Runner.Executor.Attempt.Order.{idle, follows, run_test-follows}
use automated_flywheel_setup.Runner.Executor.Attempt.Verified.{
  IsVerified, IsRefused, run_test_local-IsVerified, run_test_local-mismatch,
}
use automated_flywheel_setup.Runner.Executor.Retries.Cancelled.{cancelled_result-error}
use automated_flywheel_setup.Runner.Executor.Retries.{
  cancelled_result, initial, Round, Ending, returned, exhausted, run_test_with_retry, run_attempts,
  next_step, after_attempt, should_retry_result, has_mismatch,
}
use automated_flywheel_setup.Runner.Executor.Retries.History.{
  IsReported, run_test_with_retry-ends, run_test_with_retry-IsReported,
}
use automated_flywheel_setup.Runner.Executor.Retries.Policy.{should_retry_result-retryable_iff}

-- Two bytes have the hash `abc`, all else has `xyz`.
abbrev libs : Libs
libs = record {
  engine = literal_engine;
  replacer = token_replacer;
  sha256_hex = λ bytes. if eqb (length bytes) 2 then "abc" else "xyz";
  from_utf8_lossy = λ bytes. if eqb (length bytes) 0 then "" else "connection refused";
}

abbrev config : RunnerConfig ℕ
config = record {
  default_timeout = 300_000_000_000;
  dry_run = false;
  extra_env = [];
  backend = local;
  retry = executor_default 2 3;
  max_capture_bytes = 1000;
}

abbrev tool : InstallerTest
tool = record (new_test "tool" "https://tool.sh") { expected_sha256 = some "abc" }

abbrev no_docker : DockerWorld
no_docker = record {
  started = 0;
  manager = err "no docker";
  created = err "no docker";
  container_started = err "no docker";
  telemetry = none;
  exec = Exec.late;
  cancelled_on_error = false;
  cancelled_at = 0;
  elapsed = 0;
  answer = λ cmd. err "no docker";
  finished = 0;
}

-- A script of these bytes exits with 0.
abbrev serving : List ℕ → LocalWorld
serving bytes = record {
  started = 5;
  temp_dir = ok "/tmp/x";
  curl = exited (some (pos 0)) [];
  download_time = 7_000_000;
  file_bytes = ok bytes;
  spawned = ok tt;
  outcome = done (some (pos 0)) [] [];
  elapsed = 20_000_000;
  answer = λ cmd. ok (pos 0, "", "");
  cancelled_at = 0;
  finished = 25;
}

abbrev world : List ℕ → World
world bytes = record {
  is_cancelled = false;
  now = 5;
  elapsed = 0;
  cancelled_at = 5;
  in_docker = no_docker;
  in_local = serving bytes;
}

abbrev rounds : ℕ → Round ℕ
rounds index = record {
  attempt = world (1 ∷ 2 ∷ []);
  is_cancelled = false;
  sample = 0;
  cancelled_in_backoff = false;
  elapsed = 30_000_000;
  cancelled_at = 0;
}

abbrev result_of : Fallible TestResult → TestResult
result_of (ok r) = r
result_of (err e) = new "" 0

abbrev attempt : TestResult
attempt = result_of (run_test libs config tool (world (1 ∷ 2 ∷ []))).0

passes : attempt.status ≡ passed
unfolding run_test finalized on_backend run_test_local in_temp_dir after_download verify_and_run
    verify_bytes compare_hash run_script after_outcome after_process post_install check_binary
    check_verify check_version new_test
passes = refl

run_test-IsAccounted_example : IsAccounted attempt
unfolding run_test finalized on_backend run_test_local in_temp_dir after_download verify_and_run
    verify_bytes compare_hash run_script after_outcome after_process post_install check_binary
    check_verify check_version new_test
run_test-IsAccounted_example =
    run_test-IsAccounted libs config tool (world (1 ∷ 2 ∷ [])) attempt refl

abbrev container : ContainerConfig ℕ
container = record {
  image = "ubuntu:24.04";
  memory_limit = none;
  cpu_quota = none;
  timeout_seconds = 300;
  volumes = [];
  environment = [];
  labels = [];
  network_mode = none;
  run_as_root = false;
  prepare = false;
  build_timeout_seconds = 600;
  rebuild = false;
}

abbrev in_docker : RunnerConfig ℕ
in_docker = record config { backend = docker container if_not_present }

-- Docker creates a container that it cannot start, and one that runs the script in time.
abbrev unstarted : World
unstarted = record (world []) {
  in_docker = record no_docker {
    manager = ok tt;
    created = ok "c1";
    container_started = err "no such device";
  };
}

abbrev up : World
up = record (world []) {
  in_docker = record no_docker {
    manager = ok tt;
    created = ok "c1";
    container_started = ok tt;
    exec = Exec.answered (pos 0) "" "";
  };
}

abbrev containers_left : List (Effect ℕ) → List String
containers_left [] = []
containers_left (started_container id false ∷ es) = id ∷ containers_left es
containers_left (_ ∷ es) = containers_left es

left : containers_left (run_test libs in_docker tool unstarted).1 ≡ "c1" ∷ []
unfolding run_test finalized on_backend run_test_docker with_manager bring_up with_container
left = refl

run_test-follows_example : follows idle (run_test libs in_docker tool up).1 ≡ true
run_test-follows_example = run_test-follows libs in_docker tool up

run_test_local-IsVerified_example : IsVerified libs config tool (serving (1 ∷ 2 ∷ [])) "abc"
unfolding run_test_local in_temp_dir after_download verify_and_run verify_bytes compare_hash
    run_script
run_test_local-IsVerified_example =
    run_test_local-IsVerified libs config tool (serving (1 ∷ 2 ∷ [])) "abc" _ _ refl
      (inr (inl refl))

xyz_is_not_abc : ◌≢◌ {A = String} "xyz" "abc"
xyz_is_not_abc e = cc ((eq_iff "xyz" "abc").1 e)

run_test_local-mismatch_example :
    IsRefused libs config tool
      (serving (1 ∷ []))
      "/tmp/x"
      (run_test_local libs config tool (serving (1 ∷ [])))
run_test_local-mismatch_example =
    run_test_local-mismatch libs config tool (serving (1 ∷ [])) "/tmp/x" "abc" [] (1 ∷ []) refl refl
      refl refl xyz_is_not_abc

run_test_with_retry-ends_example : run_test_with_retry whole 0 libs config tool 5 rounds ≢ exhausted
run_test_with_retry-ends_example = run_test_with_retry-ends whole 0 libs config tool 5 rounds

abbrev ended_with : Ending → TestResult
ended_with (returned r) = r
ended_with _ = new "" 0

abbrev run : TestResult
run = ended_with (run_test_with_retry whole 0 libs config tool 5 rounds)

run_test_with_retry-IsReported_example : IsReported whole 0 libs config tool 5 rounds run
unfolding run_test_with_retry run_attempts next_step after_attempt should_retry_result run_test
    finalized on_backend run_test_local in_temp_dir after_download verify_and_run verify_bytes
    compare_hash run_script after_outcome after_process post_install check_binary check_verify
    check_version new_test
run_test_with_retry-IsReported_example =
    run_test_with_retry-IsReported whole 0 libs config tool 5 rounds run refl

abbrev network_error : ErrorClassification
network_error = record {
  severity = unknown;
  category = "network";
  suggestion = none;
  retryable = true;
  confidence = 90;
}

abbrev failed_once : TestResult
failed_once = record (new "tool" 5) { error = some network_error }

should_retry_result-retryable_iff_example : (should_retry_result libs failed_once ≡ true) ↔ (
    (failed_once.success ≡ false)
    × (failed_once.status ≢ timed_out)
    × (failed_once.status ≢ cancelled)
    × (failed_once.status ≢ skipped)
    × (has_mismatch failed_once ≡ false)
    × (network_error.retryable ≡ true))
should_retry_result-retryable_iff_example =
    should_retry_result-retryable_iff libs failed_once network_error refl

abbrev cancelled_run : TestResult
cancelled_run =
    cancelled_result whole 0 libs config tool 5 rounds initial failed_once 1_000_000_000 (rounds 1)

cancelled_result-error_example :
    (cancelled_run.status ≡ cancelled) × (cancelled_run.error ≡ some network_error)
cancelled_result-error_example =
    cancelled_result-error whole 0 libs config tool 5 rounds initial failed_once 1_000_000_000
      (rounds 1) network_error refl
