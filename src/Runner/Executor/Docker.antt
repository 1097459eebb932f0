-- ===== src/Runner/Executor/Docker.antt =====
-- src/runner/executor.rs: `run_test_docker`.
use automated_flywheel_setup.Base.{
  ℕ, String, Bool, true, false, Option, none, some, List, [], ◌∷◌, ◌++◌, map, concat, show,
  as_bytes, ltb, is_some, unwrap_or, debug_duration, if◌then◌else◌, ◌/◌,
}
use automated_flywheel_setup.Base.Int.{ℤ, is_nat}
use automated_flywheel_setup.Classifier.{timeout_marker}
use automated_flywheel_setup.Runner.Installer.{
  TestResult, ChecksumResult, Telemetry, InstallerTest, passed, failed, timed_out, unknown, new,
  as_millis, with_container_id, with_checksum_result, with_checksum_state,
}
use automated_flywheel_setup.Runner.Shell.Command.{build_verified_install_script}
use automated_flywheel_setup.Runner.Executor.{
  Fallible, ok, err, Libs, ContainerConfig, PullPolicy, RunnerConfig, Effect, created_container,
  started_container, ran_install_script, ran_check, removed_container, captured, mark_cancelled,
  test_timeout, one_second,
}
use automated_flywheel_setup.Runner.Executor.Checks.{Answer, parse_checksum_result, post_install}

-- How `timeout(test_timeout, exec_in_container_cancellable(…))` ends.
pub data Exec : Type 0 where
  answered : (exit_code : ℤ) (stdout stderr : String) → Exec
  broken : String → Exec
  late : Exec

-- What Docker, the clock and the cancellation token answer in one attempt. `elapsed` is the time
-- since the start where the outcome of the command is looked at. `created` is what `create_container` has
-- before it starts the container: the image and Docker's call, with the contexts of their errors.
pub record DockerWorld : Type 0 where
  pub started : ℕ
  pub manager : Fallible Unit
  pub created : Fallible String
  pub container_started : Fallible Unit
  pub telemetry : Option Telemetry
  pub exec : Exec
  pub cancelled_on_error : Bool
  pub cancelled_at : ℕ
  pub elapsed : ℕ
  pub answer : String → Answer
  pub finished : ℕ

-- The identifier, if the container was created.
abbrev pub is_created : Fallible String → Option String
is_created (ok id) = some id
is_created (err e) = none

-- The end of `create_container`: the container's identifier, or the first error. A container whose start
-- fails has no guard yet, and is left.
unfoldable pub bring_up : Fallible String → Fallible Unit → Fallible String
bring_up (err e) start = err e
bring_up (ok id) (err e) = err (concat ("Failed to start Docker container: " ∷ e ∷ []))
bring_up (ok id) (ok _) = ok id

abbrev pub is_started : Fallible Unit → Bool
is_started (ok _) = true
is_started (err e) = false

-- The call that starts the container, which a container that was not created has not.
abbrev pub start_effects : {F : Type 0} → Fallible String → Fallible Unit → List (Effect F)
start_effects (err e) start = []
start_effects (ok id) start = started_container id (is_started start) ∷ []

-- A step of the attempt: the result and the checks that ran.
abbrev Checked : Type 0
Checked = TestResult × List String

-- The container's configuration with the test's environment and overrides.
unfoldable pub effective_config :
    {F : Type 0} → RunnerConfig F → InstallerTest → ContainerConfig F → ContainerConfig F
effective_config config test c = record c {
  environment = (c.environment ++ test.environment) ++ config.extra_env;
  memory_limit = elim test.memory_limit [ some m ↦ some m | none ↦ c.memory_limit ];
  network_mode = elim test.network [ some n ↦ some n | none ↦ c.network_mode ];
  run_as_root = unwrap_or test.run_as_root c.run_as_root;
}

-- The result keeps telemetry of at least one sample.
abbrev pub with_samples : TestResult → Option Telemetry → TestResult
with_samples r none = r
with_samples r (some t) = if ltb 0 t.samples then record r { telemetry = some t } else r

module _ {F : Type 0} (libs : Libs) (config : RunnerConfig F) (test : InstallerTest) where
  -- The branch of a command that ended, behind the look at the checksum.
  unfoldable pub after_exit : (String → Answer) → ℤ → TestResult → Checked
  after_exit answer exit_code r =
      let s = post_install libs answer test (record r { status = passed; success = true }) in
      if is_nat exit_code 0
      then (s.result, s.commands)
      else (record r { status = failed; success = false }, [])

  -- The branch of a command that ended, by what `parse_checksum_result` found.
  unfoldable pub on_checksum : (String → Answer) → ℤ → TestResult → Option ChecksumResult → Checked
  on_checksum answer exit_code r (some c) =
      if c.matches
      then after_exit answer exit_code (with_checksum_result r c)
      else (with_checksum_result (record r { status = failed; success = false }) c, [])
  on_checksum answer exit_code r none =
      after_exit answer exit_code
        (if is_some test.expected_sha256 then with_checksum_state r unknown else r)

  unfoldable pub after_answer : DockerWorld → ℤ → String → String → TestResult → Checked
  after_answer w exit_code stdout stderr r =
      let shown = captured libs config.max_capture_bytes (as_bytes stderr) in
      on_checksum w.answer exit_code
        (record r {
          stdout = captured libs config.max_capture_bytes (as_bytes stdout);
          stderr = shown;
          exit_code = some exit_code;
          duration = w.elapsed;
          duration_ms = as_millis w.elapsed;
        })
        (parse_checksum_result shown exit_code test.url test.expected_sha256 (as_millis w.elapsed))

  -- The `match exec_result`.
  unfoldable pub after_exec : DockerWorld → TestResult → Exec → Checked
  after_exec w r (answered exit_code stdout stderr) = after_answer w exit_code stdout stderr r
  after_exec w r (broken e) =
      if w.cancelled_on_error then (mark_cancelled r w.elapsed e w.cancelled_at, []) else (
        record r {
          stderr = concat ("Container execution error: " ∷ e ∷ []);
          status = failed;
          success = false;
          duration = w.elapsed;
          duration_ms = as_millis w.elapsed;
        },
        [],
      )
  after_exec w r late =
      let limit = test_timeout config test in
      (
        record r {
          status = timed_out;
          success = false;
          stderr = concat (
              timeout_marker
              ∷ " after "
              ∷ show (limit / one_second)
              ∷ "s (Test timed out after "
              ∷ debug_duration limit
              ∷ ")"
              ∷ []);
          duration = limit;
          duration_ms = as_millis limit;
        },
        [],
      )

  -- The last lines, which the early return of a mismatch has too.
  abbrev pub finish_attempt : TestResult → ℕ → TestResult
  finish_attempt r now = record r { finished_at = now; last_attempt_ms = r.duration_ms }

  -- The attempt in the container `id`.
  unfoldable pub in_container : DockerWorld → String → TestResult × List (Effect F)
  in_container w id =
      let r = with_samples (with_container_id (new test.name w.started) id) w.telemetry in
      let (done, checks) = after_exec w r w.exec in
      (
        finish_attempt done w.finished,
        ran_install_script (build_verified_install_script config.dry_run test)
            ∷ (map ran_check checks ++ removed_container id ∷ []),
      )

  unfoldable pub with_container :
      DockerWorld → Fallible String → Fallible TestResult × List (Effect F)
  with_container w (err e) = (err (concat ("Failed to create Docker container: " ∷ e ∷ [])), [])
  with_container w (ok id) = (ok (in_container w id).0, (in_container w id).1)

  unfoldable pub with_manager :
      ContainerConfig F
      → PullPolicy
      → DockerWorld
      → Fallible Unit
      → Fallible TestResult × List (Effect F)
  with_manager c policy w (err e) = (err e, [])
  with_manager c policy w (ok _) =
      let (result, effects) = with_container w (bring_up w.created w.container_started) in
      (
        result,
        created_container test.name (effective_config config test c) policy (is_created w.created)
            ∷ (start_effects w.created w.container_started ++ effects),
      )

  unfoldable pub run_test_docker :
      ContainerConfig F → PullPolicy → DockerWorld → Fallible TestResult × List (Effect F)
  run_test_docker c policy w = with_manager c policy w w.manager
