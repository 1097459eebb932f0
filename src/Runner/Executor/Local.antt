-- ===== src/Runner/Executor/Local.antt =====
-- src/runner/executor.rs: `local_env` and `run_test_local`.
use automated_flywheel_setup.Base.{
  ℕ, String, Bool, true, false, Option, none, some, List, [], ◌∷◌, ◌++◌, map, concat, show, is_some,
  unwrap_or, debug_duration, if◌then◌else◌, ◌/◌, ◌==ₛ◌, length,
}
use automated_flywheel_setup.Base.Int.{ℤ, pos, negsuc, is_nat}
use automated_flywheel_setup.Classifier.{timeout_marker}
use automated_flywheel_setup.Runner.Installer.{
  TestResult, ChecksumResult, InstallerTest, passed, failed, timed_out, unknown, new, as_millis,
  with_checksum_result,
}
use automated_flywheel_setup.Runner.Shell.Command.{installer_command}
use automated_flywheel_setup.Runner.Executor.{
  Fallible, ok, err, Libs, RunnerConfig, Effect, downloaded, ran_installer, ran_check, captured,
  mark_cancelled, test_timeout, one_second,
}
use automated_flywheel_setup.Runner.Executor.Checks.{Answer, post_install}

-- How `curl` ends: it cannot be started, or it exits with a code, which a signal leaves out.
pub data Curl : Type 0 where
  no_curl : String → Curl
  exited : Option ℤ → (stderr : List ℕ) → Curl

-- `enum Outcome`; a process that a signal ends has no code.
pub data Outcome : Type 0 where
  done : (code : Option ℤ) (stdout stderr : List ℕ) → Outcome
  broken : String → Outcome
  late : Outcome
  interrupted : Outcome

-- What the file system, the network, the processes and the clock answer in one attempt. `elapsed` is
-- the time since the start where the branch that is taken reads it.
pub record LocalWorld : Type 0 where
  pub started : ℕ
  pub temp_dir : Fallible String
  pub curl : Curl
  pub download_time : ℕ
  pub file_bytes : Fallible (List ℕ)
  pub spawned : Fallible Unit
  pub outcome : Outcome
  pub elapsed : ℕ
  pub answer : String → Answer
  pub cancelled_at : ℕ
  pub finished : ℕ

abbrev join : String → String → String
join dir file = concat (dir ∷ "/" ∷ file ∷ [])

unfoldable pub local_env :
    {F : Type 0} → RunnerConfig F → InstallerTest → String → List (String × String)
local_env config test home =
    (("HOME", home)
      ∷ ("TMPDIR", home)
      ∷ ("XDG_CONFIG_HOME", join home ".config")
      ∷ ("XDG_DATA_HOME", join home ".local/share")
      ∷ ("XDG_CACHE_HOME", join home ".cache")
      ∷ (
        "PATH",
        concat (
            home ∷ "/.local/bin:" ∷ home ∷ "/.cargo/bin:" ∷ home
            ∷ "/.bun/bin:/usr/local/sbin:/usr/local/bin:/usr/sbin:/usr/bin:/sbin:/bin" ∷ []),
      )
      ∷ ("DEBIAN_FRONTEND", "noninteractive")
      ∷ ("NONINTERACTIVE", "1")
      ∷ ("CI", "true")
      ∷ ("RUSTUP_INIT_SKIP_PATH_CHECK", "yes")
      ∷ [])
    ++ (test.environment ++ config.extra_env)

-- Where the script is staged.
unfoldable pub script_file : InstallerTest → String → String
script_file test dir = join dir (concat ("installer_" ∷ test.name ∷ ".sh" ∷ []))

-- `status.success()`
abbrev pub succeeded : Option ℤ → Bool
succeeded none = false
succeeded (some code) = is_nat code 0

-- The times that the early returns set.
abbrev pub return_early : TestResult → ℕ → ℕ → TestResult
return_early r elapsed now = record r {
  finished_at = now;
  duration = elapsed;
  duration_ms = as_millis elapsed;
  last_attempt_ms = as_millis elapsed;
}

module _ {F : Type 0} (libs : Libs) (config : RunnerConfig F) (test : InstallerTest) where
  open libs use {sha256_hex, from_utf8_lossy}

  -- The return behind a download that failed.
  unfoldable pub download_failed : LocalWorld → Option ℤ → List ℕ → TestResult → TestResult
  download_failed w code stderr r =
      return_early
        (record r {
          stderr = concat ("Download failed: " ∷ from_utf8_lossy stderr ∷ []);
          exit_code = code;
          status = failed;
          success = false;
          checksum_state = if is_some test.expected_sha256 then unknown else r.checksum_state;
        })
        w.elapsed w.finished

  -- The comparison of the staged file's hash with the pinned one.
  unfoldable pub compare_hash : LocalWorld → String → List ℕ → ChecksumResult
  compare_hash w expected bytes = record {
    matches = sha256_hex bytes ==ₛ expected;
    expected = expected;
    actual = sha256_hex bytes;
    url = test.url;
    download_ms = as_millis w.download_time;
    size_bytes = length bytes;
  }

  -- The return behind a mismatch.
  unfoldable pub mismatched : LocalWorld → ChecksumResult → TestResult → TestResult
  mismatched w c r =
      return_early
        (with_checksum_result
          (record r {
            stderr = concat (
                "CHECKSUM_MISMATCH: expected=" ∷ c.expected ∷ " actual=" ∷ c.actual ∷ " url="
                ∷ test.url ∷ []);
            exit_code = some (pos 99);
            status = failed;
            success = false;
          })
          c)
        w.elapsed w.finished

  -- The branch of a process that ended.
  unfoldable pub after_process : LocalWorld → Option ℤ → TestResult → TestResult × List String
  after_process w code r =
      let s = post_install libs w.answer test (record r { status = passed; success = true }) in
      if succeeded code
      then (s.result, s.commands)
      else (record r { status = failed; success = false }, [])

  -- The `match outcome`: the result and the checks that ran.
  unfoldable pub after_outcome : LocalWorld → TestResult → Outcome → TestResult × List String
  after_outcome w r (done code out e) = after_process w code (record r {
    stdout = captured libs config.max_capture_bytes out;
    stderr = captured libs config.max_capture_bytes e;
    exit_code = some (unwrap_or code (negsuc 0));
    duration = w.elapsed;
    duration_ms = as_millis w.elapsed;
  })
  after_outcome w r (broken e) = (
    record r {
      stderr = concat ("Execution error: " ∷ e ∷ []);
      status = failed;
      success = false;
      duration = w.elapsed;
      duration_ms = as_millis w.elapsed;
    },
    [],
  )
  after_outcome w r late =
      let limit = test_timeout config test in
      (
        record r {
          status = timed_out;
          success = false;
          stderr = concat (
              timeout_marker
              ∷ " after "
              ∷ show (limit / one_second)
              ∷ "s (Test timed out after "
              ∷ debug_duration limit
              ∷ ")"
              ∷ []);
          duration = limit;
          duration_ms = as_millis limit;
        },
        [],
      )
  after_outcome w r interrupted =
      (mark_cancelled r w.elapsed "cancelled while running installer" w.cancelled_at, [])

  -- From the spawn of the installer on.
  unfoldable pub run_script :
      LocalWorld → String → TestResult → Fallible Unit → Fallible TestResult × List (Effect F)
  run_script w dir r (err e) = (err (concat ("Failed to spawn installer process: " ∷ e ∷ [])), [])
  run_script w dir r (ok _) =
      let (ended, checks) = after_outcome w r w.outcome in
      (
        ok (record ended { finished_at = w.finished; last_attempt_ms = ended.duration_ms }),
        ran_installer (installer_command config.dry_run test (script_file test dir))
              (local_env config test dir)
            ∷ map ran_check checks,
      )

  -- The comparison of the hash, and what follows.
  unfoldable pub verify_bytes :
      LocalWorld
      → String
      → TestResult
      → String
      → Fallible (List ℕ)
      → Fallible TestResult × List (Effect F)
  verify_bytes w dir r expected (err e) =
      (err (concat ("Failed to read downloaded script: " ∷ e ∷ [])), [])
  verify_bytes w dir r expected (ok bytes) =
      let c = compare_hash w expected bytes in
      if c.matches
      then run_script w dir (with_checksum_result r c) w.spawned
      else (ok (mismatched w c r), [])

  unfoldable pub verify_and_run :
      LocalWorld → String → TestResult → Option String → Fallible TestResult × List (Effect F)
  verify_and_run w dir r none = run_script w dir r w.spawned
  verify_and_run w dir r (some expected) = verify_bytes w dir r expected w.file_bytes

  -- From the end of `curl` on.
  unfoldable pub after_download :
      LocalWorld → String → TestResult → Curl → Fallible TestResult × List (Effect F)
  after_download w dir r (no_curl e) =
      (err (concat ("Failed to download installer script: " ∷ e ∷ [])), [])
  after_download w dir r (exited code stderr) =
      let fetched = downloaded test.url (script_file test dir) in
      let (result, effects) = verify_and_run w dir r test.expected_sha256 in
      if succeeded code
      then (result, fetched ∷ effects)
      else (ok (download_failed w code stderr r), fetched ∷ [])

  unfoldable pub in_temp_dir : LocalWorld → Fallible String → Fallible TestResult × List (Effect F)
  in_temp_dir w (err e) = (err (concat ("Failed to create temp directory: " ∷ e ∷ [])), [])
  in_temp_dir w (ok dir) = after_download w dir (new test.name w.started) w.curl

  unfoldable pub run_test_local : LocalWorld → Fallible TestResult × List (Effect F)
  run_test_local w = in_temp_dir w w.temp_dir
