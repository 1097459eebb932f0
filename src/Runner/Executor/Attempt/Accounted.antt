-- ===== src/Runner/Executor/Attempt/Accounted.antt =====
-- src/runner/executor.rs: what every result of an attempt has, whichever way it ended.
use mathlib.Core.Path.{subst}
use automated_flywheel_setup.Base.{
  ℕ, String, ◌≡◌, refl, ap, Bool, true, false, Option, none, some, List, arith, ◌⊎◌, inl, inr,
  Bool-cases, is_some,
}
use automated_flywheel_setup.Base.Int.{ℤ, is_nat}
use automated_flywheel_setup.Runner.Installer.{
  TestStatus, TestResult, ChecksumResult, InstallerTest, Telemetry, passed, failed, timed_out,
  cancelled, new, with_checksum_result, with_checksum_state, with_container_id,
}
use automated_flywheel_setup.Runner.Executor.{
  Fallible, ok, err, Libs, ContainerConfig, PullPolicy, RunnerConfig, ExecutionBackend, docker,
  local, finalize_failure, mark_cancelled,
}
use automated_flywheel_setup.Runner.Executor.Checks.{
  Answer, Stage, on_binary, on_verify, on_version, check_binary, check_verify, check_version,
  and_then, post_install,
}
use automated_flywheel_setup.Runner.Executor.Docker.{
  bring_up, DockerWorld, Exec, answered, after_exit, on_checksum, after_answer, after_exec,
  in_container, with_container, with_manager, with_samples, run_test_docker,
}
use automated_flywheel_setup.Runner.Executor.Local.{
  LocalWorld, Outcome, Curl, exited, no_curl, download_failed, mismatched, after_process,
  after_outcome, run_script, verify_bytes, verify_and_run, after_download, in_temp_dir,
  run_test_local, succeeded, compare_hash, done, interrupted,
}
use automated_flywheel_setup.Runner.Executor.Attempt.{World, on_backend, finalized, run_test}

-- A status that an attempt can fail with.
abbrev pub is_failure : TestStatus → Bool
is_failure failed = true
is_failure timed_out = true
is_failure cancelled = true
is_failure _ = false

-- A result before its classification: it passed or failed.
abbrev IsSettled : TestResult → Type 0
IsSettled r =
    ((r.success ≡ true) × (r.status ≡ passed) × (r.error ≡ none))
    ⊎ ((r.success ≡ false) × (is_failure r.status ≡ true) × (r.error ≡ none))

-- A result of an attempt: it passed and has no error, or it failed and has a classification.
abbrev pub IsAccounted : TestResult → Type 0
IsAccounted r =
    ((r.success ≡ true) × (r.status ≡ passed) × (r.error ≡ none))
    ⊎ ((r.success ≡ false) × (is_failure r.status ≡ true) × (is_some r.error ≡ true))

abbrev IsPassing : TestResult → Type 0
IsPassing r = (r.success ≡ true) × (r.status ≡ passed) × (r.error ≡ none)

-- A stage of the checks goes on with a passing result, or returned with a failed one.
abbrev IsStage : Stage → Type 0
IsStage s =
    ((s.stopped ≡ false) × IsPassing s.result)
    ⊎ ((s.stopped ≡ true)
        × (s.result.success ≡ false)
        × (s.result.status ≡ failed)
        × (s.result.error ≡ none))

on_binary-IsStage :
    (bin cmd : String) (r : TestResult) (a : Answer) → IsPassing r → IsStage (on_binary bin r cmd a)
unfolding on_binary
on_binary-IsStage bin cmd r (ok (code, out, e)) h = ground arith
on_binary-IsStage bin cmd r (err e) h = ground arith

on_verify-IsStage :
    (libs : Libs) (cmd : String) (r : TestResult) (a : Answer)
    → IsPassing r
    → IsStage (on_verify libs r cmd a)
unfolding on_verify
on_verify-IsStage libs cmd r (ok (code, out, e)) h = ground arith
on_verify-IsStage libs cmd r (err e) h = ground arith

on_version-IsStage :
    (libs : Libs) (cmd : String) (r : TestResult) (a : Answer)
    → IsPassing r
    → IsStage (on_version libs r cmd a)
unfolding on_version
on_version-IsStage libs cmd r (ok (code, out, e)) h = ground arith
on_version-IsStage libs cmd r (err e) h = ground arith

module _ (libs : Libs) (answer : String → Answer) where
  check_binary-IsStage :
      (o : Option String) (r : TestResult) → IsPassing r → IsStage (check_binary libs answer o r)
  unfolding check_binary
  check_binary-IsStage none r h = inl (refl, h)
  check_binary-IsStage (some bin) r h = on_binary-IsStage bin _ r _ h

  check_verify-IsStage :
      (o : Option String) (r : TestResult) → IsPassing r → IsStage (check_verify libs answer o r)
  unfolding check_verify
  check_verify-IsStage none r h = inl (refl, h)
  check_verify-IsStage (some cmd) r h = on_verify-IsStage libs cmd r _ h

  check_version-IsStage :
      (o : Option String) (r : TestResult) → IsPassing r → IsStage (check_version libs answer o r)
  unfolding check_version
  check_version-IsStage none r h = inl (refl, h)
  check_version-IsStage (some cmd) r h = on_version-IsStage libs cmd r _ h

  and_then-IsStage :
      (s : Stage) (next : TestResult → Stage)
      → IsStage s
      → ((r : TestResult) → IsPassing r → IsStage (next r))
      → IsStage (and_then s next)
  and_then-IsStage s next (inl (on, h)) later = rw on (later s.result h)
  and_then-IsStage s next (inr h) later = simp (h.0) (inr (refl, h.1, h.2, h.3))

  post_install-IsStage :
      (test : InstallerTest) (r : TestResult)
      → IsPassing r
      → IsStage (post_install libs answer test r)
  unfolding post_install
  post_install-IsStage test r h =
      let verify = check_verify libs answer test.verify_cmd in
      let version = check_version libs answer test.version_cmd in
      and_then-IsStage (and_then (check_binary libs answer test.expect_binary r) verify) version
        (and_then-IsStage (check_binary libs answer test.expect_binary r) verify
          (check_binary-IsStage test.expect_binary r h)
          (λ q g. check_verify-IsStage test.verify_cmd q g))
        (λ q g. check_version-IsStage test.version_cmd q g)

  post_install-IsSettled :
      (test : InstallerTest) (r : TestResult)
      → IsPassing r
      → IsSettled (post_install libs answer test r).result
  post_install-IsSettled test r h = elim (post_install-IsStage test r h) [
    | inl (on, passes) ↦ inl passes
    | inr (off, fails, why, open_error) ↦ inr (fails, ap is_failure why, open_error)
  ]

module _ {F : Type 0} (libs : Libs) (config : RunnerConfig F) (test : InstallerTest) where
  -- A result that no branch has touched yet.
  abbrev IsFresh : TestResult → Type 0
  IsFresh r = r.error ≡ none

  after_exit-IsSettled :
      (answer : String → Answer) (exit_code : ℤ) (r : TestResult)
      → IsFresh r
      → IsSettled (after_exit libs config test answer exit_code r).0
  unfolding after_exit
  after_exit-IsSettled answer exit_code r h = elim (Bool-cases (is_nat exit_code 0)) [
    | inl zero_code ↦ rw zero_code (post_install-IsSettled libs answer test _ (refl, refl, h))
    | inr other ↦ rw other (inr (refl, refl, h))
  ]

  on_checksum-IsSettled :
      (answer : String → Answer) (exit_code : ℤ) (r : TestResult) (o : Option ChecksumResult)
      → IsFresh r
      → IsSettled (on_checksum libs config test answer exit_code r o).0
  unfolding on_checksum with_checksum_result with_checksum_state
  on_checksum-IsSettled answer exit_code r (some c) h = elim (Bool-cases c.matches) [
    | inl same ↦ rw same (after_exit-IsSettled answer exit_code _ h)
    | inr other ↦ rw other (inr (refl, refl, h))
  ]
  on_checksum-IsSettled answer exit_code r none h =
      elim (Bool-cases (is_some test.expected_sha256)) [
        | inl pinned ↦ rw pinned (after_exit-IsSettled answer exit_code _ h)
        | inr free ↦ rw free (after_exit-IsSettled answer exit_code _ h)
      ]

  after_exec-IsSettled :
      (w : DockerWorld) (r : TestResult) (x : Exec)
      → IsFresh r
      → IsSettled (after_exec libs config test w r x).0
  unfolding after_exec after_answer mark_cancelled
  after_exec-IsSettled w r (answered exit_code stdout stderr) h =
      on_checksum-IsSettled w.answer exit_code _ _ h
  after_exec-IsSettled w r (Exec.broken e) h = elim (Bool-cases w.cancelled_on_error) [
    | inl stop ↦ rw stop (inr (refl, refl, h))
    | inr on ↦ rw on (inr (refl, refl, h))
  ]
  after_exec-IsSettled w r Exec.late h = inr (refl, refl, h)

  -- A result, if there is one, that is settled.
  abbrev IsSettledIf : Fallible TestResult → Type 0
  IsSettledIf (ok r) = IsSettled r
  IsSettledIf (err e) = Unit

  IsFresh-samples :
      (id : String) (w : DockerWorld) (o : Option Telemetry)
      → IsFresh (with_samples (with_container_id (new test.name w.started) id) o)
  unfolding new with_container_id
  IsFresh-samples id w none = refl
  IsFresh-samples id w (some t) = ground arith

  in_container-IsSettled :
      (w : DockerWorld) (id : String) → IsSettled (in_container libs config test w id).0
  unfolding in_container
  in_container-IsSettled w id = after_exec-IsSettled w _ w.exec (IsFresh-samples id w w.telemetry)

  run_test_docker-IsSettled :
      (c : ContainerConfig F) (policy : PullPolicy) (w : DockerWorld)
      → IsSettledIf (run_test_docker libs config test c policy w).0
  unfolding run_test_docker with_container with_manager
  run_test_docker-IsSettled c policy w = managed w.manager
    where
      contained : (o : Fallible String) → IsSettledIf (with_container libs config test w o).0
      contained (err e) = tt
      contained (ok id) = in_container-IsSettled w id

      managed : (o : Fallible Unit) → IsSettledIf (with_manager libs config test c policy w o).0
      managed (err e) = tt
      managed (ok u) = contained (bring_up w.created w.container_started)

  after_outcome-IsSettled :
      (w : LocalWorld) (r : TestResult) (o : Outcome)
      → IsFresh r
      → IsSettled (after_outcome libs config test w r o).0
  unfolding after_outcome after_process mark_cancelled
  after_outcome-IsSettled w r (done code out e) h = elim (Bool-cases (succeeded code)) [
    | inl zero_code ↦ rw zero_code (post_install-IsSettled libs w.answer test _ (refl, refl, h))
    | inr other ↦ rw other (inr (refl, refl, h))
  ]
  after_outcome-IsSettled w r (Outcome.broken e) h = inr (refl, refl, h)
  after_outcome-IsSettled w r Outcome.late h = inr (refl, refl, h)
  after_outcome-IsSettled w r interrupted h = inr (refl, refl, h)

  run_script-IsSettled :
      (w : LocalWorld) (dir : String) (r : TestResult) (o : Fallible Unit)
      → IsFresh r
      → IsSettledIf (run_script libs config test w dir r o).0
  unfolding run_script
  run_script-IsSettled w dir r (err e) h = tt
  run_script-IsSettled w dir r (ok u) h = after_outcome-IsSettled w r w.outcome h

  verify_and_run-IsSettled :
      (w : LocalWorld) (dir : String) (r : TestResult) (o : Option String)
      → IsFresh r
      → IsSettledIf (verify_and_run libs config test w dir r o).0
  unfolding verify_and_run verify_bytes mismatched with_checksum_result
  verify_and_run-IsSettled w dir r none h = run_script-IsSettled w dir r w.spawned h
  verify_and_run-IsSettled w dir r (some expected) h = verified w.file_bytes
    where
      verified :
          (o : Fallible (List ℕ)) → IsSettledIf (verify_bytes libs config test w dir r expected o).0
      verified (err e) = tt
      verified (ok bytes) =
          elim (Bool-cases (compare_hash libs config test w expected bytes).matches) [
            | inl same ↦ rw same (run_script-IsSettled w dir _ w.spawned h)
            | inr other ↦ rw other (inr (refl, refl, h))
          ]

  run_test_local-IsSettled : (w : LocalWorld) → IsSettledIf (run_test_local libs config test w).0
  unfolding run_test_local in_temp_dir after_download download_failed new
  run_test_local-IsSettled w = staged w.temp_dir
    where
      fetched :
          (dir : String) (o : Curl)
          → IsSettledIf (after_download libs config test w dir (new test.name w.started) o).0
      fetched dir (no_curl e) = tt
      fetched dir (exited code stderr) = elim (Bool-cases (succeeded code)) [
        | inl fine ↦ rw fine (verify_and_run-IsSettled w dir _ test.expected_sha256 refl)
        | inr other ↦ rw other (inr (refl, refl, refl))
      ]

      staged : (o : Fallible String) → IsSettledIf (in_temp_dir libs config test w o).0
      staged (err e) = tt
      staged (ok dir) = fetched dir w.curl

  finalize_failure-IsAccounted :
      (r : TestResult)
      → r.success ≡ false
      → is_failure r.status ≡ true
      → IsAccounted (finalize_failure libs r none)
  unfolding finalize_failure
  finalize_failure-IsAccounted r fails status = ground arith

  abbrev IsAccountedIf : Fallible TestResult → Type 0
  IsAccountedIf (ok r) = IsAccounted r
  IsAccountedIf (err e) = Unit

  finalized-IsAccounted :
      (o : Fallible TestResult) → IsSettledIf o → IsAccountedIf (finalized libs config test o)
  unfolding finalized
  finalized-IsAccounted (err e) h = tt
  finalized-IsAccounted (ok q) (inl (passes, status, open_error)) =
      simp passes (inl (refl, status, open_error))
  finalized-IsAccounted (ok q) (inr (fails, status, open_error)) =
      simp fails (finalize_failure-IsAccounted q fails status)

  on_backend-IsSettled :
      (w : World) (b : ExecutionBackend F) → IsSettledIf (on_backend libs config test w b).0
  unfolding on_backend
  on_backend-IsSettled w (docker c policy) = run_test_docker-IsSettled c policy w.in_docker
  on_backend-IsSettled w local = run_test_local-IsSettled w.in_local

  run_test-holds : (w : World) → IsAccountedIf (run_test libs config test w).0
  unfolding run_test mark_cancelled
  run_test-holds w = elim (Bool-cases w.is_cancelled) [
    | inl stop ↦ rw stop (finalize_failure-IsAccounted _ refl refl)
    | inr on ↦ simp on (finalized-IsAccounted _ (on_backend-IsSettled w config.backend))
  ]

  -- Whatever Docker, the network and the processes answer, a result of one attempt, on either backend
  -- or cancelled before its start, either passed with the success flag and without an error, or
  -- failed, timed out or was cancelled without the flag, and then it carries a classification.
  pub run_test-IsAccounted :
      (w : World) (r : TestResult) → (run_test libs config test w).0 ≡ ok r → IsAccounted r
  run_test-IsAccounted w r e = subst IsAccountedIf e (run_test-holds w)
