-- ===== src/Runner/Executor/Attempt.antt =====
-- src/runner/executor.rs: `run_test`, one attempt with the configured backend.
pub mod Accounted
pub mod Order
pub mod Verified
use automated_flywheel_setup.Base.{
  ℕ, Bool, true, false, Option, none, some, List, [], if◌then◌else◌,
}
use automated_flywheel_setup.Runner.Installer.{TestResult, InstallerTest, new}
use automated_flywheel_setup.Runner.Executor.{
  Fallible, ok, err, Libs, RunnerConfig, Effect, ExecutionBackend, docker, local, finalize_failure,
  mark_cancelled,
}
use automated_flywheel_setup.Runner.Executor.Docker.{DockerWorld, run_test_docker}
use automated_flywheel_setup.Runner.Executor.Local.{LocalWorld, run_test_local}

-- What one attempt meets. The first field is the look at the cancellation token, the next three are
-- the clock of a run that is cancelled before its start.
pub record World : Type 0 where
  pub is_cancelled : Bool
  pub now : ℕ
  pub elapsed : ℕ
  pub cancelled_at : ℕ
  pub in_docker : DockerWorld
  pub in_local : LocalWorld

module _ {F : Type 0} (libs : Libs) (config : RunnerConfig F) (test : InstallerTest) where
  -- The `match &self.config.backend`.
  unfoldable pub on_backend : World → ExecutionBackend F → Fallible TestResult × List (Effect F)
  on_backend w (docker c policy) = run_test_docker libs config test c policy w.in_docker
  on_backend w local = run_test_local libs config test w.in_local

  unfoldable pub finalized : Fallible TestResult → Fallible TestResult
  finalized (err e) = err e
  finalized (ok r) = if r.success then ok r else ok (finalize_failure libs r none)

  unfoldable pub run_test : World → Fallible TestResult × List (Effect F)
  run_test w =
      let unstarted = new test.name w.now in
      let early = mark_cancelled unstarted w.elapsed "run cancelled before start" w.cancelled_at in
      let (result, effects) = on_backend w config.backend in
      if w.is_cancelled
      then (ok (finalize_failure libs early none), [])
      else (finalized result, effects)
