-- ===== src/Runner/Parallel.antt =====
-- src/runner/parallel.rs: the worker pool. Each test is a job; an event is a job that gets a permit, a
-- worker that ends, or a signal, with the readings of the clock; an execution is a sequence of events.
pub mod Jobs
pub mod Permits
pub mod FailFast
mod Tests
use automated_flywheel_setup.Base.{
  ℕ, zero, suc, ◌+◌, max, String, ◌-◌, ◌++ₛ◌, ◌≡◌, Bool, true, false, not, ◌&&◌, ◌||◌, Option, none,
  some, List, [], ◌∷◌, map, ltb, count_by, get_elem?, concat, if◌then◌else◌,
}
use automated_flywheel_setup.Base.Int.{negsuc}
use automated_flywheel_setup.Classifier.{cancelled_marker}
use automated_flywheel_setup.Runner.Installer.{
  TestStatus, TestResult, InstallerTest, cancelled, new, with_cancelled, with_skipped, with_failed,
}
use automated_flywheel_setup.Runner.Executor.{Libs, finalize_failure}
use automated_flywheel_setup.Runner.Executor.Retries.{
  Ending, returned, stopped, panicked, exhausted,
}

-- A worker task: waiting for a permit, running its test, ended with a result, or ended by a panic.
pub data Job : Type 0 where
  queued : Job
  running : Job
  finished : TestResult → Job
  lost : Job

-- `ParallelRunner`
pub record ParallelRunner : Type 0 where
  pub max_parallel : ℕ
  pub fail_fast : Bool

-- `ParallelRunner::new`
unfoldable pub new_runner : ℕ → ParallelRunner
new_runner max_parallel = record { max_parallel = max max_parallel 1; fail_fast = false }

-- `with_fail_fast`
unfoldable pub with_fail_fast : ParallelRunner → Bool → ParallelRunner
with_fail_fast r fail_fast = record r { fail_fast = fail_fast }

-- The two tokens, the permits that the semaphore has left, and the tasks, in the order of submission.
pub record Pool : Type 0 where
  pub permits : ℕ
  pub run_cancelled : Bool
  pub pool_cancelled : Bool
  pub jobs : List (InstallerTest × Job)

-- The pool's token is a child of the run's.
abbrev pub is_cancelled : Pool → Bool
is_cancelled p = p.run_cancelled || p.pool_cancelled

abbrev pub is_running : InstallerTest × Job → Bool
is_running (test, running) = true
is_running (test, _) = false

-- A job that waits gets a permit; a worker ends; the run's token is cancelled.
pub data Event : Type 0 where
  start : (index now now_cancelled : ℕ) → Event
  finish : (index : ℕ) (ending : Ending) (now failed_at : ℕ) → Event
  signal : Event

-- Out of range, nothing is set.
abbrev pub set_job : List (InstallerTest × Job) → ℕ → Job → List (InstallerTest × Job)
set_job [] index job = []
set_job ((test, old) ∷ jobs) zero job = (test, job) ∷ jobs
set_job (entry ∷ jobs) (suc index) job = entry ∷ set_job jobs index job

-- The permit is held by a task as long as its future lives: until it returns or panics.
abbrev pub held_by : Job → ℕ
held_by running = 1
held_by _ = 0

module _ (libs : Libs) (runner : ParallelRunner) where
  -- What a task does once it has its permit: two early returns, or the run of the test.
  unfoldable pub begin_job : Pool → InstallerTest → ℕ → ℕ → Job
  begin_job p test now now_cancelled =
      let ended =
        with_cancelled (new test.name now) (cancelled_marker ++ₛ " before start") now_cancelled in
      if p.run_cancelled
      then finished (finalize_failure libs ended none)
      else if is_cancelled p
      then finished (with_skipped (new test.name now) "Skipped due to fail-fast" now_cancelled)
      else running

  -- The result of `run_test_with_retry`, or what an error of it becomes.
  unfoldable pub end_job : InstallerTest → Ending → ℕ → ℕ → Job
  end_job test (returned r) now failed_at = finished r
  end_job test (stopped e) now failed_at = finished (
      finalize_failure libs
        (with_failed (new test.name now) (negsuc 0) (concat ("Execution error: " ∷ e ∷ []))
          failed_at)
        none)
  end_job test panicked now failed_at = lost
  end_job test exhausted now failed_at = lost

  -- Whether a result cancels the pool under fail-fast.
  abbrev pub is_failure : Job → Bool
  is_failure (finished r) = not r.success && elim r.status [ cancelled ↦ false | _ ↦ true ]
  is_failure _ = false

  -- The end of a task, which gives its permit back.
  abbrev pub put : Pool → ℕ → Job → Pool
  put p index job = record p {
    permits = suc p.permits;
    jobs = set_job p.jobs index job;
    pool_cancelled = p.pool_cancelled || runner.fail_fast && is_failure job;
  }

  -- `acquire` takes a permit, if one is left; a task that returns at once gives it back.
  abbrev pub start_at : Pool → ℕ → ℕ → ℕ → Option (InstallerTest × Job) → Option Pool
  start_at p index now now_cancelled (some (test, queued)) =
      let job = begin_job p test now now_cancelled in
      if ltb 0 p.permits
      then some (record p { permits = p.permits - held_by job; jobs = set_job p.jobs index job })
      else none
  start_at p index now now_cancelled _ = none

  abbrev pub finish_at : Pool → ℕ → Ending → ℕ → ℕ → Option (InstallerTest × Job) → Option Pool
  finish_at p index ending now failed_at (some (test, running)) =
      some (put p index (end_job test ending now failed_at))
  finish_at p index ending now failed_at _ = none

  -- The pool behind an event, `none` where the event cannot happen: a job starts only if it is queued
  -- and a permit is left, and ends only if it runs.
  unfoldable pub happen : Pool → Event → Option Pool
  happen p (start index now now_cancelled) =
      start_at p index now now_cancelled (get_elem? p.jobs index)
  happen p (finish index ending now failed_at) =
      finish_at p index ending now failed_at (get_elem? p.jobs index)
  happen p signal = some (record p { run_cancelled = true })

  -- One pool is reached from another by events.
  pub data Reaches (p : Pool) : Pool → Type 0 where
    stay : Reaches p p
    event : {q r : Pool} → Reaches p q → (e : Event) → happen q e ≡ some r → Reaches p r

-- `run_all` before any task has its permit; the runner's semaphore has `max_parallel` of them.
unfoldable pub submit : ParallelRunner → Bool → List InstallerTest → Pool
submit runner run_cancelled tests = record {
  permits = runner.max_parallel;
  run_cancelled = run_cancelled;
  pool_cancelled = false;
  jobs = map (λ t. (t, queued)) tests;
}

-- The results that `run_all` returns, without those of tasks that panicked.
unfoldable pub results : List (InstallerTest × Job) → List TestResult
results [] = []
results ((test, finished r) ∷ jobs) = r ∷ results jobs
results ((test, _) ∷ jobs) = results jobs
