-- ===== src/Runner/Executor/Retries.antt =====
-- src/runner/executor.rs: `should_retry_result` and `run_test_with_retry`. The loop runs on fuel, one
-- round for each attempt that `retry_count` allows, and `History` shows that it never runs out.
pub mod History
pub mod Policy
pub mod Cancelled
use automated_flywheel_setup.Base.{
  ℕ, zero, suc, ◌+◌, max, String, Bool, true, false, not, ◌&&◌, Option, none, some, List, [], ◌∷◌,
  ◌++◌, ltb, if◌then◌else◌,
}
use automated_flywheel_setup.Runner.Capture.{tail}
use automated_flywheel_setup.Runner.Installer.{
  TestStatus, TestResult, InstallerTest, AttemptRecord, RetryInfo, timed_out, cancelled, skipped,
  as_millis,
}
use automated_flywheel_setup.Runner.Retry.{Floats, delay_with_jitter}
use automated_flywheel_setup.Runner.Executor.{
  Fallible, ok, err, Libs, RunnerConfig, classify_result, finalize_failure, mark_cancelled,
  attempt_stderr_tail_bytes,
}
use automated_flywheel_setup.Runner.Executor.Attempt.{World, run_test}

-- `matches!(result.status, TimedOut | Cancelled | Skipped)`
abbrev pub is_final : TestStatus → Bool
is_final timed_out = true
is_final cancelled = true
is_final skipped = true
is_final _ = false

-- Whether the result has a checksum that does not match.
abbrev pub has_mismatch : TestResult → Bool
has_mismatch r = elim r.checksum_result [ none ↦ false | some c ↦ not c.matches ]

unfoldable pub should_retry_result : Libs → TestResult → Bool
should_retry_result libs r =
    if r.success
    then false
    else if is_final r.status
    then false
    else if has_mismatch r
    then false
    else elim r.error [ some c ↦ c.retryable | none ↦ (classify_result libs r).retryable ]

-- What one round of the loop meets: the attempt, the look at the cancellation token behind it, the
-- random sample of the wait, whether the run is cancelled while it waits, and the clock.
pub record Round (F : Type 0) : Type 0 where
  pub attempt : World
  pub is_cancelled : Bool
  pub sample : F
  pub cancelled_in_backoff : Bool
  pub elapsed : ℕ
  pub cancelled_at : ℕ

-- The variables that the loop changes.
pub record Loop : Type 0 where
  pub attempts : List AttemptRecord
  pub retries : List RetryInfo
  pub waited_before_ms : ℕ
  pub attempt_index : ℕ

-- How a run ends: with a result, with the error of an attempt, with the panic of
-- `Duration::from_secs_f64`, or without fuel.
pub data Ending : Type 0 where
  returned : TestResult → Ending
  stopped : String → Ending
  panicked : Ending
  exhausted : Ending

pub data Step : Type 0 where
  ended : Ending → Step
  again : Loop → Step

abbrev pub initial : Loop
initial = record { attempts = []; retries = []; waited_before_ms = 0; attempt_index = 1 }

abbrev pub record_of : Loop → TestResult → AttemptRecord
record_of l r = record {
  index = l.attempt_index;
  started_at = r.started_at;
  finished_at = r.finished_at;
  status = r.status;
  exit_code = r.exit_code;
  duration_ms = r.duration_ms;
  stderr_tail = tail r.stderr attempt_stderr_tail_bytes;
  waited_before_ms = l.waited_before_ms;
}

abbrev pub max_attempts_of : InstallerTest → ℕ
max_attempts_of test = max test.retry_count 1

abbrev pub retry_info : Loop → TestResult → ℕ → RetryInfo
retry_info l r wait = record {
  attempt = l.attempt_index;
  error = tail r.stderr attempt_stderr_tail_bytes;
  wait_ms = as_millis wait;
}

-- `jitter_fraction` is the literal 0.25.
module _ {F : Type 0} (fl : Floats F) (jitter_fraction : F) (libs : Libs) (config : RunnerConfig F)
    (test : InstallerTest) (started_at : ℕ) (rounds : ℕ → Round F) where
  -- The return of the last attempt's result.
  unfoldable pub last_result : Loop → TestResult → ℕ → TestResult
  last_result l r elapsed = record r {
    last_attempt_ms = r.duration_ms;
    attempt = l.attempt_index;
    max_attempts = max_attempts_of test;
    attempts = l.attempts ++ record_of l r ∷ [];
    retries = l.retries;
    started_at = started_at;
    duration = elapsed;
    duration_ms = as_millis elapsed;
  }

  -- The return of a run that is cancelled while it waits.
  unfoldable pub cancelled_result : Loop → TestResult → ℕ → Round F → TestResult
  cancelled_result l r wait round =
      record (finalize_failure libs
        (mark_cancelled r round.elapsed "cancelled during retry backoff" round.cancelled_at) none) {
          attempt = l.attempt_index;
          max_attempts = max_attempts_of test;
          attempts = l.attempts ++ record_of l r ∷ [];
          retries = l.retries ++ retry_info l r wait ∷ [];
          started_at = started_at;
        }

  abbrev pub next_loop : Loop → TestResult → ℕ → Loop
  next_loop l r wait = record {
    attempts = l.attempts ++ record_of l r ∷ [];
    retries = l.retries ++ retry_info l r wait ∷ [];
    waited_before_ms = as_millis wait;
    attempt_index = l.attempt_index + 1;
  }

  abbrev pub wants_retry : Loop → TestResult → Bool
  wants_retry l r =
      ltb l.attempt_index (max_attempts_of test)
      && not (rounds l.attempt_index).is_cancelled
      && should_retry_result libs r

  -- The round behind the wait's length.
  unfoldable pub wait_for : Loop → TestResult → Option ℕ → Step
  wait_for l r none = ended panicked
  wait_for l r (some wait) =
      let round = rounds l.attempt_index in
      if round.cancelled_in_backoff
      then ended (returned (cancelled_result l r wait round))
      else again (next_loop l r wait)

  unfoldable pub after_attempt : Loop → TestResult → Step
  after_attempt l r =
      let round = rounds l.attempt_index in
      if wants_retry l r
      then wait_for l r
          (delay_with_jitter fl config.retry l.attempt_index jitter_fraction round.sample)
      else ended (returned (last_result l r round.elapsed))

  unfoldable pub next_step : Loop → Fallible TestResult → Step
  next_step l (err e) = ended (stopped e)
  next_step l (ok r) = after_attempt l r

  -- The result of the attempt with the number `index`.
  abbrev pub attempt_of : ℕ → Fallible TestResult
  attempt_of index = (run_test libs config test (rounds index).attempt).0

  unfoldable pub run_attempts : ℕ → Loop → Ending
  run_attempts zero l = exhausted
  run_attempts (suc fuel) l = elim (next_step l (attempt_of l.attempt_index)) [
    | ended e ↦ e
    | again l' ↦ run_attempts fuel l'
  ]

  unfoldable pub run_test_with_retry : Ending
  run_test_with_retry = run_attempts (max_attempts_of test) initial
