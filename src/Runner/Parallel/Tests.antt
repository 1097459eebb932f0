-- ===== src/Runner/Parallel/Tests.antt =====
-- The pool's theorems at three tests and two permits under fail-fast.
use automated_flywheel_setup.Base.{
  get_elem?, ◌+◌, ◌≤◌, ◌≡◌, refl, true, false, Option, none, some, List, [], ◌∷◌, count_by,
}
use automated_flywheel_setup.Classifier.Tests.{literal_engine}
use automated_flywheel_setup.Reporting.Tests.{token_replacer}
use automated_flywheel_setup.Runner.Installer.{InstallerTest, TestResult, new, new_test, failed}
use automated_flywheel_setup.Runner.Executor.{Libs}
use automated_flywheel_setup.Runner.Executor.Retries.{returned}
use automated_flywheel_setup.Runner.Parallel.{
  running, ParallelRunner, Pool, submit, begin_job, end_job, start, finish, happen, stay, event,
  is_running,
}
use automated_flywheel_setup.Runner.Parallel.Permits.{tests_of, Reaches-submit}
use automated_flywheel_setup.Runner.Parallel.FailFast.{Reaches-fail_fast}

abbrev libs : Libs
libs = record {
  engine = literal_engine;
  replacer = token_replacer;
  sha256_hex = λ bytes. "abc";
  from_utf8_lossy = λ bytes. "text";
}

abbrev runner : ParallelRunner
runner = record { max_parallel = 2; fail_fast = true }

abbrev first : InstallerTest
first = new_test "a" "https://a.sh"

abbrev second : InstallerTest
second = new_test "b" "https://b.sh"

abbrev tests : List InstallerTest
tests = first ∷ second ∷ new_test "c" "https://c.sh" ∷ []

-- A pool's next one, for events that can happen.
abbrev after : Pool → Option Pool → Pool
after p none = p
after p (some q) = q

abbrev first_runs : Pool
first_runs =
    after (submit runner false tests) (happen libs runner (submit runner false tests) (start 0 5 6))

abbrev both_run : Pool
both_run = after first_runs (happen libs runner first_runs (start 1 5 6))

abbrev failure : TestResult
failure = record (new "a" 5) { status = failed }

abbrev first_failed : Pool
first_failed = after both_run (happen libs runner both_run (finish 0 (returned failure) 9 9))

-- The third test gets the free permit, and is skipped.
abbrev third_skipped : Pool
third_skipped = after first_failed (happen libs runner first_failed (start 2 10 11))

Reaches-submit_example :
    (count_by is_running first_runs.jobs + first_runs.permits ≡ 2)
    × (count_by is_running first_runs.jobs ≤ 2)
    × (tests_of first_runs ≡ tests)
unfolding happen submit begin_job
Reaches-submit_example =
    Reaches-submit libs runner false tests first_runs (event stay (start 0 5 6) refl)

Reaches-fail_fast_example : get_elem? first_failed.jobs 1 ≡ some (second, running)
unfolding happen submit begin_job end_job new
Reaches-fail_fast_example =
    Reaches-fail_fast libs runner both_run first_failed third_skipped 0 first failure 9 9 refl refl
      refl (λ e. cc e) refl (event stay (start 2 10 11) refl) 1 second refl
