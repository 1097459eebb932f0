-- ===== src/Reporting/Persist/Counts.antt =====
-- src/reporting/jsonl.rs: the counts of the persisted summary, and its exit code.
use automated_flywheel_setup.Base.{
  ℕ, ◌+◌, ◌≤◌, ◌≡◌, ◌⊎◌, refl, Bool, true, false, not, ◌&&◌, none, List, [], ◌∷◌, All, any, length,
  count_by, arith, if◌then◌else◌,
}
use automated_flywheel_setup.Main.{is_failure, any_failed, exit_code_of}
use automated_flywheel_setup.Runner.Installer.{TestResult, passed, skipped}
use automated_flywheel_setup.Reporting.Summary.{is_passed, is_skipped, is_timed_out}
use automated_flywheel_setup.Reporting.Persist.{RunHeader, is_cancelled, summary_of}

-- The success flag is set exactly if the status is passed.
abbrev pub IsConsistent : TestResult → Type 0
IsConsistent r = r.success ≡ is_passed r

-- What the tests of one result give together.
one_each :
    (r : TestResult)
    → IsConsistent r
    → (if r.success then 1 else 0)
        + (if not r.success && not (is_skipped r) then 1 else 0)
        + (if is_skipped r then 1 else 0)
      ≡ 1
one_each r h = ground arith

count_by-cons :
    (p : TestResult → Bool) (r : TestResult) (results : List TestResult)
    → count_by p (r ∷ results) ≡ (if p r then 1 else 0) + count_by p results
count_by-cons p r results = ground arith

counts_add :
    (results : List TestResult)
    → All IsConsistent results
    → length results
      ≡ count_by (λ r. r.success) results
        + count_by (λ r. not r.success && not (is_skipped r)) results
        + count_by is_skipped results
counts_add [] h = omega arith
counts_add (r ∷ results) (here, later) = omega (
  arith,
  counts_add results later,
  one_each r here,
  count_by-cons (λ q. q.success) r results,
  count_by-cons (λ q. not q.success && not (is_skipped q)) r results,
  count_by-cons is_skipped r results,
)

one_failed :
    (r : TestResult)
    → IsConsistent r
    → (if is_timed_out r then 1 else 0) + (if is_cancelled r then 1 else 0)
      ≤ (if not r.success && not (is_skipped r) then 1 else 0)
one_failed r h = ground arith

failed_counts :
    (results : List TestResult)
    → All IsConsistent results
    → count_by is_timed_out results + count_by is_cancelled results
      ≤ count_by (λ r. not r.success && not (is_skipped r)) results
failed_counts [] h = omega arith
failed_counts (r ∷ results) (here, later) = omega (
  arith,
  failed_counts results later,
  one_failed r here,
  count_by-cons (λ q. not q.success && not (is_skipped q)) r results,
  count_by-cons is_timed_out r results,
  count_by-cons is_cancelled r results,
)

-- Where each result has its success flag set exactly if it passed, every result of the persisted summary
-- is counted once, as passed, failed or skipped, and the failed ones include those that timed out and
-- those that were cancelled.
summary_of-counts :
    (header : RunHeader) (interrupted : Bool) (now : ℕ) (results : List TestResult)
    → All IsConsistent results
    → ((summary_of header interrupted now results).total
        ≡ (summary_of header interrupted now results).passed
          + (summary_of header interrupted now results).failed
          + (summary_of header interrupted now results).skipped)
      × ((summary_of header interrupted now results).timed_out
            + (summary_of header interrupted now results).cancelled
          ≤ (summary_of header interrupted now results).failed)
unfolding summary_of
summary_of-counts header interrupted now results h = (counts_add results h, failed_counts results h)

-- The result passed or was skipped.
abbrev pub IsFine : TestResult → Type 0
IsFine r = (r.status ≡ passed) ⊎ (r.status ≡ skipped)

is_failure-fine : (r : TestResult) → IsFine r → is_failure r ≡ false
is_failure-fine r h = ground arith

any_failed-fine :
    (deadline_exceeded signalled : Bool) (results : List TestResult)
    → All IsFine results
    → any_failed deadline_exceeded signalled results ≡ false
unfolding any_failed
any_failed-fine d s [] h = refl
any_failed-fine d s (r ∷ results) (here, later) =
    ground (arith, any_failed-fine d s results later, is_failure-fine r here)

skipped_fails :
    (results : List TestResult)
    → All IsConsistent results
    → any is_skipped results ≡ true
    → any (λ r. not r.success) results ≡ true
skipped_fails [] h k = k
skipped_fails (r ∷ results) (here, later) k = ground (arith, skipped_fails results later)

-- When no signal came and every result passed or was skipped, the process ends with 0; but as soon as
-- one was skipped, the summary that is written for that same run says 1.
pub summary_of-exit_code :
    (header : RunHeader) (interrupted deadline_exceeded : Bool) (now : ℕ)
    (results : List TestResult)
    → All IsConsistent results
    → All IsFine results
    → any is_skipped results ≡ true
    → (exit_code_of none (any_failed deadline_exceeded false results) ≡ 0)
      × ((summary_of header interrupted now results).exit_code ≡ 1)
unfolding summary_of exit_code_of
summary_of-exit_code header interrupted deadline_exceeded now results consistent fine skipped_one =
    (
      rw (any_failed-fine deadline_exceeded false results fine) refl,
      rw (skipped_fails results consistent skipped_one) refl,
    )
