-- ===== src/Reporting/Summary.antt =====
-- src/reporting/summary.rs: the summary of a run. `success_rate` is a percentage in floating point; the
-- quotient of two counts that it is computed from is kept instead.
use automated_flywheel_setup.Base.{
  ℕ, ◌+◌, ◌-◌, String, ◌≡◌, refl, ap, ◌∙◌, suc, Bool, true, false, ◌||◌, Option, none, some, List,
  [], ◌∷◌, map, keep, count_by, length, length-keep, unwrap_or, map_option, ltb, arith,
  if◌then◌else◌,
}
use automated_flywheel_setup.Runner.Installer.{
  TestResult, pending, running, passed, failed, skipped, timed_out, cancelled, retry_count,
}

pub record FailureSummary : Type 0 where
  pub installer_name : String
  pub error_category : String
  pub error_message : String
  pub duration : ℕ
  pub retries : ℕ

-- `success_rate` is `none` where there are no tests, for which the source has 0.0.
pub record RunSummary : Type 0 where
  pub run_id : String
  pub started_at : ℕ
  pub finished_at : ℕ
  pub total_duration : ℕ
  pub total_tests : ℕ
  pub passed_tests : ℕ
  pub failed_tests : ℕ
  pub skipped_tests : ℕ
  pub timed_out_tests : ℕ
  pub success_rate : Option (ℕ × ℕ)
  pub failures : List FailureSummary

abbrev pub is_passed : TestResult → Bool
is_passed r = elim r.status [ passed ↦ true | _ ↦ false ]

abbrev pub is_failed : TestResult → Bool
is_failed r = elim r.status [ failed ↦ true | _ ↦ false ]

abbrev pub is_skipped : TestResult → Bool
is_skipped r = elim r.status [ skipped ↦ true | _ ↦ false ]

abbrev pub is_timed_out : TestResult → Bool
is_timed_out r = elim r.status [ timed_out ↦ true | _ ↦ false ]

unfoldable pub failure_of : TestResult → FailureSummary
failure_of r = record {
  installer_name = r.installer_name;
  error_category = unwrap_or (map_option (λ e. e.category) r.error) "unknown";
  error_message = r.stderr;
  duration = r.duration;
  retries = retry_count r;
}

-- `SummaryGenerator::generate`, for a generator that was made at `started_at`
unfoldable pub generate : String → ℕ → List TestResult → ℕ → RunSummary
generate run_id started_at results finished_at = record {
  run_id = run_id;
  started_at = started_at;
  finished_at = finished_at;
  total_duration = finished_at - started_at;
  total_tests = length results;
  passed_tests = count_by is_passed results;
  failed_tests = count_by is_failed results;
  skipped_tests = count_by is_skipped results;
  timed_out_tests = count_by is_timed_out results;
  success_rate =
      if ltb 0 (length results) then some (count_by is_passed results, length results) else none;
  failures = map failure_of (keep (λ r. is_failed r || is_timed_out r) results);
}

-- The results that no count of the summary has.
abbrev pub is_uncounted : TestResult → Bool
is_uncounted r = elim r.status [ pending ↦ true | running ↦ true | cancelled ↦ true | _ ↦ false ]

counts :
    (results : List TestResult)
    → count_by is_passed results
        + count_by is_failed results
        + count_by is_skipped results
        + count_by is_timed_out results
        + count_by is_uncounted results
      ≡ length results
counts [] = refl
counts (r ∷ results) = ground (arith, counts results)

map-length : {A B : Type 0} (f : A → B) (xs : List A) → length (map f xs) ≡ length xs
map-length f [] = refl
map-length f (x ∷ xs) = ap suc (map-length f xs)

failing-count :
    (results : List TestResult)
    → count_by (λ r. is_failed r || is_timed_out r) results
      ≡ count_by is_failed results + count_by is_timed_out results
failing-count [] = refl
failing-count (r ∷ results) = ground (arith, failing-count results)

-- The four counts of a summary add up to all results but the cancelled and the unfinished ones, which it
-- counts nowhere but in the total, and there is a failure entry for each failed and timed-out result.
generate-counts :
    (run_id : String) (started_at : ℕ) (results : List TestResult) (finished_at : ℕ)
    → let s = generate run_id started_at results finished_at in
      (s.passed_tests
          + s.failed_tests
          + s.skipped_tests
          + s.timed_out_tests
          + count_by is_uncounted results
        ≡ s.total_tests)
      × (length s.failures ≡ s.failed_tests + s.timed_out_tests)
unfolding generate
generate-counts run_id started_at results finished_at = (
  counts results,
  map-length failure_of (keep (λ r. is_failed r || is_timed_out r) results)
      ∙ (length-keep (λ r. is_failed r || is_timed_out r) results ∙ failing-count results),
)
