-- ===== src/Runner/Executor/Retries/Policy.antt =====
-- src/runner/executor.rs: what the retry policy never retries, and what it does with a classified
-- failure.
use automated_flywheel_setup.Base.{◌≡◌, ◌↔◌, ◌≢◌, true, false, some, arith}
use automated_flywheel_setup.Classifier.{ErrorClassification}
use automated_flywheel_setup.Runner.Installer.{
  TestStatus, TestResult, timed_out, cancelled, skipped,
}
use automated_flywheel_setup.Runner.Executor.{Libs}
use automated_flywheel_setup.Runner.Executor.Retries.{is_final, has_mismatch, should_retry_result}

is_final-false :
    (s : TestStatus) → (is_final s ≡ false) ↔ ((s ≢ timed_out) × (s ≢ cancelled) × (s ≢ skipped))
is_final-false s = (ground arith, ground arith)

-- A classified result is retried exactly if it is not a success, did not time out, was neither
-- cancelled nor skipped, has no checksum that differs, and its classification is retryable.
pub should_retry_result-retryable_iff :
    (libs : Libs) (r : TestResult) (c : ErrorClassification)
    → r.error ≡ some c
    → (should_retry_result libs r ≡ true) ↔ (
        (r.success ≡ false)
        × (r.status ≢ timed_out)
        × (r.status ≢ cancelled)
        × (r.status ≢ skipped)
        × (has_mismatch r ≡ false)
        × (c.retryable ≡ true))
unfolding should_retry_result
should_retry_result-retryable_iff libs r c classified =
    let open_final = is_final-false r.status in
    (
      λ h. (ground arith, ground arith, ground arith, ground arith, ground arith, ground arith),
      λ h. ground arith,
    )
