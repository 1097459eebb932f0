-- ===== src/Runner/Executor/Retries/Cancelled.antt =====
-- src/runner/executor.rs: a run that is cancelled while it waits for its next attempt.
use automated_flywheel_setup.Base.{ℕ, ◌≡◌, ap, ◌∙◌, true, none, some, arith, is_some}
use automated_flywheel_setup.Classifier.{ErrorClassification}
use automated_flywheel_setup.Runner.Installer.{TestResult, InstallerTest, cancelled}
use automated_flywheel_setup.Runner.Retry.{Floats}
use automated_flywheel_setup.Runner.Executor.{Libs, RunnerConfig, finalize_failure, mark_cancelled}
use automated_flywheel_setup.Runner.Executor.Retries.{Round, Loop, cancelled_result}

finalize_failure-classified :
    (libs : Libs) (r : TestResult)
    → is_some r.error ≡ true
    → (finalize_failure libs r none).error ≡ r.error
unfolding finalize_failure
finalize_failure-classified libs r h = ground arith

finalize_failure-status :
    (libs : Libs) (r : TestResult) → (finalize_failure libs r none).status ≡ r.status
unfolding finalize_failure
finalize_failure-status libs r = ground arith

-- Where the failed attempt has a classification, the result of a run that is cancelled in its backoff
-- has the status `cancelled` and still the classification of the failure: it is not classified anew.
pub cancelled_result-error :
    {F : Type 0} (fl : Floats F) (jitter_fraction : F) (libs : Libs) (config : RunnerConfig F)
    (test : InstallerTest) (started_at : ℕ) (rounds : ℕ → Round F) (l : Loop) (r : TestResult)
    (wait : ℕ) (round : Round F) (c : ErrorClassification)
    → r.error ≡ some c
    → ((cancelled_result fl jitter_fraction libs config test started_at rounds l r wait
          round).status
        ≡ cancelled)
      × ((cancelled_result fl jitter_fraction libs config test started_at rounds l r wait
            round).error
          ≡ some c)
unfolding cancelled_result mark_cancelled
cancelled_result-error fl jitter_fraction libs config test started_at rounds l r wait round c h =
    (finalize_failure-status libs _, finalize_failure-classified libs _ (ap is_some h) ∙ h)
