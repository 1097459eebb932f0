-- ===== src/Runner/Parallel/Jobs.antt =====
-- src/runner/parallel.rs: what setting one job does to the list of jobs.
use automated_flywheel_setup.Base.{
  ℕ, zero, suc, ◌+◌, ◌≤◌, ◌≡◌, refl, ap, Bool, false, some, List, [], ◌∷◌, map, arith, count_by,
  get_elem?, if◌then◌else◌,
}
use automated_flywheel_setup.Runner.Installer.{InstallerTest}
use automated_flywheel_setup.Runner.Parallel.{Job, set_job, is_running, ParallelRunner, end_job}
use automated_flywheel_setup.Runner.Executor.{Libs}
use automated_flywheel_setup.Runner.Executor.Retries.{
  Ending, returned, stopped, panicked, exhausted,
}

abbrev Entry : Type 0
Entry = InstallerTest × Job

abbrev pub as_number : Bool → ℕ
as_number b = if b then 1 else 0

pub one_if_le : (b : Bool) → as_number b ≤ 1
one_if_le b = ground arith

-- No end of a task runs.
pub end_job-ended :
    (libs : Libs) (runner : ParallelRunner) (test : InstallerTest) (ending : Ending)
    (now failed_at : ℕ)
    → is_running (test, end_job libs runner test ending now failed_at) ≡ false
unfolding end_job
end_job-ended libs runner test (returned r) now failed_at = refl
end_job-ended libs runner test (stopped e) now failed_at = refl
end_job-ended libs runner test panicked now failed_at = refl
end_job-ended libs runner test exhausted now failed_at = refl

pub count-set_job :
    (jobs : List Entry) (index : ℕ) (test : InstallerTest) (old job : Job)
    → get_elem? jobs index ≡ some (test, old)
    → count_by is_running (set_job jobs index job) + as_number (is_running (test, old))
      ≡ count_by is_running jobs + as_number (is_running (test, job))
count-set_job [] index test old job h = absurd (cc h)
count-set_job ((t, j) ∷ jobs) zero test old job h = ground arith
count-set_job ((t, j) ∷ jobs) (suc index) test old job h =
    ground (arith, count-set_job jobs index test old job h)

-- The tests keep their places.
pub tests-set_job :
    (jobs : List Entry) (index : ℕ) (job : Job)
    → map (λ e. e.0) (set_job jobs index job) ≡ map (λ e. e.0) jobs
tests-set_job [] index job = refl
tests-set_job (e ∷ jobs) zero job = refl
tests-set_job (e ∷ jobs) (suc index) job = ap (◌∷◌ e.0) (tests-set_job jobs index job)

-- A job that is set to something else than running does not run, and the others stay as they are.
pub running-set_job :
    (jobs : List Entry) (index i : ℕ) (test : InstallerTest) (job : Job)
    → is_running (test, job) ≡ false
    → get_elem? (set_job jobs index job) i ≡ some (test, Job.running)
    → get_elem? jobs i ≡ some (test, Job.running)
running-set_job [] index i test job stops h = h
running-set_job ((t, j) ∷ jobs) zero zero test job stops h = absurd (ground arith)
running-set_job ((t, j) ∷ jobs) zero (suc i) test job stops h = h
running-set_job ((t, j) ∷ jobs) (suc index) zero test job stops h = h
running-set_job ((t, j) ∷ jobs) (suc index) (suc i) test job stops h =
    running-set_job jobs index i test job stops h
