-- ===== src/Runner/Parallel/Permits.antt =====
-- src/runner/parallel.rs: no more tests run at once than there are permits, and the results are those
-- of the submitted tests in their order.
use mathlib.Core.Path.{subst}
use automated_flywheel_setup.Base.{
  ℕ, ◌+◌, ◌<◌, ◌≤◌, ◌≡◌, refl, ap, ◌∙◌, Bool, Option, none, some, List, [], ◌∷◌, map, arith,
  count_by, get_elem?, Bool-cases, inl, inr, ltb,
}
use automated_flywheel_setup.Runner.Installer.{InstallerTest}
use automated_flywheel_setup.Runner.Executor.{Libs}
use automated_flywheel_setup.Runner.Executor.Retries.{Ending}
use automated_flywheel_setup.Runner.Parallel.{
  Job, held_by, queued, running, finished, lost, ParallelRunner, Pool, is_running, Event, start,
  finish, signal, begin_job, end_job, start_at, finish_at, happen, Reaches, stay, event, submit,
}
use automated_flywheel_setup.Runner.Parallel.Jobs.{
  as_number, one_if_le, end_job-ended, count-set_job, tests-set_job,
}

-- The submitted tests.
abbrev pub tests_of : Pool → List InstallerTest
tests_of p = map (λ e. e.0) p.jobs

module _ (libs : Libs) (runner : ParallelRunner) where
  -- Each permit is left or held by a test that runs, and the tests are the given ones.
  abbrev IsBounded : List InstallerTest → Pool → Type 0
  IsBounded tests p =
      (count_by is_running p.jobs + p.permits ≡ runner.max_parallel) × (tests_of p ≡ tests)

  abbrev IsBoundedIf : List InstallerTest → Option Pool → Type 0
  IsBoundedIf tests none = Unit
  IsBoundedIf tests (some p) = IsBounded tests p

  held_by-is_running :
      (test : InstallerTest) (job : Job) → held_by job ≡ as_number (is_running (test, job))
  held_by-is_running test queued = refl
  held_by-is_running test running = refl
  held_by-is_running test (finished r) = refl
  held_by-is_running test lost = refl

  start_at-IsBounded :
      (tests : List InstallerTest) (p : Pool) (index now now_cancelled : ℕ)
      (o : Option (InstallerTest × Job))
      → get_elem? p.jobs index ≡ o
      → IsBounded tests p
      → IsBoundedIf tests (start_at libs runner p index now now_cancelled o)
  start_at-IsBounded tests p index now now_cancelled none at h = tt
  start_at-IsBounded tests p index now now_cancelled (some (test, running)) at h = tt
  start_at-IsBounded tests p index now now_cancelled (some (test, finished r)) at h = tt
  start_at-IsBounded tests p index now now_cancelled (some (test, lost)) at h = tt
  start_at-IsBounded tests p index now now_cancelled (some (test, queued)) at (taken, same) =
      let job = begin_job libs runner p test now now_cancelled in
      elim (Bool-cases (ltb 0 p.permits)) [
        | inl free ↦
            let counted = count-set_job p.jobs index test queued job at in
            let held = held_by-is_running test job in
            let one = one_if_le (is_running (test, job)) in
            let left : 0 < p.permits = ground arith in
            rw free (
              omega (arith, counted, held, one, taken, left),
              tests-set_job p.jobs index job ∙ same,
            )
        | inr full ↦ rw full tt
      ]

  finish_at-IsBounded :
      (tests : List InstallerTest) (p : Pool) (index : ℕ) (ending : Ending) (now failed_at : ℕ)
      (o : Option (InstallerTest × Job))
      → get_elem? p.jobs index ≡ o
      → IsBounded tests p
      → IsBoundedIf tests (finish_at libs runner p index ending now failed_at o)
  finish_at-IsBounded tests p index ending now failed_at none at h = tt
  finish_at-IsBounded tests p index ending now failed_at (some (test, queued)) at h = tt
  finish_at-IsBounded tests p index ending now failed_at (some (test, finished r)) at h = tt
  finish_at-IsBounded tests p index ending now failed_at (some (test, lost)) at h = tt
  finish_at-IsBounded tests p index ending now failed_at (some (test, running)) at (taken, same) =
      let job = end_job libs runner test ending now failed_at in
      let counted = count-set_job p.jobs index test running job at in
      let ended : as_number (is_running (test, job)) ≡ 0 =
        ap as_number (end_job-ended libs runner test ending now failed_at) in
      (omega (arith, counted, ended, taken), tests-set_job p.jobs index job ∙ same)

  happen-IsBounded :
      (tests : List InstallerTest) (p : Pool) (e : Event)
      → IsBounded tests p
      → IsBoundedIf tests (happen libs runner p e)
  unfolding happen
  happen-IsBounded tests p (start index now now_cancelled) h =
      start_at-IsBounded tests p index now now_cancelled _ refl h
  happen-IsBounded tests p (finish index ending now failed_at) h =
      finish_at-IsBounded tests p index ending now failed_at _ refl h
  happen-IsBounded tests p signal h = h

  Reaches-IsBounded :
      (tests : List InstallerTest) (p q : Pool)
      → Reaches libs runner p q
      → IsBounded tests p
      → IsBounded tests q
  Reaches-IsBounded tests p q stay h = h
  Reaches-IsBounded tests p q (event {q = middle} before e happened) h =
      subst (IsBoundedIf tests) happened
        (happen-IsBounded tests middle e (Reaches-IsBounded tests p middle before h))

  submitted :
      (run_cancelled : Bool) (tests : List InstallerTest)
      → IsBounded tests (submit runner run_cancelled tests)
  unfolding submit
  submitted run_cancelled [] = (omega arith, refl)
  submitted run_cancelled (t ∷ tests) =
      let (taken, same) = submitted run_cancelled tests in (taken, ap (◌∷◌ t) same)

  -- In every pool that events reach from a submission, the tests that run and the permits that are left
  -- are `max_parallel` together, so that no permit is lost and no more tests run at once, and the jobs are
  -- those of the submitted tests, in their order.
  pub Reaches-submit :
      (run_cancelled : Bool) (tests : List InstallerTest) (p : Pool)
      → Reaches libs runner (submit runner run_cancelled tests) p
      → (count_by is_running p.jobs + p.permits ≡ runner.max_parallel)
        × (count_by is_running p.jobs ≤ runner.max_parallel)
        × (tests_of p ≡ tests)
  Reaches-submit run_cancelled tests p reached =
      let (taken, same) =
        Reaches-IsBounded tests (submit runner run_cancelled tests) p reached
          (submitted run_cancelled tests) in
      (taken, omega (arith, taken), same)
