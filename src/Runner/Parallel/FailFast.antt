-- ===== src/Runner/Parallel/FailFast.antt =====
-- src/runner/parallel.rs: once a token is cancelled, no test starts to run.
use mathlib.Core.Path.{subst}
use automated_flywheel_setup.Base.{
  ℕ, ◌≡◌, ◌≢◌, refl, sym, ap, ◌∙◌, true, false, Option, none, some, arith, get_elem?, Bool-cases,
  inl, inr, ltb,
}
use automated_flywheel_setup.Runner.Installer.{InstallerTest, TestResult, cancelled}
use automated_flywheel_setup.Runner.Executor.{Libs}
use automated_flywheel_setup.Runner.Executor.Retries.{Ending, returned}
use automated_flywheel_setup.Runner.Parallel.{
  Job, queued, running, finished, lost, ParallelRunner, Pool, is_running, is_cancelled, Event,
  start, finish, signal, begin_job, end_job, put, start_at, finish_at, happen, Reaches, stay, event,
}
use automated_flywheel_setup.Runner.Parallel.Jobs.{end_job-ended, running-set_job}

module _ (libs : Libs) (runner : ParallelRunner) where
  -- Each test that runs in the second pool runs in the first.
  abbrev StartsNothing : Pool → Pool → Type 0
  StartsNothing p q =
      (i : ℕ) (test : InstallerTest)
      → get_elem? q.jobs i ≡ some (test, running)
      → get_elem? p.jobs i ≡ some (test, running)

  abbrev StartsNothingIf : Pool → Option Pool → Type 0
  StartsNothingIf p none = Unit
  StartsNothingIf p (some q) = StartsNothing p q × (is_cancelled q ≡ true)

  begin_job-cancelled :
      (p : Pool) (test : InstallerTest) (now now_cancelled : ℕ)
      → is_cancelled p ≡ true
      → is_running (test, begin_job libs runner p test now now_cancelled) ≡ false
  unfolding begin_job
  begin_job-cancelled p test now now_cancelled h = ground arith

  start_at-StartsNothing :
      (p : Pool) (index now now_cancelled : ℕ) (o : Option (InstallerTest × Job))
      → is_cancelled p ≡ true
      → StartsNothingIf p (start_at libs runner p index now now_cancelled o)
  start_at-StartsNothing p index now now_cancelled none h = tt
  start_at-StartsNothing p index now now_cancelled (some (test, running)) h = tt
  start_at-StartsNothing p index now now_cancelled (some (test, finished r)) h = tt
  start_at-StartsNothing p index now now_cancelled (some (test, lost)) h = tt
  start_at-StartsNothing p index now now_cancelled (some (test, queued)) h =
      elim (Bool-cases (ltb 0 p.permits)) [
        | inl free ↦ rw free (
          (λ i t runs.
              running-set_job p.jobs index i t _ (begin_job-cancelled p test now now_cancelled h)
                runs),
          h,
        )
        | inr full ↦ rw full tt
      ]

  finish_at-StartsNothing :
      (p : Pool) (index : ℕ) (ending : Ending) (now failed_at : ℕ)
      (o : Option (InstallerTest × Job))
      → is_cancelled p ≡ true
      → StartsNothingIf p (finish_at libs runner p index ending now failed_at o)
  finish_at-StartsNothing p index ending now failed_at none h = tt
  finish_at-StartsNothing p index ending now failed_at (some (test, queued)) h = tt
  finish_at-StartsNothing p index ending now failed_at (some (test, finished r)) h = tt
  finish_at-StartsNothing p index ending now failed_at (some (test, lost)) h = tt
  finish_at-StartsNothing p index ending now failed_at (some (test, running)) h = (
    (λ i t runs.
        running-set_job p.jobs index i t _ (end_job-ended libs runner test ending now failed_at)
          runs),
    ground arith,
  )

  happen-StartsNothing :
      (p : Pool) (e : Event) → is_cancelled p ≡ true → StartsNothingIf p (happen libs runner p e)
  unfolding happen
  happen-StartsNothing p (start index now now_cancelled) h =
      start_at-StartsNothing p index now now_cancelled _ h
  happen-StartsNothing p (finish index ending now failed_at) h =
      finish_at-StartsNothing p index ending now failed_at _ h
  happen-StartsNothing p signal h = ((λ i t runs. runs), refl)

  Reaches-cancelled :
      (p q : Pool)
      → Reaches libs runner p q
      → is_cancelled p ≡ true
      → StartsNothing p q × (is_cancelled q ≡ true)
  Reaches-cancelled p q stay h = ((λ i t runs. runs), h)
  Reaches-cancelled p q (event {q = middle} before e happened) h =
      let (nothing, still) = Reaches-cancelled p middle before h in
      let (later, now) =
        subst (StartsNothingIf middle) happened (happen-StartsNothing middle e still) in
      ((λ i t runs. nothing i t (later i t runs)), now)

  IsCancelledIf : Option Pool → Type 0
  IsCancelledIf none = Unit
  IsCancelledIf (some q) = is_cancelled q ≡ true

  put-cancels :
      (p : Pool) (index : ℕ) (r : TestResult)
      → runner.fail_fast ≡ true
      → r.success ≡ false
      → r.status ≢ cancelled
      → is_cancelled (put libs runner p index (finished r)) ≡ true
  put-cancels p index r fast fails status = ground arith

  finish-cancels :
      (p q : Pool) (index : ℕ) (test : InstallerTest) (r : TestResult) (now failed_at : ℕ)
      → get_elem? p.jobs index ≡ some (test, running)
      → runner.fail_fast ≡ true
      → r.success ≡ false
      → r.status ≢ cancelled
      → happen libs runner p (finish index (returned r) now failed_at) ≡ some q
      → is_cancelled q ≡ true
  unfolding happen end_job IsCancelledIf
  finish-cancels p q index test r now failed_at at fast fails status happened =
      subst IsCancelledIf
        (sym (ap (finish_at libs runner p index (returned r) now failed_at) at) ∙ happened)
        (put-cancels p index r fast fails status)

  -- Under fail-fast, once a running test ends with a failure that is no cancellation, no test starts to
  -- run any more: whatever events follow, each test that runs later was running already.
  pub Reaches-fail_fast :
      (p q later : Pool) (index : ℕ) (test : InstallerTest) (r : TestResult) (now failed_at : ℕ)
      → get_elem? p.jobs index ≡ some (test, running)
      → runner.fail_fast ≡ true
      → r.success ≡ false
      → r.status ≢ cancelled
      → happen libs runner p (finish index (returned r) now failed_at) ≡ some q
      → Reaches libs runner q later
      → (i : ℕ) (other : InstallerTest) → get_elem? later.jobs i ≡ some (other, running)
      → get_elem? q.jobs i ≡ some (other, running)
  Reaches-fail_fast p q later index test r now failed_at at fast fails status happened reached i
        other runs =
      (Reaches-cancelled q later reached
          (finish-cancels p q index test r now failed_at at fast fails status happened)).0
        i other runs
