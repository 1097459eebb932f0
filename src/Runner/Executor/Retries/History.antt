-- ===== src/Runner/Executor/Retries/History.antt =====
-- src/runner/executor.rs: the attempts that a run with retries reports.
use native.Mathlib.Decide.{dec_lt}
use mathlib.Core.Path.{subst}
use automated_flywheel_setup.Base.{
  ℕ, zero, suc, ◌+◌, ◌≤◌, ◌<◌, ◌≡◌, refl, true, false, Option, none, some, List, [], ◌∷◌, ◌++◌,
  length, length-append, arith, Bool-cases, inl, inr, ◌⊎◌, ◌≢◌,
}
use automated_flywheel_setup.Runner.Installer.{TestResult, InstallerTest, AttemptRecord, RetryInfo}
use automated_flywheel_setup.Runner.Retry.{Floats}
use automated_flywheel_setup.Runner.Executor.{Fallible, ok, err, Libs, RunnerConfig}
use automated_flywheel_setup.Runner.Executor.Retries.{
  Round, Loop, Ending, returned, stopped, panicked, exhausted, Step, ended, again, initial,
  record_of, max_attempts_of, last_result, cancelled_result, next_loop, wants_retry, wait_for,
  after_attempt, next_step, attempt_of, run_attempts, run_test_with_retry, should_retry_result,
  retry_info,
}

-- The records carry the numbers from `from` on.
abbrev pub IsNumbered : ℕ → List AttemptRecord → Type 0
IsNumbered from [] = Unit
IsNumbered from (a ∷ rest) = (a.index ≡ from) × IsNumbered (from + 1) rest

abbrev pub IsNumberedInfo : ℕ → List RetryInfo → Type 0
IsNumberedInfo from [] = Unit
IsNumberedInfo from (a ∷ rest) = (a.attempt ≡ from) × IsNumberedInfo (from + 1) rest

IsNumbered-append :
    (from : ℕ) (rest : List AttemptRecord) (a : AttemptRecord)
    → IsNumbered from rest
    → a.index ≡ from + length rest
    → IsNumbered from (rest ++ a ∷ [])
IsNumbered-append from [] a h e = (omega arith, tt)
IsNumbered-append from (b ∷ bs) a (here, later) e =
    (here, IsNumbered-append (from + 1) bs a later (omega arith))

IsNumberedInfo-append :
    (from : ℕ) (rest : List RetryInfo) (a : RetryInfo)
    → IsNumberedInfo from rest
    → a.attempt ≡ from + length rest
    → IsNumberedInfo from (rest ++ a ∷ [])
IsNumberedInfo-append from [] a h e = (omega arith, tt)
IsNumberedInfo-append from (b ∷ bs) a (here, later) e =
    (here, IsNumberedInfo-append (from + 1) bs a later (omega arith))

module _ {F : Type 0} (fl : Floats F) (jitter_fraction : F) (libs : Libs) (config : RunnerConfig F)
    (test : InstallerTest) (started_at : ℕ) (rounds : ℕ → Round F) where
  -- The attempt with the number `index` gave a result that is retried, and the run was not cancelled.
  abbrev pub IsRetried : ℕ → Type 0
  IsRetried index =
      (r : TestResult) × (attempt_of fl jitter_fraction libs config test started_at rounds index
        ≡ ok r)
      × (should_retry_result libs r ≡ true)
      × ((rounds index).is_cancelled ≡ false)

  -- The loop's variables before the attempt `attempt_index`.
  abbrev IsHistory : Loop → Type 0
  IsHistory l =
      (length l.attempts + 1 ≡ l.attempt_index)
      × (length l.retries + 1 ≡ l.attempt_index)
      × (l.attempt_index ≤ max_attempts_of test)
      × IsNumbered 1 l.attempts
      × IsNumberedInfo 1 l.retries
      × ((i : ℕ) → 1 ≤ i → i < l.attempt_index → IsRetried i)

  -- What a returned result tells of the run.
  abbrev pub IsReported : TestResult → Type 0
  IsReported r =
      (length r.attempts ≡ r.attempt)
      × (1 ≤ r.attempt)
      × (r.attempt ≤ max_attempts_of test)
      × (r.max_attempts ≡ max_attempts_of test)
      × IsNumbered 1 r.attempts
      × IsNumberedInfo 1 r.retries
      × ((length r.retries + 1 ≡ r.attempt) ⊎ (length r.retries ≡ r.attempt))
      × ((i : ℕ) → 1 ≤ i → i < r.attempt → IsRetried i)

  abbrev StepHolds : Loop → Step → Type 0
  StepHolds l (ended (returned r)) = IsReported r
  StepHolds l (ended (stopped e)) = Unit
  StepHolds l (ended panicked) = Unit
  StepHolds l (ended exhausted) = ⊥
  StepHolds l (again l') = IsHistory l' × (l'.attempt_index ≡ l.attempt_index + 1)

  abbrev EndHolds : Ending → Type 0
  EndHolds (returned r) = IsReported r
  EndHolds (stopped e) = Unit
  EndHolds panicked = Unit
  EndHolds exhausted = ⊥

  module _ (l : Loop) (r : TestResult) (h : IsHistory l) where
    -- The history with the record of this attempt.
    attempts_grow :
        (length (l.attempts ++ record_of l r ∷ []) ≡ l.attempt_index)
        × IsNumbered 1 (l.attempts ++ record_of l r ∷ [])
    attempts_grow = (
      omega (arith, length-append l.attempts (record_of l r ∷ []), h.0),
      IsNumbered-append 1 l.attempts (record_of l r) h.3 (omega (arith, h.0)),
    )

    retries_grow :
        (wait : ℕ)
        → (length (l.retries ++ retry_info l r wait ∷ []) ≡ l.attempt_index)
          × IsNumberedInfo 1 (l.retries ++ retry_info l r wait ∷ [])
    retries_grow wait =
        let info = retry_info l r wait in
        (
          omega (arith, length-append l.retries (info ∷ []), h.1),
          IsNumberedInfo-append 1 l.retries info h.4 (omega (arith, h.1)),
        )

    positive : 1 ≤ l.attempt_index
    positive = omega (arith, h.0)

    last_result-IsReported :
        (elapsed : ℕ)
        → IsReported (last_result fl jitter_fraction libs config test started_at rounds l r elapsed)
    unfolding last_result
    last_result-IsReported elapsed =
        let (enough, numbered) = attempts_grow in
        (enough, positive, h.2, refl, numbered, h.4, inl h.1, h.5)

    cancelled_result-IsReported :
        (wait : ℕ) (round : Round F)
        → IsReported
            (cancelled_result fl jitter_fraction libs config test started_at rounds l r wait round)
    unfolding cancelled_result
    cancelled_result-IsReported wait round =
        let (enough, numbered) = attempts_grow in
        let (as_many, numbered_too) = retries_grow wait in
        (enough, positive, h.2, refl, numbered, numbered_too, inr as_many, h.5)

    wait_for-holds :
        (o : Option ℕ)
        → wants_retry fl jitter_fraction libs config test started_at rounds l r ≡ true
        → attempt_of fl jitter_fraction libs config test started_at rounds l.attempt_index ≡ ok r
        → StepHolds l (wait_for fl jitter_fraction libs config test started_at rounds l r o)
    unfolding wait_for cancelled_result
    wait_for-holds none wants from = tt
    wait_for-holds (some wait) wants from =
        elim (Bool-cases (rounds l.attempt_index).cancelled_in_backoff) [
          | inl stop ↦ rw stop (cancelled_result-IsReported wait (rounds l.attempt_index))
          | inr on ↦ rw on (grown, refl)
        ]
      where
        this : (i : ℕ) → i ≡ l.attempt_index → IsRetried i
        this i e = rw e (r, from, ground arith, ground arith)

        before : (i : ℕ) → 1 ≤ i → i < l.attempt_index + 1 → IsRetried i
        before i p q = elim (dec_lt i l.attempt_index) [
          | yes earlier ↦ h.5 i p earlier
          | no not_earlier ↦ this i (omega arith)
        ]

        grown : IsHistory (next_loop fl jitter_fraction libs config test started_at rounds l r wait)
        grown =
            let (enough, numbered) = attempts_grow in
            let (as_many, numbered_too) = retries_grow wait in
            let below : l.attempt_index < max_attempts_of test = ground arith in
            (omega arith, omega arith, omega arith, numbered, numbered_too, before)

    after_attempt-holds :
        attempt_of fl jitter_fraction libs config test started_at rounds l.attempt_index ≡ ok r
        → StepHolds l (after_attempt fl jitter_fraction libs config test started_at rounds l r)
    unfolding after_attempt
    after_attempt-holds from =
        elim (Bool-cases (wants_retry fl jitter_fraction libs config test started_at rounds l r)) [
          | inl wants ↦ rw wants (wait_for-holds _ wants from)
          | inr no_more ↦ rw no_more (last_result-IsReported (rounds l.attempt_index).elapsed)
        ]

  next_step-holds :
      (l : Loop) (o : Fallible TestResult)
      → IsHistory l
      → attempt_of fl jitter_fraction libs config test started_at rounds l.attempt_index ≡ o
      → StepHolds l (next_step fl jitter_fraction libs config test started_at rounds l o)
  unfolding next_step
  next_step-holds l (err e) h from = tt
  next_step-holds l (ok r) h from = after_attempt-holds l r h from

  abbrev next_ending : ℕ → Step → Ending
  next_ending fuel (ended e) = e
  next_ending fuel (again l) =
      run_attempts fl jitter_fraction libs config test started_at rounds fuel l

  run_attempts-suc :
      (fuel : ℕ) (l : Loop)
      → run_attempts fl jitter_fraction libs config test started_at rounds (suc fuel) l
        ≡ next_ending fuel (
            next_step fl jitter_fraction libs config test started_at rounds l
              (attempt_of fl jitter_fraction libs config test started_at rounds l.attempt_index))
  unfolding run_attempts
  run_attempts-suc fuel l = next_lem (
      next_step fl jitter_fraction libs config test started_at rounds l
        (attempt_of fl jitter_fraction libs config test started_at rounds l.attempt_index))
    where
      next_lem :
          (s : Step)
          → elim s [
            | ended e ↦ e
            | again l' ↦ run_attempts fl jitter_fraction libs config test started_at rounds fuel l'
          ]
            ≡ next_ending fuel s
      next_lem (ended e) = refl
      next_lem (again l') = refl

  run_attempts-holds :
      (fuel : ℕ) (l : Loop)
      → IsHistory l
      → max_attempts_of test + 1 ≤ l.attempt_index + fuel
      → EndHolds (run_attempts fl jitter_fraction libs config test started_at rounds fuel l)
  unfolding run_attempts
  run_attempts-holds zero l h enough = absurd (omega (arith, h.2))
  run_attempts-holds (suc fuel) l h enough = rw (run_attempts-suc fuel l) (
      end_of (λ l' grown left. run_attempts-holds fuel l' grown left) _
        (next_step-holds l _ h refl))
    where
      end_of :
          ((l' : Loop)
            → IsHistory l'
            → max_attempts_of test + 1 ≤ l'.attempt_index + fuel
            → EndHolds (run_attempts fl jitter_fraction libs config test started_at rounds fuel l'))
          → (s : Step) → StepHolds l s
          → EndHolds (next_ending fuel s)
      end_of later (ended (returned r)) holds = holds
      end_of later (ended (stopped e)) holds = tt
      end_of later (ended panicked) holds = tt
      end_of later (ended exhausted) holds = holds
      end_of later (again l') (grown, step) = later l' grown (omega arith)

  initial-IsHistory : IsHistory initial
  initial-IsHistory = (refl, refl, omega arith, tt, tt, λ i p q. absurd (omega arith))

  run_test_with_retry-holds :
      EndHolds (run_test_with_retry fl jitter_fraction libs config test started_at rounds)
  unfolding run_test_with_retry
  run_test_with_retry-holds =
      run_attempts-holds (max_attempts_of test) initial initial-IsHistory (omega arith)

  -- The loop ends within `retry_count` rounds, or one if that is 0: it never asks for another.
  pub run_test_with_retry-ends :
      run_test_with_retry fl jitter_fraction libs config test started_at rounds ≢ exhausted
  run_test_with_retry-ends e = subst EndHolds e run_test_with_retry-holds

  -- A result that a run with retries returns has the record of every attempt, numbered from 1 to
  -- `attempt`, which is at most `max_attempts`, the test's retry count or 1; a retry record for each
  -- attempt but the last, or for each if the run was cancelled while it waited; and every earlier
  -- attempt gave a result that the policy retries while the run was not cancelled.
  pub run_test_with_retry-IsReported :
      (r : TestResult)
      → run_test_with_retry fl jitter_fraction libs config test started_at rounds ≡ returned r
      → IsReported r
  run_test_with_retry-IsReported r e = subst EndHolds e run_test_with_retry-holds
