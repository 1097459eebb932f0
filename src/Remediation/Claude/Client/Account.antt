-- ===== src/Remediation/Claude/Client/Account.antt =====
-- src/remediation/claude.rs: what a call adds to the total cost.
use mathlib.Core.Path.{subst}
use automated_flywheel_setup.Base.{
  ℕ, zero, suc, ◌+◌, ◌%◌, ◌^◌, String, ◌≡◌, ◌↔◌, refl, ap, Bool, true, false, List, [], ◌∷◌, ◌++◌,
  inl, inr, Bool-cases, arith,
}
use automated_flywheel_setup.Remediation.Outcome.{Usd}
use automated_flywheel_setup.Remediation.Limiter.{Clock}
use automated_flywheel_setup.Remediation.Claude.{
  Formats, Interpreted, envelope, failed_run, interpret_run, parse,
}
use automated_flywheel_setup.Remediation.Claude.Client.Cases.{execute_with_resilience-cases}
use automated_flywheel_setup.Remediation.Claude.Client.Guard.{runs_in, runs_in-wait_before}
use automated_flywheel_setup.Remediation.Claude.Client.{
  Config, Client, Run, Answers, ran_cli, Reply, ok, err, panicked, pending, Called, called, behind,
  add_cost, count_request, settle, after_reply, read_run, ran_too_long, not_started, ended,
  execute_claude_cli, is_cap, counts_as_failure, note_failure, note_success, wait_before,
  try_attempts, execute_with_resilience,
}

-- What the cost in the envelope on stdout is booked as; nothing, if there was no output.
abbrev pub cost_of : Formats → Run → Usd
cost_of f ran_too_long = 0
cost_of f (not_started _) = 0
cost_of f (ended status_ok stdout stderr) = f.booked (parse f stdout).total_cost_usd

-- The cost of the runs from number `attempt` on.
abbrev pub cost_of_runs : Formats → (ℕ → Run) → ℕ → ℕ → Usd
cost_of_runs f run attempt zero = 0
cost_of_runs f run attempt (suc n) = cost_of f (run attempt) + cost_of_runs f run (suc attempt) n

abbrev pub cost_in : Interpreted → Usd
cost_in (envelope e) = e.total_cost_usd
cost_in (failed_run _ cost) = cost

-- A run gives its envelope exactly if its status is good and the envelope reports no error; and whatever
-- it gives has the cost that stands in the envelope.
interpret_run-envelope_iff :
    (f : Formats) (status_ok : Bool) (stdout stderr : String)
    → ((interpret_run f status_ok stdout stderr ≡ envelope (parse f stdout))
        ↔ ((status_ok ≡ true) × ((parse f stdout).is_error ≡ false)))
      × (cost_in (interpret_run f status_ok stdout stderr) ≡ (parse f stdout).total_cost_usd)
unfolding interpret_run
interpret_run-envelope_iff f status_ok stdout stderr =
    ((λ h. ground arith, λ h. ground arith), ground arith)

settle-total_cost_usd :
    (f : Formats) (i : Interpreted) (ms : ℕ) (c : Client)
    → (settle f i ms c).1.total_cost_usd ≡ (c.total_cost_usd + f.booked (cost_in i)) % 2 ^ 64
unfolding settle add_cost
settle-total_cost_usd f (envelope _) ms c = refl
settle-total_cost_usd f (failed_run _ _) ms c = refl

read_run-total_cost_usd :
    (f : Formats) (run : Run) (ms : ℕ) (c : Client)
    → (read_run f run ms c).1.total_cost_usd % 2 ^ 64 ≡ (c.total_cost_usd + cost_of f run) % 2 ^ 64
unfolding read_run
read_run-total_cost_usd f ran_too_long ms c = omega arith
read_run-total_cost_usd f (not_started _) ms c = omega arith
read_run-total_cost_usd f (ended status_ok stdout stderr) ms c = omega (
  arith,
  settle-total_cost_usd f (interpret_run f status_ok stdout stderr) ms c,
  ap f.booked (interpret_run-envelope_iff f status_ok stdout stderr).1,
)

-- The total behind a call that found `before`: the costs of its runs, from number `attempt` on, are added.
abbrev pub IsPaid : Formats → (ℕ → Run) → ℕ → Usd → Called → Type 0
IsPaid f run attempt before r =
    r.client.total_cost_usd % 2 ^ 64
    ≡ (before + cost_of_runs f run attempt (runs_in r.effects)) % 2 ^ 64

module _ (f : Formats) (a : Answers) (attempt : ℕ) (before : Usd) (args : List String) where
  one_more :
      (r : Called) (after : Usd)
      → after % 2 ^ 64 ≡ (before + cost_of f (a.run attempt)) % 2 ^ 64
      → IsPaid f a.run (suc attempt) after r
      → IsPaid f a.run attempt before (behind (wait_before attempt ++ ran_cli args ∷ []) r)
  one_more r after h paid = rw (runs_in-wait_before attempt args r.effects) (omega arith)

  after_reply-IsPaid :
      (again : Client → Called) (failed_at : ℕ) (after : Client) (reply : Reply)
      → ((c : Client) → IsPaid f a.run (suc attempt) c.total_cost_usd (again c))
      → after.total_cost_usd % 2 ^ 64 ≡ (before + cost_of f (a.run attempt)) % 2 ^ 64
      → IsPaid f a.run attempt before (
          behind
            (wait_before attempt ++ ran_cli args ∷ [])
            (after_reply again failed_at after reply))
  unfolding after_reply
  after_reply-IsPaid again t after (ok r) paid h =
      one_more (called (ok r) (note_success after)) after.total_cost_usd h (omega arith)
  after_reply-IsPaid again t after (err e) paid h = elim (Bool-cases (is_cap e)) [
    | inl cap ↦ simp cap (one_more (called (err e) after) after.total_cost_usd h (omega arith))
    | inr other ↦ simp other (retried (counts_as_failure e))
  ]
    where
      retried :
          (b : Bool)
          → IsPaid f a.run attempt before
              (behind (wait_before attempt ++ ran_cli args ∷ []) (again (note_failure b t after)))
      retried true =
          one_more (again (note_failure true t after)) after.total_cost_usd h
            (paid (note_failure true t after))
      retried false = one_more (again after) after.total_cost_usd h (paid after)
  after_reply-IsPaid again t after panicked paid h =
      one_more (called panicked after) after.total_cost_usd h (omega arith)
  after_reply-IsPaid again t after pending paid h =
      one_more (called pending after) after.total_cost_usd h (omega arith)

module _ (f : Formats) (config : Config) (a : Answers) (prompt : String) where
  try_attempts-IsPaid :
      (left attempt : ℕ) (c : Client)
      → IsPaid f a.run attempt c.total_cost_usd (try_attempts f config a prompt left attempt c)
  unfolding try_attempts execute_claude_cli count_request
  try_attempts-IsPaid zero attempt c = omega arith
  try_attempts-IsPaid (suc left) attempt c =
      after_reply-IsPaid f a attempt c.total_cost_usd _
        (λ client. try_attempts f config a prompt left (suc attempt) client) (a.failed_at attempt)
        (read_run f (a.run attempt) (a.elapsed_ms attempt) (count_request c)).1
        (read_run f (a.run attempt) (a.elapsed_ms attempt) (count_request c)).0
        (λ client. try_attempts-IsPaid left (suc attempt) client)
        (read_run-total_cost_usd f (a.run attempt) (a.elapsed_ms attempt) (count_request c))

  -- Whatever the reply, a call adds to the total, a wrapping counter, for each of its runs of the CLI what
  -- the cost in the run's envelope is booked as, also where the run failed, and nothing else.
  pub execute_with_resilience-IsPaid :
      (clock : Clock) (c : Client)
      → IsPaid f a.run 0 c.total_cost_usd (execute_with_resilience f config a prompt clock c)
  execute_with_resilience-IsPaid clock c =
      elim (execute_with_resilience-cases f config a prompt clock c) [
        | inl (reply, left, e, counted, spent) ↦ rw e (omega (arith, spent))
        | inr (start, on, allowed, got, under, made, counted, spent, held) ↦ rw made (
            subst
              (λ n. IsPaid f a.run 0 n (try_attempts f config a prompt config.max_retries 0 start))
              spent (try_attempts-IsPaid config.max_retries 0 start))
      ]
