-- ===== src/Remediation/Claude/Client/Retries.antt =====
-- src/remediation/claude.rs: what the retries of a call do to the budget and to the circuit breaker.
use mathlib.Core.Path.{subst}
use automated_flywheel_setup.Base.{
  ℕ, zero, suc, ◌+◌, ◌-◌, ◌%◌, ◌^◌, ◌≤◌, ◌<◌, String, ◌≡◌, ◌⊎◌, refl, ap, ◌∙◌, sym, Bool, true,
  false, some, List, [], ◌∷◌, ◌++◌, inl, inr, leb, Bool-cases, arith,
}
use automated_flywheel_setup.Remediation.Outcome.{Usd}
use automated_flywheel_setup.Remediation.Breaker.{
  CircuitBreaker, closed, open_circuit, should_allow, record_failure,
}
use automated_flywheel_setup.Remediation.Limiter.{Clock}
use automated_flywheel_setup.Remediation.Claude.{
  Formats, claude_error, failed_run, interpret_run, reported_error, full_reason, parse, hit_cap,
  advisory_args,
}
use automated_flywheel_setup.Remediation.Claude.Client.Cases.{
  at_start, execute_with_resilience-passed, execute_with_resilience-refused,
}
use automated_flywheel_setup.Remediation.Claude.Client.{
  Config, Client, Run, Answers, Effect, ran_cli, waited, ok, called, behind, add_cost,
  count_request, settle, after_reply, read_run, ran_too_long, not_started, ended,
  execute_claude_cli, is_cap, counts_as_failure, note_failure, wait_before, try_attempts,
  execute_with_resilience, acquire, acquired, thirty_seconds, remaining_budget, least_budget,
  fallback_manual_instructions,
}

-- A run that does not answer.
abbrev pub IsSilent : Run → Type 0
IsSilent ran_too_long = Unit {0}
IsSilent (not_started _) = Unit {0}
IsSilent (ended _ _ _) = ⊥

-- The circuit is open since some time.
abbrev pub IsOpen : CircuitBreaker → Type 0
IsOpen b = (time : ℕ) × (b.state ≡ open_circuit) × (b.last_failure_time ≡ some time)

-- The circuit is closed, and `left` more failures open it.
pub record IsClosing (left : ℕ) (b : CircuitBreaker) : Type 0 where
  pub state : b.state ≡ closed
  pub below : b.failure_count < b.failure_threshold
  pub reached : b.failure_threshold ≤ b.failure_count + left
  pub in_range : b.failure_threshold < 2 ^ 32

record_failure-IsOpen : (b : CircuitBreaker) (now : ℕ) → IsOpen b → IsOpen (record_failure b now)
unfolding record_failure
record_failure-IsOpen b now (time, o, l) = (time, ground arith, ground arith)

record_failure-IsClosing :
    (left : ℕ) (b : CircuitBreaker) (now : ℕ)
    → IsClosing (suc left) b
    → IsOpen (record_failure b now) ⊎ IsClosing left (record_failure b now)
unfolding record_failure
record_failure-IsClosing left b now h =
    elim (Bool-cases (leb b.failure_threshold ((b.failure_count + 1) % 2 ^ 32))) [
      | inl full ↦ inl (now, ground arith, ground arith)
      | inr free ↦ inr (record {
        state = ground arith;
        below = ground arith;
        reached = ground arith;
        in_range = ground arith;
      })
    ]

record_failure-opening :
    (left : ℕ) (b : CircuitBreaker) (now : ℕ)
    → IsOpen b ⊎ IsClosing (suc left) b
    → IsOpen (record_failure b now) ⊎ IsClosing left (record_failure b now)
record_failure-opening left b now (inl o) = inl (record_failure-IsOpen b now o)
record_failure-opening left b now (inr h) = record_failure-IsClosing left b now h

pub should_allow-closed :
    (b : CircuitBreaker) (now : ℕ) → b.state ≡ closed → should_allow b now ≡ (true, b)
unfolding should_allow
should_allow-closed b now h = simp h refl

should_allow-refused :
    (b : CircuitBreaker) (time now : ℕ)
    → b.state ≡ open_circuit
    → b.last_failure_time ≡ some time
    → time ≤ now
    → now < time + b.timeout_duration
    → should_allow b now ≡ (false, b)
unfolding should_allow
should_allow-refused b time now o l before early =
    let closed_still : leb b.timeout_duration (now - time) ≡ false = ground arith in
    simp (o, l, closed_still) refl

interpret_run-claude_error :
    (f : Formats) (status_ok : Bool) (stdout stderr : String)
    → (parse f stdout).is_error ≡ true
    → hit_cap (parse f stdout) ≡ false
    → interpret_run f status_ok stdout stderr
      ≡ failed_run (claude_error (full_reason f (parse f stdout))) (parse f stdout).total_cost_usd
unfolding interpret_run reported_error
interpret_run-claude_error f status_ok stdout stderr error no_cap = simp (error, no_cap) refl

-- Once the limit is spent, the least budget is left.
remaining_budget-spent :
    (f : Formats) (config : Config) (c : Client) (cost : Usd)
    → config.cost_limit_usd ≤ c.total_cost_usd + f.booked cost
    → c.total_cost_usd + f.booked cost < 2 ^ 64
    → remaining_budget config (add_cost f cost (count_request c)) ≡ least_budget
unfolding remaining_budget add_cost count_request
remaining_budget-spent f config c cost over small = omega arith

module _ (f : Formats) (config : Config) (a : Answers) (prompt : String) where
  -- An attempt that gets no answer is counted as a failure, and the next one is made.
  try_attempts-silent :
      (left attempt : ℕ) (c : Client)
      → IsSilent (a.run attempt)
      → try_attempts f config a prompt (suc left) attempt c
        ≡ behind
            (wait_before attempt
              ++ ran_cli (advisory_args f config.max_turns (remaining_budget config c) prompt) ∷ [])
            (try_attempts f config a prompt left
              (suc attempt)
              (note_failure true (a.failed_at attempt) (count_request c)))
  unfolding try_attempts execute_claude_cli
  try_attempts-silent left attempt c silent = go (a.run attempt) silent
    where
      go :
          (run : Run)
          → IsSilent run
          → behind
              (wait_before attempt
                ++ ran_cli (advisory_args f config.max_turns (remaining_budget config c) prompt)
                  ∷ [])
              (after_reply
                (λ client. try_attempts f config a prompt left (suc attempt) client)
                (a.failed_at attempt)
                (read_run f run (a.elapsed_ms attempt) (count_request c)).1
                (read_run f run (a.elapsed_ms attempt) (count_request c)).0)
            ≡ behind
                (wait_before attempt
                  ++ ran_cli (advisory_args f config.max_turns (remaining_budget config c) prompt)
                    ∷ [])
                (try_attempts f config a prompt left
                  (suc attempt)
                  (note_failure true (a.failed_at attempt) (count_request c)))
      go ran_too_long h = unfold read_run after_reply is_cap counts_as_failure in refl
      go (not_started e) h = unfold read_run after_reply is_cap counts_as_failure in refl
      go (ended _ _ _) h = absurd h

  try_attempts-opens :
      (left attempt : ℕ) (c : Client)
      → ((i : ℕ) → IsSilent (a.run i))
      → IsOpen c.breaker ⊎ IsClosing left c.breaker
      → IsOpen (try_attempts f config a prompt left attempt c).client.breaker
        × ((try_attempts f config a prompt left attempt c).reply
            ≡ ok (fallback_manual_instructions prompt))
  try_attempts-opens zero attempt c silent (inl o) = unfold try_attempts in (o, refl)
  try_attempts-opens zero attempt c silent (inr h) = absurd (omega arith)
  try_attempts-opens (suc left) attempt c silent h =
      let next = note_failure true (a.failed_at attempt) (count_request c) in
      rw (try_attempts-silent left attempt c (silent attempt)) (
        try_attempts-opens left (suc attempt) next silent
          (unfold count_request in record_failure-opening left c.breaker (a.failed_at attempt) h))

  -- An attempt that fails by an error of Claude's own is followed by the next one.
  try_attempts-retries :
      (left attempt : ℕ) (c : Client) (status_ok : Bool) (stdout stderr reason : String)
      (cost : Usd)
      → a.run attempt ≡ ended status_ok stdout stderr
      → interpret_run f status_ok stdout stderr ≡ failed_run (claude_error reason) cost
      → try_attempts f config a prompt (suc left) attempt c
        ≡ behind
            (wait_before attempt
              ++ ran_cli (advisory_args f config.max_turns (remaining_budget config c) prompt) ∷ [])
            (try_attempts f config a prompt left (suc attempt) (add_cost f cost (count_request c)))
  unfolding try_attempts execute_claude_cli read_run settle after_reply is_cap counts_as_failure
  try_attempts-retries left attempt c status_ok stdout stderr reason cost run told =
      simp (run, told) refl

  -- The effects of the second attempt.
  second_attempt :
      (left : ℕ) (c : Client)
      → (later : List Effect) × ((try_attempts f config a prompt (suc left) 1 c).effects
          ≡ waited 1
            ∷ ran_cli (advisory_args f config.max_turns (remaining_budget config c) prompt)
            ∷ later)
  unfolding try_attempts execute_claude_cli
  second_attempt left c = (_, refl)

  -- When the circuit is closed and its threshold is no more than the failures so far and the attempts of
  -- one call, a call of which no run is answered opens it and gives the manual instructions; and until
  -- the circuit's time has passed since the last failure, no call runs the CLI or changes the client.
  pub execute_with_resilience-opens :
      (clock : Clock) (c : Client)
      → config.enabled ≡ true
      → IsClosing config.max_retries c.breaker
      → (acquire clock a.times thirty_seconds a.rounds c.limiter).0 ≡ acquired
      → c.total_cost_usd < config.cost_limit_usd
      → ((i : ℕ) → IsSilent (a.run i))
      → (left : Client) × (time : ℕ) × ((execute_with_resilience f config a prompt clock c).client
          ≡ left)
        × ((execute_with_resilience f config a prompt clock c).reply
            ≡ ok (fallback_manual_instructions prompt))
        × (left.breaker.last_failure_time ≡ some time)
        × ((later : Answers)
            → time ≤ later.allow_at
            → later.allow_at < time + left.breaker.timeout_duration
            → (execute_with_resilience f config later prompt clock left
                ≡ called (ok (fallback_manual_instructions prompt)) left))
  execute_with_resilience-opens clock c on closing got under silent =
      let allowed = should_allow-closed c.breaker a.allow_at closing.state in
      let start : Client = at_start f config a prompt clock c in
      let held : start.breaker ≡ c.breaker = ap (λ p. p.1) allowed in
      let opened =
        try_attempts-opens config.max_retries 0 start silent
          (inr (subst (IsClosing config.max_retries) (sym held) closing)) in
      let left : Client = (try_attempts f config a prompt config.max_retries 0 start).client in
      let made =
        execute_with_resilience-passed f config a prompt clock c on (ap (λ p. p.0) allowed) got
          under in
      let (time, o, l) = opened.0 in
      (
        left,
        time,
        ap (λ r. r.client) made,
        ap (λ r. r.reply) made ∙ opened.1,
        l,
        λ later behind_it early.
            execute_with_resilience-refused f config later prompt clock left
              (should_allow-refused left.breaker time later.allow_at o l behind_it early),
      )

  -- A first run that reports an error, not a cap, and whose booked cost has used up the cost limit is followed by another
  -- run all the same, with a budget of a cent: the limit is looked at before the first run only.
  pub execute_with_resilience-over_limit :
      (clock : Clock) (c : Client) (retries : ℕ) (status_ok : Bool) (stdout stderr : String)
      → config.enabled ≡ true
      → (should_allow c.breaker a.allow_at).0 ≡ true
      → (acquire clock a.times thirty_seconds a.rounds c.limiter).0 ≡ acquired
      → c.total_cost_usd < config.cost_limit_usd
      → config.max_retries ≡ suc (suc retries)
      → a.run 0 ≡ ended status_ok stdout stderr
      → (parse f stdout).is_error ≡ true
      → hit_cap (parse f stdout) ≡ false
      → config.cost_limit_usd ≤ c.total_cost_usd + f.booked (parse f stdout).total_cost_usd
      → c.total_cost_usd + f.booked (parse f stdout).total_cost_usd < 2 ^ 64
      → (later : List Effect) × ((execute_with_resilience f config a prompt clock c).effects
          ≡ ran_cli (advisory_args f config.max_turns (remaining_budget config c) prompt)
            ∷ waited 1
            ∷ ran_cli (advisory_args f config.max_turns least_budget prompt)
            ∷ later)
  unfolding remaining_budget
  execute_with_resilience-over_limit clock c retries status_ok stdout stderr on allowed got under
        two run error no_cap over small =
      let start : Client = at_start f config a prompt clock c in
      let cost : Usd = (parse f stdout).total_cost_usd in
      let told = interpret_run-claude_error f status_ok stdout stderr error no_cap in
      let next : Client = add_cost f cost (count_request start) in
      let (later, second) = second_attempt retries next in
      let spent : remaining_budget config next ≡ least_budget =
        remaining_budget-spent f config start cost over small in
      let made =
        execute_with_resilience-passed f config a prompt clock c on allowed got under
        ∙ ap (λ (n : ℕ). try_attempts f config a prompt n 0 start) two
        ∙ try_attempts-retries (suc retries) 0 start status_ok stdout stderr
            (full_reason f (parse f stdout)) cost run told in
      (
        later,
        ap (λ r. r.effects) made
            ∙ ap
                (λ (es : List Effect).
                  ran_cli (advisory_args f config.max_turns (remaining_budget config c) prompt)
                  ∷ es)
                second
            ∙ ap
                (λ (b : Usd).
                  ran_cli (advisory_args f config.max_turns (remaining_budget config c) prompt)
                  ∷ waited 1
                  ∷ ran_cli (advisory_args f config.max_turns b prompt)
                  ∷ later)
                spent,
      )
