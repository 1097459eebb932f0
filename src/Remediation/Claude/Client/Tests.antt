-- ===== src/Remediation/Claude/Client/Tests.antt =====
-- src/remediation/claude.rs: the client's theorems at concrete calls. Whole seconds are counted, and the
-- envelopes are texts in braces.
use automated_flywheel_setup.Base.{
  ℕ, ◌+◌, ◌*◌, ◌/◌, ◌^◌, ◌≤◌, ◌<◌, min, ◌≡◌, refl, true, false, none, some, List, [], ◌∷◌, ◌==ₛ◌,
  show, arith, trim, ltb, ◌-◌, if◌then◌else◌,
}
use automated_flywheel_setup.Remediation.Breaker.{new_breaker, should_allow}
use automated_flywheel_setup.Remediation.Limiter.{Clock, RateLimiter, new_limiter, try_acquire}
use automated_flywheel_setup.Remediation.Claude.{
  Formats, ClaudeEnvelope, plain_text, parse, hit_cap, advisory_args,
}
use automated_flywheel_setup.Remediation.Claude.Client.{
  Config, Client, Run, ran_too_long, ended, Answers, Times, Effect, ran_cli, waited, ok, called,
  new_client, acquire, acquired, thirty_seconds, fallback_manual_instructions, remaining_budget,
  least_budget, execute_with_resilience,
}
use automated_flywheel_setup.Remediation.Claude.Client.Acquire.{IsPunctual, acquire-acquired}
use automated_flywheel_setup.Remediation.Claude.Client.Guard.{
  IsGuarded, runs_in, execute_with_resilience-IsGuarded,
}
use automated_flywheel_setup.Remediation.Claude.Client.Account.{
  IsPaid, execute_with_resilience-IsPaid,
}
use automated_flywheel_setup.Remediation.Claude.Client.Retries.{
  execute_with_resilience-opens, execute_with_resilience-over_limit,
}
use automated_flywheel_setup.Remediation.Claude.Client.Edit.{
  execute_sessions, execute_sessions-silent,
}

abbrev wrong_answer : ClaudeEnvelope
wrong_answer = record (plain_text "sorry") { is_error = true; total_cost_usd = 3_200_000 }

abbrev formats : Formats
formats = record {
  envelope_of = λ s. if s ==ₛ "{wrong}" then some wrong_answer else none;
  dollars_2 = show;
  dollars_4 = show;
  debug_subtype = λ s. "None";
  booked = λ cost. cost;
}

abbrev clock : Clock
clock = record {
  tokens_for = λ elapsed rate. min (elapsed / 1_000_000_000) (2 ^ 64 - 1);
  wait_for = λ needed rate. if ltb needed (2 ^ 64) then some (needed * 1_000_000_000) else none;
}

abbrev config : Config
config = record { enabled = true; cost_limit_usd = 3_000_000; max_turns = 8; max_retries = 3 }

abbrev at_times : Times
at_times = record {
  started = 0;
  tried = λ round. round * 2_000_000_000;
  checked = λ round. round * 2_000_000_000;
}

abbrev answers_of : (ℕ → Run) → Answers
answers_of run = record {
  allow_at = 0;
  times = at_times;
  rounds = 2;
  run = run;
  failed_at = λ attempt. attempt * 1_000_000_000;
  elapsed_ms = λ attempt. 10;
}

abbrev silent : Answers
silent = answers_of (λ attempt. ran_too_long)

abbrev wrong : Answers
wrong = answers_of (λ attempt. ended false "{wrong}" "")

abbrev client : Client
client = new_client 0

-- Two failures so far, so three more open the circuit.
abbrev shaky : Client
shaky = record client { breaker = record (new_breaker 5 2 60_000_000_000) { failure_count = 2 } }

abbrev empty_bucket : RateLimiter
empty_bucket = record {
  tokens = 0;
  max_tokens = 10;
  refill_rate = 1;
  last_refill = 0;
  cost_per_request = 1;
}

-- The clock counts a token a second, saturates like `as u64`, and asks for no wait that a `Duration` cannot
-- hold; a day of it is far from either.
punctual : IsPunctual clock at_times thirty_seconds empty_bucket
punctual = record {
  wait = λ needed. needed * 1_000_000_000;
  longest = 86_400_000_000_000;
  asked = λ needed few. ground arith;
  enough = λ needed elapsed fits soon h. omega arith;
  in_time = λ needed h. omega arith;
  slept = λ needed h. omega arith;
  ordered = (omega arith, omega arith);
  within = omega arith;
  small = λ elapsed soon. omega arith;
}

acquire-acquired_example : (acquire clock at_times thirty_seconds 2 empty_bucket).0 ≡ acquired
acquire-acquired_example =
    acquire-acquired clock at_times thirty_seconds 0 empty_bucket (omega arith, omega arith)
      (omega arith) punctual

execute_with_resilience-IsGuarded_example :
    IsGuarded formats wrong 3 0 client.request_count
      (execute_with_resilience formats config wrong "fix it" clock client)
    × (0 < runs_in (execute_with_resilience formats config wrong "fix it" clock client).effects
        → (config.enabled ≡ true)
          × ((should_allow client.breaker wrong.allow_at).0 ≡ true)
          × ((acquire clock wrong.times thirty_seconds wrong.rounds client.limiter).0 ≡ acquired)
          × (client.total_cost_usd < config.cost_limit_usd))
execute_with_resilience-IsGuarded_example =
    execute_with_resilience-IsGuarded formats config wrong "fix it" clock client

execute_with_resilience-IsPaid_example :
    IsPaid formats wrong.run 0 client.total_cost_usd
      (execute_with_resilience formats config wrong "fix it" clock client)
execute_with_resilience-IsPaid_example =
    execute_with_resilience-IsPaid formats config wrong "fix it" clock client

execute_with_resilience-opens_example :
    (left : Client) × (time : ℕ) × ((execute_with_resilience formats config silent "fix it" clock
        shaky).client
      ≡ left)
    × ((execute_with_resilience formats config silent "fix it" clock shaky).reply
        ≡ ok (fallback_manual_instructions "fix it"))
    × (left.breaker.last_failure_time ≡ some time)
    × ((later : Answers)
        → time ≤ later.allow_at
        → later.allow_at < time + left.breaker.timeout_duration
        → (execute_with_resilience formats config later "fix it" clock left
            ≡ called (ok (fallback_manual_instructions "fix it")) left))
unfolding new_client new_breaker new_limiter acquire try_acquire
execute_with_resilience-opens_example =
    execute_with_resilience-opens formats config silent "fix it" clock shaky refl
      (record { state = refl; below = omega arith; reached = omega arith; in_range = omega arith })
      refl (omega arith) (λ i. tt)

execute_with_resilience-over_limit_example :
    (later : List Effect) × ((execute_with_resilience formats config wrong "fix it" clock
        client).effects
      ≡ ran_cli (advisory_args formats 8 (remaining_budget config client) "fix it")
        ∷ waited 1
        ∷ ran_cli (advisory_args formats 8 least_budget "fix it")
        ∷ later)
unfolding new_client new_breaker new_limiter acquire should_allow parse trim hit_cap try_acquire
execute_with_resilience-over_limit_example =
    execute_with_resilience-over_limit formats config wrong "fix it" clock client 1 false "{wrong}"
      "" refl refl refl (omega arith) refl refl refl refl (omega arith) (omega arith)

execute_sessions-silent_example :
    (execute_sessions formats config "fix it" "/tmp/w" false clock
      (silent ∷ silent ∷ [])
      client).breaker
    ≡ client.breaker
unfolding new_client new_breaker
execute_sessions-silent_example =
    execute_sessions-silent formats config "fix it" "/tmp/w" false clock (silent ∷ silent ∷ [])
      client refl (tt, (tt, tt))
