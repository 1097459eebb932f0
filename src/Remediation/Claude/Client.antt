-- ===== src/Remediation/Claude/Client.antt =====
-- src/remediation/claude.rs: `ClaudeRemediation`. What the locks and atomics hold is one record; a call
-- that another call does not overlap is a function of it. What the outside does in a call (clocks, the
-- CLI's runs) is a record of answers, and what the client does to the outside is a list of effects.
pub mod Acquire
pub mod Cases
pub mod Guard
pub mod Account
pub mod Retries
pub mod Edit
mod Tests
use automated_flywheel_setup.Base.{
  ℕ, zero, suc, ◌+◌, ◌-◌, ◌%◌, ◌^◌, ◌≤◌, String, Bool, true, false, not, ◌&&◌, Option, none, some,
  List, [], ◌∷◌, ◌++◌, max, concat, ltb, leb, if◌then◌else◌,
}
use automated_flywheel_setup.Remediation.Outcome.{Usd}
use automated_flywheel_setup.Remediation.Breaker.{
  CircuitBreaker, new_breaker, should_allow, record_success, record_failure,
}
use automated_flywheel_setup.Remediation.Limiter.{
  Clock, RateLimiter, Answer, new_limiter, try_acquire, granted, too_many,
}
use automated_flywheel_setup.Remediation.Claude.{
  RemediationError, claude_unavailable, api_error, claude_error, timeout, rate_limited,
  cost_limit_exceeded, parse_error, safety_check_failed, cap_reached, ClaudeEnvelope, Formats,
  Interpreted, envelope, failed_run, interpret_run, advisory_args, edit_args,
}

pub data RemediationMethod : Type 0 where
  claude_auto claude_assisted manual_required not_fixable : RemediationMethod

pub record RemediationResult : Type 0 where
  pub success : Bool
  pub method : RemediationMethod
  pub commit_sha : Option String
  pub pr_url : Option String
  pub duration_ms : ℕ
  pub claude_output : String
  pub estimated_cost_usd : Usd
  pub verification_passed : Bool
  pub envelope_read : Option ClaudeEnvelope

-- `ClaudeRemediationConfig`, as far as the client reads it, with `max_retries`.
pub record Config : Type 0 where
  pub enabled : Bool
  pub cost_limit_usd : Usd
  pub max_turns : ℕ
  pub max_retries : ℕ

pub record Client : Type 0 where
  pub breaker : CircuitBreaker
  pub limiter : RateLimiter
  pub total_cost_usd : Usd
  pub request_count : ℕ

-- `ClaudeRemediation::new` at the time `now`
unfoldable pub new_client : ℕ → Client
unfolding new_breaker new_limiter
new_client now = record {
  breaker = new_breaker 5 2 60_000_000_000;
  limiter = new_limiter 10 1 1 now;
  total_cost_usd = 0;
  request_count = 0;
}

-- How one run of the CLI ends: by the timeout, without a start, or with a status and its output.
pub data Run : Type 0 where
  ran_too_long : Run
  not_started : String → Run
  ended : (status_ok : Bool) (stdout stderr : String) → Run

-- The times at which `acquire` looks: at its start, and in each round before `try_acquire` and behind it.
pub record Times : Type 0 where
  pub started : ℕ
  pub tried : ℕ → ℕ
  pub checked : ℕ → ℕ

-- What the outside does in one call, by the attempt: `allow_at` is the time of `should_allow`,
-- `failed_at` that of `record_failure`.
pub record Answers : Type 0 where
  pub allow_at : ℕ
  pub times : Times
  pub rounds : ℕ
  pub run : ℕ → Run
  pub failed_at : ℕ → ℕ
  pub elapsed_ms : ℕ → ℕ

-- What the client does: a run of the CLI with its arguments, or the wait before an attempt.
pub data Effect : Type 0 where
  ran_cli : List String → Effect
  waited : (attempt : ℕ) → Effect

-- How a call ends; `from_secs_f64` may panic, and `pending` is a wait of more rounds than given.
pub data Reply : Type 0 where
  ok : RemediationResult → Reply
  err : RemediationError → Reply
  panicked : Reply
  pending : Reply

pub data Acquired : Type 0 where
  acquired timed_out wait_panicked still_waiting : Acquired

-- What follows a refusal: the wait, unless it ends behind the deadline, and the `later` rounds.
unfoldable pub wait_or_stop :
    ℕ → ℕ → RateLimiter → Acquired × RateLimiter → Option ℕ → Acquired × RateLimiter
wait_or_stop deadline checked left later none = (wait_panicked, left)
wait_or_stop deadline checked left later (some wait) =
    if ltb deadline (checked + wait) then (timed_out, left) else later

-- The match on `try_acquire`.
unfoldable pub on_answer :
    Clock → ℕ → ℕ → RateLimiter → Acquired × RateLimiter → Answer → Acquired × RateLimiter
unfolding wait_or_stop
on_answer clock deadline checked left later granted = (acquired, left)
on_answer clock deadline checked left later (too_many needed) =
    wait_or_stop deadline checked left later (clock.wait_for needed left.refill_rate)

-- `RateLimiter::acquire`: the rounds from one on, until the deadline.
unfoldable pub acquire_from : Clock → Times → ℕ → ℕ → ℕ → RateLimiter → Acquired × RateLimiter
unfolding on_answer
acquire_from clock t deadline zero round l = (still_waiting, l)
acquire_from clock t deadline (suc rounds) round l =
    let (answer, left) = try_acquire clock (t.tried round) l in
    on_answer clock deadline (t.checked round) left
      (acquire_from clock t deadline rounds (suc round) left) answer

unfoldable pub acquire : Clock → Times → ℕ → ℕ → RateLimiter → Acquired × RateLimiter
unfolding acquire_from
acquire clock t limit rounds l = acquire_from clock t (t.started + limit) rounds 0 l

-- `fallback_manual_instructions`
unfoldable pub fallback_manual_instructions : String → RemediationResult
fallback_manual_instructions prompt = record {
  success = false;
  method = manual_required;
  commit_sha = none;
  pr_url = none;
  duration_ms = 0;
  claude_output = concat (
      "Claude is currently unavailable. Please review the following manually:\n\n" ∷ prompt
      ∷ "\n\nOnce you've made changes, re-run the verification." ∷ []);
  estimated_cost_usd = 0;
  verification_passed = false;
  envelope_read = none;
}

-- `add_cost`: the sum of `u64`s wraps.
unfoldable pub add_cost : Formats → Usd → Client → Client
add_cost f cost c = record c { total_cost_usd = (c.total_cost_usd + f.booked cost) % 2 ^ 64 }

-- `request_count.fetch_add(1)`
unfoldable pub count_request : Client → Client
count_request c = record c { request_count = (c.request_count + 1) % 2 ^ 32 }

abbrev pub result_of : ClaudeEnvelope → ℕ → RemediationResult
result_of e duration_ms = record {
  success = true;
  method = claude_auto;
  commit_sha = none;
  pr_url = none;
  duration_ms = duration_ms;
  claude_output = e.result;
  estimated_cost_usd = e.total_cost_usd;
  verification_passed = false;
  envelope_read = some e;
}

-- The smallest budget that is handed to the CLI, one cent.
abbrev pub least_budget : Usd
least_budget = 10_000

-- `remaining_budget`
unfoldable pub remaining_budget : Config → Client → Usd
remaining_budget config c = max (config.cost_limit_usd - c.total_cost_usd) least_budget

-- The match on `interpret_run`.
unfoldable pub settle : Formats → Interpreted → ℕ → Client → Reply × Client
unfolding add_cost
settle f (envelope e) ms c = (ok (result_of e ms), add_cost f e.total_cost_usd c)
settle f (failed_run e cost) ms c = (err e, add_cost f cost c)

-- What `output` gave: the envelope or the error, and the client with the cost.
unfoldable pub read_run : Formats → Run → ℕ → Client → Reply × Client
unfolding settle
read_run f ran_too_long ms c = (err timeout, c)
read_run f (not_started e) ms c = (err (claude_unavailable e), c)
read_run f (ended status_ok stdout stderr) ms c =
    settle f (interpret_run f status_ok stdout stderr) ms c

-- `execute_claude_cli`
unfoldable pub execute_claude_cli :
    Formats → Config → String → Run → ℕ → Client → Reply × Client × Effect
unfolding read_run count_request remaining_budget
execute_claude_cli f config prompt run ms c =
    let args = advisory_args f config.max_turns (remaining_budget config c) prompt in
    let (reply, left) = read_run f run ms (count_request c) in (reply, left, ran_cli args)

-- A cap that the operator set: retrying cannot help.
unfoldable pub is_cap : RemediationError → Bool
is_cap (cap_reached _) = true
is_cap (cost_limit_exceeded _ _) = true
is_cap _ = false

-- An error that counts as a failure of the service.
unfoldable pub counts_as_failure : RemediationError → Bool
counts_as_failure (claude_unavailable _) = true
counts_as_failure timeout = true
counts_as_failure (api_error _) = true
counts_as_failure _ = false

abbrev pub note_failure : Bool → ℕ → Client → Client
note_failure true now c = record c { breaker = record_failure c.breaker now }
note_failure false now c = c

abbrev pub note_success : Client → Client
note_success c = record c { breaker = record_success c.breaker }

abbrev pub wait_before : ℕ → List Effect
wait_before attempt = if ltb 0 attempt then waited attempt ∷ [] else []

-- What a call gives: its reply, the client behind it, and its effects.
pub record Called : Type 0 where
  pub reply : Reply
  pub client : Client
  pub effects : List Effect

abbrev pub called : Reply → Client → Called
called reply c = record { reply = reply; client = c; effects = [] }

abbrev pub behind : List Effect → Called → Called
behind es r = record r { effects = es ++ r.effects }

abbrev pub thirty_seconds : ℕ
thirty_seconds = 30_000_000_000

-- The match on the reply of an attempt; `again` makes the next ones.
unfoldable pub after_reply : (Client → Called) → ℕ → Client → Reply → Called
unfolding is_cap counts_as_failure
after_reply again failed_at c (ok r) = called (ok r) (note_success c)
after_reply again failed_at c (err e) =
    if is_cap e then called (err e) c else again (note_failure (counts_as_failure e) failed_at c)
after_reply again failed_at c other = called other c

module _ (f : Formats) (config : Config) (a : Answers) (prompt : String) where
  -- The loop: the attempts that are left, the number of the next, and the client.
  unfoldable pub try_attempts : ℕ → ℕ → Client → Called
  unfolding execute_claude_cli after_reply fallback_manual_instructions
  try_attempts zero attempt c = called (ok (fallback_manual_instructions prompt)) c
  try_attempts (suc left) attempt c =
      let (reply, after, effect) =
        execute_claude_cli f config prompt (a.run attempt) (a.elapsed_ms attempt) c in
      let again = λ (client : Client). try_attempts left (suc attempt) client in
      behind (wait_before attempt ++ effect ∷ [])
        (after_reply again (a.failed_at attempt) after reply)

  -- What stands behind the rate limiter: the cost cap and the attempts.
  unfoldable pub check_cost : Client → Called
  unfolding try_attempts
  check_cost c =
      if leb config.cost_limit_usd c.total_cost_usd
      then called (err (cost_limit_exceeded c.total_cost_usd config.cost_limit_usd)) c
      else try_attempts config.max_retries 0 c

  -- The match on the token.
  unfoldable pub with_token : Client → Acquired → Called
  unfolding check_cost
  with_token c acquired = check_cost c
  with_token c timed_out = called (err (rate_limited "Rate limit timeout exceeded")) c
  with_token c wait_panicked = called panicked c
  with_token c still_waiting = called pending c

  unfoldable pub take_token : Clock → Client → Called
  unfolding acquire with_token
  take_token clock c =
      let (got, limiter) = acquire clock a.times thirty_seconds a.rounds c.limiter in
      with_token (record c { limiter = limiter }) got

  -- `execute_with_resilience`
  unfoldable pub execute_with_resilience : Clock → Client → Called
  unfolding take_token fallback_manual_instructions
  execute_with_resilience clock c =
      let (allowed, breaker) = should_allow c.breaker a.allow_at in
      if not config.enabled
      then called (ok (fallback_manual_instructions prompt)) c
      else if not allowed
      then called (ok (fallback_manual_instructions prompt)) (record c { breaker = breaker })
      else take_token clock (record c { breaker = breaker })
