-- ===== src/Remediation/Breaker.antt =====
-- src/remediation/claude.rs: `CircuitBreaker`. The state behind its locks is one record, each method
-- one step on it; `Instant`s are nanoseconds, and counters are `u32`.
mod Tests
pub mod Invariant
pub mod Opening
use automated_flywheel_setup.Base.{
  ℕ, ◌+◌, ◌-◌, ◌%◌, ◌^◌, Bool, true, false, Option, none, some, List, [], ◌∷◌, leb, if◌then◌else◌,
}

pub data CircuitState : Type 0 where
  closed open_circuit half_open : CircuitState

pub record CircuitBreaker : Type 0 where
  pub state : CircuitState
  pub failure_count : ℕ
  pub success_count : ℕ
  pub last_failure_time : Option ℕ
  pub failure_threshold : ℕ
  pub success_threshold : ℕ
  pub timeout_duration : ℕ

-- `CircuitBreaker::new`
unfoldable pub new_breaker : ℕ → ℕ → ℕ → CircuitBreaker
new_breaker failure_threshold success_threshold timeout = record {
  state = closed;
  failure_count = 0;
  success_count = 0;
  last_failure_time = none;
  failure_threshold = failure_threshold;
  success_threshold = success_threshold;
  timeout_duration = timeout;
}

-- `fetch_add(1) + 1`: the counter wraps, and so does the sum.
abbrev pub increment : ℕ → ℕ
increment n = (n + 1) % 2 ^ 32

-- An open circuit at the time `now`, by the time of the last failure.
abbrev pub probe : CircuitBreaker → ℕ → Option ℕ → Bool × CircuitBreaker
probe b now none = (false, b)
probe b now (some time) =
    if leb b.timeout_duration (now - time)
    then (true, record b { state = half_open; success_count = 0 })
    else (false, b)

abbrev pub allow_in : CircuitState → CircuitBreaker → ℕ → Bool × CircuitBreaker
allow_in closed b now = (true, b)
allow_in open_circuit b now = probe b now b.last_failure_time
allow_in half_open b now = (true, b)

-- `should_allow`
unfoldable pub should_allow : CircuitBreaker → ℕ → Bool × CircuitBreaker
should_allow b now = allow_in b.state b now

abbrev pub success_in : CircuitState → CircuitBreaker → CircuitBreaker
success_in closed b = record b { failure_count = 0 }
success_in half_open b =
    let count = increment b.success_count in
    if leb b.success_threshold count
    then record b { success_count = count; state = closed; failure_count = 0 }
    else record b { success_count = count }
success_in open_circuit b = b

-- `record_success`
unfoldable pub record_success : CircuitBreaker → CircuitBreaker
record_success b = success_in b.state b

abbrev pub failure_in : CircuitState → CircuitBreaker → ℕ → CircuitBreaker
failure_in closed b now =
    let count = increment b.failure_count in
    if leb b.failure_threshold count
    then record b { failure_count = count; state = open_circuit; last_failure_time = some now }
    else record b { failure_count = count }
failure_in half_open b now = record b { state = open_circuit; last_failure_time = some now }
failure_in open_circuit b now = b

-- `record_failure`
unfoldable pub record_failure : CircuitBreaker → ℕ → CircuitBreaker
record_failure b now = failure_in b.state b now

-- The calls that a client makes, with the time.
pub data Call : Type 0 where
  allow : ℕ → Call
  success : Call
  failure : ℕ → Call

unfoldable pub perform : CircuitBreaker → Call → CircuitBreaker
unfolding should_allow record_success record_failure
perform b (allow now) = (should_allow b now).1
perform b success = record_success b
perform b (failure now) = record_failure b now

unfoldable pub perform_all : CircuitBreaker → List Call → CircuitBreaker
perform_all b [] = b
perform_all b (c ∷ cs) = perform_all (perform b c) cs
