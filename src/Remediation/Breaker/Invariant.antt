-- ===== src/Remediation/Breaker/Invariant.antt =====
-- src/remediation/claude.rs: the circuit breaker's invariant, and when an open circuit lets a request
-- through.
use automated_flywheel_setup.Base.{
  ℕ, ◌-◌, ◌≤◌, ◌<◌, ◌^◌, ◌≡◌, ◌↔◌, true, some, List, [], ◌∷◌, arith, is_some,
}
use automated_flywheel_setup.Remediation.Breaker.{
  CircuitState, closed, open_circuit, half_open, CircuitBreaker, new_breaker, should_allow,
  record_success, record_failure, Call, perform, perform_all,
}

-- What holds in each state: a closed circuit has not reached its failures, an open one has the time
-- of its last failure, one that is half open has not reached its successes.
abbrev pub HoldsIn : CircuitState → CircuitBreaker → Type 0
HoldsIn closed b = b.failure_count < b.failure_threshold
HoldsIn open_circuit b = is_some b.last_failure_time ≡ true
HoldsIn half_open b = b.success_count < b.success_threshold

-- The thresholds are `u32`s above 0.
abbrev pub IsConfigured : CircuitBreaker → Type 0
IsConfigured b =
    (0 < b.failure_threshold)
    × (b.failure_threshold < 2 ^ 32)
    × (0 < b.success_threshold)
    × (b.success_threshold < 2 ^ 32)

abbrev pub IsValid : CircuitBreaker → Type 0
IsValid b = IsConfigured b × HoldsIn b.state b

perform-IsValid : (b : CircuitBreaker) (c : Call) → IsValid b → IsValid (perform b c)
unfolding perform should_allow record_success record_failure
perform-IsValid b c h = ground arith

perform_all-IsValid : (b : CircuitBreaker) (cs : List Call) → IsValid b → IsValid (perform_all b cs)
unfolding perform_all
perform_all-IsValid b [] h = h
perform_all-IsValid b (c ∷ cs) h = perform_all-IsValid (perform b c) cs (perform-IsValid b c h)

-- From a new breaker with thresholds above 0, after every sequence of calls, the counters are below
-- the thresholds in the states that count, and an open circuit knows when it failed.
perform_all-new_breaker :
    (failures successes timeout : ℕ) (cs : List Call)
    → 0 < failures
    → failures < 2 ^ 32
    → 0 < successes
    → successes < 2 ^ 32
    → IsValid (perform_all (new_breaker failures successes timeout) cs)
unfolding new_breaker
perform_all-new_breaker failures successes timeout cs p q r s =
    perform_all-IsValid _ cs ((p, q, r, s), p)

-- An open circuit lets a request through exactly if at least `timeout_duration` has passed since its
-- last failure.
should_allow-open_iff :
    (b : CircuitBreaker) (time now : ℕ)
    → b.state ≡ open_circuit
    → b.last_failure_time ≡ some time
    → ((should_allow b now).0 ≡ true) ↔ (b.timeout_duration ≤ now - time)
unfolding should_allow
should_allow-open_iff b time now is_open failed = (λ h. ground arith, λ h. ground arith)
