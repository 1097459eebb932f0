-- ===== src/Remediation/Breaker/Tests.antt =====
-- The breaker's theorems at concrete calls: five failures open it, two successes close it, as in the
-- client.
use automated_flywheel_setup.Base.{ℕ, some, List, [], ◌∷◌}
use automated_flywheel_setup.Remediation.Breaker.{
  CircuitBreaker, new_breaker, open_circuit, half_open,
}

abbrev fresh : CircuitBreaker
fresh = new_breaker 5 2 60_000_000_000

abbrev opened : CircuitBreaker
opened = record fresh { state = open_circuit; failure_count = 5; last_failure_time = some 10 }

abbrev probing : CircuitBreaker
probing = record fresh { state = half_open; failure_count = 5; last_failure_time = some 10 }

abbrev times : List ℕ
times = 1 ∷ 2 ∷ []
