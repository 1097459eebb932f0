-- ===== src/Remediation/Breaker/Opening.antt =====
-- src/remediation/claude.rs: how many failures in a row open the circuit, and how many successes in a
-- row close it again.
use native.Mathlib.Decide.{dec_lt}
use automated_flywheel_setup.Base.{
  ℕ, zero, suc, ◌+◌, ◌≤◌, ◌<◌, ◌^◌, ◌≡◌, refl, List, [], ◌∷◌, arith, length,
}
use automated_flywheel_setup.Remediation.Breaker.{
  closed, open_circuit, half_open, CircuitBreaker, record_failure, record_success,
}

-- Failures at the given times, one after the other.
unfoldable pub fail_at : CircuitBreaker → List ℕ → CircuitBreaker
fail_at b [] = b
fail_at b (t ∷ ts) = fail_at (record_failure b t) ts

-- So many successes in a row.
unfoldable pub succeed : CircuitBreaker → ℕ → CircuitBreaker
succeed b zero = b
succeed b (suc n) = succeed (record_success b) n

-- A failure leaves an open circuit as it is.
fail_at-open : (b : CircuitBreaker) (ts : List ℕ) → b.state ≡ open_circuit → fail_at b ts ≡ b
unfolding fail_at record_failure
fail_at-open b [] h = refl
fail_at-open b (t ∷ ts) h = rw (same b h) (fail_at-open b ts h)
  where
    same : (c : CircuitBreaker) → c.state ≡ open_circuit → record_failure c t ≡ c
    same c e = rw e refl

-- A failure of a closed circuit is counted, and opens it if the count reaches the threshold.
record_failure-closed :
    (b : CircuitBreaker) (t : ℕ)
    → b.state ≡ closed
    → b.failure_count < b.failure_threshold
    → b.failure_threshold < 2 ^ 32
    → ((record_failure b t).failure_count ≡ b.failure_count + 1)
      × ((record_failure b t).failure_threshold ≡ b.failure_threshold)
      × (b.failure_count + 1 < b.failure_threshold → (record_failure b t).state ≡ closed)
      × (b.failure_threshold ≤ b.failure_count + 1 → (record_failure b t).state ≡ open_circuit)
unfolding record_failure
record_failure-closed b t h below small =
    (ground arith, ground arith, λ p. ground arith, λ p. ground arith)

fail_at-state :
    (b : CircuitBreaker) (ts : List ℕ)
    → b.state ≡ closed
    → b.failure_count < b.failure_threshold
    → b.failure_threshold < 2 ^ 32
    → (b.failure_count + length ts < b.failure_threshold → (fail_at b ts).state ≡ closed)
      × (b.failure_threshold ≤ b.failure_count + length ts → (fail_at b ts).state ≡ open_circuit)
unfolding fail_at
fail_at-state b [] h below small = (λ p. h, λ p. absurd (omega arith))
fail_at-state b (t ∷ ts) h below small =
    let (count, threshold, stays, opens) = record_failure-closed b t h below small in
    elim (dec_lt (b.failure_count + 1) b.failure_threshold) [
      | yes more ↦
          let (low, high) =
            fail_at-state (record_failure b t) ts (stays more) (omega arith) (omega arith) in
          (λ p. low (omega arith), λ p. high (omega arith))
      | no reached ↦
          let opened = opens (omega arith) in
          (λ p. absurd (omega arith), λ p. rw (fail_at-open (record_failure b t) ts opened) opened)
    ]

-- A breaker that is closed and has counted no failure stays closed under fewer failures in a row than
-- its threshold, and is open after as many or more.
fail_at-threshold :
    (b : CircuitBreaker) (ts : List ℕ)
    → b.state ≡ closed
    → b.failure_count ≡ 0
    → 0 < b.failure_threshold
    → b.failure_threshold < 2 ^ 32
    → (length ts < b.failure_threshold → (fail_at b ts).state ≡ closed)
      × (b.failure_threshold ≤ length ts → (fail_at b ts).state ≡ open_circuit)
fail_at-threshold b ts h none_yet positive small =
    let (low, high) = fail_at-state b ts h (omega arith) small in
    (λ p. low (omega arith), λ p. high (omega arith))

record_success-half_open :
    (b : CircuitBreaker)
    → b.state ≡ half_open
    → b.success_count < b.success_threshold
    → b.success_threshold < 2 ^ 32
    → ((record_success b).success_threshold ≡ b.success_threshold)
      × (b.success_count + 1 < b.success_threshold
          → ((record_success b).state ≡ half_open)
            × ((record_success b).success_count ≡ b.success_count + 1))
      × (b.success_threshold ≤ b.success_count + 1
          → ((record_success b).state ≡ closed) × ((record_success b).failure_count ≡ 0))
unfolding record_success
record_success-half_open b h below small =
    (ground arith, λ p. (ground arith, ground arith), λ p. (ground arith, ground arith))

succeed-closed :
    (b : CircuitBreaker) (n : ℕ)
    → b.state ≡ closed
    → b.failure_count ≡ 0
    → ((succeed b n).state ≡ closed) × ((succeed b n).failure_count ≡ 0)
unfolding succeed record_success
succeed-closed b zero h e = (h, e)
succeed-closed b (suc n) h e = succeed-closed (record_success b) n (ground arith) (ground arith)

succeed-state :
    (b : CircuitBreaker) (n : ℕ)
    → b.state ≡ half_open
    → b.success_count < b.success_threshold
    → b.success_threshold < 2 ^ 32
    → (b.success_count + n < b.success_threshold → (succeed b n).state ≡ half_open)
      × (b.success_threshold ≤ b.success_count + n
          → ((succeed b n).state ≡ closed) × ((succeed b n).failure_count ≡ 0))
unfolding succeed
succeed-state b zero h below small = (λ p. h, λ p. absurd (omega arith))
succeed-state b (suc n) h below small =
    let (threshold, more, enough) = record_success-half_open b h below small in
    elim (dec_lt (b.success_count + 1) b.success_threshold) [
      | yes p ↦
          let (state, count) = more p in
          let (low, high) = succeed-state (record_success b) n state (omega arith) (omega arith) in
          (λ q. low (omega arith), λ q. high (omega arith))
      | no p ↦
          let (state, count) = enough (omega arith) in
          (λ q. absurd (omega arith), λ q. succeed-closed (record_success b) n state count)
    ]

-- A circuit that has just become half open stays so under fewer successes in a row than its threshold,
-- and is closed without counted failures after as many or more.
succeed-threshold :
    (b : CircuitBreaker) (n : ℕ)
    → b.state ≡ half_open
    → b.success_count ≡ 0
    → 0 < b.success_threshold
    → b.success_threshold < 2 ^ 32
    → (n < b.success_threshold → (succeed b n).state ≡ half_open)
      × (b.success_threshold ≤ n
          → ((succeed b n).state ≡ closed) × ((succeed b n).failure_count ≡ 0))
succeed-threshold b n h none_yet positive small =
    let (low, high) = succeed-state b n h (omega arith) small in
    (λ p. low (omega arith), λ p. high (omega arith))
