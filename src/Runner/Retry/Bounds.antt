-- ===== src/Runner/Retry/Bounds.antt =====
-- src/runner/retry.rs: every delay lies between the delay without jitter and the strategy's cap.
use automated_flywheel_setup.Base.{
  ℕ, ◌≤◌, min, ◌≡◌, refl, sym, ◌∙◌, true, some, arith, Bool-cases, inl, inr, Option-cases,
}
use automated_flywheel_setup.Runner.Retry.{
  Floats, RetryStrategy, fixed, exponential, RetryConfig, delay_for_attempt, strategy_delay,
  add_jitter, delay_with_jitter,
}

module _ {F : Type 0} (fl : Floats F) where
  open fl use {
    secs, from_secs, zero_f, mul, min_f, powi, le_f, is_sample, zero-le-secs, le-min, min-le-secs,
    from_secs-total, from_secs-mono, secs-le-jittered, clamp_unit, add,
  }

  abbrev raw : ℕ → F → ℕ → F
  raw initial_delay multiplier attempt = mul (secs initial_delay) (powi multiplier (min attempt 30))

  -- The cap of a strategy; a fixed delay has none.
  abbrev pub WithinCap : RetryStrategy F → ℕ → Type 0
  WithinCap (fixed delay) d = Unit
  WithinCap (exponential initial_delay max_delay multiplier) d = d ≤ max_delay

  -- The longest delay that a strategy gives without jitter.
  abbrev pub longest : RetryStrategy F → ℕ
  longest (fixed delay) = delay
  longest (exponential initial_delay max_delay multiplier) = max_delay

  -- The number that is turned into a delay is not negative.
  abbrev pub IsUsable : RetryStrategy F → ℕ → Type 0
  IsUsable (fixed delay) attempt = Unit
  IsUsable (exponential initial_delay max_delay multiplier) attempt =
      le_f zero_f (raw initial_delay multiplier attempt) ≡ true

  -- Durations up to a bound come back from floating-point seconds as they were.
  abbrev pub IsExactBelow : ℕ → Type 0
  IsExactBelow bound = (n : ℕ) → n ≤ bound → from_secs (secs n) ≡ some n

  strategy_delay-le :
      (s : RetryStrategy F) (attempt : ℕ)
      → IsUsable s attempt
      → IsExactBelow (longest s)
      → (d : ℕ) × (strategy_delay fl s attempt ≡ some d) × (d ≤ longest s) × WithinCap s d
  unfolding strategy_delay
  strategy_delay-le (fixed delay) attempt pos exact = (delay, refl, omega arith, tt)
  strategy_delay-le (exponential initial_delay max_delay multiplier) attempt pos exact =
      let below = min-le-secs (raw initial_delay multiplier attempt) max_delay in
      let (d, found) =
        from_secs-total (min_f (raw initial_delay multiplier attempt) (secs max_delay)) max_delay
          (le-min _ _ _ pos (zero-le-secs max_delay)) below in
      let small = from_secs-mono _ _ d max_delay below found (exact max_delay (omega arith)) in
      (d, found, small, small)

  -- For every attempt number, saturated exponents included, a delay without jitter is there and at
  -- most the strategy's longest, if the exponential's number is not negative and the cap comes back
  -- from floating-point seconds as it was.
  delay_for_attempt-le :
      (c : RetryConfig F) (attempt : ℕ)
      → IsUsable c.strategy attempt
      → IsExactBelow (longest c.strategy)
      → (d : ℕ) × (delay_for_attempt fl c attempt ≡ some d) × (d ≤ longest c.strategy)
  unfolding delay_for_attempt
  delay_for_attempt-le c attempt pos exact =
      let (d, found, small, capped) = strategy_delay-le c.strategy attempt pos exact in
      (d, found, small)

  abbrev jittered : F → F → ℕ → F
  jittered fraction u base = add (secs base) (mul (mul u (secs base)) (clamp_unit fraction))

  add_jitter-bounds :
      (s : RetryStrategy F) (fraction u : F) (base d : ℕ)
      → is_sample u ≡ true
      → from_secs (secs base) ≡ some base
      → WithinCap s base
      → add_jitter fl s fraction u base ≡ some d
      → (base ≤ d) × WithinCap s d
  unfolding add_jitter
  add_jitter-bounds (fixed delay) fraction u base d sample exact within h =
      elim (Bool-cases (le_f fraction zero_f)) [
        | inl none_wanted ↦ (ground arith, tt)
        | inr wanted ↦ elim (Option-cases (from_secs (jittered fraction u base))) [
          | inl panics ↦ absurd (ground arith)
          | inr (total, found) ↦
              let above =
                from_secs-mono _ _ base total (secs-le-jittered u fraction base sample) exact
                  found in
              (ground arith, tt)
        ]
      ]
  add_jitter-bounds (exponential initial_delay max_delay multiplier) fraction u base d sample exact
        within h =
      elim (Bool-cases (le_f fraction zero_f)) [
        | inl none_wanted ↦ (ground arith, ground arith)
        | inr wanted ↦ elim (Option-cases (from_secs (jittered fraction u base))) [
          | inl panics ↦ absurd (ground arith)
          | inr (total, found) ↦
              let above =
                from_secs-mono _ _ base total (secs-le-jittered u fraction base sample) exact
                  found in
              (ground arith, ground arith)
        ]
      ]

  delay_with_jitter-some :
      (c : RetryConfig F) (attempt : ℕ) (fraction u : F) (base : ℕ)
      → strategy_delay fl c.strategy attempt ≡ some base
      → delay_with_jitter fl c attempt fraction u ≡ add_jitter fl c.strategy fraction u base
  unfolding delay_with_jitter delay_for_attempt
  delay_with_jitter-some c attempt fraction u base found = rw (found, delay_with_jitter) refl

  -- A delay with jitter, for every random sample, is at least the delay without jitter and never
  -- above the cap of an exponential strategy.
  delay_with_jitter-bounds :
      (c : RetryConfig F) (attempt : ℕ) (fraction u : F) (d : ℕ)
      → IsUsable c.strategy attempt
      → IsExactBelow (longest c.strategy)
      → is_sample u ≡ true
      → delay_with_jitter fl c attempt fraction u ≡ some d
      → (base : ℕ) × (delay_for_attempt fl c attempt ≡ some base)
        × (base ≤ d)
        × WithinCap c.strategy d
  unfolding delay_with_jitter delay_for_attempt
  delay_with_jitter-bounds c attempt fraction u d pos exact sample h =
      let (base, found, small, capped) = strategy_delay-le c.strategy attempt pos exact in
      let (above, within) =
        add_jitter-bounds c.strategy fraction u base d sample (exact base small) capped
          (sym (delay_with_jitter-some c attempt fraction u base found) ∙ h) in
      (base, found, above, within)
