-- ===== src/Runner/Retry.antt =====
-- src/runner/retry.rs: delays between attempts. `f64` is a parameter: `Floats` has the operations of
-- the standard library that the delays use, with the facts about them that the bounds rest on. A
-- `Duration` is a number of nanoseconds; `from_secs` is `none` where `Duration::from_secs_f64` panics.
pub mod Bounds
pub mod Tests
use automated_flywheel_setup.Base.{
  ℕ, ◌+◌, ◌-◌, ◌*◌, ◌≤◌, ◌^◌, min, max, ◌≡◌, refl, Bool, true, false, Option, none, some, arith,
  ltb, Bool-cases, inl, inr, leb, if◌then◌else◌,
}

pub record Floats (F : Type 0) : Type 0 where
  pub secs : ℕ → F
  pub from_secs : F → Option ℕ
  pub zero_f : F
  pub mul : F → F → F
  pub add : F → F → F
  pub min_f : F → F → F
  pub powi : F → ℕ → F
  -- `clamp(0.0, 1.0)`
  pub clamp_unit : F → F
  -- `≤`, false where a side is not a number
  pub le_f : F → F → Bool
  -- whether a number is one that `rand::random` returns, in [0, 1)
  pub is_sample : F → Bool
  pub zero-le-secs : (d : ℕ) → le_f zero_f (secs d) ≡ true
  pub le-min : (x y z : F) → le_f z x ≡ true → le_f z y ≡ true → le_f z (min_f x y) ≡ true
  pub min-le-secs : (x : F) (d : ℕ) → le_f (min_f x (secs d)) (secs d) ≡ true
  pub from_secs-total :
      (x : F) (d : ℕ)
      → le_f zero_f x ≡ true
      → le_f x (secs d) ≡ true
      → (a : ℕ) × (from_secs x ≡ some a)
  pub from_secs-mono :
      (x y : F) (a b : ℕ) → le_f x y ≡ true → from_secs x ≡ some a → from_secs y ≡ some b → a ≤ b
  pub secs-le-jittered :
      (u f : F) (d : ℕ)
      → is_sample u ≡ true
      → le_f (secs d) (add (secs d) (mul (mul u (secs d)) (clamp_unit f))) ≡ true

pub data RetryStrategy (F : Type 0) : Type 0 where
  fixed : (delay : ℕ) → RetryStrategy F
  exponential : (initial_delay max_delay : ℕ) (multiplier : F) → RetryStrategy F

pub record RetryConfig (F : Type 0) : Type 0 where
  pub max_attempts : ℕ
  pub strategy : RetryStrategy F
  pub retry_transient_only : Bool

abbrev pub one_second : ℕ
one_second = 1_000_000_000

-- `saturating_add` on `u32`
abbrev pub saturating_suc : ℕ → ℕ
saturating_suc n = min (n + 1) (2 ^ 32 - 1)

-- `RetryConfig::executor_default`, where `two` is the literal 2.0
unfoldable pub executor_default : {F : Type 0} → F → ℕ → RetryConfig F
executor_default two retries = record {
  max_attempts = max (saturating_suc retries) 1;
  strategy = exponential one_second (30 * one_second) two;
  retry_transient_only = true;
}

-- `RetryConfig::default`
unfoldable pub retry_default : {F : Type 0} → F → RetryConfig F
retry_default two = record {
  max_attempts = 3;
  strategy = exponential one_second (60 * one_second) two;
  retry_transient_only = true;
}

unfoldable pub should_retry : {F : Type 0} → RetryConfig F → ℕ → Bool
should_retry c attempt = ltb attempt c.max_attempts

module _ {F : Type 0} (fl : Floats F) where
  open fl use {secs, from_secs, zero_f, mul, add, min_f, powi, clamp_unit, le_f, is_sample}

  unfoldable pub strategy_delay : RetryStrategy F → ℕ → Option ℕ
  strategy_delay (fixed delay) attempt = some delay
  strategy_delay (exponential initial_delay max_delay multiplier) attempt =
      from_secs
        (min_f (mul (secs initial_delay) (powi multiplier (min attempt 30))) (secs max_delay))

  unfoldable pub delay_for_attempt : RetryConfig F → ℕ → Option ℕ
  unfolding strategy_delay
  delay_for_attempt c attempt = strategy_delay c.strategy attempt

  abbrev cap_total : RetryStrategy F → ℕ → ℕ
  cap_total (fixed delay) total = total
  cap_total (exponential initial_delay max_delay multiplier) total = min total max_delay

  -- The part of `delay_with_jitter` behind the delay without jitter; `u` is the random sample.
  unfoldable pub add_jitter : RetryStrategy F → F → F → ℕ → Option ℕ
  add_jitter s fraction u base =
      if le_f fraction zero_f
      then some base
      else elim (from_secs (add (secs base) (mul (mul u (secs base)) (clamp_unit fraction)))) [
        | none ↦ none
        | some total ↦ some (cap_total s total)
      ]

  unfoldable pub delay_with_jitter : RetryConfig F → ℕ → F → F → Option ℕ
  delay_with_jitter c attempt fraction u = elim (delay_for_attempt c attempt) [
    | none ↦ none
    | some base ↦ add_jitter c.strategy fraction u base
  ]
