-- ===== src/Remediation/Limiter.antt =====
-- src/remediation/claude.rs: `RateLimiter`. A request is a sequence of atomic steps on the shared
-- state: the refill, which holds the lock, the load of the tokens, and the subtraction.
mod Tests
pub mod Sequential
pub mod Race
use automated_flywheel_setup.Base.{
  ℕ, ◌+◌, ◌-◌, ◌%◌, ◌^◌, min, Bool, true, false, Option, none, some, leb, ltb, if◌then◌else◌,
}

-- The floating-point arithmetic on times: the tokens of an elapsed time at a rate, and the wait for
-- tokens at a rate, `none` where `Duration::from_secs_f64` panics.
pub record Clock : Type 0 where
  pub tokens_for : (elapsed rate : ℕ) → ℕ
  pub wait_for : (needed rate : ℕ) → Option ℕ

pub record RateLimiter : Type 0 where
  pub tokens : ℕ
  pub max_tokens : ℕ
  pub refill_rate : ℕ
  pub last_refill : ℕ
  pub cost_per_request : ℕ

-- `RateLimiter::new`
unfoldable pub new_limiter : ℕ → ℕ → ℕ → ℕ → RateLimiter
new_limiter max_tokens refill_rate cost now = record {
  tokens = max_tokens;
  max_tokens = max_tokens;
  refill_rate = refill_rate;
  last_refill = now;
  cost_per_request = cost;
}

-- The block that refills, at the time `now`; the sum of `u64`s wraps.
unfoldable pub refill : Clock → ℕ → RateLimiter → RateLimiter
refill clock now l =
    let new_tokens = clock.tokens_for (now - l.last_refill) l.refill_rate in
    if ltb 0 new_tokens
    then record l {
      tokens = min ((l.tokens + new_tokens) % 2 ^ 64) l.max_tokens;
      last_refill = now;
    }
    else l

-- `fetch_sub`, which wraps.
unfoldable pub fetch_sub : RateLimiter → RateLimiter
fetch_sub l = record l { tokens = (l.tokens + 2 ^ 64 - l.cost_per_request) % 2 ^ 64 }

-- `try_acquire` gives nothing, or the tokens that are missing.
pub data Answer : Type 0 where
  granted : Answer
  too_many : (needed : ℕ) → Answer

-- The part behind the load of `current` tokens.
unfoldable pub decide : ℕ → RateLimiter → Answer × RateLimiter
unfolding fetch_sub
decide current l =
    if leb l.cost_per_request current
    then (granted, fetch_sub l)
    else (too_many (l.cost_per_request - current), l)

-- `try_acquire` without another request in between.
unfoldable pub try_acquire : Clock → ℕ → RateLimiter → Answer × RateLimiter
unfolding refill decide
try_acquire clock now l = let filled = refill clock now l in decide filled.tokens filled
