-- ===== src/Remediation/Limiter/Sequential.antt =====
-- src/remediation/claude.rs: requests that do not overlap never spend more than the bucket holds.
use automated_flywheel_setup.Base.{ℕ, ◌+◌, ◌≤◌, ◌<◌, ◌^◌, ◌≡◌, ◌↔◌, arith}
use automated_flywheel_setup.Remediation.Limiter.{
  Clock, RateLimiter, refill, fetch_sub, decide, try_acquire, granted, too_many,
}

-- The bucket holds at most its size, a `u64`.
abbrev pub IsValid : RateLimiter → Type 0
IsValid l = (l.tokens ≤ l.max_tokens) × (l.max_tokens < 2 ^ 64)

-- What the bucket holds once it is refilled.
abbrev pub available : Clock → ℕ → RateLimiter → ℕ
available clock now l = (refill clock now l).tokens

-- A request on a valid bucket is granted exactly if the refilled bucket holds its cost, which is then
-- taken off; else the answer tells the tokens that are missing and none is taken; and the bucket stays
-- valid.
try_acquire-IsValid :
    (clock : Clock) (now : ℕ) (l : RateLimiter)
    → IsValid l
    → IsValid (try_acquire clock now l).1
      × (((try_acquire clock now l).0 ≡ granted) ↔ (l.cost_per_request ≤ available clock now l))
      × ((try_acquire clock now l).0 ≡ granted
          → (try_acquire clock now l).1.tokens + l.cost_per_request ≡ available clock now l)
      × ((needed : ℕ)
          → (try_acquire clock now l).0 ≡ too_many needed
          → ((try_acquire clock now l).1.tokens + needed ≡ l.cost_per_request))
unfolding try_acquire refill decide fetch_sub
try_acquire-IsValid clock now l h =
    (ground arith, ground arith, λ p. ground arith, λ needed p. ground arith)
