-- ===== src/Remediation/Limiter/Race.antt =====
-- src/remediation/claude.rs: two requests that overlap between the load and the subtraction.
use automated_flywheel_setup.Base.{◌+◌, ◌-◌, ◌*◌, ◌≤◌, ◌<◌, ◌^◌, ◌≡◌, arith}
use automated_flywheel_setup.Remediation.Limiter.{RateLimiter, fetch_sub, decide, Answer, granted}

-- Two requests both load the tokens, then both decide.
abbrev pub overlapped : RateLimiter → Answer × Answer × RateLimiter
overlapped l =
    let current = l.tokens in
    let first = decide current l in
    let second = decide current first.1 in (first.0, second.0, second.1)

-- Where the bucket holds enough for one request and not for two, two that overlap are both granted,
-- and the counter wraps to just below 2 ^ 64, whatever the size of the bucket.
pub overlapped-wraps :
    (l : RateLimiter)
    → 0 < l.cost_per_request
    → l.cost_per_request ≤ l.tokens
    → l.tokens < 2 * l.cost_per_request
    → l.tokens < 2 ^ 63
    → ((overlapped l).0 ≡ granted)
      × ((overlapped l).1 ≡ granted)
      × ((overlapped l).2.tokens ≡ 2 ^ 64 + l.tokens - 2 * l.cost_per_request)
unfolding decide fetch_sub
overlapped-wraps l positive enough short small = (ground arith, ground arith, ground arith)
