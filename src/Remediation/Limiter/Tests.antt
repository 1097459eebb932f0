-- ===== src/Remediation/Limiter/Tests.antt =====
-- The limiter's theorems at the client's bucket of ten tokens; whole seconds are counted.
use automated_flywheel_setup.Base.{◌+◌, ◌-◌, ◌*◌, ◌/◌, ◌^◌, ◌≡◌, some, arith}
use automated_flywheel_setup.Remediation.Limiter.{Clock, RateLimiter, new_limiter, granted}
use automated_flywheel_setup.Remediation.Limiter.Race.{overlapped, overlapped-wraps}

abbrev whole_seconds : Clock
whole_seconds = record {
  tokens_for = λ elapsed rate. elapsed * rate / 1_000_000_000;
  wait_for = λ needed rate. some (needed * 1_000_000_000 / rate);
}

abbrev bucket : RateLimiter
bucket = new_limiter 10 1 1 0

abbrev last_token : RateLimiter
last_token = record bucket { tokens = 1 }

overlapped-wraps_example :
    ((overlapped last_token).0 ≡ granted)
    × ((overlapped last_token).1 ≡ granted)
    × ((overlapped last_token).2.tokens ≡ 2 ^ 64 + 1 - 2 * 1)
unfolding new_limiter
overlapped-wraps_example =
    overlapped-wraps last_token (omega arith) (omega arith) (omega arith) (omega arith)
