-- ===== src/Remediation/Claude/Client/Acquire.antt =====
-- src/remediation/claude.rs: `RateLimiter::acquire` waits at most once.
use automated_flywheel_setup.Base.{
  ℕ, suc, ◌+◌, ◌-◌, ◌^◌, ◌≤◌, ◌<◌, ◌≡◌, ◌⊎◌, inl, inr, refl, ap, ◌∙◌, false, some, leb, ltb,
  Bool-cases, arith,
}
use automated_flywheel_setup.Remediation.Limiter.{
  Clock, RateLimiter, Answer, granted, too_many, refill, try_acquire,
}
use automated_flywheel_setup.Remediation.Limiter.Sequential.{IsValid}
use automated_flywheel_setup.Remediation.Claude.Client.{
  Times, Acquired, acquired, acquire_from, acquire, on_answer,
}

-- The times of a call on an idle machine, and the arithmetic of the clock, where it is used: within
-- `longest` of the last refill, and for what one request can miss. A wait that is asked for is long enough
-- for the tokens that are missing, ends before the deadline, and lasts until the second look; sums of
-- tokens stay below 2^64.
pub record IsPunctual (clock : Clock) (t : Times) (limit : ℕ) (l : RateLimiter) : Type 0 where
  pub wait : ℕ → ℕ
  pub longest : ℕ
  pub asked :
      (needed : ℕ)
      → needed ≤ l.cost_per_request
      → clock.wait_for needed l.refill_rate ≡ some (wait needed)
  pub enough :
      (needed elapsed : ℕ)
      → needed ≤ l.cost_per_request
      → elapsed ≤ longest
      → wait needed ≤ elapsed
      → needed ≤ clock.tokens_for elapsed l.refill_rate
  pub in_time :
      (needed : ℕ) → needed ≤ l.cost_per_request → t.checked 0 + wait needed ≤ t.started + limit
  pub slept : (needed : ℕ) → needed ≤ l.cost_per_request → t.checked 0 + wait needed ≤ t.tried 1
  pub ordered : (l.last_refill ≤ t.tried 0) × (t.tried 0 ≤ t.checked 0)
  pub within : t.tried 1 ≤ l.last_refill + longest
  pub small :
      (elapsed : ℕ)
      → elapsed ≤ longest
      → clock.tokens_for elapsed l.refill_rate + l.max_tokens < 2 ^ 64

-- What a first look that grants nothing leaves.
pub record IsWaiting (l left : RateLimiter) (now needed : ℕ) : Type 0 where
  pub missing : left.tokens + needed ≡ l.cost_per_request
  pub max_tokens : left.max_tokens ≡ l.max_tokens
  pub refill_rate : left.refill_rate ≡ l.refill_rate
  pub cost : left.cost_per_request ≡ l.cost_per_request
  pub refilled : left.last_refill ≤ now
  pub later : l.last_refill ≤ left.last_refill
  pub held : left.tokens ≤ left.max_tokens

try_acquire-IsWaiting :
    (clock : Clock) (now : ℕ) (l : RateLimiter)
    → IsValid l
    → l.last_refill ≤ now
    → ((try_acquire clock now l).0 ≡ granted)
      ⊎ ((needed : ℕ) × ((try_acquire clock now l).0 ≡ too_many needed)
          × IsWaiting l (try_acquire clock now l).1 now needed)
unfolding try_acquire
try_acquire-IsWaiting clock now l valid before =
    elim (Bool-cases (leb l.cost_per_request (refill clock now l).tokens)) [
      | inl full ↦ inl (ground arith)
      | inr short ↦ inr (
        l.cost_per_request - (refill clock now l).tokens,
        ground arith,
        record {
          missing = ground arith;
          max_tokens = ground arith;
          refill_rate = ground arith;
          cost = ground arith;
          refilled = ground arith;
          later = ground arith;
          held = ground arith;
        },
      )
    ]

second_look :
    (clock : Clock) (t : Times) (l left : RateLimiter) (limit needed : ℕ)
    → IsPunctual clock t limit l
    → l.cost_per_request ≤ l.max_tokens
    → IsWaiting l left (t.tried 0) needed
    → (try_acquire clock (t.tried 1) left).0 ≡ granted
unfolding try_acquire
second_look clock t l left limit needed p fits w =
    let slept = p.slept needed (omega (arith, w.missing)) in
    let elapsed : ℕ = t.tried 1 - left.last_refill in
    let soon : elapsed ≤ p.longest = omega (arith, p.within, w.later) in
    let enough =
      p.enough needed elapsed (omega (arith, w.missing)) soon
        (omega (arith, w.refilled, p.ordered, slept)) in
    let small = p.small elapsed soon in
    let come : needed ≤ clock.tokens_for elapsed left.refill_rate = rw w.refill_rate enough in
    let few : clock.tokens_for elapsed left.refill_rate + l.max_tokens < 2 ^ 64 =
      rw w.refill_rate small in
    ground arith

on_answer-granted :
    (clock : Clock) (deadline checked : ℕ) (left : RateLimiter) (later : Acquired × RateLimiter)
    (answer : Answer)
    → answer ≡ granted
    → (on_answer clock deadline checked left later answer).0 ≡ acquired
unfolding on_answer
on_answer-granted clock deadline checked left later answer h = simp h refl

on_answer-too_many :
    (clock : Clock) (deadline checked needed wait : ℕ) (left : RateLimiter)
    (later : Acquired × RateLimiter) (answer : Answer)
    → answer ≡ too_many needed
    → clock.wait_for needed left.refill_rate ≡ some wait
    → checked + wait ≤ deadline
    → on_answer clock deadline checked left later answer ≡ later
unfolding on_answer
on_answer-too_many clock deadline checked needed wait left later answer h asked early =
    let free : ltb deadline (checked + wait) ≡ false = ground arith in simp (h, asked, free) refl

-- `acquire` needs two rounds: where a request costs no more than the bucket can hold, on a machine that
-- wakes it in time, and with a clock that, as long as the last refill is not too far back, turns the wait
-- that it asks for into the missing tokens without an overflow, a request gets its tokens, after at most
-- one wait, whatever the bucket held before.
pub acquire-acquired :
    (clock : Clock) (t : Times) (limit rounds : ℕ) (l : RateLimiter)
    → IsValid l
    → l.cost_per_request ≤ l.max_tokens
    → IsPunctual clock t limit l
    → (acquire clock t limit (suc (suc rounds)) l).0 ≡ acquired
acquire-acquired clock t limit rounds l valid fits p =
    elim (try_acquire-IsWaiting clock (t.tried 0) l valid p.ordered.0) [
      | inl now ↦
          unfold acquire acquire_from in
          on_answer-granted clock (t.started + limit) (t.checked 0) _ _
            (try_acquire clock (t.tried 0) l).0 now
      | inr (needed, answer, w) ↦
          let left = (try_acquire clock (t.tried 0) l).1 in
          let waited =
            on_answer-too_many clock (t.started + limit) (t.checked 0) needed (p.wait needed) left
              (acquire_from clock t (t.started + limit) (suc rounds) 1 left)
              (try_acquire clock (t.tried 0) l).0 answer
              (rw w.refill_rate (p.asked needed (omega (arith, w.missing))))
              (p.in_time needed (omega (arith, w.missing))) in
          unfold acquire acquire_from in
          ap (λ r. r.0) waited
          ∙ on_answer-granted clock (t.started + limit) (t.checked 1) _ _
              (try_acquire clock (t.tried 1) left).0
              (second_look clock t l left limit needed p fits w)
    ]
