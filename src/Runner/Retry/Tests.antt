-- ===== src/Runner/Retry/Tests.antt =====
-- Tests of the delays, and the bounds at concrete numbers. The numbers of the tests are whole
-- nanoseconds, with products of whole seconds.
use automated_flywheel_setup.Base.{
  ℕ, ◌+◌, ◌*◌, ◌^◌, ◌≤◌, min, ◌≡◌, refl, true, some, arith, leb, ltb,
}
use automated_flywheel_setup.Runner.Retry.{Floats, RetryConfig, executor_default, delay_for_attempt}

pub zero_le : (d : ℕ) → leb 0 d ≡ true
zero_le d = ground arith

pub le_min : (x y z : ℕ) → leb z x ≡ true → leb z y ≡ true → leb z (min x y) ≡ true
le_min x y z h k = ground arith

pub min_le : (x d : ℕ) → leb (min x d) d ≡ true
min_le x d = ground arith

pub le_of_some : (x y a b : ℕ) → leb x y ≡ true → some x ≡ some a → some y ≡ some b → a ≤ b
le_of_some x y a b h p q = ground arith

pub no_jitter : (u f d : ℕ) → ltb u 1 ≡ true → leb d (d + u * d * min f 1) ≡ true
no_jitter u f d h = ground arith

-- A multiplier is a whole number, a sample 0.
abbrev pub whole : Floats ℕ
whole = record {
  secs = λ d. d;
  from_secs = λ x. some x;
  zero_f = 0;
  mul = λ x y. x * y;
  add = λ x y. x + y;
  min_f = λ x y. min x y;
  powi = λ x k. x ^ k;
  clamp_unit = λ x. min x 1;
  le_f = λ x y. leb x y;
  is_sample = λ x. ltb x 1;
  zero-le-secs = zero_le;
  le-min = le_min;
  min-le-secs = min_le;
  from_secs-total = λ x d h k. (x, refl);
  from_secs-mono = le_of_some;
  secs-le-jittered = no_jitter;
}

abbrev config : RetryConfig ℕ
config = executor_default 2 3

second_delay : delay_for_attempt whole config 2 ≡ some 4_000_000_000
unfolding delay_for_attempt executor_default
second_delay = refl

tenth_delay : delay_for_attempt whole config 10 ≡ some 30_000_000_000
unfolding delay_for_attempt executor_default
tenth_delay = refl
