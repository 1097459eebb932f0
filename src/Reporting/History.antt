-- ===== src/Reporting/History.antt =====
-- src/reporting/history.rs: `assess_outcomes`, which finds broken and flaky installers. The CUSUM
-- statistic, a multiple of 0.5, is counted in halves; the posterior mean, a quotient of two counts, is
-- that pair, and its comparison with 0.9 is one of products.
pub mod Broken
pub mod Flaky
mod Tests
use automated_flywheel_setup.Base.{
  ℕ, zero, suc, ◌+◌, ◌-◌, ◌*◌, String, Bool, true, false, not, ◌&&◌, Option, none, some, List, [],
  ◌∷◌, length, drop, count_by, any, get_elem?, leb, ltb, is_some, map_option, has_text,
  if◌then◌else◌,
}

-- `FAILURE_STATUSES`
abbrev pub failure_statuses : List String
failure_statuses = "failed" ∷ "timedout" ∷ "cancelled" ∷ []

unfoldable pub is_failure_status : String → Bool
is_failure_status status = has_text failure_statuses status

-- A run's identifier, and whether the installer passed in it.
abbrev pub Outcome : Type 0
Outcome = String × Bool

-- `FLAKY_MIN_TRIALS`, `FLAKY_MIN_FAILURES`, and `CUSUM_THRESHOLD` in halves
abbrev pub flaky_min_trials : ℕ
flaky_min_trials = 5

abbrev pub flaky_min_failures : ℕ
flaky_min_failures = 2

abbrev pub cusum_threshold : ℕ
cusum_threshold = 6

-- `Assessment`; `pass_probability` is the numerator and the denominator.
pub record Assessment : Type 0 where
  pub trials : ℕ
  pub passes : ℕ
  pub pass_probability : ℕ × ℕ
  pub flaky : Bool
  pub broken_since : Option String
  pub script_versions : ℕ

-- The variables of the CUSUM loop.
pub record Cusum : Type 0 where
  pub idx : ℕ
  pub stat : ℕ
  pub crossed_at : Option ℕ

-- One round: `CUSUM_FAIL` is two halves, `CUSUM_PASS` one less, not below 0.
unfoldable pub round : Cusum → Outcome → Cusum
round c (run, passed) =
    let stat = if passed then c.stat - 1 else c.stat + 2 in
    let crossed_at =
      if leb cusum_threshold stat && not (is_some c.crossed_at) then some c.idx else c.crossed_at in
    if passed && is_some crossed_at
    then record { idx = c.idx + 1; stat = 0; crossed_at = none }
    else record { idx = c.idx + 1; stat = stat; crossed_at = crossed_at }

unfoldable pub cusum : Cusum → List Outcome → Cusum
cusum c [] = c
cusum c (o ∷ series) = cusum (round c o) series

abbrev pub before_first : Cusum
before_first = record { idx = 0; stat = 0; crossed_at = none }

-- `series[i].1`; out of range the program would panic, and it is not asked for.
abbrev pub passed_at : List Outcome → ℕ → Bool
passed_at series i = elim (get_elem? series i) [ none ↦ true | some o ↦ o.1 ]

-- The `while` loop back to the first failure of the streak.
unfoldable pub streak_start : List Outcome → ℕ → ℕ
streak_start series zero = zero
streak_start series (suc n) =
    let earlier = streak_start series n in if passed_at series n then suc n else earlier

unfoldable pub broken_since_of : List Outcome → Option ℕ → Option String
broken_since_of series none = none
broken_since_of series (some idx) =
    map_option (λ o. o.0) (get_elem? series (streak_start series idx))

-- A pass at or after the first failure.
unfoldable pub interleaved : List Outcome → Bool
interleaved [] = false
interleaved ((run, passed) ∷ series) =
    let later = interleaved series in if passed then later else any (λ o. o.1) series

unfoldable pub assess_outcomes : List Outcome → Assessment
unfolding cusum broken_since_of interleaved
assess_outcomes series =
    let trials = length series in
    let passes = count_by (λ o. o.1) series in
    let broken_since = broken_since_of series (cusum before_first series).crossed_at in
    record {
      trials = trials;
      passes = passes;
      pass_probability = (passes + 1, trials + 2);
      flaky =
          not (is_some broken_since)
          && leb flaky_min_trials trials
          && leb flaky_min_failures (trials - passes)
          && interleaved series
          && ltb (10 * (passes + 1)) (9 * (trials + 2));
      broken_since = broken_since;
      script_versions = 0;
    }
