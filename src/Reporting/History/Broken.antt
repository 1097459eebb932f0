-- ===== src/Reporting/History/Broken.antt =====
-- src/reporting/history.rs: what `broken_since` tells of the outcomes.
use native.Mathlib.Decide.{dec_lt}
use mathlib.Core.Path.{subst}
use automated_flywheel_setup.Base.{
  ℕ, zero, suc, ◌+◌, ◌-◌, ◌≤◌, ◌<◌, String, ◌≡◌, refl, ap, Bool, true, false, not, Option, none,
  some, List, [], ◌∷◌, length, drop, all, get_elem?, map_option, arith, ◌⊎◌, inl, inr, Bool-cases,
  Option-cases,
}
use automated_flywheel_setup.Reporting.History.{
  Outcome, Cusum, round, cusum, before_first, passed_at, streak_start, broken_since_of,
  assess_outcomes,
}

-- All of them are failures.
abbrev pub all_fail : List Outcome → Bool
all_fail = all (λ o. not o.1)

round-idx : (c : Cusum) (o : Outcome) → (round c o).idx ≡ c.idx + 1
unfolding round
round-idx c (run, passed) = ground arith

round-passed : (c : Cusum) (run : String) → (round c (run, true)).crossed_at ≡ none
unfolding round
round-passed c run = ground arith

round-failed :
    (c : Cusum) (run : String) (i : ℕ)
    → (round c (run, false)).crossed_at ≡ some i
    → (c.crossed_at ≡ some i) ⊎ (i ≡ c.idx)
unfolding round
round-failed c run i h = elim (Option-cases c.crossed_at) [
  | inl e ↦ inr (ground arith)
  | inr (j, e) ↦ inl (ground arith)
]

-- Where the scan of a series from a state ends with a crossing: it is the one of the state and all fail,
-- or it is a place of the series from which on all fail.
abbrev IsCrossing : Cusum → List Outcome → ℕ → Type 0
IsCrossing c series i =
    ((c.crossed_at ≡ some i) × (all_fail series ≡ true))
    ⊎ ((c.idx ≤ i) × (i < c.idx + length series) × (all_fail (drop (i - c.idx) series) ≡ true))

abbrev IsLater : Cusum → List Outcome → ℕ → Type 0
IsLater c series i =
    (c.idx ≤ i) × (i < c.idx + length series) × (all_fail (drop (i - c.idx) series) ≡ true)

IsLater-round :
    (c : Cusum) (o : Outcome) (series : List Outcome) (i : ℕ)
    → IsLater (round c o) series i
    → IsLater c (o ∷ series) i
IsLater-round c o series i (from, below, fails) =
    let next = round-idx c o in
    let e : i - c.idx ≡ suc (i - (round c o).idx) = omega (arith, next) in
    (omega (arith, next), omega (arith, next), rw e fails)

cusum-IsCrossing :
    (c : Cusum) (series : List Outcome) (i : ℕ)
    → (cusum c series).crossed_at ≡ some i
    → IsCrossing c series i
unfolding cusum
cusum-IsCrossing c [] i h = inl (h, refl)
cusum-IsCrossing c ((run, true) ∷ series) i h =
    elim (cusum-IsCrossing (round c (run, true)) series i h) [
      | inl (e, fails) ↦ absurd (cc (round-passed c run, e))
      | inr later ↦ inr (IsLater-round c (run, true) series i later)
    ]
cusum-IsCrossing c ((run, false) ∷ series) i h =
    elim (cusum-IsCrossing (round c (run, false)) series i h) [
      | inl (e, fails) ↦ elim (round-failed c run i e) [
        | inl same ↦ inl (same, fails)
        | inr here ↦
            let zero_left : i - c.idx ≡ 0 = omega arith in
            inr (omega arith, omega arith, rw zero_left fails)
      ]
      | inr later ↦ inr (IsLater-round c (run, false) series i later)
    ]

-- The streak that ends at `n`: it begins there or earlier, all fail from its start to `n`, and a pass or
-- nothing stands before it.
abbrev IsStreak : List Outcome → ℕ → ℕ → Type 0
IsStreak series start n =
    (start ≤ n)
    × ((i : ℕ) → start ≤ i → i < n → passed_at series i ≡ false)
    × ((start ≡ 0) ⊎ ((before : ℕ) × (start ≡ before + 1) × (passed_at series before ≡ true)))

streak_start-IsStreak : (series : List Outcome) (n : ℕ) → IsStreak series (streak_start series n) n
unfolding streak_start
streak_start-IsStreak series zero = (omega arith, (λ i p q. absurd (omega arith)), inl refl)
streak_start-IsStreak series (suc n) = elim (Bool-cases (passed_at series n)) [
  | inl passed ↦
      rw passed (omega arith, (λ i p q. absurd (omega arith)), inr (n, omega arith, passed))
  | inr failed ↦
      let (below, fails, start) = streak_start-IsStreak series n in
      rw failed (
        omega arith,
        (λ i p q. elim (dec_lt i n) [
          | yes earlier ↦ fails i p earlier
          | no not_earlier ↦ let e : i ≡ n = omega arith in rw e failed
        ]),
        start,
      )
]

-- One more failure before failures.
all_fail-drop :
    (series : List Outcome) (n : ℕ)
    → passed_at series n ≡ false
    → all_fail (drop (suc n) series) ≡ true
    → all_fail (drop n series) ≡ true
all_fail-drop [] n h fails = absurd (ground arith)
all_fail-drop ((run, passed) ∷ series) zero h fails = ground arith
all_fail-drop ((run, passed) ∷ series) (suc n) h fails = all_fail-drop series n h fails

all_fail-back :
    (series : List Outcome) (start steps : ℕ)
    → ((i : ℕ) → start ≤ i → i < start + steps → passed_at series i ≡ false)
    → all_fail (drop (start + steps) series) ≡ true
    → all_fail (drop start series) ≡ true
all_fail-back series start zero h fails =
    let e : start + 0 ≡ start = omega arith in subst (λ n. all_fail (drop n series) ≡ true) e fails
all_fail-back series start (suc steps) h fails =
    let e : start + suc steps ≡ suc (start + steps) = omega arith in
    all_fail-back series start steps (λ i p q. h i p (omega arith))
      (all_fail-drop series (start + steps) (h (start + steps) (omega arith) (omega arith))
        (subst (λ n. all_fail (drop n series) ≡ true) e fails))

-- An entry of a series of failures is a failure.
entry_at :
    (series : List Outcome) (n : ℕ)
    → n < length series
    → all_fail (drop n series) ≡ true
    → (run : String) × (get_elem? series n ≡ some (run, false))
entry_at [] n below fails = absurd (omega arith)
entry_at ((run, true) ∷ series) zero below fails = absurd (ground arith)
entry_at ((run, false) ∷ series) zero below fails = (run, refl)
entry_at ((run, passed) ∷ series) (suc n) below fails = entry_at series n (omega arith) fails

-- A run since which an installer fails: an outcome of the series with its identifier, all outcomes from
-- it on fail, and what stands before it, if anything does, is a pass.
abbrev pub IsBrokenSince : List Outcome → String → Type 0
IsBrokenSince series run =
    (start : ℕ) × (get_elem? series start ≡ some (run, false))
    × (all_fail (drop start series) ≡ true)
    × ((start ≡ 0) ⊎ ((before : ℕ) × (start ≡ before + 1) × (passed_at series before ≡ true)))

-- A crossing gives a run since which the installer is broken.
pub crossed_at-IsBrokenSince :
    (series : List Outcome) (i : ℕ)
    → (cusum before_first series).crossed_at ≡ some i
    → (run : String) × (broken_since_of series (some i) ≡ some run) × IsBrokenSince series run
unfolding broken_since_of
crossed_at-IsBrokenSince series i crossed = elim (cusum-IsCrossing before_first series i crossed) [
  | inl (e, fails) ↦ absurd (cc e)
  | inr (from, below, fails) ↦
      let (upto, streak, edge) = streak_start-IsStreak series i in
      let start = streak_start series i in
      let whole : i - 0 ≡ start + (i - start) = omega arith in
      let back : all_fail (drop start series) ≡ true =
        all_fail-back series start (i - start) (λ j p q. streak j p (omega arith))
          (subst (λ n. all_fail (drop n series) ≡ true) whole fails) in
      let (run, found) = entry_at series start (omega arith) back in
      (run, ap (map_option (λ o. o.0)) found, (start, found, back, edge))
]

broken_since_of-IsBrokenSince :
    (series : List Outcome) (o : Option ℕ) (run : String)
    → (cusum before_first series).crossed_at ≡ o
    → broken_since_of series o ≡ some run
    → IsBrokenSince series run
unfolding broken_since_of
broken_since_of-IsBrokenSince series none run crossed h = absurd (cc h)
broken_since_of-IsBrokenSince series (some i) run crossed h =
    let (named, found, broken) = crossed_at-IsBrokenSince series i crossed in
    let same : named ≡ run = cc (found, h) in subst (IsBrokenSince series) same broken

-- An installer that is reported as broken since a run failed in it and in every later run of the series,
-- and had passed just before, or the series begins there.
pub assess_outcomes-IsBrokenSince :
    (series : List Outcome) (run : String)
    → (assess_outcomes series).broken_since ≡ some run
    → IsBrokenSince series run
unfolding assess_outcomes
assess_outcomes-IsBrokenSince series run h = broken_since_of-IsBrokenSince series _ run refl h
