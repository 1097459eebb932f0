-- ===== src/Reporting/History/Flaky.antt =====
-- src/reporting/history.rs: when an installer is reported as broken, and when as flaky.
use automated_flywheel_setup.Base.{
  ◌+◌, ◌-◌, ◌*◌, ◌≤◌, ◌<◌, String, ◌≡◌, ◌↔◌, refl, ap, ◌∙◌, Bool, true, false, none, List, [], ◌∷◌,
  ◌++◌, length, count_by, any, is_some, arith, Option-cases, inl, inr,
}
use automated_flywheel_setup.Reporting.History.{
  Outcome, Cusum, round, cusum, before_first, broken_since_of, assess_outcomes, interleaved,
}
use automated_flywheel_setup.Reporting.History.Broken.{crossed_at-IsBrokenSince}

cusum-append : (c : Cusum) (xs ys : List Outcome) → cusum c (xs ++ ys) ≡ cusum (cusum c xs) ys
unfolding cusum
cusum-append c [] ys = refl
cusum-append c (x ∷ xs) ys = cusum-append (round c x) xs ys

three_failures :
    (c : Cusum) (a b d : String)
    → is_some (round (round (round c (a, false)) (b, false)) (d, false)).crossed_at ≡ true
unfolding round
three_failures c a b d = ground arith

pass_restarts : (c : Cusum) (a : String) → (round c (a, true)).crossed_at ≡ none
unfolding round
pass_restarts c a = ground arith

abbrev failing_end : String → String → String → List Outcome
failing_end a b d = (a, false) ∷ (b, false) ∷ (d, false) ∷ []

-- Whatever came before, three failures at the end are reported as broken.
assess_outcomes-failing_end :
    (series : List Outcome) (a b d : String)
    → is_some (assess_outcomes (series ++ (a, false) ∷ (b, false) ∷ (d, false) ∷ [])).broken_since
      ≡ true
unfolding assess_outcomes cusum
assess_outcomes-failing_end series a b d =
    let whole = series ++ failing_end a b d in
    let crossed : is_some (cusum before_first whole).crossed_at ≡ true =
      ap (λ c. is_some c.crossed_at) (cusum-append before_first series (failing_end a b d))
      ∙ three_failures (cusum before_first series) a b d in
    elim (Option-cases (cusum before_first whole).crossed_at) [
      | inl nothing ↦ absurd (cc (crossed, ap is_some nothing))
      | inr (i, found) ↦
          let (run, named, broken) = crossed_at-IsBrokenSince whole i found in
          ap (λ o. is_some (broken_since_of whole o)) found ∙ ap is_some named
    ]

-- Whatever came before, an installer that passed in the last run is not reported as broken.
assess_outcomes-passing_end :
    (series : List Outcome) (a : String)
    → (assess_outcomes (series ++ (a, true) ∷ [])).broken_since ≡ none
unfolding assess_outcomes cusum broken_since_of
assess_outcomes-passing_end series a =
    let whole = series ++ (a, true) ∷ [] in
    let restarted : (cusum before_first whole).crossed_at ≡ none =
      ap (λ c. c.crossed_at) (cusum-append before_first series ((a, true) ∷ []))
      ∙ pass_restarts (cusum before_first series) a in
    ap (broken_since_of whole) restarted

-- A failure that a pass follows, somewhere in the outcomes.
abbrev pub IsIntermittent : List Outcome → Type 0
IsIntermittent series =
    (before between after : List Outcome) × (failed passed : String) × (series
      ≡ before ++ (failed, false) ∷ (between ++ (passed, true) ∷ after))

has_pass : List Outcome → Bool
has_pass series = any (λ o. o.1) series

pass-split :
    (series : List Outcome)
    → has_pass series ≡ true
    → (between after : List Outcome) × (passed : String) × (series
        ≡ between ++ (passed, true) ∷ after)
unfolding has_pass
pass-split [] h = absurd (cc h)
pass-split ((run, true) ∷ series) h = ([], series, run, refl)
pass-split ((run, false) ∷ series) h =
    let (between, after, passed, e) = pass-split series h in
    ((run, false) ∷ between, after, passed, ap (◌∷◌ (run, false)) e)

pass-append :
    (between after : List Outcome) (passed : String)
    → has_pass (between ++ (passed, true) ∷ after) ≡ true
unfolding has_pass
pass-append [] after passed = refl
pass-append ((run, true) ∷ between) after passed = refl
pass-append ((run, false) ∷ between) after passed = pass-append between after passed

pass-right : (xs ys : List Outcome) → has_pass ys ≡ true → has_pass (xs ++ ys) ≡ true
unfolding has_pass
pass-right [] ys h = h
pass-right ((run, true) ∷ xs) ys h = refl
pass-right ((run, false) ∷ xs) ys h = pass-right xs ys h

interleaved-IsIntermittent :
    (series : List Outcome) → interleaved series ≡ true → IsIntermittent series
unfolding interleaved has_pass
interleaved-IsIntermittent [] h = absurd (cc h)
interleaved-IsIntermittent ((run, true) ∷ series) h =
    let (before, between, after, failed, passed, e) = interleaved-IsIntermittent series h in
    ((run, true) ∷ before, between, after, failed, passed, ap (◌∷◌ (run, true)) e)
interleaved-IsIntermittent ((run, false) ∷ series) h =
    let (between, after, passed, e) = pass-split series h in
    ([], between, after, run, passed, ap (◌∷◌ (run, false)) e)

interleaved-append :
    (before between after : List Outcome) (failed passed : String)
    → interleaved (before ++ (failed, false) ∷ (between ++ (passed, true) ∷ after)) ≡ true
unfolding interleaved has_pass
interleaved-append [] between after failed passed = pass-append between after passed
interleaved-append ((run, true) ∷ before) between after failed passed =
    interleaved-append before between after failed passed
interleaved-append ((run, false) ∷ before) between after failed passed =
    pass-right before ((failed, false) ∷ (between ++ (passed, true) ∷ after))
      (pass-append between after passed)

-- An installer is reported as flaky exactly if it is not reported as broken, has at least five outcomes
-- and two failures, passed at some point after a failure, and (passes + 1) / (outcomes + 2) is below 0.9.
assess_outcomes-flaky_iff :
    (series : List Outcome)
    → ((assess_outcomes series).flaky ≡ true) ↔ (
        ((assess_outcomes series).broken_since ≡ none)
        × (5 ≤ length series)
        × (2 ≤ length series - count_by (λ o. o.1) series)
        × IsIntermittent series
        × (10 * (count_by (λ o. o.1) series + 1) < 9 * (length series + 2)))
unfolding assess_outcomes
assess_outcomes-flaky_iff series = (
  λ h. (
    ground arith,
    ground arith,
    ground arith,
    interleaved-IsIntermittent series (ground arith),
    ground arith,
  ),
  λ h.
      let (sound, enough, twice, (before, between, after, failed, passed, e), low) = h in
      let mixed : interleaved series ≡ true =
        ap interleaved e ∙ interleaved-append before between after failed passed in
      ground arith,
)
