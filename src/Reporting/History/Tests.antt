-- ===== src/Reporting/History/Tests.antt =====
-- The assessment at concrete outcomes, `p` a pass and `f` a failure.
use automated_flywheel_setup.Base.{◌≡◌, refl, true, false, some, List, [], ◌∷◌}
use automated_flywheel_setup.Reporting.History.{Outcome, assess_outcomes, round, streak_start}
use automated_flywheel_setup.Reporting.History.Broken.{IsBrokenSince, assess_outcomes-IsBrokenSince}

abbrev broken : List Outcome
broken = ("1", true) ∷ ("2", false) ∷ ("3", false) ∷ ("4", false) ∷ []

abbrev flaky : List Outcome
flaky = ("1", true) ∷ ("2", false) ∷ ("3", true) ∷ ("4", false) ∷ ("5", true) ∷ []

since_2 : (assess_outcomes broken).broken_since ≡ some "2"
unfolding assess_outcomes round streak_start
since_2 = refl

flaky_is_flaky : (assess_outcomes flaky).flaky ≡ true
unfolding assess_outcomes round streak_start
flaky_is_flaky = refl

assess_outcomes-IsBrokenSince_example : IsBrokenSince broken "2"
unfolding assess_outcomes round streak_start
assess_outcomes-IsBrokenSince_example = assess_outcomes-IsBrokenSince broken "2" refl
