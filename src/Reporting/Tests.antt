-- ===== src/Reporting/Tests.antt =====
-- The summary's theorem at two results, and a replacer that knows GitHub tokens by their first letters.
use automated_flywheel_setup.Runner.Installer.{TestResult, new, passed, cancelled}
use automated_flywheel_setup.Base.{
  List, [], ◌∷◌, String, ◌≡◌, refl, true, false, contains, if◌then◌else◌,
}
use automated_flywheel_setup.Reporting.Redact.{Replacer}

abbrev pub marked : String → String → String
marked text marker = if contains text "ghp_" then marker else text

pub marked-none : (text marker : String) → contains text "ghp_" ≡ false → marked text marker ≡ text
marked-none text marker h = rw h refl

abbrev pub token_replacer : Replacer
token_replacer = record {
  compiles = λ p. true;
  is_match = λ p text. contains text "ghp_";
  replace_all = λ p text marker. marked text marker;
  replace_value = λ p text marker. marked text marker;
  replace_all-no_match = λ p text marker h. marked-none text marker h;
  replace_value-no_match = λ p text marker h. marked-none text marker h;
}

abbrev two_results : List TestResult
two_results =
    record (new "a" 5) { status = passed } ∷ record (new "b" 5) { status = cancelled } ∷ []
