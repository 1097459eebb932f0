-- ===== src/Classifier/Categories.antt =====
-- src/parser/classifier.rs: which categories the classifier can produce.
use automated_flywheel_setup.Base.{String, ◌≡◌, refl, ◌↔◌, true, none, arith, has_text, eq_iff}
use automated_flywheel_setup.Base.Int.{ℤ}
use automated_flywheel_setup.Classifier.{ErrorClassification, categories, Engine}
use automated_flywheel_setup.Classifier.Rules.{
  Rule, classification, first_rule, classify_error, unclassified,
}

-- A suggestion is missing exactly for the category of last resort.
abbrev pub IsCoherent : ErrorClassification → Type 0
IsCoherent c =
    (has_text categories c.category ≡ true)
    × ((c.suggestion ≡ none) ↔ (c.category ≡ "unknown"))
    × ((c.confidence ≡ 0) ↔ (c.category ≡ "unknown"))

classification-IsCoherent : (r : Rule) → IsCoherent (classification r)
classification-IsCoherent unclassified = (refl, (λ _. refl, λ _. refl), (λ _. refl, λ _. refl))
classification-IsCoherent _ = (
  refl,
  (λ e. cc, λ e. cc ((eq_iff _ "unknown").1 e)),
  (λ e. absurd (omega (arith, e)), λ e. cc ((eq_iff _ "unknown").1 e)),
)

-- The classification of every text and exit code has a category of `CATEGORIES`; it has no
-- suggestion exactly if the category is "unknown", and confidence 0 exactly then.
classify_error-IsCoherent :
    (e : Engine) (stderr : String) (exit_code : ℤ) → IsCoherent (classify_error e stderr exit_code)
unfolding classify_error
classify_error-IsCoherent e stderr exit_code =
    classification-IsCoherent (first_rule e stderr exit_code)
