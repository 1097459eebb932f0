-- ===== src/Classifier/Tests.antt =====
-- Tests of the classifier, and its theorems at concrete texts. The engine of the tests looks for the
-- pattern's text behind `(?i)`.
use Prim.Native.String.{len, slice}
use text.Mathlib.Text.{find?}
use automated_flywheel_setup.Base.{String, ◌≡◌, refl, ◌↔◌, ◌⊎◌, true, is_some, contains}
use automated_flywheel_setup.Base.Int.{pos}
use automated_flywheel_setup.Classifier.{Engine, matches}
use automated_flywheel_setup.Classifier.Patterns.{
  timeout_patterns, bootstrap_patterns, checksum_patterns, network_patterns, apt_lock_patterns,
}
use automated_flywheel_setup.Classifier.Rules.{classify_error}
use automated_flywheel_setup.Classifier.Retryable.{IsFinal, classify_error-retryable_iff}

abbrev pub literal_engine : Engine
literal_engine = record {
  compiles = λ p. true;
  is_match = λ p t. is_some (find? t (slice p 4 (len p)));
  find = λ p t. find? t (slice p 4 (len p));
  is_match-find = λ p t. refl;
}

abbrev refused : String
refused = "curl: (7) Failed to connect: connection refused"

abbrev not_found : String
not_found = "bash: jq: command not found"

refused_is_network : (classify_error literal_engine refused (pos 7)).category ≡ "network"
unfolding classify_error contains matches timeout_patterns bootstrap_patterns checksum_patterns
    apt_lock_patterns network_patterns
refused_is_network = refl

classify_error-retryable_iff_example :
    ((classify_error literal_engine refused (pos 7)).retryable ≡ true) ↔ (
      (¬ IsFinal literal_engine refused)
      × ((matches literal_engine apt_lock_patterns refused ≡ true)
          ⊎ (matches literal_engine network_patterns refused ≡ true)))
classify_error-retryable_iff_example = classify_error-retryable_iff literal_engine refused (pos 7)
