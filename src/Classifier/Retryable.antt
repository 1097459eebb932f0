-- ===== src/Classifier/Retryable.antt =====
-- src/parser/classifier.rs: which failures may be retried.
use automated_flywheel_setup.Base.{String, ◌≡◌, ◌↔◌, ◌⊎◌, true, arith, contains}
use automated_flywheel_setup.Base.Int.{ℤ}
use automated_flywheel_setup.Classifier.{
  timeout_marker, cancelled_marker, post_install_marker, Engine, matches,
}
use automated_flywheel_setup.Classifier.Patterns.{
  timeout_patterns, bootstrap_patterns, checksum_patterns, network_patterns, apt_lock_patterns,
}
use automated_flywheel_setup.Classifier.Rules.{classify_error}

-- What the text must not hold: the runner's own markers and the signs of a wrong script.
abbrev pub IsFinal : Engine → String → Type 0
IsFinal e stderr =
    (contains stderr cancelled_marker ≡ true)
    ⊎ (contains stderr timeout_marker ≡ true)
    ⊎ (contains stderr post_install_marker ≡ true)
    ⊎ (matches e timeout_patterns stderr ≡ true)
    ⊎ (matches e bootstrap_patterns stderr ≡ true)
    ⊎ (matches e checksum_patterns stderr ≡ true)

-- Whether a failure is retried depends on the text alone: it is exactly if an apt lock or a network
-- error shows, and neither a marker of the runner nor a checksum or bootstrap mismatch does.
pub classify_error-retryable_iff :
    (e : Engine) (stderr : String) (exit_code : ℤ)
    → ((classify_error e stderr exit_code).retryable ≡ true) ↔ (
        (¬ IsFinal e stderr)
        × ((matches e apt_lock_patterns stderr ≡ true)
            ⊎ (matches e network_patterns stderr ≡ true)))
unfolding classify_error
classify_error-retryable_iff e stderr exit_code = ground arith
