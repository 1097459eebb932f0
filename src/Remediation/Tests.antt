-- ===== src/Remediation/Tests.antt =====
-- Tests of the safety check, and the theorems on it at concrete commands.
use text.Mathlib.Text.{find?}
use automated_flywheel_setup.Base.{◌≡◌, refl, true, is_some, contains}
use automated_flywheel_setup.Classifier.{Engine}
use automated_flywheel_setup.Remediation.Safety.{
  critical_patterns, high_risk_patterns, is_command_safe, critical, medium, first_hit,
}

-- An engine that looks for the pattern itself.
abbrev plain_engine : Engine
plain_engine = record {
  compiles = λ p. true;
  is_match = λ p t. is_some (find? t p);
  find = λ p t. find? t p;
  is_match-find = λ p t. refl;
}

format_disk : (is_command_safe plain_engine "sudo mkfs /dev/sda").risk_level ≡ critical
unfolding is_command_safe first_hit critical_patterns
format_disk = refl

install : (is_command_safe plain_engine "sudo apt install vim").risk_level ≡ medium
unfolding is_command_safe first_hit critical_patterns high_risk_patterns contains
install = refl
