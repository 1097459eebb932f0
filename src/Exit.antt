-- ===== src/Exit.antt =====
-- src/error.rs: the errors of the commands, their exit codes, and which of them are printed.
use automated_flywheel_setup.Base.{ℕ, String, Bool, true, false}

pub data Signal : Type 0 where
  interrupt terminate : Signal

-- `AfscError`; an `anyhow::Error` is its text.
pub data AfscError : Type 0 where
  usage : String → AfscError
  config : String → AfscError
  infra : String → AfscError
  installer_failures : (failed total : ℕ) → AfscError
  validation_drift : String → AfscError
  checksums_invalid : String → AfscError
  interrupted : Signal → AfscError
  other : String → AfscError

unfoldable pub exit_code : AfscError → ℕ
exit_code (usage _) = 2
exit_code (config _) = 2
exit_code (checksums_invalid _) = 2
exit_code (infra _) = 3
exit_code (installer_failures _ _) = 1
exit_code (validation_drift _) = 4
exit_code (interrupted interrupt) = 130
exit_code (interrupted terminate) = 143
exit_code (other _) = 1

unfoldable pub is_silent : AfscError → Bool
is_silent (installer_failures _ _) = true
is_silent (validation_drift _) = true
is_silent (checksums_invalid _) = true
is_silent _ = false
